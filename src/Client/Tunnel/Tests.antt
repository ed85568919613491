-- ===== src/Client/Tunnel/Tests.antt =====
-- Runs of a port forward.
use whet.Base.{refl, true, false, ◌≡◌, ◌≤◌, ◌⊎◌}
use whet.Client.Tunnel.{
  Tunnel, answer_set, attaches, moves, set_channel, TunnelReach, here, next, opens, shakes, stores,
  registers, starts, open_channel, shake_hands, store_fields, start_writer, awaiting, shaking,
  receiving, ended, sending,
}
use whet.Client.Tunnel.Settled.{tunnel_settles, run_length, Continues, IsSettled}
use whet.Client.Tunnel.Outcomes.{tunnel_sends, early_failure_leaks}

-- The handshake has succeeded and both loops run.
abbrev forwarding : Tunnel
forwarding = record answer_set {
  handler = awaiting;
  reader = receiving;
  writer = sending;
  wg = 0;
  has_channel = true;
  has_conn = true;
  client_ready = true;
}

forwarding_reached : TunnelReach answer_set forwarding
unfolding open_channel shake_hands set_channel store_fields start_writer
forwarding_reached =
    next
      (next
        (next
          (next (next (next here (moves refl (attaches refl))) (moves refl (stores refl)))
            (moves refl (registers refl)))
          (moves refl (opens refl)))
        (moves refl (shakes refl)))
      (moves refl (starts refl refl))

tunnel_settles_example :
    (run_length forwarding_reached ≤ 9) × (Continues forwarding ⊎ IsSettled forwarding)
tunnel_settles_example = tunnel_settles forwarding forwarding_reached

tunnel_sends_example :
    ((forwarding.reader ≡ receiving) ⊎ (forwarding.reader ≡ ended))
    × (forwarding.closed ≡ false)
    × (forwarding.has_conn ≡ true)
tunnel_sends_example = tunnel_sends forwarding forwarding_reached refl

-- The channel opens before the fields are set.
abbrev early : Tunnel
early = record answer_set { reader = shaking; wg = 1 }

early_reached : TunnelReach answer_set early
unfolding open_channel
early_reached = next here (moves refl (opens refl))

early_failure_leaks_example :
    (u : Tunnel) × TunnelReach early u
    × ((u.closed ≡ true) × (u.conn_open ≡ true) × (u.peer_open ≡ true))
    × (¬ Continues u)
early_failure_leaks_example = early_failure_leaks early early_reached refl refl
