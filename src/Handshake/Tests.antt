-- ===== src/Handshake/Tests.antt =====
-- The handshake at concrete channels.
use whet.Handshake.{ready_message}
use whet.Handshake.Protocol.{
  Session, Reach, refused, waiting, starting, opening, never_refused, next, here, dialling,
  server_signals, client_reads,
}
use whet.Base.{◌≢◌, arith, bytes_eq, [], refl}

-- The server has signalled, and the client has read the signal.
abbrev halfway : Session
halfway = record {
  server = waiting;
  client = starting;
  to_client = [];
  to_server = [];
  dial = dialling;
}

halfway_reached : Reach opening halfway
unfolding bytes_eq
halfway_reached = next (next here (server_signals refl)) (client_reads ready_message [] refl refl)

never_refused_example : (halfway.server ≢ refused) × (halfway.client ≢ refused)
never_refused_example = never_refused halfway halfway_reached (λ e. ground (arith, e))
