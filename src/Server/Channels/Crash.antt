-- ===== src/Server/Channels/Crash.antt =====
-- How many data channels a server survives.
use whet.Base.{
  List, ℕ, ◌∷◌, ◌≡◌, none, ◌↔◌, if◌then◌else◌, some, ◌≤◌, ◌<◌, ◌⊎◌, suc, [], arith, Bool, zero,
  false, true,
}
use whet.Server.Channels.{
  on_events, after_event, ChannelEvent, on_event, fresh_groups, wg_done, shakes, set_wg, dials,
  set_conn_wg,
}

-- How many handshakes have signalled, and how many targets were dialled.
abbrev pub signals : List ChannelEvent → ℕ
signals [] = 0
signals (shakes s ∷ es) = if s.signalled then suc (signals es) else signals es
signals (dials o ∷ es) = signals es

abbrev pub dialled : List ChannelEvent → ℕ
dialled [] = 0
dialled (shakes s ∷ es) = dialled es
dialled (dials none ∷ es) = dialled es
dialled (dials (some socket) ∷ es) = suc (dialled es)

signalled_at :
    (b : Bool) (w v n d : ℕ) (es : List ChannelEvent)
    → ((k : ℕ) → (on_events es (record { wg = k; conn_wg = v }) ≡ none) ↔ ((k < n) ⊎ (v < d)))
    → (after_event (on_events es) (
          if b
          then set_wg (record { wg = w; conn_wg = v }) (wg_done w)
          else some (record { wg = w; conn_wg = v }))
        ≡ none)
      ↔ ((w < (if b then suc n else n)) ⊎ (v < d))
unfolding after_event set_wg wg_done
signalled_at false w v n d es ih = ih w
signalled_at true zero v n d es ih = ground arith
signalled_at true (suc w) v n d es ih =
    let (f, g) = ih w in (λ e. ground (arith, f e), λ e. g (ground (arith, e)))

dialled_at :
    (w v n d : ℕ) (es : List ChannelEvent)
    → ((k : ℕ) → (on_events es (record { wg = w; conn_wg = k }) ≡ none) ↔ ((w < n) ⊎ (k < d)))
    → (after_event (on_events es) (set_conn_wg (record { wg = w; conn_wg = v }) (wg_done v)) ≡ none)
      ↔ ((w < n) ⊎ (v < suc d))
unfolding after_event set_conn_wg wg_done
dialled_at w zero n d es ih = ground arith
dialled_at w (suc v) n d es ih =
    let (f, g) = ih v in (λ e. ground (arith, f e), λ e. g (ground (arith, e)))

on_events-none :
    (es : List ChannelEvent) (w v : ℕ)
    → (on_events es (record { wg = w; conn_wg = v }) ≡ none) ↔ ((w < signals es) ⊎ (v < dialled es))
unfolding on_events on_event after_event
on_events-none [] w v = ground arith
on_events-none (shakes s ∷ es) w v =
    signalled_at s.signalled w v (signals es) (dialled es) es (λ k. on_events-none es k v)
on_events-none (dials none ∷ es) w v = on_events-none es w v
on_events-none (dials (some socket) ∷ es) w v =
    dialled_at w v (signals es) (dialled es) es (λ k. on_events-none es w k)

-- The server panics exactly if the client opens data channels on which two handshakes succeed, or for
-- which the target is dialled twice, in whatever order.
pub channels_crash :
    (es : List ChannelEvent)
    → (on_events es fresh_groups ≡ none) ↔ ((2 ≤ signals es) ⊎ (2 ≤ dialled es))
channels_crash es =
    let (f, g) = on_events-none es 1 1 in (λ e. ground (arith, f e), λ e. g (ground (arith, e)))
