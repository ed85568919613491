-- ===== src/Client/Tunnel/Settled.antt =====
-- How long the goroutines of a port forward run, and how they end.
use whet.Base.{ℕ, ◌≡◌, ◌+◌, ◌≤◌, suc, refl, inl, inr, ◌⊎◌, true, false, arith, Bool-cases}
use whet.Client.Tunnel.{
  Handler, answered, attached, panicked, set_channel, TunnelMove, attaches, moves, stored, awaiting,
  left, Reader, unopened, undetached, shaking, refused, receiving, ended, Writer, absent, held,
  sending, signalling, returned, Tunnel, answer_set, open_channel, shake_hands, refuse,
  store_fields, start_writer, hang_up, drop_tunnel, leave, TunnelStep, opens, opens_badly, shakes,
  refuses, ends, stores, registers, starts, hangs_up, drops, leaves, TunnelReach, here, next,
  is_panicked,
}
use whet.Client.Tunnel.Kept.{IsKept, answer_set-IsKept}

-- The steps that each goroutine can still make. The function's last step is made with the sender's.
abbrev pub left_reader : Reader → ℕ
left_reader unopened = 3
left_reader undetached = 0
left_reader shaking = 2
left_reader refused = 0
left_reader panicked = 0
left_reader receiving = 1
left_reader ended = 0

abbrev pub left_handler : Handler → ℕ
left_handler answered = 3
left_handler attached = 2
left_handler stored = 1
left_handler awaiting = 0
left_handler left = 0

abbrev pub left_writer : Writer → ℕ
left_writer absent = 3
left_writer held = 3
left_writer sending = 2
left_writer signalling = 1
left_writer returned = 0

abbrev pub steps_left : Tunnel → ℕ
steps_left t = left_reader t.reader + left_handler t.handler + left_writer t.writer

abbrev pub run_length : {t u : Tunnel} → TunnelReach t u → ℕ
run_length here = 0
run_length (next r st) = suc (run_length r)

TunnelMove-steps_left : {t u : Tunnel} → TunnelMove t u → IsKept t → steps_left u + 1 ≤ steps_left t
unfolding open_channel shake_hands refuse set_channel store_fields start_writer hang_up drop_tunnel
    leave
TunnelMove-steps_left (opens e) k = ground (arith, e)
TunnelMove-steps_left (opens_badly e) k = ground (arith, e)
TunnelMove-steps_left (shakes e) k = ground (arith, e)
TunnelMove-steps_left (refuses e) k = ground (arith, e)
TunnelMove-steps_left (ends e) k = ground (arith, e)
TunnelMove-steps_left (attaches e) k = ground (arith, e)
TunnelMove-steps_left (stores e) k = ground (arith, e)
TunnelMove-steps_left (registers e) k = ground (arith, e, k.started)
TunnelMove-steps_left (starts e h) k = ground (arith, e)
TunnelMove-steps_left (hangs_up e) k = ground (arith, e)
TunnelMove-steps_left (drops e) k = ground (arith, e)
TunnelMove-steps_left (leaves e h) k = ground (arith, e, h)

TunnelStep-steps_left : {t u : Tunnel} → TunnelStep t u → IsKept t → steps_left u + 1 ≤ steps_left t
TunnelStep-steps_left (moves c m) k = TunnelMove-steps_left m k

run_length-steps_left :
    (t : Tunnel) (r : TunnelReach answer_set t) → run_length r + steps_left t ≤ 9
run_length-steps_left t here = omega arith
run_length-steps_left t (next r st) =
    omega (arith, run_length-steps_left _ r, TunnelStep-steps_left st (answer_set-IsKept _ r))

-- Where the goroutines come to rest: the function has returned and released the TCP connection and the
-- peer; or the handshake has failed, or the channel was not detached, and then the function and the
-- sending goroutine wait for ever with the peer open; or the process has ended in a panic.
abbrev pub IsSettled : Tunnel → Type 0
IsSettled t =
    (t.reader ≡ panicked)
    ⊎ (((t.handler ≡ left) × (t.reader ≡ ended) × (t.conn_open ≡ false) × (t.peer_open ≡ false))
        ⊎ ((t.handler ≡ awaiting)
            × (t.writer ≡ held)
            × (t.peer_open ≡ true)
            × ((t.reader ≡ refused) ⊎ ((t.reader ≡ undetached) × (t.conn_open ≡ true)))))

abbrev pub Continues : Tunnel → Type 0
Continues t = (u : Tunnel) × TunnelStep t u

settles :
    (t : Tunnel) (h : Handler) (r : Reader) (w : Writer)
    → IsKept t
    → is_panicked t.reader ≡ false
    → t.handler ≡ h
    → t.reader ≡ r
    → t.writer ≡ w
    → Continues t ⊎ IsSettled t
settles t h panicked w k c e f g = inr (inl f)
settles t answered r w k c e f g = inl (_, moves c (attaches e))
settles t attached r w k c e f g = inl (_, moves c (stores e))
settles t stored r w k c e f g = inl (_, moves c (registers e))
settles t h unopened w k c e f g = inl (_, moves c (opens f))
settles t h shaking w k c e f g = inl (_, moves c (shakes f))
settles t h receiving w k c e f g = inl (_, moves c (ends f))
settles t h r sending k c e f g = inl (_, moves c (hangs_up g))
settles t awaiting r signalling k c e f g = inl (_, moves c (leaves e g))
settles t left undetached w k c e f g = absurd (ground (arith, k.together, k.begun, k.group, e, f))
settles t left refused w k c e f g = absurd (ground (arith, k.together, k.begun, k.group, e, f))
settles t left ended w k c e f g =
    let gone = k.released (ground (arith, e)) in inr (inr (inl (e, f, gone.0, gone.1)))
settles t awaiting r absent k c e f g = absurd (ground (arith, k.started, e, g))
settles t awaiting r returned k c e f g = absurd (ground (arith, k.together, e, g))
settles t awaiting ended held k c e f g = inl (_, moves c (starts g (ground (arith, k.group, f))))
settles t awaiting refused held k c e f g =
    inr (inr (inr (e, g, ground (arith, k.peer_kept, g), inl f)))
settles t awaiting undetached held k c e f g =
    inr (
      inr (inr (e, g, ground (arith, k.peer_kept, g), inr (f, ground (arith, k.why_closed, e, f)))))

panicked_reader :
    (t : Tunnel) (r : Reader) → t.reader ≡ r → is_panicked r ≡ true → t.reader ≡ panicked
panicked_reader t panicked e p = e
panicked_reader t unopened e p = absurd (ground (arith, p))
panicked_reader t undetached e p = absurd (ground (arith, p))
panicked_reader t shaking e p = absurd (ground (arith, p))
panicked_reader t refused e p = absurd (ground (arith, p))
panicked_reader t receiving e p = absurd (ground (arith, p))
panicked_reader t ended e p = absurd (ground (arith, p))

-- However the goroutines of a port forward interleave once the answer is set, a run takes at most nine
-- steps, and while they have not come to rest there is another step.
pub tunnel_settles :
    (t : Tunnel) (r : TunnelReach answer_set t) → (run_length r ≤ 9) × (Continues t ⊎ IsSettled t)
tunnel_settles t r =
    let more = elim (Bool-cases (is_panicked t.reader)) as (λ _. Continues t ⊎ IsSettled t) [
      | inl p ↦ inr (inl (panicked_reader t t.reader refl p))
      | inr c ↦ settles t t.handler t.reader t.writer (answer_set-IsKept t r) c refl refl refl
    ] in
    (omega (arith, run_length-steps_left t r), more)
