-- ===== src/Server/Session/Settled.antt =====
-- How long the goroutines of a data channel run, and how they end.
use whet.Server.Session.{
  Receiver, signalling, shaking, attaching, refusing, attach, signal, refuse_client, end_sender,
  Move, moves, signals, fails_first, attaches, refuses, failing, waiting, receiving, finished,
  Dialler, stored, done, Sender, absent, dialling, given_up, held, sending, returned, Session,
  opened, succeed, close_conn, fail, fail_again, proceed, stop_receiving, store_conn, connect,
  give_up, delete_session, Step, succeeds, fails, fails_again, proceeds, stops, dials, connects,
  gives_up, sends, returns, deletes, Reach, here, next,
}
use whet.Base.{refl, arith, inl, inr, true, false, ◌+◌, suc, Bool-cases}
use whet.Server.Session.Kept.{IsKept, has_begun, opened-IsKept, is_past_wait}
use whet.Base.{◌≡◌, ℕ, ◌≤◌, if◌then◌else◌, ◌⊎◌}

-- The steps that each goroutine, and the DELETE, can still make.
abbrev pub left_receiver : Receiver → ℕ
left_receiver signalling = 5
left_receiver shaking = 4
left_receiver failing = 3
left_receiver (waiting b) = 2
left_receiver (receiving b) = 1
left_receiver (finished b) = 0

abbrev pub left_dialler : Dialler → ℕ
left_dialler attaching = 3
left_dialler dialling = 2
left_dialler stored = 1
left_dialler done = 0
left_dialler refusing = 1
left_dialler given_up = 0

abbrev pub left_sender : Sender → ℕ
left_sender absent = 2
left_sender held = 2
left_sender sending = 1
left_sender returned = 0

abbrev pub left : Session → ℕ
left s =
    if s.crashed
    then 0
    else left_receiver s.receiver
      + left_dialler s.dialler
      + left_sender s.sender
      + (if s.registered then 1 else 0)

abbrev pub run_length : {s t : Session} → Reach s t → ℕ
run_length here = 0
run_length (next r st) = suc (run_length r)

-- The third goroutine is started when `connWg` is signalled.
Move-joins :
    {s t : Session} → Move s t → s.connected ≡ has_begun s.sender → t.connected ≡ has_begun t.sender
unfolding succeed close_conn fail fail_again proceed stop_receiving store_conn connect give_up
    delete_session attach signal refuse_client end_sender
Move-joins (signals e) j = ground arith
Move-joins (fails_first e) j = ground arith
Move-joins (succeeds e) j = ground arith
Move-joins (fails e) j = ground arith
Move-joins (fails_again e) j = ground arith
Move-joins (proceeds b e d) j = ground arith
Move-joins (stops b e) j = ground arith
Move-joins (attaches e) j = ground arith
Move-joins (dials e) j = ground arith
Move-joins (connects e) j = refl
Move-joins (refuses e) j = ground arith
Move-joins (gives_up e) j = ground arith
Move-joins (sends e d) j = ground arith
Move-joins (returns b e) j = ground arith
Move-joins (deletes e) j = ground arith

Step-joins :
    {s t : Session} → Step s t → s.connected ≡ has_begun s.sender → t.connected ≡ has_begun t.sender
Step-joins (moves c m) j = Move-joins m j

Reach-joins : (s : Session) → Reach opened s → s.connected ≡ has_begun s.sender
Reach-joins s here = refl
Reach-joins s (next r st) = Step-joins st (Reach-joins _ r)

-- Every step spends one of the steps that are left.
Move-left :
    {s t : Session}
    → Move s t
    → s.crashed ≡ false
    → s.connected ≡ has_begun s.sender
    → IsKept s
    → left t + 1 ≤ left s
unfolding succeed close_conn fail fail_again proceed stop_receiving store_conn connect give_up
    delete_session attach signal refuse_client end_sender
Move-left (signals e) c j k = ground (arith, e, c)
Move-left (fails_first e) c j k = ground (arith, e, c)
Move-left (succeeds e) c j k = ground (arith, e, c)
Move-left (fails e) c j k = ground (arith, e, c)
Move-left (fails_again e) c j k = ground (arith, e, c)
Move-left (proceeds b e d) c j k = ground (arith, e, c)
Move-left (stops b e) c j k = ground (arith, e, c)
Move-left (attaches e) c j k = ground (arith, e, c)
Move-left (dials e) c j k = ground (arith, e, c)
Move-left (connects e) c j k = ground (arith, e, c, j, k.joined)
Move-left (refuses e) c j k = ground (arith, e, c)
Move-left (gives_up e) c j k = ground (arith, e, c)
Move-left (sends e d) c j k = ground (arith, e, c)
Move-left (returns b e) c j k = ground (arith, e, c)
Move-left (deletes e) c j k = ground (arith, e, c)

Step-left :
    {s t : Session} → Step s t → s.connected ≡ has_begun s.sender → IsKept s → left t + 1 ≤ left s
Step-left (moves c m) j k = Move-left m c j k

run_length-left : (s : Session) (r : Reach opened s) → run_length r + left s ≤ 11
run_length-left s here = omega arith
run_length-left s (next r st) =
    omega (arith, run_length-left _ r, Step-left st (Reach-joins _ r) (opened-IsKept _ r))

-- Where the goroutines come to rest: the process has ended in a panic; or the connection is deleted and both loops have ended; or the handshake has failed, and the
-- sending goroutine waits for it for ever; or the target was not dialled, and the receiving one waits
-- for the socket for ever. Where the loops have ended or the handshake has failed the socket is closed,
-- and after a failed dial the peer is.
abbrev pub IsSettled : Session → Type 0
IsSettled s =
    (s.crashed ≡ true)
    ⊎ ((s.registered ≡ false)
        × (((s.receiver ≡ finished true) × (s.sender ≡ returned) × (s.socket_open ≡ false))
            ⊎ (((s.receiver ≡ finished false) × (s.sender ≡ held) × (s.socket_open ≡ false))
                ⊎ ((s.dialler ≡ given_up)
                    × (is_past_wait s.receiver ≡ false)
                    × (s.sender ≡ absent)))))

abbrev pub Continues : Session → Type 0
Continues s = (t : Session) × Step s t

settles :
    (s : Session) (r : Receiver) (d : Dialler) (n : Sender)
    → IsKept s
    → s.connected ≡ has_begun s.sender
    → s.crashed ≡ false
    → s.receiver ≡ r
    → s.dialler ≡ d
    → s.sender ≡ n
    → s.registered ≡ false
    → Continues s ⊎ IsSettled s
settles s signalling d n k j c e f g h = inl (_, moves c (signals e))
settles s shaking d n k j c e f g h = inl (_, moves c (succeeds e))
settles s failing d n k j c e f g h = inl (_, moves c (fails_again e))
settles s (receiving b) d n k j c e f g h = inl (_, moves c (stops b e))
settles s (waiting b) attaching n k j c e f g h = inl (_, moves c (attaches f))
settles s (waiting b) dialling n k j c e f g h = inl (_, moves c (dials f))
settles s (waiting b) stored n k j c e f g h = inl (_, moves c (connects f))
settles s (waiting b) refusing n k j c e f g h = inl (_, moves c (gives_up f))
settles s (waiting b) done n k j c e f g h =
    inl (_, moves c (proceeds b e (ground (arith, k.joined, f))))
settles s (waiting b) given_up n k j c e f g h =
    inr (inr (h, inr (inr (f, ground (arith, e), ground (arith, k.joined, j, f)))))
settles s (finished b) d absent k j c e f g h = absurd (ground (arith, k.past, j, e, g))
settles s (finished b) d sending k j c e f g h = inl (_, moves c (returns true g))
settles s (finished true) d held k j c e f g h =
    inl (_, moves c (sends g (ground (arith, k.group, k.ready, e))))
settles s (finished true) d returned k j c e f g h =
    inr (inr (h, inl (e, g, ground (arith, k.released, e))))
settles s (finished false) d held k j c e f g h =
    inr (inr (h, inr (inl (e, g, ground (arith, k.released, e)))))
settles s (finished false) d returned k j c e f g h =
    absurd (ground (arith, k.sent, k.group, k.ready, e, g))

-- However the goroutines of a channel and the DELETE interleave, a run takes at most eleven steps, and
-- while they have not come to rest there is another step.
pub session_settles :
    (s : Session) (r : Reach opened s) → (run_length r ≤ 11) × (Continues s ⊎ IsSettled s)
session_settles s r =
    let k = opened-IsKept s r in
    let rests = λ (c : s.crashed ≡ false).
      elim (Bool-cases s.registered) as (λ _. Continues s ⊎ IsSettled s) [
        | inl e ↦ inl (_, moves c (deletes e))
        | inr e ↦ settles s s.receiver s.dialler s.sender k (Reach-joins s r) c refl refl refl e
      ] in
    let more = elim (Bool-cases s.crashed) as (λ _. Continues s ⊎ IsSettled s) [
      | inl c ↦ inr (inl c)
      | inr c ↦ rests c
    ] in
    (omega (arith, run_length-left s r), more)
