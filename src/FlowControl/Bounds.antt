-- ===== src/FlowControl/Bounds.antt =====
-- The bound on the buffered amount, and that no wake-up is lost.
use whet.Base.{ℕ, suc, ◌+◌, ◌-◌, ◌≤◌, ◌≡◌, refl, Bool, true, false, arith, ◌*◌}
use whet.FlowControl.{
  buffered_amount_low_threshold, max_buffered_amount, max_buffer_size, Phase, idle, checking,
  waiting, Flow, opened, send, check, wake, release, Step, sends, checks, tests, wakes, releases,
  Reach, here, next,
}

-- The most that the buffer holds in each phase, with and without a token in the channel.
abbrev most : Phase → Bool → ℕ
most idle true = max_buffered_amount
most idle false = max_buffered_amount + max_buffer_size
most checking true = max_buffered_amount + max_buffer_size
most checking false = max_buffered_amount + max_buffer_size + max_buffer_size
most waiting true = max_buffered_amount + max_buffer_size
most waiting false = max_buffered_amount + max_buffer_size + max_buffer_size

-- The least that the buffer holds: a blocked sender without a token has the threshold to be crossed.
abbrev least : Phase → Bool → ℕ
least waiting false = suc buffered_amount_low_threshold
least _ _ = 0

record IsBounded (s : Flow) : Type 0 where
  above : s.buffered ≤ most s.phase s.send_more
  below : least s.phase s.send_more ≤ s.buffered

Step-IsBounded : {s t : Flow} → Step s t → IsBounded s → IsBounded t
unfolding send check wake release
Step-IsBounded (sends n e h) b = ground arith
Step-IsBounded (checks e) b = ground arith
Step-IsBounded (tests e) b = ground arith
Step-IsBounded (wakes e k) b = ground arith
Step-IsBounded {s} (releases n h) b = ground arith

Reach-IsBounded : {s t : Flow} → IsBounded s → Reach s t → IsBounded t
Reach-IsBounded b here = b
Reach-IsBounded b (next r st) = Step-IsBounded st (Reach-IsBounded b r)

most-le : (p : Phase) (k : Bool) → most p k ≤ max_buffered_amount + 2 * max_buffer_size
most-le idle true = omega arith
most-le idle false = omega arith
most-le checking true = omega arith
most-le checking false = omega arith
most-le waiting true = omega arith
most-le waiting false = omega arith

-- However sends, callbacks and wake-ups interleave, the buffered amount of an opened channel never
-- passes `MaxBufferedAmount` by more than two messages.
pub buffered_bound :
    (s : Flow) → Reach opened s → s.buffered ≤ max_buffered_amount + 2 * max_buffer_size
buffered_bound s r =
    let b = Reach-IsBounded (record { above = omega arith; below = omega arith }) r in
    omega (arith, b.above, most-le s.phase s.send_more)

-- No wake-up is lost: a sender that is blocked has its token, or gets it as soon as the transport has
-- brought the buffered amount to the threshold or below.
pub no_lost_wakeup :
    (s : Flow) (n : ℕ)
    → Reach opened s
    → s.phase ≡ waiting
    → n ≤ s.buffered
    → s.buffered - n ≤ buffered_amount_low_threshold
    → (release n s).send_more ≡ true
unfolding release
no_lost_wakeup s n r e h low =
    let b = Reach-IsBounded (record { above = omega arith; below = omega arith }) r in
    ground (arith, b.below)

-- A blocked sender can always go on: from any reachable state in which it waits, steps of the
-- transport and its own receive lead to a state in which it is free, with nothing dropped by it.
blocked_resumes :
    (s : Flow) → Reach opened s → s.phase ≡ waiting → (t : Flow) × Reach s t × (t.phase ≡ idle)
unfolding wake release
blocked_resumes s r e =
    let full : s.buffered ≤ s.buffered = omega arith in
    let empty : s.buffered - s.buffered ≤ buffered_amount_low_threshold = omega arith in
    (
      wake (release s.buffered s),
      next (next here (releases s.buffered full))
          (wakes e (no_lost_wakeup s s.buffered r e full empty)),
      refl,
    )
