-- ===== src/FlowControl/Tests.antt =====
-- Flow control on a run in which a sender fills the buffer until it is blocked.
use whet.FlowControl.Bounds.{no_lost_wakeup, buffered_bound}
use whet.FlowControl.{
  Flow, release, send, check, max_buffer_size, waiting, idle, Reach, opened, max_buffered_amount,
  here, next, sends, checks, Phase,
}
use whet.Base.{
  ℕ, ◌*◌, ◌≤◌, false, ◌≡◌, true, arith, suc, refl, ◌+◌, ltb, zero, if◌then◌else◌, subst,
}

-- After `k` messages of the full size, that the transport has not taken.
abbrev filled : ℕ → Flow
filled k = record { phase = idle; buffered = k * max_buffer_size; send_more = false }

fill : (k : ℕ) → k ≤ 64 → Reach opened (filled k)
unfolding send check
fill zero h = here
fill (suc k) h =
    let below : ltb max_buffered_amount (k * max_buffer_size + max_buffer_size) ≡ false =
      ground arith in
    let count : suc k * max_buffer_size ≡ k * max_buffer_size + max_buffer_size = omega arith in
    let stays : (if ltb max_buffered_amount (k * max_buffer_size + max_buffer_size)
          then waiting
          else idle)
        ≡ idle =
      rw below in
    let sent : Reach opened (send max_buffer_size (filled k)) =
      next (fill k (omega arith)) (sends max_buffer_size refl (omega arith)) in
    let checked : Reach opened (check (send max_buffer_size (filled k))) =
      next sent (checks refl) in
    subst
      (λ (p : Phase).
        Reach opened (record { phase = p; buffered = suc k * max_buffer_size; send_more = false }))
      stays (rw count checked)

abbrev full : Flow
full = record { phase = waiting; buffered = 65 * max_buffer_size; send_more = false }

full_reached : Reach opened full
unfolding send check
full_reached =
    next (next (fill 64 (omega arith)) (sends max_buffer_size refl (omega arith))) (checks refl)

buffered_bound_example : 65 * max_buffer_size ≤ max_buffered_amount + 2 * max_buffer_size
buffered_bound_example = buffered_bound full full_reached

no_lost_wakeup_example : (release (40 * max_buffer_size) full).send_more ≡ true
no_lost_wakeup_example =
    no_lost_wakeup full (40 * max_buffer_size) full_reached refl (omega arith) (omega arith)
