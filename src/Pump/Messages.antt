-- ===== src/Pump/Messages.antt =====
-- The messages of a send over a live channel: none is empty, each fits a read, and together they are
-- the data.
use whet.FlowControl.{max_buffer_size}
use mathlib.Core.List.{flatten}
use whet.Transfer.Delivery.{Delivers, send_raw-Delivers}
use whet.Stream.Reading.{IsMessage}
use whet.Transfer.Progress.{Returns, IsLive, send_raw-Returns, send_raw-IsMessage, accepted_pos}
use whet.Transfer.{
  send_loop, send_raw, Sending, Outcome, done, slice, messages, failed, blocked, accepts, accepted,
  max_write, fails,
}
use whet.Base.{
  ℕ, Bytes, List, Bool, ◌≤◌, All, length, ◌≡◌, ◌<◌, ◌∷◌, arith, Bool-cases, length-take, drop, ltb,
  length-drop, inl, [], inr, ltb→lt, ◌+◌, ◌++◌, All-append, refl,
}

length-slice-pos :
    (sent k : ℕ) (bytes : Bytes) → 1 ≤ k → sent < length bytes → 1 ≤ length (slice sent k bytes)
length-slice-pos sent k bytes h l =
    omega (arith, length-take k (drop sent bytes), length-drop sent bytes)

IsFull : Bytes → Type 0
IsFull m = 1 ≤ length m

send_loop-IsFull :
    (detached : Bool) (bytes : Bytes) (sent : ℕ) (outs : List Outcome) (wire : List Bytes)
    → All IsLive outs
    → All IsFull wire
    → All IsFull (messages (send_loop detached bytes sent outs wire))
unfolding send_loop IsFull
send_loop-IsFull detached bytes sent [] wire l w = elim (Bool-cases (ltb sent (length bytes))) [
  | inl e ↦ rw e w
  | inr e ↦ rw e w
]
send_loop-IsFull detached bytes sent (fails ∷ outs) wire l w = absurd l.0
send_loop-IsFull detached bytes sent (accepts n ∷ outs) wire l w =
    elim (Bool-cases (ltb sent (length bytes))) [
      | inl e ↦
          let k = accepted detached n (max_write sent bytes) in
          let below = ltb→lt sent (length bytes) e in
          let full =
            length-slice-pos sent k bytes (accepted_pos detached n sent bytes l.0 below) below in
          rw e (
            send_loop-IsFull detached bytes (sent + k) outs (wire ++ slice sent k bytes ∷ []) l.1
              (All-append IsFull wire (slice sent k bytes ∷ []) w (full, tt)))
      | inr e ↦ rw e w
    ]

IsChunk : Bytes → Type 0
IsChunk m = length m ≤ max_buffer_size

All-both : (ms : List Bytes) → All IsFull ms → All IsChunk ms → All IsMessage ms
unfolding IsFull IsChunk
All-both [] f g = tt
All-both (m ∷ ms) f g = ((f.0, g.0), All-both ms f.1 g.1)

-- A send that has returned.
pub record Sent (bytes : Bytes) (s : Sending) : Type 0 where
  pub parts : List Bytes
  pub returns : s ≡ done parts
  pub whole : flatten parts ≡ bytes
  pub fit : All IsMessage parts

Returns-Sent :
    (bytes : Bytes) (s : Sending)
    → Returns s
    → Delivers bytes s
    → All IsMessage (messages s)
    → Sent bytes s
Returns-Sent bytes (done ms) r d f = record { parts = ms; returns = refl; whole = d; fit = f }
Returns-Sent bytes (failed ms) r d f = absurd r
Returns-Sent bytes (blocked ms) r d f = absurd r

pub send_raw-Sent :
    (detached : Bool) (b : ℕ) (bytes : Bytes) (outs : List Outcome)
    → All IsLive outs
    → length (b ∷ bytes) < length outs
    → Sent (b ∷ bytes) (send_raw detached (b ∷ bytes) outs)
unfolding send_raw IsChunk
send_raw-Sent detached b bytes outs l h =
    Returns-Sent (b ∷ bytes) (send_raw detached (b ∷ bytes) outs)
      (send_raw-Returns detached (b ∷ bytes) outs l h) (send_raw-Delivers detached (b ∷ bytes) outs)
      (All-both (messages (send_raw detached (b ∷ bytes) outs))
        (send_loop-IsFull detached (b ∷ bytes) 0 outs [] l tt)
        (send_raw-IsMessage detached (b ∷ bytes) outs))
