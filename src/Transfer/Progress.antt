-- ===== src/Transfer/Progress.antt =====
-- How large the messages are, and that the sending loops return.
use Prim.Native.Nat.{min}
use whet.Base.{
  ℕ, Bool, ◌≤◌, List, All, length, ◌<◌, ◌+◌, Bool-cases, ◌++◌, arith, length-take, le→ltb, true,
  ◌∷◌, ltb, inl, drop, [], inr, ltb→lt, All-append, false, ◌-◌,
}
use whet.Transfer.{
  Outcome, accepts, fails, Sending, done, failed, blocked, messages, slice, accepted, max_write,
  send_loop, send_raw, Bytes, max_buffer_size, tcp_loop, send_data_tcp,
}

-- A message that fits a read of the other end.
abbrev pub IsMessage : Bytes → Type 0
IsMessage m = length m ≤ max_buffer_size

length-slice : (sent k : ℕ) (bytes : Bytes) → length (slice sent k bytes) ≤ k
length-slice sent k bytes = omega (arith, length-take k (drop sent bytes))

All-concat :
    (ms : List Bytes) (m : Bytes) → All IsMessage ms → IsMessage m → All IsMessage (ms ++ m ∷ [])
All-concat ms m h k = All-append IsMessage ms (m ∷ []) h (k, tt)

accepted-le :
    (detached : Bool) (n sent : ℕ) (bytes : Bytes)
    → accepted detached n (max_write sent bytes) ≤ max_buffer_size
accepted-le true n sent bytes = omega arith
accepted-le false n sent bytes = omega arith

send_loop-IsMessage :
    (detached : Bool) (bytes : Bytes) (sent : ℕ) (outs : List Outcome) (wire : List Bytes)
    → All IsMessage wire
    → All IsMessage (messages (send_loop detached bytes sent outs wire))
unfolding send_loop
send_loop-IsMessage detached bytes sent [] wire w = elim (Bool-cases (ltb sent (length bytes))) [
  | inl e ↦ rw e w
  | inr e ↦ rw e w
]
send_loop-IsMessage detached bytes sent (fails ∷ outs) wire w =
    elim (Bool-cases (ltb sent (length bytes))) [ inl e ↦ rw e w | inr e ↦ rw e w ]
send_loop-IsMessage detached bytes sent (accepts n ∷ outs) wire w =
    elim (Bool-cases (ltb sent (length bytes))) [
      | inl e ↦ rw e (
          send_loop-IsMessage detached bytes (sent + accepted detached n (max_write sent bytes))
            outs _
            (All-concat wire (slice sent (accepted detached n (max_write sent bytes)) bytes) w (
              omega (
                arith,
                length-slice sent (accepted detached n (max_write sent bytes)) bytes,
                accepted-le detached n sent bytes,
              ))))
      | inr e ↦ rw e w
    ]

-- No message on the data channel is larger than `maxBufferSize`.
pub send_raw-IsMessage :
    (detached : Bool) (bytes : Bytes) (outs : List Outcome)
    → All IsMessage (messages (send_raw detached bytes outs))
unfolding send_raw
send_raw-IsMessage detached [] [] = tt
send_raw-IsMessage detached [] (fails ∷ outs) = tt
send_raw-IsMessage detached [] (accepts n ∷ outs) =
    send_loop-IsMessage detached [] 0 outs ([] ∷ []) (omega arith, tt)
send_raw-IsMessage detached (b ∷ bytes) outs = send_loop-IsMessage detached (b ∷ bytes) 0 outs [] tt

-- The other end takes at least one byte of each call.
abbrev pub IsLive : Outcome → Type 0
IsLive (accepts n) = 1 ≤ n
IsLive fails = ⊥

-- The loop has returned without an error.
abbrev pub Returns : Sending → Type 0
Returns (done ms) = Unit
Returns (failed ms) = ⊥
Returns (blocked ms) = ⊥

pub accepted_pos :
    (detached : Bool) (n sent : ℕ) (bytes : Bytes)
    → 1 ≤ n
    → sent < length bytes
    → 1 ≤ accepted detached n (max_write sent bytes)
accepted_pos true n sent bytes h l = omega arith
accepted_pos false n sent bytes h l = omega arith

send_loop-Returns :
    (detached : Bool) (bytes : Bytes) (sent : ℕ) (outs : List Outcome) (wire : List Bytes)
    → All IsLive outs
    → length bytes ≤ sent + length outs
    → Returns (send_loop detached bytes sent outs wire)
unfolding send_loop
send_loop-Returns detached bytes sent [] wire l h = rw (le→ltb sent (length bytes) (omega arith)) tt
send_loop-Returns detached bytes sent (fails ∷ outs) wire l h = absurd l.0
send_loop-Returns detached bytes sent (accepts n ∷ outs) wire l h =
    elim (Bool-cases (ltb sent (length bytes))) [
      | inl e ↦ rw e (
          send_loop-Returns detached bytes (sent + accepted detached n (max_write sent bytes)) outs
            _ l.1
            (omega (arith, accepted_pos detached n sent bytes l.0 (ltb→lt sent (length bytes) e))))
      | inr e ↦ rw e tt
    ]

-- If the other end takes at least one byte of each call, `SendRawDataChannel` returns without an
-- error after at most one call more than the data has bytes.
pub send_raw-Returns :
    (detached : Bool) (bytes : Bytes) (outs : List Outcome)
    → All IsLive outs
    → length bytes < length outs
    → Returns (send_raw detached bytes outs)
unfolding send_raw
send_raw-Returns detached [] [] l h = absurd (omega arith)
send_raw-Returns detached [] (fails ∷ outs) l h = absurd l.0
send_raw-Returns detached [] (accepts n ∷ outs) l h =
    send_loop-Returns detached [] 0 outs ([] ∷ []) l.1 (omega arith)
send_raw-Returns detached (b ∷ bytes) outs l h =
    send_loop-Returns detached (b ∷ bytes) 0 outs [] l (omega arith)

tcp_loop-Returns :
    (bytes : Bytes) (sent : ℕ) (outs : List Outcome) (wire : List Bytes)
    → All IsLive outs
    → length bytes ≤ sent + length outs
    → Returns (tcp_loop bytes sent outs wire)
unfolding tcp_loop
tcp_loop-Returns bytes sent [] wire l h = rw (le→ltb sent (length bytes) (omega arith)) tt
tcp_loop-Returns bytes sent (fails ∷ outs) wire l h = absurd l.0
tcp_loop-Returns bytes sent (accepts n ∷ outs) wire l h =
    elim (Bool-cases (ltb sent (length bytes))) [
      | inl e ↦ rw e (
          tcp_loop-Returns bytes (sent + min n (length bytes - sent)) outs _ l.1
            (omega (arith, l.0, ltb→lt sent (length bytes) e)))
      | inr e ↦ rw e tt
    ]

-- The same of `SendDataTCP`, with a call for each byte at most.
pub send_data_tcp-Returns :
    (bytes : Bytes) (outs : List Outcome)
    → All IsLive outs
    → length bytes ≤ length outs
    → Returns (send_data_tcp bytes outs)
unfolding send_data_tcp
send_data_tcp-Returns bytes outs l h = tcp_loop-Returns bytes 0 outs [] l (omega arith)
