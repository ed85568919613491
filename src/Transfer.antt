-- ===== src/Transfer.antt =====
-- pkg/connection.go: `SendRawDataChannel`, `SendDataTCP` and `ReceiveRaw`. The other end of a write
-- is a list of outcomes, one for each call, that is read from the left; a loop whose list has ended is
-- still blocked in its next call. Waiting for buffer space, which decides when a call is made and not
-- what it writes, is the subject of `FlowControl`.
pub mod Delivery
pub mod Progress
mod Tests
use Prim.Native.Nat.{min}
use whet.Base.{
  ℕ, ◌+◌, ◌-◌, Bool, true, false, List, [], ◌∷◌, ◌++◌, Bytes, ltb, if◌then◌else◌, length, take,
  drop,
}
use whet.FlowControl.{max_buffer_size}

-- What a `Write` or a `Send` does: it takes up to `n` bytes and returns how many, or it fails.
pub data Outcome : Type 0 where
  accepts : ℕ → Outcome
  fails : Outcome

-- How a sending loop stands when its outcomes are used up or it has returned; each case holds the
-- messages that the other end took.
pub data Sending : Type 0 where
  done : List Bytes → Sending
  failed : List Bytes → Sending
  blocked : List Bytes → Sending

abbrev pub messages : Sending → List Bytes
messages (done ms) = ms
messages (failed ms) = ms
messages (blocked ms) = ms

-- `data[sent : sent+n]`.
abbrev pub slice : ℕ → ℕ → Bytes → Bytes
slice sent n bytes = take n (drop sent bytes)

-- The bytes that a call takes of those that it is given: all, for a `Send` on the data channel.
abbrev pub accepted : Bool → ℕ → ℕ → ℕ
accepted true n given = min n given
accepted false n given = given

-- `int(math.Min(float64(len(data)-sentData), float64(maxBufferSize)))`.
abbrev pub max_write : ℕ → Bytes → ℕ
max_write sent bytes = min (length bytes - sent) max_buffer_size

-- The loop `for sentData < len(data)`; the first argument is `c.detached`.
unfoldable pub send_loop : Bool → Bytes → ℕ → List Outcome → List Bytes → Sending
send_loop detached bytes sent [] wire = if ltb sent (length bytes) then blocked wire else done wire
send_loop detached bytes sent (fails ∷ outs) wire =
    if ltb sent (length bytes) then failed wire else done wire
send_loop detached bytes sent (accepts n ∷ outs) wire =
    let k = accepted detached n (max_write sent bytes) in
    let rest = send_loop detached bytes (sent + k) outs (wire ++ slice sent k bytes ∷ []) in
    if ltb sent (length bytes) then rest else done wire

-- No data at all is one empty message, which tells the other end that the stream has ended.
unfoldable pub send_raw : Bool → Bytes → List Outcome → Sending
unfolding send_loop
send_raw detached [] [] = blocked []
send_raw detached [] (fails ∷ outs) = failed []
send_raw detached [] (accepts n ∷ outs) = send_loop detached [] 0 outs ([] ∷ [])
send_raw detached (b ∷ bytes) outs = send_loop detached (b ∷ bytes) 0 outs []

-- `SendDataTCP`: each call is given all that is left.
unfoldable pub tcp_loop : Bytes → ℕ → List Outcome → List Bytes → Sending
tcp_loop bytes sent [] wire = if ltb sent (length bytes) then blocked wire else done wire
tcp_loop bytes sent (fails ∷ outs) wire = if ltb sent (length bytes) then failed wire else done wire
tcp_loop bytes sent (accepts n ∷ outs) wire =
    let k = min n (length bytes - sent) in
    let rest = tcp_loop bytes (sent + k) outs (wire ++ slice sent k bytes ∷ []) in
    if ltb sent (length bytes) then rest else done wire

unfoldable pub send_data_tcp : Bytes → List Outcome → Sending
unfolding tcp_loop
send_data_tcp bytes outs = tcp_loop bytes 0 outs []
