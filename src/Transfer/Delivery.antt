-- ===== src/Transfer/Delivery.antt =====
-- What a sending loop delivers: never anything but the data from its start, and all of it when the
-- loop returns without an error.
use Prim.Native.Nat.{min, suc}
use mathlib.Core.List.{flatten}
use whet.Base.{
  ℕ, ◌+◌, ◌-◌, ◌≤◌, ◌≡◌, refl, inl, inr, Bool, true, false, List, [], ◌∷◌, ◌++◌, arith, Bytes, ltb,
  length, take, Bool-cases, append-nil, ◌∙◌, take_all, zero, flatten-append,
}
use whet.Transfer.{
  Outcome, accepts, fails, Sending, done, failed, blocked, messages, slice, accepted, max_write,
  send_loop, send_raw, tcp_loop, send_data_tcp,
}

-- The bytes that the other end has.
abbrev delivered : Sending → Bytes
delivered s = flatten (messages s)

-- A state of the loop: `sent` bytes are on the wire.
abbrev OnWire : Bytes → ℕ → List Bytes → Type 0
OnWire bytes sent wire = (sent ≤ length bytes) × (flatten wire ≡ take sent bytes)

-- The end of a loop: all is delivered, or the first `n` bytes.
abbrev pub Delivers : Bytes → Sending → Type 0
Delivers bytes (done ms) = flatten ms ≡ bytes
Delivers bytes (failed ms) = (n : ℕ) × (n ≤ length bytes) × (flatten ms ≡ take n bytes)
Delivers bytes (blocked ms) = (n : ℕ) × (n ≤ length bytes) × (flatten ms ≡ take n bytes)

take_nil : (k : ℕ) → take k (let none_left : Bytes = [] in none_left) ≡ []
take_nil zero = refl
take_nil (suc k) = refl

take-slice :
    (sent k : ℕ) (bytes : Bytes) → take sent bytes ++ slice sent k bytes ≡ take (sent + k) bytes
take-slice zero k bytes = let e : zero + k ≡ k = omega arith in rw e
take-slice (suc sent) k [] =
    let e : suc sent + k ≡ suc (sent + k) = omega arith in rw e (take_nil k)
take-slice (suc sent) k (b ∷ bytes) =
    let e : suc sent + k ≡ suc (sent + k) = omega arith in rw (e, take-slice sent k bytes)

OnWire-step :
    (bytes : Bytes) (sent k : ℕ) (wire : List Bytes)
    → sent + k ≤ length bytes
    → OnWire bytes sent wire
    → OnWire bytes (sent + k) (wire ++ slice sent k bytes ∷ [])
OnWire-step bytes sent k wire h (fits, e) = (
  h,
  unfold flatten in
      rw (flatten-append wire (slice sent k bytes ∷ []), e, append-nil) (take-slice sent k bytes),
)

returned :
    (bytes : Bytes) (sent : ℕ) (wire : List Bytes)
    → ltb sent (length bytes) ≡ false
    → OnWire bytes sent wire
    → flatten wire ≡ bytes
returned bytes sent wire e (fits, w) = w ∙ take_all sent bytes (ground arith)

accepted_fits :
    (detached : Bool) (n sent : ℕ) (bytes : Bytes)
    → ltb sent (length bytes) ≡ true
    → sent + accepted detached n (max_write sent bytes) ≤ length bytes
accepted_fits true n sent bytes e = ground arith
accepted_fits false n sent bytes e = ground arith

send_loop-Delivers :
    (detached : Bool) (bytes : Bytes) (sent : ℕ) (outs : List Outcome) (wire : List Bytes)
    → OnWire bytes sent wire
    → Delivers bytes (send_loop detached bytes sent outs wire)
unfolding send_loop
send_loop-Delivers detached bytes sent [] wire w = elim (Bool-cases (ltb sent (length bytes))) [
  | inl e ↦ rw e (sent, ground arith, w.1)
  | inr e ↦ rw e (returned bytes sent wire e w)
]
send_loop-Delivers detached bytes sent (fails ∷ outs) wire w =
    elim (Bool-cases (ltb sent (length bytes))) [
      | inl e ↦ rw e (sent, ground arith, w.1)
      | inr e ↦ rw e (returned bytes sent wire e w)
    ]
send_loop-Delivers detached bytes sent (accepts n ∷ outs) wire w =
    elim (Bool-cases (ltb sent (length bytes))) [
      | inl e ↦ rw e (
          send_loop-Delivers detached bytes (sent + accepted detached n (max_write sent bytes)) outs
            _
            (OnWire-step bytes sent (accepted detached n (max_write sent bytes)) wire
              (accepted_fits detached n sent bytes e) w))
      | inr e ↦ rw e (returned bytes sent wire e w)
    ]

-- Whatever the other end does, `SendRawDataChannel` delivers the data if it returns no error, and a
-- part of the data from its start if it fails or is blocked.
pub send_raw-Delivers :
    (detached : Bool) (bytes : Bytes) (outs : List Outcome)
    → Delivers bytes (send_raw detached bytes outs)
unfolding send_raw flatten
send_raw-Delivers detached [] [] = (0, omega arith, refl)
send_raw-Delivers detached [] (fails ∷ outs) = (0, omega arith, refl)
send_raw-Delivers detached [] (accepts n ∷ outs) =
    send_loop-Delivers detached [] 0 outs ([] ∷ []) (omega arith, refl)
send_raw-Delivers detached (b ∷ bytes) outs =
    send_loop-Delivers detached (b ∷ bytes) 0 outs [] (omega arith, refl)

tcp_loop-Delivers :
    (bytes : Bytes) (sent : ℕ) (outs : List Outcome) (wire : List Bytes)
    → OnWire bytes sent wire
    → Delivers bytes (tcp_loop bytes sent outs wire)
unfolding tcp_loop
tcp_loop-Delivers bytes sent [] wire w = elim (Bool-cases (ltb sent (length bytes))) [
  | inl e ↦ rw e (sent, ground arith, w.1)
  | inr e ↦ rw e (returned bytes sent wire e w)
]
tcp_loop-Delivers bytes sent (fails ∷ outs) wire w = elim (Bool-cases (ltb sent (length bytes))) [
  | inl e ↦ rw e (sent, ground arith, w.1)
  | inr e ↦ rw e (returned bytes sent wire e w)
]
tcp_loop-Delivers bytes sent (accepts n ∷ outs) wire w =
    elim (Bool-cases (ltb sent (length bytes))) [
      | inl e ↦ rw e (
          tcp_loop-Delivers bytes (sent + min n (length bytes - sent)) outs _
            (OnWire-step bytes sent (min n (length bytes - sent)) wire (ground arith) w))
      | inr e ↦ rw e (returned bytes sent wire e w)
    ]

-- The same of `SendDataTCP`.
pub send_data_tcp-Delivers :
    (bytes : Bytes) (outs : List Outcome) → Delivers bytes (send_data_tcp bytes outs)
unfolding send_data_tcp flatten
send_data_tcp-Delivers bytes outs = tcp_loop-Delivers bytes 0 outs [] (omega arith, refl)
