-- ===== src/Bridge.antt =====
-- lib/main.go: the functions that a C program calls. `cgo` numbers the values of its table from 1 and
-- uses no number again; a handle crosses the border as a `C.uint`, of 32 bits.
pub mod Script
pub mod Isolation
pub mod Released
pub mod Agreement
mod Tests
use whet.Base.{
  ℕ, suc, ◌%◌, ◌^◌, List, [], ◌∷◌, Option, none, some, Bytes, codes, ◌==◌, ltb, if◌then◌else◌,
  length, take,
}
use whet.Base.Int.{ℤ, pos, negsuc}
use whet.Transfer.{Outcome, Sending, done, failed, blocked}
use whet.Stream.{ReadOutcome, ReadResult, copied, fails_with, panics, read, write}
use whet.Stream.Close.{Client, close, Closed}
use whet.Stream.Made.{WebrtcConn, Dialled, dials, dial_fails, dial_blocks}

pub record Handles : Type 0 where
  -- The number of the last handle.
  pub last : ℕ
  pub table : List (ℕ × WebrtcConn)

unfoldable pub value : ℕ → List (ℕ × WebrtcConn) → Option WebrtcConn
value h [] = none
value h ((k, c) ∷ table) = if h == k then some c else value h table

unfoldable pub forget : ℕ → List (ℕ × WebrtcConn) → List (ℕ × WebrtcConn)
forget h [] = []
forget h ((k, c) ∷ table) = let rest = forget h table in if h == k then rest else (k, c) ∷ rest

-- The connection behind a handle after a call; it is one object, which the call has changed.
unfoldable pub update : ℕ → WebrtcConn → List (ℕ × WebrtcConn) → List (ℕ × WebrtcConn)
update h c [] = []
update h c ((k, d) ∷ table) =
    let rest = update h c table in if h == k then (k, c) ∷ rest else (k, d) ∷ rest

-- A call that returns, one that panics, which ends the process, or one that is still blocked.
pub data Call (A : Type 0) : Type 0 where
  returns : A → Call A
  aborts : Call A
  waits : Call A

abbrev uint : ℕ → ℕ
uint n = n % 2 ^ 32

-- `DialWhapConnection`; 0 stands for an error.
unfoldable pub dial_whap : Dialled → Handles → Call ℕ × Handles
dial_whap (dial_fails e) b = (returns 0, b)
dial_whap dial_blocks b = (waits, b)
dial_whap (dials c) b =
    (returns (uint (suc b.last)), record { last = suc b.last; table = (suc b.last, c) ∷ b.table })

-- The slice of a C buffer, of at most 2 ^ 30 bytes; another length panics.
unfoldable pub slice_length : ℤ → Option ℕ
slice_length (negsuc n) = none
slice_length (pos n) = if ltb (2 ^ 30) n then none else some n

-- The error is a count of -1.
unfoldable pub write_result : ℕ → Sending → Call ℤ
write_result n (done ms) = returns (pos n)
write_result n (failed ms) = returns (negsuc 0)
write_result n (blocked ms) = waits

write_checked : Option ℕ → Option WebrtcConn → Bytes → List Outcome → Call ℤ
unfolding write_result
write_checked n none bytes outs = aborts
write_checked none (some c) bytes outs = aborts
write_checked (some n) (some c) bytes outs =
    let w = write c.stream.detached (take n bytes) outs in write_result w.count w.sending

-- `WriteWhapData`: the bytes from the pointer on, and how many of them; it changes no state.
unfoldable pub write_whap : ℕ → Bytes → ℤ → List Outcome → Handles → Call ℤ
unfolding write_checked
write_whap h bytes n outs b = write_checked (slice_length n) (value h b.table) bytes outs

-- The count that is returned, and the bytes that the buffer starts with if there are any.
unfoldable pub read_result : ReadResult → Call (ℤ × Bytes)
read_result (copied bytes) = returns (pos (length bytes), bytes)
read_result (fails_with e) = returns (negsuc 0, [])
read_result panics = aborts

read_checked : ℕ → Option ℕ → Option WebrtcConn → ReadOutcome → Handles → Call (ℤ × Bytes) × Handles
unfolding read_result update
read_checked h n none o b = (aborts, b)
read_checked h none (some c) o b = (aborts, b)
read_checked h (some n) (some c) o b =
    let (r, s) = read o n c.stream in
    (read_result r, record b { table = update h (record c { stream = s }) b.table })

-- `ReadWhapData`.
unfoldable pub read_whap : ℕ → ℤ → ReadOutcome → Handles → Call (ℤ × Bytes) × Handles
unfolding read_checked
read_whap h n o b = read_checked h (slice_length n) (value h b.table) o b

abbrev pub close_text : Bytes
close_text = codes "CLOSE"

close_sent : ℕ → Sending → Option Closed → Handles → Call (Sending × Closed) × Handles
unfolding forget
close_sent h (blocked ms) r b = (waits, b)
close_sent h (done ms) none b = (waits, b)
close_sent h (failed ms) none b = (waits, b)
close_sent h (done ms) (some r) b = (returns (done ms, r), record b { table = forget h b.table })
close_sent h (failed ms) (some r) b =
    (returns (failed ms, r), record b { table = forget h b.table })

close_found :
    ℕ
    → List Outcome
    → Client
    → (ℕ → ℕ)
    → Option WebrtcConn
    → Handles
    → Call (Sending × Closed) × Handles
unfolding close_sent
close_found h outs client amount none b = (aborts, b)
close_found h outs client amount (some c) b =
    close_sent h (write c.stream.detached close_text outs).sending (close client amount c.conn) b

-- `CloseWhapConnection`: it writes "CLOSE", closes the connection and deletes the handle; the errors of
-- both calls are dropped.
unfoldable pub close_whap :
    ℕ → List Outcome → Client → (ℕ → ℕ) → Handles → Call (Sending × Closed) × Handles
unfolding close_found
close_whap h outs client amount b = close_found h outs client amount (value h b.table) b
