-- ===== src/Bridge/Agreement.antt =====
-- The two bridges give a C program and a script the same stream.
use whet.Bridge.Script.{
  rejects, pending, crashes, resolves, Promise, settle_read, settle_write, js_read, js_write,
}
use whet.Base.{◌∷◌, ℕ, List, ◌≡◌, some, length, [], ◌≤◌, ◌^◌, take, le→ltb, Bytes, arith, refl}
use whet.Stream.{panics, ReadResult, ReadOutcome}
use whet.Bridge.{
  read_whap, write_result, value, read_result, update, read_checked, Call, write_whap,
  write_checked, returns, slice_length, Handles, waits, aborts, copied, done, failed, fails_with,
  blocked,
}
use whet.Stream.Made.{WebrtcConn}
use whet.Transfer.{Sending, Outcome}
use whet.Base.Int.{ℤ, pos, negsuc}

-- What a C program sees where a script sees a promise.
abbrev pub as_read : Promise Bytes → Call (ℤ × Bytes)
as_read (resolves bytes) = returns (pos (length bytes), bytes)
as_read rejects = returns (negsuc 0, [])
as_read pending = waits
as_read crashes = aborts

abbrev pub as_write : Promise ℕ → Call ℤ
as_write (resolves n) = returns (pos n)
as_write rejects = returns (negsuc 0)
as_write pending = waits
as_write crashes = aborts

value-update_same :
    (h : ℕ) (c d : WebrtcConn) (table : List (ℕ × WebrtcConn))
    → value h table ≡ some c
    → value h (update h d table) ≡ some d
unfolding value update
value-update_same h c d [] e = cc
value-update_same h c d ((k, x) ∷ table) e = ground (arith, value-update_same h c d table)

settle_read-as_read : (r : ReadResult) → read_result r ≡ as_read (settle_read r)
unfolding read_result settle_read
settle_read-as_read (copied bytes) = refl
settle_read-as_read (fails_with e) = refl
settle_read-as_read panics = refl

settle_write-as_write : (n : ℕ) (s : Sending) → write_result n s ≡ as_write (settle_write n s)
unfolding write_result settle_write
settle_write-as_write n (done ms) = refl
settle_write-as_write n (failed ms) = refl
settle_write-as_write n (blocked ms) = refl

-- Equivalence: behind a handle of the C library, a read and a write of up to 2 ^ 30 bytes end as those of
-- a script on the same connection do, a count of -1 where the promise is rejected and a panic where the
-- goroutine panics, and the read leaves the same connection behind.
pub bridges_agree :
    (b : Handles) (h n : ℕ) (c : WebrtcConn) (o : ReadOutcome) (bytes : Bytes) (outs : List Outcome)
    → value h b.table ≡ some c
    → n ≤ 2 ^ 30
    → ((read_whap h (pos n) o b).0 ≡ as_read (js_read (pos n) o c).0)
      × (value h (read_whap h (pos n) o b).1.table ≡ some (js_read (pos n) o c).1)
      × (write_whap h bytes (pos n) outs b ≡ as_write (js_write c (take n bytes) outs))
unfolding read_whap read_checked js_read write_whap write_checked js_write slice_length
bridges_agree b h n c o bytes outs found small =
    let fits = le→ltb (2 ^ 30) n small in
    rw (found, fits)
      (settle_read-as_read _, value-update_same h c _ b.table found, settle_write-as_write _ _)
