-- ===== src/Stream/Sequence.antt =====
-- Reads in sequence give back the bytes of the messages, in order and without loss.
use mathlib.Core.List.{flatten, append_assoc}
use whet.Stream.Reading.{
  pending, IsReady, IsMessage, Copies, source, read-Copies, take-overwrite, copy_out-Copies,
  length-pending,
}
use whet.Base.{
  ◌≡◌, ℕ, take, drop, true, arith, ◌++◌, Bool-cases, if◌then◌else◌, ◌∷◌, inl, ap, refl, inr, [],
  List, false, All, ◌∙◌, sym, Bool,
}
use whet.Stream.{received, Stream, ReadResult, is_drained, read, then_read, read_all, length, Bytes}

nil_of_length : (p : Bytes) → length p ≡ 0 → p ≡ []
nil_of_length [] h = refl
nil_of_length (b ∷ p) h = absurd (omega arith)

pending_drained : (s : Stream) → IsReady s → is_drained s ≡ true → pending s ≡ []
pending_drained s h e = nil_of_length (pending s) (ground (arith, length-pending s h))

pending-source :
    (m : Bytes) (s : Stream) (ms : List Bytes)
    → IsReady s
    → pending (source m s) ++ flatten (if is_drained s then ms else m ∷ ms)
      ≡ pending s ++ flatten (m ∷ ms)
unfolding flatten
pending-source m s ms h = elim (Bool-cases (is_drained s)) [
  | inl e ↦ rw (e, take-overwrite m (drop (length m) s.read_buffer)) (rw (pending_drained s h e))
  | inr e ↦ rw e
]

-- The bytes of reads, of what is pending and of the messages left.
abbrev pub total : Bytes × List Bytes × Stream → Bytes
total (out, rest, s) = out ++ (pending s ++ flatten rest)

total-then_read :
    (n : ℕ) (s : Stream) (r : ReadResult × Stream) (ms : List Bytes)
    (later : Stream → Bytes × List Bytes × Stream)
    → Copies n s r
    → total (later r.1) ≡ pending r.1 ++ flatten ms
    → total (then_read later r) ≡ pending s ++ flatten ms
total-then_read n s (r, s') ms later c e = rw (c.result) (
    append_assoc (take n (pending s)) _ _
    ∙ (ap (◌++◌ (take n (pending s))) e
        ∙ (sym (append_assoc (take n (pending s)) _ _)
            ∙ ap (λ (x : Bytes). x ++ flatten ms) c.rest)))

source_of :
    (s : Stream) (n : ℕ) → IsReady s → is_drained s ≡ false → Copies n s (read (received []) n s)
unfolding read
source_of s n h e = rw e (copy_out-Copies n s h)

rest_fits :
    (drained : Bool) (m : Bytes) (ms : List Bytes)
    → IsMessage m
    → All IsMessage ms
    → All IsMessage (if drained then ms else m ∷ ms)
rest_fits true m ms h k = k
rest_fits false m ms h k = (h, k)

-- Whatever the lengths of the reads, the bytes that they return, followed by those that are pending
-- and by the messages that are left, are the bytes that were pending and those of all messages.
pub read_all-total :
    (ns : List ℕ) (ms : List Bytes) (s : Stream)
    → IsReady s
    → All IsMessage ms
    → total (read_all ns ms s) ≡ pending s ++ flatten ms
unfolding read_all
read_all-total [] ms s h k = refl
read_all-total (n ∷ ns) [] s h k = elim (Bool-cases (is_drained s)) [
  | inl e ↦ rw e refl
  | inr e ↦ rw e (
      total-then_read n s (read (received []) n s) [] (read_all ns []) (source_of s n h e)
        (read_all-total ns [] (read (received []) n s).1 (source_of s n h e).ready tt))
]
read_all-total (n ∷ ns) (m ∷ ms) s h (km, kms) =
    let c = read-Copies m n s h km in
    let later = if is_drained s then ms else m ∷ ms in
    total-then_read n (source m s) (read (received m) n s) later (read_all ns later) c (
      read_all-total ns later (read (received m) n s).1 c.ready
        (rest_fits (is_drained s) m ms km kms))
    ∙ pending-source m s ms h
