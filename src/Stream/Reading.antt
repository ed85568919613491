-- ===== src/Stream/Reading.antt =====
-- `Read` turns the messages of the data channel into a stream of bytes.
use whet.Base.{
  ◌≡◌, ℕ, ◌≤◌, take, ◌-◌, drop, true, arith, ◌++◌, length-drop, length-take, le→ltb, length-append,
  suc, Bool-cases, if◌then◌else◌, ◌∷◌, inl, ap, drop-drop, refl, inr, [], zero, ◌==◌, false,
}
use whet.FlowControl.{max_buffer_size}
use whet.Stream.{
  received, receive_raw, overwrite, Stream, ReadResult, copied, copy_out, is_drained, read, length,
  Bytes,
}

-- The bytes that were received and not read yet.
abbrev pub pending : Stream → Bytes
pending s = drop s.buffer_pos (take s.buffer_size s.read_buffer)

pub record IsReady (s : Stream) : Type 0 where
  pub is_detached : s.detached ≡ true
  pub ordered : s.buffer_pos ≤ s.buffer_size
  pub inside : s.buffer_size ≤ length s.read_buffer
  pub capacity : length s.read_buffer ≡ max_buffer_size

-- A message that the channel delivers: not empty, and within the buffer.
abbrev pub IsMessage : Bytes → Type 0
IsMessage m = (1 ≤ length m) × (length m ≤ max_buffer_size)

pub length-pending : (s : Stream) → IsReady s → length (pending s) ≡ s.buffer_size - s.buffer_pos
length-pending s h = omega (
  arith,
  length-drop s.buffer_pos (take s.buffer_size s.read_buffer),
  length-take s.buffer_size s.read_buffer,
  h.inside,
)

take-append-rest : (n : ℕ) (p : Bytes) → take n p ++ drop (length (take n p)) p ≡ p
take-append-rest zero p = refl
take-append-rest (suc n) [] = refl
take-append-rest (suc n) (b ∷ p) = ap (◌∷◌ b) (take-append-rest n p)

-- A copy from a ready stream takes what is pending from its start, and keeps the rest.
pub record Copies (n : ℕ) (s : Stream) (r : ReadResult × Stream) : Type 0 where
  pub result : r.0 ≡ copied (take n (pending s))
  pub rest : take n (pending s) ++ pending r.1 ≡ pending s
  pub ready : IsReady r.1

pub copy_out-Copies : (n : ℕ) (s : Stream) → IsReady s → Copies n s (copy_out n s)
unfolding copy_out
copy_out-Copies n s h =
    let in_order = le→ltb s.buffer_size s.buffer_pos h.ordered in
    let in_range = le→ltb (length s.read_buffer) s.buffer_size h.inside in
    rw (in_order, in_range)
      (record {
        result = refl;
        rest =
            rw
              (← drop-drop (length (take n (pending s))) s.buffer_pos
                (take s.buffer_size s.read_buffer))
              (take-append-rest n (pending s));
        ready = record {
          is_detached = h.is_detached;
          ordered = omega (arith, h.ordered, length-take n (pending s), length-pending s h);
          inside = h.inside;
          capacity = h.capacity;
        };
      })

-- A message that fits makes a refilled stream ready, with the message pending.
abbrev restarted : Bytes → Stream → Stream
restarted m s = record s {
  read_buffer = overwrite m s.read_buffer;
  buffer_size = length m;
  buffer_pos = 0;
}

pub take-overwrite : (m buffer : Bytes) → take (length m) (m ++ buffer) ≡ m
take-overwrite [] buffer = refl
take-overwrite (b ∷ m) buffer = ap (◌∷◌ b) (take-overwrite m buffer)

restarted-IsReady : (m : Bytes) (s : Stream) → IsReady s → IsMessage m → IsReady (restarted m s)
restarted-IsReady m s h k = record {
  is_detached = h.is_detached;
  ordered = omega arith;
  inside = omega (arith, length-append m (drop (length m) s.read_buffer));
  capacity = omega (
    arith,
    length-append m (drop (length m) s.read_buffer),
    length-drop (length m) s.read_buffer,
    h.capacity,
    k.1,
  );
}

-- What a read takes from: the pending bytes, or the next message if there are none.
abbrev pub source : Bytes → Stream → Stream
source m s = if is_drained s then restarted m s else s

nonzero : (n : ℕ) → 1 ≤ n → (n == 0) ≡ false
nonzero n h = ground arith

read_received :
    (m : Bytes) (n : ℕ) (s : Stream)
    → s.detached ≡ true
    → 1 ≤ length m
    → read (received m) n s ≡ copy_out n (source m s)
unfolding read receive_raw
read_received m n s d k = elim (Bool-cases (is_drained s)) [
  | inl e ↦ rw (e, d, nonzero (length m) k)
  | inr e ↦ rw e
]

source-IsReady : (m : Bytes) (s : Stream) → IsReady s → IsMessage m → IsReady (source m s)
source-IsReady m s h k = elim (Bool-cases (is_drained s)) [
  | inl e ↦ rw e (restarted-IsReady m s h k)
  | inr e ↦ rw e h
]

-- A read of `n` bytes returns the first `n` bytes of what is pending, or of the next message if
-- nothing is; what is left of it stays pending, and the stream stays ready.
pub read-Copies :
    (m : Bytes) (n : ℕ) (s : Stream)
    → IsReady s
    → IsMessage m
    → Copies n (source m s) (read (received m) n s)
read-Copies m n s h k =
    rw (read_received m n s h.is_detached k.0)
      (copy_out-Copies n (source m s) (source-IsReady m s h k))
