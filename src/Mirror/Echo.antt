-- ===== src/Mirror/Echo.antt =====
-- What comes back from the mirror server, and when it never answers.
use whet.Transfer.{tcp_loop, send_data_tcp}
use whet.Transfer.Delivery.{Delivers, send_data_tcp-Delivers}
use whet.Mirror.{mirror, decode_length, fill, Outcome, Sending, reads_on, replies, reply, stops}
use mathlib.Core.List.{flatten}
use whet.Base.{
  length, ℕ, ◌/◌, List, ◌%◌, Bytes, ◌<◌, ◌≡◌, [], Bool, arith, ◌++◌, suc, true, ◌∷◌, some, zero,
  refl, Bool-cases, inl, inr, ltb, false, none, append-nil, ◌+◌, ◌-◌, take_all, length-append,
  length-take, take, append_assoc, ap, ◌∙◌,
}

-- The byte at a place of a length that is sent.
abbrev pub byte_of : ℕ → ℕ → ℕ
byte_of place n = n / place % 256

decode_length-byte_of :
    (n : ℕ)
    → n < 4294967296
    → decode_length (byte_of 1 n) (byte_of 256 n) (byte_of 65536 n) (byte_of 16777216 n) ≡ n
unfolding decode_length
decode_length-byte_of n h = omega arith

nil_of_length : (p : Bytes) → length p ≡ 0 → p ≡ []
nil_of_length [] h = refl
nil_of_length (b ∷ p) h = absurd (omega arith)

-- Reads that return exactly what is missing fill the buffer.
fill_pieces :
    (n : ℕ) (sofar : Bytes) (pieces : List Bytes)
    → length sofar + length (flatten pieces) ≡ n
    → fill n sofar pieces ≡ some (sofar ++ flatten pieces)
unfolding fill flatten
fill_pieces n sofar [] h =
    let e : ltb (length sofar) n ≡ false = ground arith in rw (e, append-nil sofar)
fill_pieces n sofar (r ∷ rs) h = elim (Bool-cases (ltb (length sofar) n)) [
  | inl e ↦
      let sizes = length-append r (flatten rs) in
      let fits = take_all (n - length sofar) r (omega (arith, sizes)) in
      rw (e, fits)
        (fill_pieces n (sofar ++ r) rs (omega (arith, sizes, length-append sofar r))
          ∙ ap (λ (x : Bytes). some x) (append_assoc sofar r (flatten rs)))
  | inr e ↦
      let nothing = nil_of_length (r ++ flatten rs) (ground (arith, e, h)) in
      rw (e, nothing, append-nil sofar)
]

-- Reads that return less than what is missing leave the loop reading.
fill_short :
    (n : ℕ) (sofar : Bytes) (reads : List Bytes)
    → length sofar + length (flatten reads) < n
    → fill n sofar reads ≡ none
unfolding fill flatten
fill_short n sofar [] h = let e : ltb (length sofar) n ≡ true = ground arith in rw e
fill_short n sofar (r ∷ rs) h =
    let e : ltb (length sofar) n ≡ true = ground arith in
    let part = take (n - length sofar) r in
    rw e (
      fill_short n (sofar ++ part) rs (
        omega (
          arith,
          h,
          length-append r (flatten rs),
          length-append sofar part,
          length-take (n - length sofar) r,
        )))

pub mirror_replies :
    (pieces : List Bytes) (outs : List Outcome)
    → let text = flatten pieces in
      length text < 4294967296
      → mirror
          (byte_of 1 (length text))
          (byte_of 256 (length text))
          (byte_of 65536 (length text))
          (byte_of 16777216 (length text))
          pieces
          true
          outs
        ≡ replies
            (byte_of 1 (length text)
              ∷ byte_of 256 (length text)
              ∷ byte_of 65536 (length text)
              ∷ byte_of 16777216 (length text)
              ∷ [])
            (tcp_loop text 0 outs [])
unfolding mirror reply
mirror_replies pieces outs h =
    let text = flatten pieces in
    rw (decode_length-byte_of (length text) h, fill_pieces (length text) [] pieces (omega arith))
      refl

-- If the four bytes cannot be written back, the server stops once it has read the data.
pub mirror_unsent :
    (pieces : List Bytes) (outs : List Outcome)
    → let text = flatten pieces in
      length text < 4294967296
      → mirror
          (byte_of 1 (length text))
          (byte_of 256 (length text))
          (byte_of 65536 (length text))
          (byte_of 16777216 (length text))
          pieces
          false
          outs
        ≡ stops
unfolding mirror reply
mirror_unsent pieces outs h =
    let text = flatten pieces in
    rw (decode_length-byte_of (length text) h, fill_pieces (length text) [] pieces (omega arith))
      refl

pub tcp_loop-Delivers :
    (text : Bytes) (outs : List Outcome) → Delivers text (tcp_loop text 0 outs [])
unfolding send_data_tcp
tcp_loop-Delivers text outs = send_data_tcp-Delivers text outs

-- A client that sends the length of some data below 2^32 bytes, lowest byte first, and then the data in
-- whatever pieces, gets the four bytes back and then the data, as far as the connection takes it, and
-- all of it if the writes succeed.
pub mirror_echo :
    (pieces : List Bytes) (outs : List Outcome)
    → let text = flatten pieces in
      length text < 4294967296
      → (s : Sending) × (mirror
            (byte_of 1 (length text))
            (byte_of 256 (length text))
            (byte_of 65536 (length text))
            (byte_of 16777216 (length text))
            pieces
            true
            outs
          ≡ replies
              (byte_of 1 (length text)
                ∷ byte_of 256 (length text)
                ∷ byte_of 65536 (length text)
                ∷ byte_of 16777216 (length text)
                ∷ [])
              s)
        × Delivers text s
mirror_echo pieces outs h =
    let text = flatten pieces in
    (tcp_loop text 0 outs [], mirror_replies pieces outs h, tcp_loop-Delivers text outs)

-- Reads that fail, as many as there are.
abbrev pub failing : ℕ → List Bytes
failing zero = []
failing (suc n) = [] ∷ failing n

length-failing :
    (pieces : List Bytes) (n : ℕ) → length (flatten (pieces ++ failing n)) ≡ length (flatten pieces)
unfolding flatten
length-failing [] zero = refl
length-failing [] (suc n) = length-failing [] n
length-failing (p ∷ ps) n = omega (
  arith,
  length-failing ps n,
  length-append p (flatten (ps ++ failing n)),
  length-append p (flatten ps),
)

-- A client that goes away before it has sent all its data keeps the server reading for ever: however
-- many reads fail, the loop goes on, so that no other connection is accepted.
pub mirror_stalls :
    (a b c d n : ℕ) (pieces : List Bytes) (outs : List Outcome) (writes : Bool)
    → length (flatten pieces) < decode_length a b c d
    → mirror a b c d (pieces ++ failing n) writes outs ≡ reads_on
unfolding mirror reply
mirror_stalls a b c d n pieces outs writes h = rw (
    fill_short (decode_length a b c d) [] (pieces ++ failing n)
      (omega (arith, length-failing pieces n)))
