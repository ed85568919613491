-- ===== src/Mirror.antt =====
-- pkg/util.go: `SimpleMirrorServer`, for one accepted connection. The reads of the data are given by
-- the bytes that they return, at most as many as there is room for; one that fails returns none, and
-- its error is only printed. The first read gives the four bytes of the length; those that it does
-- not fill are 0.
pub mod Echo
pub mod Accepting
mod Tests
use whet.Transfer.{Sending, Outcome, tcp_loop}
use whet.Base.{
  ℕ, Bool, ◌+◌, Bytes, List, Option, ◌*◌, some, ◌∷◌, if◌then◌else◌, [], ltb, length, none, ◌++◌,
  take, ◌-◌,
}

-- The four bytes of the length, the lowest first. The shifted bytes share no bit, so that `|` adds.
unfoldable pub decode_length : ℕ → ℕ → ℕ → ℕ → ℕ
decode_length a b c d = a + b * 256 + c * 65536 + d * 16777216

-- The loop `for totalRead < length`; `none` means that it still reads.
unfoldable pub fill : ℕ → Bytes → List Bytes → Option Bytes
fill size sofar [] = if ltb (length sofar) size then none else some sofar
fill size sofar (r ∷ rs) =
    let more = fill size (sofar ++ take (size - length sofar) r) rs in
    if ltb (length sofar) size then more else some sofar

pub data Mirrored : Type 0 where
  reads_on : Mirrored
  stops : Mirrored
  replies : Bytes → Sending → Mirrored

-- What is done once the length is known: the data is read, the four bytes are written back, and then
-- the data; `header_sent` says whether the first write succeeds.
reply : Bytes → Bool → List Outcome → Option Bytes → Mirrored
reply header header_sent outs none = reads_on
reply header header_sent outs (some data_bytes) =
    if header_sent then replies header (tcp_loop data_bytes 0 outs []) else stops

unfoldable pub mirror : ℕ → ℕ → ℕ → ℕ → List Bytes → Bool → List Outcome → Mirrored
unfolding reply
mirror a b c d reads header_sent outs =
    reply (a ∷ b ∷ c ∷ d ∷ []) header_sent outs (fill (decode_length a b c d) [] reads)
