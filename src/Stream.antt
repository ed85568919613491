-- ===== src/Stream.antt =====
-- pkg/webrtcconn.go: `WebRTCConn` as a `net.Conn` over the messages of a data channel, with
-- `ReceiveRaw` of pkg/connection.go. A read of the data channel is an outcome: a message, or an error
-- with the bytes that came before it.
pub mod Reading
pub mod Sequence
pub mod Faults
pub mod Close
pub mod Closing
pub mod Made
mod Tests
use whet.Base.{
  ℕ, ◌+◌, Bool, true, false, ◌||◌, List, [], ◌∷◌, ◌++◌, Option, none, some, Bytes, codes, bytes_eq,
  ltb, ◌==◌, if◌then◌else◌, length, take, drop,
}
use whet.Transfer.{Outcome, Sending, send_raw}

pub data ReadOutcome : Type 0 where
  received : Bytes → ReadOutcome
  broken : Bytes → Bytes → ReadOutcome

pub data ReceiveError : Type 0 where
  not_detached eof : ReceiveError

-- The count and the error that `ReceiveRaw` returns.
pub record Received : Type 0 where
  pub count : ℕ
  pub error : Option ReceiveError

abbrev is_end : Bytes → Bool
is_end message =
    bytes_eq message (codes "EOF")
    || bytes_eq message (codes "sending reset packet in non-established state: state=Closed")

-- The first argument is `c.detached`.
unfoldable pub receive_raw : Bool → ReadOutcome → Received
receive_raw false o = record { count = 0; error = some not_detached }
receive_raw true (received bytes) = record { count = length bytes; error = none }
receive_raw true (broken bytes message) =
    if is_end message
    then record { count = 0; error = some eof }
    else record { count = length bytes; error = some eof }

-- The bytes that a read has put at the start of its buffer.
abbrev pub read_bytes : Bool → ReadOutcome → Bytes
read_bytes false o = []
read_bytes true (received bytes) = bytes
read_bytes true (broken bytes message) = bytes

abbrev pub overwrite : Bytes → Bytes → Bytes
overwrite bytes buffer = bytes ++ drop (length bytes) buffer

pub record Stream : Type 0 where
  pub detached : Bool
  pub read_buffer : Bytes
  pub buffer_size : ℕ
  pub buffer_pos : ℕ

pub data ReadResult : Type 0 where
  copied : Bytes → ReadResult
  fails_with : ReceiveError → ReadResult
  panics : ReadResult

-- `copy(b, c.readBuffer[c.bufferPos:c.bufferSize])` for a `b` of `n` bytes. A slice whose start is
-- behind its end, or whose end is behind the buffer's, panics.
unfoldable pub copy_out : ℕ → Stream → ReadResult × Stream
copy_out n s =
    let out = take n (drop s.buffer_pos (take s.buffer_size s.read_buffer)) in
    if ltb s.buffer_size s.buffer_pos || ltb (length s.read_buffer) s.buffer_size
    then (panics, s)
    else (copied out, record s { buffer_pos = s.buffer_pos + length out })

abbrev pub is_drained : Stream → Bool
is_drained s = s.buffer_size == 0 || s.buffer_pos == s.buffer_size

-- The refilled buffer, with the size that is stored before the error is looked at.
abbrev pub refilled : ReadOutcome → Stream → Stream
refilled o s = record s {
  read_buffer = overwrite (read_bytes s.detached o) s.read_buffer;
  buffer_size = (receive_raw s.detached o).count;
}

after_refill : Option ReceiveError → ℕ → Stream → ReadResult × Stream
unfolding copy_out
after_refill (some e) n s = (fails_with e, s)
after_refill none n s =
    if s.buffer_size == 0 then (fails_with eof, s) else copy_out n (record s { buffer_pos = 0 })

-- `Read` into `n` bytes; the outcome is used only if the buffer has to be refilled.
unfoldable pub read : ReadOutcome → ℕ → Stream → ReadResult × Stream
unfolding after_refill copy_out
read o n s =
    if is_drained s
    then after_refill (receive_raw s.detached o).error n (refilled o s)
    else copy_out n s

abbrev copied_bytes : ReadResult → Bytes
copied_bytes (copied bytes) = bytes
copied_bytes (fails_with e) = []
copied_bytes panics = []

-- What follows a read: the bytes in front of those of the later reads.
abbrev pub then_read :
    (Stream → Bytes × List Bytes × Stream) → ReadResult × Stream → Bytes × List Bytes × Stream
then_read later (r, s) = let (out, rest, s') = later s in (copied_bytes r ++ out, rest, s')

-- Successive reads of the given lengths, as far as the messages last: what they return, the messages
-- that are left, and the stream.
unfoldable pub read_all : List ℕ → List Bytes → Stream → Bytes × List Bytes × Stream
read_all [] ms s = ([], ms, s)
read_all (n ∷ ns) [] s =
    if is_drained s then ([], [], s) else then_read (read_all ns []) (read (received []) n s)
read_all (n ∷ ns) (m ∷ ms) s =
    then_read (read_all ns (if is_drained s then ms else m ∷ ms)) (read (received m) n s)

-- What `Write` returns: a count, and how the sending of the data ended.
pub record Written : Type 0 where
  pub count : ℕ
  pub sending : Sending

unfoldable pub write : Bool → Bytes → List Outcome → Written
write detached bytes outs = record { count = length bytes; sending = send_raw detached bytes outs }
