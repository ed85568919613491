-- ===== src/Stream/Faults.antt =====
-- Where `Read` of `WebRTCConn` does not do what that of a `net.Conn` should.
use whet.Base.{ℕ, ◌≤◌, ◌<◌, ◌≡◌, refl, true, false, arith, Bytes, length}
use whet.Stream.{
  ReadOutcome, broken, eof, Stream, fails_with, panics, is_drained, is_end, read, receive_raw,
}

-- A refill that ends in an error after fewer bytes than the old read position leaves a buffer whose
-- position is behind its size: the error is returned, and the next read, of any length, panics.
pub read_after_fault :
    (bytes message : Bytes) (o : ReadOutcome) (n k : ℕ) (s : Stream)
    → s.detached ≡ true
    → is_drained s ≡ true
    → is_end message ≡ false
    → 1 ≤ length bytes
    → length bytes < s.buffer_pos
    → ((read (broken bytes message) n s).0 ≡ fails_with eof)
      × ((read o k (read (broken bytes message) n s).1).0 ≡ panics)
unfolding read receive_raw
read_after_fault bytes message o n k s d e m h l = rw (e, d, m) (refl, ground arith)
