-- ===== src/Mirror/Accepting.antt =====
-- pkg/util.go, `SimpleMirrorServer`: the loop over the connections that it accepts.
pub mod Clients
use whet.Base.{ℕ, Bool, List, [], ◌∷◌, Bytes}
use whet.Transfer.{Outcome, Sending, done, failed, blocked}
use whet.Mirror.{Mirrored, reads_on, stops, replies, mirror}

-- What one turn of the loop meets: `Accept` fails; the four bytes of the length cannot be read; or they
-- are read, and the reads and writes that follow are those of `mirror`.
pub data Visit : Type 0 where
  accept_fails length_fails : Visit
  talks : ℕ → ℕ → ℕ → ℕ → List Bytes → Bool → List Outcome → Visit

pub data Ended : Type 0 where
  -- It waits for the next connection, or in the current one; it has closed its listener.
  accepting busy closed : Ended

abbrev pub Served : Type 0
Served = List (Bytes × Sending) × Ended

-- A write that fails ends its loop, but not the server.
pub after_sending : Bytes → Sending → Served → Served
after_sending header (blocked ms) rest = ((header, blocked ms) ∷ [], busy)
after_sending header (done ms) rest = ((header, done ms) ∷ rest.0, rest.1)
after_sending header (failed ms) rest = ((header, failed ms) ∷ rest.0, rest.1)

pub after_visit : Mirrored → Served → Served
unfolding after_sending
after_visit reads_on rest = ([], busy)
after_visit stops rest = ([], closed)
after_visit (replies header s) rest = after_sending header s rest

-- The four bytes and the data that each client got back, in order, and how the server ends.
unfoldable pub serve_mirror : List Visit → Served
unfolding after_visit
serve_mirror [] = ([], accepting)
serve_mirror (accept_fails ∷ vs) = ([], closed)
serve_mirror (length_fails ∷ vs) = ([], closed)
serve_mirror (talks a b c d reads header_sent outs ∷ vs) =
    let rest = serve_mirror vs in after_visit (mirror a b c d reads header_sent outs) rest
