-- ===== src/Mirror/Accepting/Clients.antt =====
-- What the mirror server does for one client after the other.
use whet.Base.{Bool, true, false, ◌≡◌, ◌<◌, List, [], ◌∷◌, Bytes, length}
use mathlib.Core.List.{flatten}
use whet.Transfer.{Outcome, Sending, done, failed, blocked, tcp_loop}
use whet.Mirror.Echo.{byte_of}
use whet.Mirror.Accepting.{Visit, talks}

-- A client by the pieces of its data, with the outcomes of the writes back to it.
pub record Guest : Type 0 where
  pub pieces : List Bytes
  pub outs : List Outcome

abbrev pub text_of : Guest → Bytes
text_of g = flatten g.pieces

abbrev pub header_of : Bytes → Bytes
header_of text =
    let n = length text in byte_of 1 n ∷ byte_of 256 n ∷ byte_of 65536 n ∷ byte_of 16777216 n ∷ []

-- It sends the length of its data and then the data; the Boolean says whether the four bytes can be sent
-- back to it.
abbrev pub visit_of : Bool → Guest → Visit
visit_of header_sent g =
    let n = length (text_of g) in
    talks (byte_of 1 n) (byte_of 256 n) (byte_of 65536 n) (byte_of 16777216 n) g.pieces header_sent
      g.outs

abbrev is_blocked : Sending → Bool
is_blocked (blocked ms) = true
is_blocked (done ms) = false
is_blocked (failed ms) = false

-- The data are shorter than 2^32 bytes, and the writes back do not block.
pub record IsGuest (g : Guest) : Type 0 where
  pub short : length (text_of g) < 4294967296
  pub drained : is_blocked (tcp_loop (text_of g) 0 g.outs []) ≡ false

abbrev pub visits : List Guest → List Visit → List Visit
visits [] more = more
visits (g ∷ gs) more = visit_of true g ∷ visits gs more

abbrev pub answer_to : Guest → Bytes × Sending
answer_to g = (header_of (text_of g), tcp_loop (text_of g) 0 g.outs [])

abbrev pub answers : List Guest → List (Bytes × Sending)
answers [] = []
answers (g ∷ gs) = answer_to g ∷ answers gs
