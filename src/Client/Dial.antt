-- ===== src/Client/Dial.antt =====
-- pkg/client.go: `DialClientConnection`, and `HandleClientConnection` up to its loops. Both make a peer,
-- post its description to the server, and register an object under the ID of the location that comes
-- back. pion, the HTTP client and `net/url` are parameters. What `OnOpen` meets is given; it is taken to
-- run after the fields of the object are set.
pub mod Ends
pub mod Meeting
pub mod Closing
pub mod Lifetime
pub mod Waiting
pub mod Refused
mod Tests
use whet.Base.{
  ℕ, Bool, true, false, not, List, [], ◌∷◌, ◌++◌, Option, none, some, Bytes, codes, bytes_eq,
  if◌then◌else◌, length,
}
use whet.Base.Result.{Result, ok, err, ◌>>=◌}
use whet.Base.Assoc.{Assoc, insert}
use whet.Connection.{Connection}
use whet.Transfer.{Outcome}
use whet.Stream.{ReadOutcome}
use whet.Stream.Close.{authorization}
use whet.Handshake.{Shake, succeeds, refuses, hangs, Shaken, handle_handshake}
use whet.Client.{handle_url, dial_url, connection_id, is_success}

-- The calls of pion; a peer and a data channel are handles.
pub record Peers : Type 0 where
  pub new_peer : Bool → Option ℕ
  pub create_channel : ℕ → Option ℕ
  pub create_offer : ℕ → Option Bytes
  pub set_local : ℕ → Bytes → Bool
  pub local_sdp : ℕ → Bytes
  pub set_remote : ℕ → Bytes → Bool

pub record Post : Type 0 where
  pub url : Bytes
  pub content_type : Bytes
  -- Empty if there is none.
  pub authorization : Bytes
  pub body : Bytes

-- A response, with `none` for a body that cannot be read.
pub record Reply : Type 0 where
  pub status : ℕ
  pub location : Bytes
  pub body : Option Bytes

pub record Url : Type 0 where
  pub text : Bytes
  pub path : Bytes

-- `http.NewRequest`, `client.Do`, `url.Parse`, and the text of `base.ResolveReference(ref)`.
pub record Web : Type 0 where
  pub builds : Bytes → Bool
  pub send : Post → Option Reply
  pub parse : Bytes → Option Url
  pub resolve : Url → Url → Bytes

pub data DialError : Type 0 where
  no_peer no_channel no_offer no_description : DialError
  no_request no_reply no_body no_location bad_location bad_base no_remote : DialError
  bad_status : ℕ → DialError
  no_detach no_handshake : DialError

or_fail {ℓ} : {A : Type ℓ} → DialError → Option A → Result DialError A
or_fail e none = err e
or_fail e (some a) = ok a

check_that : DialError → Bool → Result DialError (Unit {0})
check_that e true = ok tt
check_that e false = err e

pub record Offer : Type 0 where
  pub peer : ℕ
  pub channel : ℕ
  pub sdp : Bytes

-- The peer, its data channel, and the description that is posted.
unfoldable pub prepare : Peers → Bool → Result DialError Offer
unfolding or_fail check_that
prepare api detached = do
  peer ← or_fail no_peer (api.new_peer detached)
  channel ← or_fail no_channel (api.create_channel peer)
  offer ← or_fail no_offer (api.create_offer peer)
  _ ← check_that no_description (api.set_local peer offer)
  ok (record { peer = peer; channel = channel; sdp = api.local_sdp peer })

abbrev pub post_of : Bytes → Bytes → Bytes → Post
post_of url token sdp = record {
  url = url;
  content_type = codes "application/sdp";
  authorization = authorization token;
  body = sdp;
}

pub record Answered : Type 0 where
  pub id : Bytes
  pub resource_url : Bytes
  pub answer : Bytes

-- The POST and what is read from its response. The first argument says whether a response with no
-- location is refused before the location is parsed.
unfoldable pub ask : Bool → Web → Bytes → Bytes → Bytes → Result DialError Answered
unfolding or_fail check_that
ask wants_location web url token sdp = do
  _ ← check_that no_request (web.builds url)
  reply ← or_fail no_reply (web.send (post_of url token sdp))
  body ← or_fail no_body reply.body
  _ ← check_that (bad_status reply.status) (is_success reply.status)
  _ ← check_that no_location (if wants_location then not (bytes_eq reply.location []) else true)
  ref ← or_fail bad_location (web.parse reply.location)
  base ← or_fail bad_base (web.parse url)
  ok (record { id = connection_id ref.path; resource_url = web.resolve base ref; answer = body })

pub record Negotiated : Type 0 where
  pub offer : Offer
  pub answered : Answered

unfoldable pub negotiate : Bool → Peers → Web → Bool → Bytes → Bytes → Result DialError Negotiated
unfolding prepare ask check_that
negotiate wants_location api web detached url token = do
  offer ← prepare api detached
  answered ← ask wants_location web url token offer.sdp
  _ ← check_that no_remote (api.set_remote offer.peer answered.answer)
  ok (record { offer = offer; answered = answered })

-- `OpenConnections` and the objects that it holds.
pub record Objects : Type 0 where
  pub heap : List Connection
  pub open_connections : Assoc ℕ

-- The object as both functions register it; the socket is that of the accepted TCP connection.
abbrev pub client_connection : Bool → Bytes → Option ℕ → Negotiated → Connection
client_connection detached token socket n = record {
  peer_connection = n.offer.peer;
  data_channel = some n.offer.channel;
  conn = socket;
  resource_url = n.answered.resource_url;
  client_ready = false;
  detached = detached;
  raw_detached = none;
  send_more = false;
  bearer_token = token;
  closed = false;
}

unfoldable pub enter : Bytes → Connection → Objects → Objects
enter id c o = record {
  heap = o.heap ++ c ∷ [];
  open_connections = insert id (length o.heap) o.open_connections;
}

-- What `OnOpen` meets: the detached channel, or `none` if `Detach` fails, and the outcomes of the calls
-- of the handshake.
pub record Opening : Type 0 where
  pub raw : Option ℕ
  pub first : Outcome
  pub rest : List Outcome
  pub message : ReadOutcome

-- How a dial ends; one that hangs holds the lock of the map.
pub data Ended : Type 0 where
  connected : Connection → Ended
  fails_with : DialError → Ended
  dial_hangs : Ended

by_shake : Shaken → Shake → Ended × Connection
by_shake s succeeds = (connected s.connection, s.connection)
by_shake s refuses = (fails_with no_handshake, s.connection)
by_shake s hangs = (dial_hangs, s.connection)

after_shake : Shaken → Ended × Connection
unfolding by_shake
after_shake s = by_shake s s.result

-- The body of `OnOpen` in `DialClientConnection`.
on_open : Opening → Bool → Connection → Ended × Connection
unfolding after_shake handle_handshake
on_open o true c = elim o.raw [
  | none ↦ (fails_with no_detach, c)
  | some raw ↦
      after_shake (
        handle_handshake false false (record c { raw_detached = some raw }) o.first o.rest
          o.message)
]
on_open o false c = after_shake (handle_handshake false false c o.first o.rest o.message)

-- The object is registered before the wait for the handshake, and stays registered however that ends.
finish : Opening → Bool → Bytes → Objects → Result DialError Negotiated → Ended × Objects
unfolding on_open enter
finish o detached token objects (err e) = (fails_with e, objects)
finish o detached token objects (ok n) =
    let (end, c) = on_open o detached (client_connection detached token none n) in
    (end, enter n.answered.id c objects)

-- `DialClientConnection`.
unfoldable pub dial_client :
    Peers → Web → Opening → Bytes → Bytes → Bytes → Bool → Objects → Ended × Objects
unfolding finish dial_url
dial_client api web o server target token detached objects =
    finish o detached token objects (negotiate true api web detached (dial_url server target) token)

-- `HandleClientConnection` up to its loops: it has given up and closed the socket, and the peer if one
-- was made; or the object is registered and the loops run.
pub data Handled : Type 0 where
  drops : ℕ → Option ℕ → Handled
  runs : Connection → Handled

start_loops :
    ℕ → Option ℕ → Bool → Bytes → Objects → Result DialError Negotiated → Handled × Objects
unfolding enter
start_loops socket peer detached token objects (err e) = (drops socket peer, objects)
start_loops socket peer detached token objects (ok n) =
    let c = client_connection detached token (some socket) n in
    (runs c, enter n.answered.id c objects)

unfoldable pub handle_client :
    Peers → Web → ℕ → Bytes → Bytes → Bytes → Bool → Objects → Handled × Objects
unfolding start_loops handle_url
handle_client api web socket server target token detached objects =
    start_loops socket (api.new_peer detached) detached token objects
      (negotiate false api web detached (handle_url server target) token)
