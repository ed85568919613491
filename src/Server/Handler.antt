-- ===== src/Server/Handler.antt =====
-- pkg/server.go: `WhetHandler`, from a request and the world to a response and the world.
use whet.Base.{
  ℕ, Bool, true, false, ◌++◌, Option, none, some, Bytes, codes, bytes_eq, if◌then◌else◌, ◌∷◌, [],
}
use whet.Base.Result.{Result, ok, err, ◌>>=◌}
use whet.Strings.{trim_prefix, has_prefix}
use whet.Http.{Request, Response, blank, set_header, http_error}
use whet.Server.State.{World}
use whet.Server.Select.{Refusal, whet_path, or_refuse, authorize, select_target}
use whet.Server.Registry.{new_connection, store, remove_connection}

-- The pion calls of a POST, each by its result. A peer is a handle.
pub record Webrtc : Type 0 where
  pub new_peer : Bool → Option ℕ
  pub set_remote : ℕ → Bytes → Bool
  pub create_answer : ℕ → Option Bytes
  pub set_local : ℕ → Bytes → Bool
  pub local_sdp : ℕ → Bytes

-- The headers that every response of the handler carries.
unfoldable pub cors : Response → Response
unfolding set_header
cors w = set_header (codes "Access-Control-Expose-Headers") (codes "Location") (
    set_header (codes "Access-Control-Allow-Credentials") (codes "true") (
      set_header (codes "Access-Control-Allow-Headers") (codes "Content-Type, Authorization") (
        set_header (codes "Access-Control-Allow-Methods") (codes "POST, GET, OPTIONS")
          (set_header (codes "Access-Control-Allow-Origin") (codes "*") w))))

unfoldable pub origin_proto : Request → Bytes
origin_proto r = if has_prefix (codes "HTTPS") r.proto then codes "https://" else codes "http://"

abbrev internal : Bytes → Refusal
internal message = record { message = message; status = 500 }

unfoldable pub require : Bool → Refusal → Result Refusal (Unit {0})
require true e = ok tt
require false e = err e

-- The request's body, and a new peer.
unfoldable pub open_peer : Webrtc → Bool → Option Bytes → Result Refusal (Bytes × ℕ)
unfolding or_refuse
open_peer api detached content = do
  body ← or_refuse (record { message = codes "Failed to read body"; status = 400 }) content
  peer ← or_refuse (internal (codes "Failed to create peer connection")) (api.new_peer detached)
  ok (body, peer)

-- The exchange of the offer for the answer, and the local description that is sent back.
unfoldable pub exchange : Webrtc → Bytes → ℕ → Result Refusal Bytes
unfolding or_refuse require
exchange api body peer = do
  _ ← require (api.set_remote peer body) (internal (codes "Failed to set remote description"))
  answer ← or_refuse (internal (codes "Failed to create answer")) (api.create_answer peer)
  _ ← require (api.set_local peer answer) (internal (codes "Failed to set local description"))
  ok (api.local_sdp peer)

-- The response to a POST that succeeded.
unfoldable pub answered : Request → Bytes → Bytes → Response
unfolding set_header
answered r uuid sdp =
    let location = origin_proto r ++ (r.host ++ (whet_path ++ uuid)) in
    let headed =
      set_header (codes "Content-Type") (codes "application/sdp")
        (set_header (codes "Location") location (cors blank)) in
    record headed { body = sdp }

-- A step that is refused leaves the world that it met.
unfoldable pub leaving {ℓ} : {A : Type ℓ} → World → Result Refusal A → Result (Refusal × World) A
leaving w (ok a) = ok a
leaving w (err e) = err (e, w)

-- The world with the peer that `setupWebRTCConnection` has made.
abbrev pub make_peer : ℕ → World → World
make_peer peer w = record w { peers = w.peers ++ peer ∷ [] }

-- A failed exchange does not close the peer.
unfoldable pub post : Webrtc → Bytes → Request → World → Result (Refusal × World) (Response × World)
unfolding leaving
post api uuid r w = do
  _ ← leaving w (authorize w.server r)
  selected ← leaving w (select_target w.server r.path)
  (body, peer) ← leaving w (open_peer api w.server.detached r.content)
  sdp ← leaving (make_peer peer w) (exchange api body peer)
  ok (answered r uuid sdp, store uuid (new_connection w.server peer) (make_peer peer w))

-- The handler of DELETE; the first argument is `uuid.Parse`, with the text of the parsed UUID.
unfoldable pub delete_peer : (Bytes → Option Bytes) → Request → World → Response × World
delete_peer parse_uuid r w = elim (parse_uuid (trim_prefix whet_path r.path)) [
  | none ↦ (cors blank, w)
  | some id ↦ (cors blank, remove_connection id w)
]

-- A refusal as the response that it writes, with the world that it leaves.
abbrev pub respond : Result (Refusal × World) (Response × World) → Response × World
respond (ok done) = done
respond (err (e, w)) = (http_error e.message e.status (cors blank), w)

-- `WhetHandler`. The third argument is the text of the UUID that a POST draws.
unfoldable pub whet_handler :
    Webrtc → (Bytes → Option Bytes) → Bytes → Request → World → Response × World
whet_handler api parse_uuid uuid r w =
    if bytes_eq r.method (codes "POST")
    then respond (post api uuid r w)
    else if bytes_eq r.method (codes "DELETE")
    then delete_peer parse_uuid r w
    else if bytes_eq r.method (codes "OPTIONS")
    then (cors blank, w)
    else (http_error (codes "Method not allowed you doink!") 405 (cors blank), w)
