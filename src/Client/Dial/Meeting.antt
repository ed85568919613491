-- ===== src/Client/Dial/Meeting.antt =====
-- A dial whose POST the server's handler answers.
use whet.Server.Lifecycle.{object_at-append}
use whet.Client.Urls.{connection_id-location}
use whet.Strings.{has_prefix}
use whet.Server.Targets.{select_name}
use whet.Server.Registry.{store, new_connection, object_at}
use whet.Server.Select.{whet_path, authorize, or_refuse}
use whet.Base.Assoc.{lookup, insert, lookup-insert}
use whet.Server.State.{World, WhetServer}
use whet.PortSpec.{ForwardTargetPort}
use whet.Client.Dial.{
  Reply, Post, post_of, Url, authorization, negotiate, ask, or_fail, check_that, Peers, Web, Offer,
  prepare, is_success, no_location,
}
use whet.Base.Result.{ok}
use whet.Server.Handler.{
  Webrtc, make_peer, leaving, post, answered, open_peer, exchange, require, whet_handler, cors,
  origin_proto,
}
use whet.Http.{Response, Request, set_header}
use whet.Base.{
  ℕ, Option, Bytes, [], Bool, some, ◌≡◌, codes, true, none, Lacks, ◌++◌, Bool-cases, bytes_eq, refl,
  inl, inr, false, length, ◌∙◌, ap, bytes_eq_self, if◌then◌else◌,
}

-- The request that the server gets for a POST of the client, and what the client reads of the response.
abbrev pub request_of : Bytes → Bytes → Bytes → Post → Request
request_of proto host path p = record {
  method = codes "POST";
  path = path;
  proto = proto;
  host = host;
  authorization = p.authorization;
  content = some p.body;
}

abbrev pub or_empty : Option Bytes → Bytes
or_empty none = []
or_empty (some s) = s

abbrev pub reply_of : Response → Reply
reply_of r = record {
  status = r.status;
  location = or_empty (lookup (codes "Location") r.header);
  body = some r.body;
}

-- The server's pion takes the offer and makes an answer.
pub record IsAnswering (api : Webrtc) (detached : Bool) (offer : Bytes) : Type 0 where
  pub peer : ℕ
  pub answer : Bytes
  pub makes : api.new_peer detached ≡ some peer
  pub takes : api.set_remote peer offer ≡ true
  pub creates : api.create_answer peer ≡ some answer
  pub sets : api.set_local peer answer ≡ true

-- What the server is sent for the token that it holds, it allows.
allows_token :
    (s : WhetServer) (proto host path : Bytes) (p : Post)
    → p.authorization ≡ authorization s.bearer_token
    → authorize s (request_of proto host path p) ≡ ok tt
unfolding authorize
allows_token s proto host path p h = elim (Bool-cases (bytes_eq s.bearer_token [])) [
  | inl e ↦ rw e
  | inr e ↦ rw (e, h, e, bytes_eq_self (codes "Bearer " ++ s.bearer_token))
]

-- The handler answers a POST for a registered name, and stores the object under the UUID it draws.
posted :
    (api : Webrtc) (uuid url proto host name sdp : Bytes) (t : ForwardTargetPort) (w : World)
    → Lacks b'-' name
    → lookup name w.server.targets ≡ some t
    → (a : IsAnswering api w.server.detached sdp)
    → let r = request_of proto host (whet_path ++ name) (post_of url w.server.bearer_token sdp) in
      post api uuid r w
      ≡ ok (
        answered r uuid (api.local_sdp a.peer),
        store uuid (new_connection w.server a.peer) (make_peer a.peer w),
      )
unfolding post leaving open_peer exchange or_refuse require
posted api uuid url proto host name sdp t w lacks found a =
    let p = post_of url w.server.bearer_token sdp in
    rw (
      allows_token w.server proto host (whet_path ++ name) p refl,
      select_name w.server name t lacks found,
      a.makes,
      a.takes,
      a.creates,
      a.sets,
    )

-- The location that the server sends for a UUID.
abbrev pub location_of : Request → Bytes → Bytes
location_of r uuid = origin_proto r ++ (r.host ++ (whet_path ++ uuid))

-- What the client reads of the response to a POST that succeeded.
reply_of-answered :
    (r : Request) (uuid sdp : Bytes)
    → reply_of (answered r uuid sdp)
      ≡ record { status = 200; location = location_of r uuid; body = some sdp }
unfolding answered cors set_header origin_proto lookup insert has_prefix bytes_eq
reply_of-answered r uuid sdp = refl

location_of-ne-nil : (r : Request) (uuid : Bytes) → bytes_eq (location_of r uuid) [] ≡ false
unfolding origin_proto bytes_eq
location_of-ne-nil r uuid = elim (Bool-cases (has_prefix (codes "HTTPS") r.proto)) [
  | inl e ↦ rw e
  | inr e ↦ rw e
]

wanted_or_not :
    (wants_location : Bool) → check_that no_location (if wants_location then true else true) ≡ ok tt
unfolding check_that
wanted_or_not true = refl
wanted_or_not false = refl

module _ (api : Webrtc) (parse_uuid : Bytes → Option Bytes) (uuid proto host url name : Bytes)
    (w : World) where
  -- The request of a POST for the name, and the handler's response and world.
  abbrev pub request : Bytes → Request
  request sdp = request_of proto host (whet_path ++ name) (post_of url w.server.bearer_token sdp)

  abbrev pub served : Bytes → Response × World
  served sdp = whet_handler api parse_uuid uuid (request sdp) w

  pub served-answered :
      (sdp : Bytes) (t : ForwardTargetPort)
      → Lacks b'-' name
      → lookup name w.server.targets ≡ some t
      → (a : IsAnswering api w.server.detached sdp)
      → served sdp ≡ (
        answered (request sdp) uuid (api.local_sdp a.peer),
        store uuid (new_connection w.server a.peer) (make_peer a.peer w),
      )
  unfolding whet_handler bytes_eq
  served-answered sdp t lacks found a =
      rw (posted api uuid url proto host name sdp t w lacks found a)

  -- Composition: a client that holds the server's token and dials a name that the server has registered,
  -- over a network that hands its POST to the server's handler, gets the server's answer and the UUID of
  -- the object that the handler has just stored, which is that of a peer of the server's own.
  pub dial_meets_server :
      (wants_location : Bool) (peers : Peers) (web : Web) (detached : Bool) (t : ForwardTargetPort)
      (offer : Offer) (base ref : Url) (before : Bytes)
      → Lacks b'-' name
      → lookup name w.server.targets ≡ some t
      → (a : IsAnswering api w.server.detached offer.sdp) → prepare peers detached ≡ ok offer
      → web.builds url ≡ true
      → web.send (post_of url w.server.bearer_token offer.sdp)
        ≡ some (reply_of (served offer.sdp).0)
      → web.parse url ≡ some base
      → web.parse (location_of (request offer.sdp) uuid) ≡ some ref
      → ref.path ≡ before ++ (whet_path ++ uuid)
      → Lacks b'/' uuid
      → peers.set_remote offer.peer (api.local_sdp a.peer) ≡ true
      → (negotiate wants_location peers web detached url w.server.bearer_token
          ≡ ok (record {
            offer = offer;
            answered = record {
              id = uuid;
              resource_url = web.resolve base ref;
              answer = api.local_sdp a.peer;
            };
          }))
        × (lookup uuid (served offer.sdp).1.open_connections ≡ some (length w.heap))
        × (object_at (served offer.sdp).1.heap (length w.heap)
            ≡ some (new_connection w.server a.peer))
  unfolding negotiate ask or_fail check_that is_success store
  dial_meets_server wants_location peers web detached t offer base ref before lacks found a prepared
        builds sends parsed located path plain accepts =
      let same = served-answered offer.sdp t lacks found a in
      let reply = reply_of-answered (request offer.sdp) uuid (api.local_sdp a.peer) in
      let received =
        sends ∙ ap (λ (x : Response × World). some (reply_of x.0)) same ∙ ap some reply in
      (
        rw (
          prepared,
          builds,
          received,
          location_of-ne-nil (request offer.sdp) uuid,
          wanted_or_not wants_location,
          located,
          parsed,
          path,
          connection_id-location before uuid plain,
          accepts,
        ),
        rw (same, lookup-insert uuid uuid (length w.heap) w.open_connections, bytes_eq_self uuid),
        rw same (object_at-append w.heap (new_connection w.server a.peer)),
      )
