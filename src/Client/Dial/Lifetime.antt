-- ===== src/Client/Dial/Lifetime.antt =====
-- A dialled connection from the dial to the close, with the server's map.
use whet.Client.Dial.Closing.{dial_close}
use whet.Server.Select.{whet_path}
use whet.Client.{dial_url}
use whet.Client.Dial.Meeting.{
  dial_meets_server, served-answered, IsAnswering, reply_of, served, location_of, request,
}
use whet.Stream.Made.{WebrtcConn, dial_webrtc_conn, dials}
use whet.PortSpec.{ForwardTargetPort}
use whet.Server.Registry.{store}
use whet.Stream.Close.{closed_peer, sent_delete, Client, Closed, close}
use whet.Base.{◌∙◌, ◌∷◌, arith, bytes_eq_iff, Lacks, true, ◌++◌, bytes_eq, false, ap, length}
use whet.Server.Lifecycle.{delete_request, handler_delete, remove-open}
use whet.Base.Assoc.{lookup, insert, lookup-insert}
use whet.Stream.Close.{Effect}
use whet.Server.State.{World}
use whet.Http.{Request, Response}
use whet.Client.Dial.{
  Url, Peers, Web, Opening, Objects, Offer, prepare, ok, post_of, dial_client, authorization,
}
use whet.Server.Handler.{Webrtc, whet_handler}
use whet.Base.{Bytes, Option, ℕ, ◌≡◌, List, some, none, codes, []}

-- The world after the DELETE of a URL that the network hands to the server's handler; `q` has the other
-- fields of the request.
abbrev pub delivered :
    (Request → World → Response × World) → Request → Bytes → Option Url → World → World
delivered handler q token none w = w
delivered handler q token (some u) w =
    (handler (record q { method = codes "DELETE"; path = u.path; authorization = token }) w).1

-- What the handler makes of what a close does.
unfoldable pub deliver :
    (Bytes → Option Url)
    → (Request → World → Response × World)
    → Request
    → List Effect
    → World
    → World
deliver parse handler q [] w = w
deliver parse handler q (closed_peer ∷ es) w = deliver parse handler q es w
deliver parse handler q (sent_delete url token ∷ es) w =
    deliver parse handler q es (delivered handler q token (parse url) w)

deliver-delete :
    (parse : Bytes → Option Url) (handler : Request → World → Response × World) (q : Request)
    (url token uuid : Bytes) (u : Url) (w : World)
    → parse url ≡ some u
    → u.path ≡ whet_path ++ uuid
    → deliver parse handler q (closed_peer ∷ sent_delete url token ∷ []) w
      ≡ (handler (delete_request uuid (record q { authorization = token })) w).1
unfolding deliver
deliver-delete parse handler q url token uuid u w e at = rw (e, at)

-- The map after the DELETE of a UUID that is fresh to the map before the POST.
deleted_again :
    (api : Webrtc) (parse_uuid : Bytes → Option Bytes) (fresh uuid : Bytes) (q : Request)
    (w w' : World) (place : ℕ) (j : Bytes)
    → parse_uuid uuid ≡ some uuid
    → lookup uuid w.open_connections ≡ none
    → w'.open_connections ≡ insert uuid place w.open_connections
    → lookup j (whet_handler api parse_uuid fresh (delete_request uuid q) w').1.open_connections
      ≡ lookup j w.open_connections
deleted_again api parse_uuid fresh uuid q w w' place j hp hf same =
    rw (handler_delete api parse_uuid uuid fresh q w' hp) (
      remove-open uuid w' j
      ∙ rw same
          (ground (arith, hf, lookup-insert uuid j place w.open_connections, bytes_eq_iff uuid j)))

module _ (api : Webrtc) (parse_uuid : Bytes → Option Bytes)
    (uuid proto host server target name : Bytes) (w : World) where
  -- From the dial to the close: a client that holds the server's token dials a name that the server has
  -- registered, and gets a connection. When it closes it, and the network hands the DELETE to the
  -- server's handler, `OpenConnections` of the server is as it was before the dial, whatever has
  -- happened to the objects in the meantime, if the UUID was fresh.
  pub dial_lifetime :
      (peers : Peers) (web : Web) (o : Opening) (objects : Objects) (t : ForwardTargetPort)
      (offer : Offer) (base ref u : Url) (before fresh : Bytes) (q : Request) (c : WebrtcConn)
      (client : Client) (amount : ℕ → ℕ) (later : World)
      → Lacks b'-' name
      → lookup name w.server.targets ≡ some t
      → (a : IsAnswering api w.server.detached offer.sdp) → prepare peers true ≡ ok offer
      → web.builds (dial_url server target) ≡ true
      → web.send (post_of (dial_url server target) w.server.bearer_token offer.sdp)
        ≡ some (
            reply_of
              (served api parse_uuid uuid proto host (dial_url server target) name w offer.sdp).0)
      → web.parse (dial_url server target) ≡ some base
      → web.parse (
          location_of
            (request api parse_uuid uuid proto host (dial_url server target) name w offer.sdp)
            uuid)
        ≡ some ref
      → ref.path ≡ before ++ (whet_path ++ uuid)
      → Lacks b'/' uuid
      → peers.set_remote offer.peer (api.local_sdp a.peer) ≡ true
      → dial_webrtc_conn
          (dial_client peers web o server target w.server.bearer_token true objects).0
        ≡ dials c
      → bytes_eq (web.resolve base ref) [] ≡ false
      → client.builds (web.resolve base ref) ≡ true
      → web.parse (web.resolve base ref) ≡ some u
      → u.path ≡ whet_path ++ uuid
      → parse_uuid uuid ≡ some uuid
      → lookup uuid w.open_connections ≡ none
      → later.open_connections
        ≡ (served api parse_uuid uuid proto host
            (dial_url server target)
            name
            w
            offer.sdp).1.open_connections
      → (r : Closed) × (close client amount c.conn ≡ some r)
        × ((j : Bytes)
            → lookup j
                (deliver web.parse
                  (whet_handler api parse_uuid fresh)
                  q
                  r.effects
                  later).open_connections
              ≡ lookup j w.open_connections)
  unfolding store
  dial_lifetime peers web o objects t offer base ref u before fresh q c client amount later lacks
        found a prepared builds sends parsed located path plain accepts returned nonempty buildable
        resolved at parses unused kept =
      let url = dial_url server target in
      let token = w.server.bearer_token in
      let met =
        dial_meets_server api parse_uuid uuid proto host url name w true peers web true t offer base
          ref before lacks found a prepared builds sends parsed located path plain accepts in
      let (_, _, (r, closes, effects)) =
        dial_close peers web o server target token objects _ c client amount met.0 returned nonempty
          buildable in
      let stored =
        ap (λ (x : Response × World). x.1.open_connections)
          (served-answered api parse_uuid uuid proto host url name w offer.sdp t lacks found a) in
      (
        r,
        closes,
        λ j.
            rw
              (
                effects,
                deliver-delete web.parse (whet_handler api parse_uuid fresh) q
                    (web.resolve base ref) (authorization token) uuid u later resolved at,
              )
              (deleted_again api parse_uuid fresh uuid
                (record q { authorization = authorization token }) w later (length w.heap) j parses
                unused (kept ∙ stored)),
      )
