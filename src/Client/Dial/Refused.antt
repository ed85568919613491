-- ===== src/Client/Dial/Refused.antt =====
-- A client without the server's token.
use whet.Base.{ℕ, Bool, ◌≡◌, ◌≢◌, refl, ap, ◌∙◌, [], ◌++◌, Option, some, Bytes, codes, true, false}
use whet.Base.Result.{ok, err}
use whet.Http.{Response, http_error, blank}
use whet.Stream.Close.{authorization}
use whet.Server.State.{World}
use whet.Server.Guards.{intruder_refused}
use whet.Server.Handler.{Webrtc, whet_handler, cors}
use whet.Client.{dial_url, handle_url, is_success}
use whet.Client.Dial.{
  Peers, Web, Post, post_of, Offer, prepare, ask, negotiate, or_fail, check_that, bad_status,
  Objects, Opening, fails_with, finish, dial_client, drops, start_loops, handle_client,
}
use whet.Client.Dial.Meeting.{request_of, reply_of}

-- The network hands a POST of a client to the handler, and its response back.
abbrev pub Delivers :
    Web → Webrtc → (Bytes → Option Bytes) → Bytes → Bytes → Bytes → Bytes → World → Post → Type 0
Delivers web api parse_uuid uuid proto host path w p =
    web.send p
    ≡ some (reply_of (whet_handler api parse_uuid uuid (request_of proto host path p) w).0)

module _ (api : Webrtc) (parse_uuid : Bytes → Option Bytes) (uuid proto host path : Bytes)
    (w : World) (peers : Peers) (web : Web) (token : Bytes) (offer : Offer)
    (guarded : w.server.bearer_token ≢ [])
    (wrong : authorization token ≢ codes "Bearer " ++ w.server.bearer_token) where
  refused-served :
      (url : Bytes)
      → whet_handler api parse_uuid uuid
          (request_of proto host path (post_of url token offer.sdp))
          w
        ≡ (http_error (codes "Unauthorized") 401 (cors blank), w)
  refused-served url =
      intruder_refused api parse_uuid uuid
        (request_of proto host path (post_of url token offer.sdp)) w
        (record { posts = refl; guarded = guarded; wrong = wrong })

  refused-negotiate :
      (wants_location detached : Bool) (url : Bytes)
      → prepare peers detached ≡ ok offer
      → web.builds url ≡ true
      → Delivers web api parse_uuid uuid proto host path w (post_of url token offer.sdp)
      → negotiate wants_location peers web detached url token ≡ err (bad_status 401)
  unfolding negotiate ask or_fail check_that is_success http_error
  refused-negotiate wants_location detached url prepared builds sends =
      let answer = refused-served url in
      let received = sends ∙ ap (λ (x : Response × World). some (reply_of x.0)) answer in
      rw (prepared, builds, received) refl

  -- A client whose token is not the one that the server has set, over a network that hands its POST to the
  -- server's handler: a dial fails with the status 401, a port forward closes its socket and its peer,
  -- neither registers an object, and the server's world stays as it was.
  pub token_refused :
      (o : Opening) (socket : ℕ) (server target : Bytes) (detached : Bool) (objects : Objects)
      → prepare peers detached ≡ ok offer
      → web.builds (dial_url server target) ≡ true
      → web.builds (handle_url server target) ≡ true
      → Delivers web api parse_uuid uuid proto host path w
          (post_of (dial_url server target) token offer.sdp)
      → Delivers web api parse_uuid uuid proto host path w
          (post_of (handle_url server target) token offer.sdp)
      → (dial_client peers web o server target token detached objects
          ≡ (fails_with (bad_status 401), objects))
        × (handle_client peers web socket server target token detached objects
            ≡ (drops socket (peers.new_peer detached), objects))
        × ((whet_handler api parse_uuid uuid
              (request_of proto host path (post_of (dial_url server target) token offer.sdp))
              w).1
            ≡ w)
        × ((whet_handler api parse_uuid uuid
              (request_of proto host path (post_of (handle_url server target) token offer.sdp))
              w).1
            ≡ w)
  unfolding dial_client finish handle_client start_loops
  token_refused o socket server target detached objects prepared builds builds' sends sends' = (
    rw (refused-negotiate true detached (dial_url server target) prepared builds sends) refl,
    rw (refused-negotiate false detached (handle_url server target) prepared builds' sends') refl,
    ap (λ (x : Response × World). x.1) (refused-served (dial_url server target)),
    ap (λ (x : Response × World). x.1) (refused-served (handle_url server target)),
  )
