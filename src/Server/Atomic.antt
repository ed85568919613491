-- ===== src/Server/Atomic.antt =====
-- What a POST comes to, on every branch.
use whet.Server.Registry.{store, new_connection}
use whet.Base.{
  ℕ, ◌≡◌, refl, ◌⊎◌, inl, inr, true, arith, Bytes, codes, Option, Bool-cases, ◌∙◌, ap, subst, [],
  bytes_eq_iff,
}
use whet.Base.Result.{Result, ok, err, Fails, ◌>>=◌}
use whet.Http.{Request, Response, http_error, set_header}
use whet.Server.State.{World, WhetServer}
use whet.Server.Select.{Refusal, authorize, select_target, Selected, is_allowed}
use whet.Server.Handler.{
  Webrtc, cors, post, respond, whet_handler, answered, open_peer, exchange, make_peer, leaving,
}
use whet.Server.Targets.{IsSelected, select-IsSelected}
use whet.Server.Refusals.{Leaves, post-Leaves, IsOther, post-IsOther}

-- What a POST that succeeded has done.
pub record IsPosted (api : Webrtc) (uuid : Bytes) (r : Request) (w : World) (r' : Response)
    (w' : World) : Type 0 where
  pub selected : Selected
  pub peer : ℕ
  pub sdp : Bytes
  pub authorized : authorize w.server r ≡ ok tt
  pub selects : select_target w.server r.path ≡ ok selected
  pub body : Bytes
  pub opened : open_peer api w.server.detached r.content ≡ ok (body, peer)
  pub exchanged : exchange api body peer ≡ ok sdp
  pub response : r' ≡ answered r uuid sdp
  pub world : w' ≡ store uuid (new_connection w.server peer) (make_peer peer w)

when_left {ℓ κ ν} :
    {A : Type ℓ} {B : Type κ} {Q : Type ν} (w : World) (m : Result Refusal A)
    (f : A → Result (Refusal × World) B) {b : B}
    → (leaving w m >>= f) ≡ ok b
    → ((a : A) → m ≡ ok a → f a ≡ ok b → Q)
    → Q
unfolding leaving
when_left w (ok a) f h use_it = use_it a refl h
when_left w (err e) f h use_it = cc

pub post-IsPosted :
    (api : Webrtc) (uuid : Bytes) (r : Request) (w : World) (r' : Response) (w' : World)
    → post api uuid r w ≡ ok (r', w')
    → IsPosted api uuid r w r' w'
unfolding post
post-IsPosted api uuid r w r' w' h = when_left w (authorize w.server r) _ h λ u e1 h1.
    when_left w (select_target w.server r.path) _ h1 λ x e2 h2.
      when_left w (open_peer api w.server.detached r.content) _ h2 λ p e3 h3.
        when_left (make_peer p.1 w) (exchange api p.0 p.1) _ h3 λ sdp e4 h4. record {
          selected = x;
          peer = p.1;
          sdp = sdp;
          authorized = e1;
          selects = e2;
          body = p.0;
          opened = e3;
          exchanged = e4;
          response = ground arith;
          world = ground arith;
        }

answered-status : (r : Request) (uuid sdp : Bytes) → (answered r uuid sdp).status ≡ 200
unfolding answered cors set_header
answered-status r uuid sdp = refl

-- What a POST comes to: it is allowed, names a target and a port of its range, and registers an object
-- with a new peer; or it is refused and nothing has changed; or the exchange has failed, and the
-- peer is left open.
abbrev pub Outcome : Bytes → Request → World → Response × World → Type 0
Outcome uuid r w (r', w') =
    ((r'.status ≡ 200)
      × (is_allowed w.server r ≡ true)
      × ((x : Selected) × (select_target w.server r.path ≡ ok x) × IsSelected w.server x)
      × ((peer : ℕ) × (w' ≡ store uuid (new_connection w.server peer) (make_peer peer w))))
    ⊎ ((((r'.status ≡ 400) ⊎ ((r'.status ≡ 401) ⊎ (r'.status ≡ 500))) × (w' ≡ w))
        ⊎ ((r'.status ≡ 500)
            × (is_allowed w.server r ≡ true)
            × ((peer : ℕ) × (w' ≡ make_peer peer w))))

authorize-is_allowed :
    (s : WhetServer) (r : Request) → authorize s r ≡ ok tt → is_allowed s r ≡ true
unfolding authorize
authorize-is_allowed s r h = elim (Bool-cases (is_allowed s r)) [
  | inl e ↦ e
  | inr e ↦ cc (rw e at h)
]

respond-Outcome :
    (api : Webrtc) (uuid : Bytes) (r : Request) (w : World)
    (m : Result (Refusal × World) (Response × World))
    → post api uuid r w ≡ m
    → Outcome uuid r w (respond m)
unfolding http_error
respond-Outcome api uuid r w (ok (r', w')) e =
    let posted = post-IsPosted api uuid r w r' w' e in
    inl (
      ap (λ (x : Response). x.status) posted.response ∙ answered-status r uuid _,
      authorize-is_allowed w.server r posted.authorized,
      (
        posted.selected,
        posted.selects,
        select-IsSelected w.server r.path posted.selected posted.selects,
      ),
      (posted.peer, posted.world),
    )
respond-Outcome api uuid r w (err (e, w')) p =
    inr (subst (Fails (Leaves r w)) p (post-Leaves api uuid r w))

-- Every POST is answered 200, when it carries the token that is set, if any, and names a registered
-- target and a port of its range, and then registers a new object with a new peer under its UUID; or it is
-- refused with 400, 401 or 500 and the world is as it was; or the exchange has failed, with 500, and all
-- that has changed is that the new peer is left.
pub post_outcomes :
    (api : Webrtc) (parse_uuid : Bytes → Option Bytes) (uuid : Bytes) (r : Request) (w : World)
    → r.method ≡ codes "POST"
    → Outcome uuid r w (whet_handler api parse_uuid uuid r w)
unfolding whet_handler
post_outcomes api parse_uuid uuid r w p =
    rw ((bytes_eq_iff r.method (codes "POST")).1 p)
      (respond-Outcome api uuid r w (post api uuid r w) refl)

respond-open :
    (api : Webrtc) (uuid : Bytes) (r : Request) (w : World)
    (m : Result (Refusal × World) (Response × World))
    → w.server.bearer_token ≡ []
    → post api uuid r w ≡ m
    → let answer = (respond m).0.status in (answer ≡ 200) ⊎ ((answer ≡ 400) ⊎ (answer ≡ 500))
unfolding http_error
respond-open api uuid r w (ok (r', w')) h e = inl (
    ap (λ (x : Response). x.status) (post-IsPosted api uuid r w r' w' e).response
    ∙ answered-status r uuid _)
respond-open api uuid r w (err (e, w')) h p =
    inr (subst (Fails (λ (x : Refusal × World). IsOther x.0)) p (post-IsOther api uuid r w h))

-- A POST to a server without a bearer token.
pub open_post-status :
    (api : Webrtc) (parse_uuid : Bytes → Option Bytes) (uuid : Bytes) (r : Request) (w : World)
    → r.method ≡ codes "POST"
    → w.server.bearer_token ≡ []
    → let answer = (whet_handler api parse_uuid uuid r w).0.status in
      (answer ≡ 200) ⊎ ((answer ≡ 400) ⊎ (answer ≡ 500))
unfolding whet_handler
open_post-status api parse_uuid uuid r w p h =
    rw ((bytes_eq_iff r.method (codes "POST")).1 p)
      (respond-open api uuid r w (post api uuid r w) h refl)
