-- ===== src/Server/Refusals.antt =====
-- The errors that a POST can end in.
use whet.Base.Assoc.{lookup}
use whet.Decimal.{atoi}
use whet.Strings.{split, trim_prefix}
use whet.Base.{
  bytes_eq_iff, ℕ, ◌≡◌, refl, ◌⊎◌, inl, inr, [], ◌∷◌, some, none, true, false, Bytes, Option,
  Bool-cases, List, Bool, Option-cases,
}
use whet.Base.Result.{Fails, Fails-bind, ok, Result, err}
use whet.Http.{Request}
use whet.Server.State.{WhetServer, World}
use whet.Server.Select.{
  Refusal, invalid_target, or_refuse, port_offset, authorize, select_target, is_allowed, whet_path,
  out_of_range,
}
use whet.Server.Handler.{Webrtc, post, require, exchange, open_peer, make_peer, leaving}

abbrev IsServerError : Refusal → Type 0
IsServerError e = e.status ≡ 500

-- What is refused, in the world that was met.
leaving-Fails {ℓ κ μ} :
    {A : Type ℓ} (P : Refusal → Type κ) (Q : Refusal × World → Type μ) (w : World)
    (m : Result Refusal A)
    → Fails P m
    → ((e : Refusal) → P e → Q (e, w))
    → Fails Q (leaving w m)
unfolding leaving
leaving-Fails P Q w (ok a) h k = tt
leaving-Fails P Q w (err e) h k = k e h

or_refuse-Fails {ℓ κ} :
    {A : Type ℓ} (P : Refusal → Type κ) (e : Refusal) (o : Option A) → P e → Fails P (or_refuse e o)
unfolding or_refuse
or_refuse-Fails P e none h = h
or_refuse-Fails P e (some a) h = tt

require-Fails {ℓ} : (P : Refusal → Type ℓ) (b : Bool) (e : Refusal) → P e → Fails P (require b e)
unfolding require
require-Fails P true e h = tt
require-Fails P false e h = h

module _ (P : Refusal → Type 0)
    (bad_request : (message : Bytes) → P (record { message = message; status = 400 }))
    (server_error : (message : Bytes) → P (record { message = message; status = 500 })) where
  port_offset-Fails : (ps : List Bytes) → Fails P (port_offset ps)
  unfolding port_offset
  port_offset-Fails [] = bad_request _
  port_offset-Fails (p ∷ []) = tt
  port_offset-Fails (p ∷ q ∷ []) = elim (Option-cases (atoi q)) [
    | inl e ↦ rw (e, port_offset) (bad_request _)
    | inr (z, e) ↦ rw (e, port_offset) tt
  ]
  port_offset-Fails (p ∷ q ∷ r ∷ ps) = bad_request _

  select-Fails : (s : WhetServer) (path : Bytes) → Fails P (select_target s path)
  unfolding select_target
  select-Fails s path =
      Fails-bind P (port_offset (split b'-' (trim_prefix whet_path path))) _
        (port_offset-Fails (split b'-' (trim_prefix whet_path path)))
        λ d.
          Fails-bind P (or_refuse invalid_target (lookup d.0 s.targets)) _
            (or_refuse-Fails P invalid_target (lookup d.0 s.targets) (bad_request _))
            λ t. elim (Bool-cases (out_of_range d.1 t.port_count)) [
              | inl e ↦ rw e (bad_request _)
              | inr e ↦ rw e tt
            ]

  open_peer-Fails :
      (api : Webrtc) (detached : Bool) (content : Option Bytes)
      → Fails P (open_peer api detached content)
  unfolding open_peer
  open_peer-Fails api detached content =
      Fails-bind P (or_refuse _ content) _ (or_refuse-Fails P _ content (bad_request _)) λ body.
        Fails-bind P (or_refuse _ (api.new_peer detached)) _
          (or_refuse-Fails P _ (api.new_peer detached) (server_error _)) λ peer. tt

  exchange-Fails :
      (api : Webrtc) (body : Bytes) (peer : ℕ) → Fails IsServerError (exchange api body peer)
  unfolding exchange
  exchange-Fails api body peer =
      Fails-bind IsServerError (require (api.set_remote peer body) _) _
        (require-Fails IsServerError (api.set_remote peer body) _ refl)
        λ _.
          Fails-bind IsServerError (or_refuse _ (api.create_answer peer)) _
            (or_refuse-Fails IsServerError _ (api.create_answer peer) refl)
            λ answer.
              Fails-bind IsServerError (require (api.set_local peer answer) _) _
                (require-Fails IsServerError (api.set_local peer answer) _ refl) λ _. tt

  -- A refusal of a POST, with the world that it leaves: the one that was, or, after a failed exchange,
  -- the one with the new peer.
  post-Fails :
      (Q : Refusal × World → Type 0) (api : Webrtc) (uuid : Bytes) (r : Request) (w : World)
      → ((e : Refusal) → P e → Q (e, w))
      → ((peer : ℕ) (e : Refusal) → e.status ≡ 500 → Q (e, make_peer peer w))
      → Fails Q (leaving w (authorize w.server r))
      → Fails Q (post api uuid r w)
  unfolding post
  post-Fails Q api uuid r w early late admitted =
      Fails-bind Q (leaving w (authorize w.server r)) _ admitted λ _.
        Fails-bind Q (leaving w (select_target w.server r.path)) _
          (leaving-Fails P Q w (select_target w.server r.path) (select-Fails w.server r.path) early)
          λ x.
            Fails-bind Q (leaving w (open_peer api w.server.detached r.content)) _
              (leaving-Fails P Q w (open_peer api w.server.detached r.content)
                (open_peer-Fails api w.server.detached r.content) early)
              λ p.
                Fails-bind Q (leaving (make_peer p.1 w) (exchange api p.0 p.1)) _
                  (leaving-Fails IsServerError Q (make_peer p.1 w) (exchange api p.0 p.1)
                    (exchange-Fails api p.0 p.1) (late p.1))
                  λ sdp. tt

-- A refusal of a POST has an error status.
abbrev pub IsRefusal : Refusal → Type 0
IsRefusal e = (e.status ≡ 400) ⊎ ((e.status ≡ 401) ⊎ (e.status ≡ 500))

-- A refusal other than that of the bearer token.
abbrev pub IsOther : Refusal → Type 0
IsOther e = (e.status ≡ 400) ⊎ (e.status ≡ 500)

authorize-allowed : (s : WhetServer) (r : Request) → s.bearer_token ≡ [] → authorize s r ≡ ok tt
unfolding authorize
authorize-allowed s r e = let open_door = (bytes_eq_iff s.bearer_token []).1 e in rw open_door refl

-- A refusal leaves the world as it was, but for the peer of a failed exchange.
abbrev pub Leaves : Request → World → Refusal × World → Type 0
Leaves r w (e, w') =
    (IsRefusal e × (w' ≡ w))
    ⊎ ((e.status ≡ 500) × (is_allowed w.server r ≡ true) × ((peer : ℕ) × (w' ≡ make_peer peer w)))

pub post-Leaves :
    (api : Webrtc) (uuid : Bytes) (r : Request) (w : World) → Fails (Leaves r w) (post api uuid r w)
unfolding post authorize leaving
post-Leaves api uuid r w = elim (Bool-cases (is_allowed w.server r)) [
  | inl a ↦
      post-Fails IsRefusal (λ m. inl refl) (λ m. inr (inr refl)) (Leaves r w) api uuid r w
        (λ e h. inl (h, refl)) (λ peer e h. inr (h, a, (peer, refl))) (rw a tt)
  | inr a ↦ rw (a, post) (inl (inr (inl refl), refl))
]

pub post-IsOther :
    (api : Webrtc) (uuid : Bytes) (r : Request) (w : World)
    → w.server.bearer_token ≡ []
    → Fails (λ x. IsOther x.0) (post api uuid r w)
unfolding leaving
post-IsOther api uuid r w e =
    post-Fails IsOther (λ m. inl refl) (λ m. inr refl) (λ x. IsOther x.0) api uuid r w (λ x h. h)
      (λ peer x h. inr h) (rw (authorize-allowed w.server r e) tt)
