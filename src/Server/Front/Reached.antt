-- ===== src/Server/Front/Reached.antt =====
-- Which handler a request reaches, and which requests change anything.
use whet.Base.{
  ℕ, ◌≡◌, ◌≢◌, ◌≤◌, refl, arith, true, false, Bool-cases, inl, inr, ◌⊎◌, Bytes, Option,
  Option-cases, some, codes, length, bytes_eq, bytes_eq_iff, ap, ◌∙◌, List, [], ◌∷◌, ◌++◌, sym,
  subst, Lacks, ==_iff,
}
use whet.Strings.{has_prefix}
use whet.Http.{Request, Response}
use whet.Server.State.{World, ProxyTarget}
use whet.Server.Guards.{intruder_refused}
use whet.Server.Health.{health_handler}
use whet.Server.Handler.{Webrtc, whet_handler}
use whet.Server.Routes.{
  Route, proxies, signals, not_found, health, serves, Mux, routes, configure_signal_server,
  subdomain_pattern,
}
use whet.Server.Routes.Own.{
  Holds, Holds-unique, signals-whet, health-Holds, proxies-Holds, IsTarget,
}
use whet.Server.Routing.{configure-AreDistinct, proxied_path-sub}
use whet.Server.Front.{
  Backends, answers, serve_http, dispatch, after_choice, matches, ends_in_slash, IsServeMux,
  proxy_to,
}

has_prefix-whole : (p s : Bytes) → has_prefix p s ≡ true → length s ≤ length p → p ≡ s
unfolding has_prefix
has_prefix-whole [] [] h k = refl
has_prefix-whole [] (d ∷ s) h k = absurd (omega arith)
has_prefix-whole (c ∷ p) [] h k = absurd (ground (arith, h))
has_prefix-whole (c ∷ p) (d ∷ s) h k = ground (arith, ==_iff c d, has_prefix-whole p s, h, k)

matches-whole : (p s : Bytes) → matches p s ≡ true → length s ≤ length p → p ≡ s
unfolding matches
matches-whole p s h k = elim (Bool-cases (ends_in_slash p)) [
  | inl e ↦ has_prefix-whole p s (rw e at h) k
  | inr e ↦ (bytes_eq_iff p s).0 (rw e at h)
]

module _ (back : Backends) (docs : IsServeMux back.choose back.clean) (api : Webrtc)
    (parse_uuid : Bytes → Option Bytes) (uuid : Bytes) (now : ℕ) (ps : List ProxyTarget)
    (fs : List Bytes) (mux : Mux)
    (made : configure_signal_server back.refuses ps fs ≡ some mux) where
  -- A path that is registered as it stands gets its own route.
  chooses :
      (path : Bytes) (s : Route)
      → Holds path s (routes ps fs)
      → matches path path ≡ true
      → back.clean path ≡ path
      → back.choose mux path ≡ some (path, s)
  chooses path s h m c =
      let (distinct, same) = configure-AreDistinct back.refuses ps fs mux made in
      let here = subst (λ (x : Mux). Holds path s x) (sym same) h in
      elim (Option-cases (back.choose mux path)) [
        | inl e ↦ absurd (docs.direct_hit mux path s here c e)
        | inr ((p, r), e) ↦
            let whole =
              matches-whole p path (docs.matching mux path p r e)
                (docs.longest mux path p path r s e here m) in
            let found = subst (λ (x : Mux). Holds p r x) same (docs.registered mux path p r e) in
            let route =
              Holds-unique path r s (routes ps fs) distinct
                (subst (λ (x : Bytes). Holds x r (routes ps fs)) whole found) h in
            e ∙ rw (whole, route) refl
      ]

  -- Whatever targets and folders a server has, a request for "/api/health" is answered by the health
  -- handler and changes nothing.
  pub health_reached :
      (r : Request) (w : World)
      → r.path ≡ codes "/api/health"
      → back.clean (codes "/api/health") ≡ codes "/api/health"
      → serve_http back api parse_uuid uuid now mux r w ≡ (answers (health_handler now r), w)
  unfolding serve_http after_choice dispatch matches ends_in_slash bytes_eq
  health_reached r w p c =
      rw (p, chooses (codes "/api/health") health (health-Holds ps fs) refl c) refl

  -- A request for "/sub/rest" that is chosen for the proxy target `sub` asks the target for "/rest", under
  -- the host of the target, and changes nothing.
  pub target_reached :
      (r : Request) (w : World) (t : ProxyTarget) (route : Route) (rest host : Bytes)
      → IsTarget t ps
      → Lacks b'/' t.subdomain
      → r.path ≡ b'/' ∷ (t.subdomain ++ b'/' ∷ rest)
      → back.choose mux r.path ≡ some (subdomain_pattern t.subdomain, route)
      → back.target_host t.address ≡ some host
      → serve_http back api parse_uuid uuid now mux r w
        ≡ (answers (back.forward (record r { path = b'/' ∷ rest; host = host })), w)
  unfolding serve_http after_choice dispatch proxy_to
  target_reached r w t route rest host h l p e g =
      let (distinct, same) = configure-AreDistinct back.refuses ps fs mux made in
      let found =
        subst (λ (x : Mux). Holds (subdomain_pattern t.subdomain) route x) same
          (docs.registered mux r.path (subdomain_pattern t.subdomain) route e) in
      let its =
        Holds-unique (subdomain_pattern t.subdomain) route (proxies t.address) (routes ps fs)
          distinct found (proxies-Holds t ps fs h) in
      rw (e, its, g, p, proxied_path-sub t.subdomain rest l) refl

  -- The only requests that can change anything: under "/whet/", and either DELETE, or without a token to
  -- ask for, or with the token.
  abbrev pub IsHarmless : Request → World → Type 0
  IsHarmless r w =
      (has_prefix (codes "/whet/") r.path ≡ false)
      ⊎ ((r.method ≢ codes "DELETE")
          × (w.server.bearer_token ≢ [])
          × (r.authorization ≢ codes "Bearer " ++ w.server.bearer_token))

  harmless_signal :
      (r : Request) (w : World)
      → r.method ≢ codes "DELETE"
      → w.server.bearer_token ≢ []
      → r.authorization ≢ codes "Bearer " ++ w.server.bearer_token
      → (whet_handler api parse_uuid uuid r w).1 ≡ w
  unfolding whet_handler
  harmless_signal r w d b a = elim (Bool-cases (bytes_eq r.method (codes "POST"))) [
    | inl e ↦
        ap (λ (x : Response × World). x.1)
          (intruder_refused api parse_uuid uuid r w
            (record { posts = (bytes_eq_iff r.method (codes "POST")).0 e; guarded = b; wrong = a }))
    | inr e ↦ elim (Bool-cases (bytes_eq r.method (codes "DELETE"))) [
      | inl f ↦ absurd (d ((bytes_eq_iff r.method (codes "DELETE")).0 f))
      | inr f ↦ elim (Bool-cases (bytes_eq r.method (codes "OPTIONS"))) [
        | inl g ↦ rw (e, f, g) refl
        | inr g ↦ rw (e, f, g) refl
      ]
    ]
  ]

  signal_unchanged :
      (r : Request) (w : World) (p : Bytes)
      → IsHarmless r w
      → Holds p signals mux
      → matches p r.path ≡ true
      → (whet_handler api parse_uuid uuid r w).1 ≡ w
  unfolding matches ends_in_slash
  signal_unchanged r w p (inl outside) h m =
      let same = (configure-AreDistinct back.refuses ps fs mux made).1 in
      let whet = signals-whet p ps fs (subst (λ (x : Mux). Holds p signals x) same h) in
      absurd (ground (arith, outside, rw whet at m))
  signal_unchanged r w p (inr (d, b, a)) h m = harmless_signal r w d b a

  dispatch_unchanged :
      (r : Request) (w : World) (p : Bytes) (route : Route)
      → IsHarmless r w
      → Holds p route mux
      → matches p r.path ≡ true
      → (dispatch back api parse_uuid uuid now p route r w).1 ≡ w
  unfolding dispatch
  dispatch_unchanged r w p (proxies target) i h m = refl
  dispatch_unchanged r w p signals i h m = signal_unchanged r w p i h m
  dispatch_unchanged r w p not_found i h m = refl
  dispatch_unchanged r w p health i h m = refl
  dispatch_unchanged r w p (serves folder) i h m = refl

  -- Whatever targets and folders a server has, a request changes nothing if its path is not below "/whet/",
  -- or if a bearer token is set, the request does not carry it, and it is no DELETE.
  pub front_unchanged :
      (r : Request) (w : World)
      → IsHarmless r w
      → (serve_http back api parse_uuid uuid now mux r w).1 ≡ w
  unfolding serve_http after_choice
  front_unchanged r w i = elim (Option-cases (back.choose mux r.path)) [
    | inl e ↦ rw e refl
    | inr ((p, route), e) ↦
        rw (e, after_choice)
          (dispatch_unchanged r w p route i (docs.registered mux r.path p route e)
            (docs.matching mux r.path p route e))
  ]
