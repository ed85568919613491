-- ===== src/Server/Front/Refined.antt =====
-- What a sequence of HTTP requests to the whole server does to `OpenConnections`.
use whet.Base.{
  arith, ℕ, ◌≡◌, refl, true, Bool-cases, inl, inr, Bytes, Option, none, some, codes, List, [], ◌∷◌,
  All, subst, Bool, false, if◌then◌else◌,
}
use whet.Strings.{has_prefix}
use whet.Http.{Request}
use whet.Server.State.{World, ProxyTarget}
use whet.Server.Sound.{IsSound}
use whet.Server.Handler.{Webrtc, whet_handler}
use whet.Server.Routes.{
  Route, proxies, signals, not_found, health, serves, Mux, configure_signal_server,
}
use whet.Server.Routes.Own.{Holds, signals-whet}
use whet.Server.Routing.{configure-AreDistinct}
use whet.Server.Abstract.{serve_requests, view, replay}
use whet.Server.Abstract.Refinement.{serve_refines}
use whet.Server.Front.{
  Backends, serve_http, dispatch, after_choice, matches, ends_in_slash, IsServeMux,
}

-- A request, with the UUID that it would draw and the time at which it is served.
pub record Arrival : Type 0 where
  pub uuid : Bytes
  pub now : ℕ
  pub request : Request

abbrev is_signal : Option (Bytes × Route) → Bool
is_signal none = false
is_signal (some (p, signals)) = true
is_signal (some (p, proxies target)) = false
is_signal (some (p, not_found)) = false
is_signal (some (p, health)) = false
is_signal (some (p, serves folder)) = false

-- Those for which the mux chooses the signal handler.
abbrev pub signalled : Backends → Mux → List Arrival → List (Bytes × Request)
signalled back mux [] = []
signalled back mux (a ∷ qs) =
    let rest = signalled back mux qs in
    if is_signal (back.choose mux a.request.path) then (a.uuid, a.request) ∷ rest else rest

module _ (back : Backends) (api : Webrtc) (parse_uuid : Bytes → Option Bytes) (mux : Mux) where
  -- The requests in order.
  unfoldable pub serve_all : List Arrival → World → World
  unfolding serve_http
  serve_all [] w = w
  serve_all (a ∷ qs) w =
      serve_all qs (serve_http back api parse_uuid a.uuid a.now mux a.request w).1

  after_choice-world :
      (a : Arrival) (o : Option (Bytes × Route)) (w : World)
      → (after_choice back api parse_uuid a.uuid a.now o a.request w).1
        ≡ (if is_signal o then (whet_handler api parse_uuid a.uuid a.request w).1 else w)
  unfolding after_choice dispatch
  after_choice-world a none w = refl
  after_choice-world a (some (p, signals)) w = refl
  after_choice-world a (some (p, proxies target)) w = refl
  after_choice-world a (some (p, not_found)) w = refl
  after_choice-world a (some (p, health)) w = refl
  after_choice-world a (some (p, serves folder)) w = refl

  serve_all-signalled :
      (qs : List Arrival) (w : World)
      → serve_all qs w ≡ serve_requests api parse_uuid (signalled back mux qs) w
  unfolding serve_all serve_http serve_requests
  serve_all-signalled [] w = refl
  serve_all-signalled (a ∷ qs) w = elim (Bool-cases (is_signal (back.choose mux a.request.path))) [
    | inl e ↦
        rw (e, after_choice-world a (back.choose mux a.request.path) w, e)
          (serve_all-signalled qs _)
    | inr e ↦
        rw (e, after_choice-world a (back.choose mux a.request.path) w, e)
          (serve_all-signalled qs w)
  ]

  module _ (docs : IsServeMux back.choose back.clean) (ps : List ProxyTarget) (fs : List Bytes)
      (made : configure_signal_server back.refuses ps fs ≡ some mux) where
    signal-whet :
        (path : Bytes) (o : Option (Bytes × Route))
        → back.choose mux path ≡ o
        → is_signal o ≡ true
        → has_prefix (codes "/whet/") path ≡ true
    unfolding matches ends_in_slash
    signal-whet path none e h = absurd (ground (arith, h))
    signal-whet path (some (p, proxies target)) e h = absurd (ground (arith, h))
    signal-whet path (some (p, not_found)) e h = absurd (ground (arith, h))
    signal-whet path (some (p, health)) e h = absurd (ground (arith, h))
    signal-whet path (some (p, serves folder)) e h = absurd (ground (arith, h))
    signal-whet path (some (p, signals)) e h =
        let same = (configure-AreDistinct back.refuses ps fs mux made).1 in
        let found =
          subst (λ (x : Mux). Holds p signals x) same (docs.registered mux path p signals e) in
        let whet = signals-whet p ps fs found in rw whet at (docs.matching mux path p signals e)

    signalled-whet :
        (qs : List Arrival)
        → All (λ q. has_prefix (codes "/whet/") q.1.path ≡ true) (signalled back mux qs)
    signalled-whet [] = tt
    signalled-whet (a ∷ qs) = elim (Bool-cases (is_signal (back.choose mux a.request.path))) [
      | inl e ↦
          rw e
            (signal-whet a.request.path (back.choose mux a.request.path) refl e, signalled-whet qs)
      | inr e ↦ rw e (signalled-whet qs)
    ]

    -- From a sound world, any sequence of HTTP requests to a server, whatever its targets and folders,
    -- leaves a sound world, and does to `OpenConnections` and to the sockets what those of the
    -- requests that the mux hands to the signal handler do to the abstract registry, in which there
    -- are no places and no heap; all of these have a path below "/whet/".
    pub front_refines :
        (qs : List Arrival) (w : World)
        → IsSound w
        → IsSound (serve_all qs w)
          × (view (serve_all qs w)
              ≡ replay api parse_uuid w.server (signalled back mux qs) (view w))
          × All (λ q. has_prefix (codes "/whet/") q.1.path ≡ true) (signalled back mux qs)
    front_refines qs w s =
        let (sound, same) = serve_refines api parse_uuid (signalled back mux qs) w s in
        rw (serve_all-signalled qs w) (sound, same, signalled-whet qs)
