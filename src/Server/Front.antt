-- ===== src/Server/Front.antt =====
-- pkg/server.go, `configureSignalServer`: what a server answers, by the routes of its mux. The choice of
-- `http.ServeMux`, the reverse proxy, the file server and `url.Parse` are parameters.
pub mod Reached
pub mod Picking
pub mod Refined
mod Tests
use whet.Base.{
  ℕ, ◌≡◌, ◌≢◌, ◌≤◌, true, Bytes, Option, none, some, codes, length, bytes_eq, if◌then◌else◌, Bool,
  [], ◌∷◌, false, ◌==◌,
}
use whet.Strings.{has_prefix, trim_prefix}
use whet.Http.{Request, Response, blank, set_header, http_error}
use whet.Server.State.{World}
use whet.Server.Routes.{
  Route, proxies, signals, not_found, health, serves, Mux, Refuses, proxied_path,
}
use whet.Server.Routes.Own.{Holds}
use whet.Server.Health.{health_handler}
use whet.Server.Handler.{Webrtc, whet_handler}

pub record Backends : Type 0 where
  -- The pattern and the handler that the mux chooses for a path; `none` if it redirects the request.
  pub choose : Mux → Bytes → Option (Bytes × Route)
  -- Which patterns the mux refuses though they are not registered.
  pub refuses : Refuses
  -- The cleaned path, with which the mux compares a path to redirect it.
  pub clean : Bytes → Bytes
  -- The host of `url.Parse("http://" + target)`, `none` for an error.
  pub target_host : Bytes → Option Bytes
  -- What comes back from a target for the request that the director has changed.
  pub forward : Request → Response
  -- What the file server of a folder writes on a response.
  pub serve_file : Bytes → Request → Response → Response

pub data Reply : Type 0 where
  answers : Response → Reply
  -- The mux answers with the place of the same path, cleaned or with a slash behind it.
  redirects : Reply
  -- The handler panics, and the connection is dropped.
  drops : Reply

-- The director of the reverse proxy; a target that is no URL makes it dereference nil.
abbrev pub direct : Bytes → Request → Request
direct host r = record r { path = proxied_path r.path; host = host }

unfoldable pub proxy_to : Backends → Option Bytes → Request → Reply
proxy_to back none r = drops
proxy_to back (some host) r = answers (back.forward (direct host r))

-- `http.StripPrefix(pattern, wrappedFs)`.
unfoldable pub serve_folder : Backends → Bytes → Bytes → Request → Response
unfolding set_header
serve_folder back pattern folder r =
    let allowed = set_header (codes "Service-Worker-Allowed") (codes "/whet/") blank in
    back.serve_file folder (record r { path = trim_prefix pattern r.path }) allowed

module _ (back : Backends) (api : Webrtc) (parse_uuid : Bytes → Option Bytes) (uuid : Bytes)
    (now : ℕ) where
  -- The handler of a route.
  unfoldable pub dispatch : Bytes → Route → Request → World → Reply × World
  unfolding proxy_to serve_folder whet_handler http_error health_handler
  dispatch pattern (proxies target) r w = (proxy_to back (back.target_host target) r, w)
  dispatch pattern signals r w =
      let done = whet_handler api parse_uuid uuid r w in (answers done.0, done.1)
  dispatch pattern not_found r w = (answers (http_error (codes "404 page not found") 404 blank), w)
  dispatch pattern health r w = (answers (health_handler now r), w)
  dispatch pattern (serves folder) r w = (answers (serve_folder back pattern folder r), w)

  after_choice : Option (Bytes × Route) → Request → World → Reply × World
  unfolding dispatch
  after_choice none r w = (redirects, w)
  after_choice (some (pattern, route)) r w = dispatch pattern route r w

  -- `ws.Mux.ServeHTTP`.
  unfoldable pub serve_http : Mux → Request → World → Reply × World
  unfolding after_choice
  serve_http mux r w = after_choice (back.choose mux r.path) r w

ends_in_slash : Bytes → Bool
ends_in_slash [] = false
ends_in_slash (c ∷ []) = c == b'/'
ends_in_slash (c ∷ d ∷ s) = ends_in_slash (d ∷ s)

-- A pattern that ends in a slash is for all paths that begin with it, and another one for its own path.
unfoldable pub matches : Bytes → Bytes → Bool
unfolding ends_in_slash has_prefix
matches pattern path =
    if ends_in_slash pattern then has_prefix pattern path else bytes_eq pattern path

-- `http.ServeMux`: the choice is registered, it matches the path, and no longer pattern that is registered
-- does. A request is not redirected if its path is registered as it stands and is clean.
pub record IsServeMux (choose : Mux → Bytes → Option (Bytes × Route)) (clean : Bytes → Bytes)
    : Type 0 where
  pub registered :
      (mux : Mux) (path p : Bytes) (r : Route) → choose mux path ≡ some (p, r) → Holds p r mux
  pub matching :
      (mux : Mux) (path p : Bytes) (r : Route)
      → choose mux path ≡ some (p, r)
      → matches p path ≡ true
  pub longest :
      (mux : Mux) (path p q : Bytes) (r s : Route)
      → choose mux path ≡ some (p, r)
      → Holds q s mux
      → matches q path ≡ true
      → length q ≤ length p
  pub direct_hit :
      (mux : Mux) (path : Bytes) (s : Route)
      → Holds path s mux
      → clean path ≡ path
      → choose mux path ≢ none
