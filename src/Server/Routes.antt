-- ===== src/Server/Routes.antt =====
-- pkg/server.go, `configureSignalServer`, `NewWhetServer` and the director of the reverse proxy.
-- The `http.ServeMux` is the list of its registrations. A pattern that is registered twice makes
-- `Handle` panic, which is `none`. So does one that the mux refuses for another reason, such as a blank, a
-- brace or a conflict of wildcards; for which patterns that is, is the parameter `refuses`.
pub mod Own
use whet.Base.{
  Bool, false, ◌||◌, List, [], ◌∷◌, ◌++◌, Option, none, some, Bytes, codes, bytes_eq, if◌then◌else◌,
}
use whet.Base.Assoc.{Assoc}
use whet.Strings.{split, join, trim}
use whet.PortSpec.{ForwardTargetPort}
use whet.Server.State.{ProxyTarget, WhetServer}

pub data Route : Type 0 where
  proxies : Bytes → Route
  signals not_found health : Route
  serves : Bytes → Route

abbrev pub Mux : Type 0
Mux = List (Bytes × Route)

-- `fmt.Sprintf("/%s/", subdomain)`.
abbrev pub subdomain_pattern : Bytes → Bytes
subdomain_pattern subdomain = b'/' ∷ (subdomain ++ b'/' ∷ [])

unfoldable pub is_registered : Bytes → Mux → Bool
is_registered pattern [] = false
is_registered pattern ((p, r) ∷ mux) = bytes_eq p pattern || is_registered pattern mux

-- Which patterns a mux refuses though they are not registered.
abbrev pub Refuses : Type 0
Refuses = Bytes → Mux → Bool

-- `mux.Handle(pattern, handler)`.
unfoldable pub handle : Refuses → Bytes × Route → Mux → Option Mux
handle refuses (pattern, route) mux =
    if is_registered pattern mux || refuses pattern mux
    then none
    else some (mux ++ (pattern, route) ∷ [])

unfoldable pub handle_all : Refuses → List (Bytes × Route) → Mux → Option Mux
unfolding handle
handle_all refuses [] mux = some mux
handle_all refuses (e ∷ es) mux = elim (handle refuses e mux) [
  | none ↦ none
  | some mux' ↦ handle_all refuses es mux'
]

abbrev pub proxy_routes : List ProxyTarget → List (Bytes × Route)
proxy_routes [] = []
proxy_routes (p ∷ ps) = (subdomain_pattern p.subdomain, proxies p.address) ∷ proxy_routes ps

-- A folder `subdomain=/path` is served; any other text is logged and skipped.
folder_route : List Bytes → List (Bytes × Route)
folder_route (subdomain ∷ folder ∷ []) =
    (subdomain_pattern (trim b'/' subdomain), serves folder) ∷ []
folder_route _ = []

unfoldable pub folder_routes : List Bytes → List (Bytes × Route)
unfolding folder_route
folder_routes [] = []
folder_routes (f ∷ fs) = folder_route (split b'=' f) ++ folder_routes fs

abbrev pub own_routes : List (Bytes × Route)
own_routes = (codes "/whet/", signals) ∷ (codes "/", not_found) ∷ (codes "/api/health", health) ∷ []

-- All registrations, in the order in which they are made.
abbrev pub routes : List ProxyTarget → List Bytes → List (Bytes × Route)
routes ps fs = proxy_routes ps ++ (own_routes ++ folder_routes fs)

unfoldable pub configure_signal_server : Refuses → List ProxyTarget → List Bytes → Option Mux
configure_signal_server refuses ps fs = handle_all refuses (routes ps fs) []

-- A new server has no listeners; its mux comes beside it.
unfoldable pub new_whet_server :
    Refuses
    → Bytes
    → Assoc ForwardTargetPort
    → List Bytes
    → List ProxyTarget
    → Bool
    → Option (WhetServer × Mux)
new_whet_server refuses token targets folders ps detached =
    elim (configure_signal_server refuses ps folders) [
      | none ↦ none
      | some mux ↦ some (
        record {
          targets = targets;
          serve_folders = folders;
          proxy_targets = ps;
          detached = detached;
          bearer_token = token;
          addr = [];
          listeners = [];
        },
        mux,
      )
    ]

unfoldable pub without_first : Bytes → List Bytes → Bytes
without_first path (a ∷ b ∷ c ∷ rest) = b'/' ∷ join (b'/' ∷ []) (c ∷ rest)
without_first path _ = path

-- The path that the proxied request asks for: the first subdomain is removed.
unfoldable pub proxied_path : Bytes → Bytes
unfolding without_first
proxied_path path = without_first path (split b'/' path)
