-- ===== src/Server/MuxTests.antt =====
-- The mux and the listeners at concrete values.
use whet.Strings.{split}
use whet.Server.State.{ProxyTarget}
use whet.Server.Routes.{
  Mux, configure_signal_server, proxies, handle_all, handle, signals, not_found, folder_routes,
  health, is_registered, serves,
}
use whet.Base.{codes, false, ◌∷◌, ◌≡◌, some, refl, [], bytes_eq}

abbrev app : ProxyTarget
app = record { subdomain = codes "app"; address = codes "localhost:3000" }

abbrev patterns : Mux
patterns =
    (codes "/app/", proxies (codes "localhost:3000"))
    ∷ (codes "/whet/", signals)
    ∷ (codes "/", not_found)
    ∷ (codes "/api/health", health)
    ∷ (codes "/files/", serves (codes "/srv"))
    ∷ []

built :
    configure_signal_server (λ pattern mux. false) (app ∷ []) (codes "files=/srv" ∷ [])
    ≡ some patterns
unfolding configure_signal_server handle_all handle folder_routes split is_registered bytes_eq
    whet.Strings.trim
built = refl
