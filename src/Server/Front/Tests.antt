-- ===== src/Server/Front/Tests.antt =====
-- Requests to a server at concrete values.
use whet.Server.Front.Refined.{Arrival, serve_all, signalled, front_refines}
use whet.Server.Sound.{IsSound}
use whet.Server.Abstract.{view, replay}
use whet.Base.{List, All, ◌≡◌, refl, ◌∷◌, [], some, inr, codes, bytes_eq, true, false}
use whet.Strings.{split, trim}
use whet.Http.{Request, blank}
use whet.Server.State.{ProxyTarget}
use whet.Server.Samples.{start-IsSound, server, api, offer, start, uuid}
use whet.Server.Routes.{
  Mux, proxies, signals, not_found, health, serves, configure_signal_server, handle_all, handle,
  folder_routes, is_registered,
}
use whet.Server.Front.{Backends, serve_http, has_prefix, answers, health_handler}
use whet.Server.Front.Picking.{pick, pick-IsServeMux}
use whet.Server.Front.Reached.{health_reached, front_unchanged}

abbrev back : Backends
back = record {
  choose = pick;
  refuses = λ pattern mux. false;
  clean = λ path. path;
  target_host = λ target. some target;
  forward = λ r. record blank { body = r.path };
  serve_file = λ folder r w. w;
}

abbrev app : ProxyTarget
app = record { subdomain = codes "app"; address = codes "localhost:3000" }

abbrev patterns : Mux
patterns =
    (codes "/app/", proxies (codes "localhost:3000"))
    ∷ (codes "/whet/", signals)
    ∷ (codes "/", not_found)
    ∷ (codes "/api/health", health)
    ∷ (codes "/files/", serves (codes "/srv"))
    ∷ []

patterns_built :
    configure_signal_server back.refuses (app ∷ []) (codes "files=/srv" ∷ []) ≡ some patterns
unfolding configure_signal_server handle_all handle folder_routes split is_registered bytes_eq trim
patterns_built = refl

abbrev guess : Request
guess = record offer { authorization = codes "Bearer guess" }

front_unchanged_example : (serve_http back api (λ s. some s) uuid 17 patterns guess start).1 ≡ start
front_unchanged_example =
    front_unchanged back pick-IsServeMux api (λ s. some s) uuid 17 (app ∷ [])
      (codes "files=/srv" ∷ []) patterns patterns_built guess start
      (inr ((λ e. cc), (λ e. cc), (λ e. cc)))

abbrev arrivals : List Arrival
arrivals =
    record {
      uuid = [];
      now = 17;
      request = record offer { method = codes "GET"; path = codes "/api/health" };
    }
    ∷ record { uuid = uuid; now = 18; request = offer }
    ∷ []

front_refines_example :
    IsSound (serve_all back api (λ s. some s) patterns arrivals start)
    × (view (serve_all back api (λ s. some s) patterns arrivals start)
        ≡ replay api (λ s. some s) server (signalled back patterns arrivals) (view start))
    × All (λ q. has_prefix (codes "/whet/") q.1.path ≡ true) (signalled back patterns arrivals)
front_refines_example =
    front_refines back api (λ s. some s) patterns pick-IsServeMux (app ∷ [])
      (codes "files=/srv" ∷ []) patterns_built arrivals start start-IsSound

abbrev ping : Request
ping = record offer { method = codes "GET"; path = codes "/api/health" }

health_reached_example :
    serve_http back api (λ s. some s) uuid 17 patterns ping start
    ≡ (answers (health_handler 17 ping), start)
health_reached_example =
    health_reached back pick-IsServeMux api (λ s. some s) uuid 17 (app ∷ [])
      (codes "files=/srv" ∷ []) patterns patterns_built ping start refl refl
