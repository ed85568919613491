-- ===== src/Server/Tests.antt =====
-- The handler at concrete requests.
use whet.Server.Atomic.{Outcome, post_outcomes}
use whet.Server.Samples.{api, ssh, server, start, offer, uuid, after_post}
use whet.PortSpec.Bounds.{Ports}
use whet.Server.Guards.{intruder_refused}
use whet.Decimal.{atoi, itoa_ℕ}
use whet.Base.Result.{ok}
use whet.Server.Targets.{target_addr_in_range}
use whet.Server.Lifecycle.{delete_request, post_delete}
use whet.Strings.{split, trim_prefix}
use whet.Base.Assoc.{lookup, insert}
use whet.Server.Registry.{store, new_connection, remove_connection}
use whet.PortSpec.{parse_forward}
use whet.Http.{Request, http_error, blank}
use whet.Server.State.{World}
use whet.Server.Handler.{whet_handler, post, delete_peer, cors, answered, open_peer, exchange}
use whet.Base.{Bytes, bytes_eq, some, [], codes, ℕ, ◌∷◌, ◌≡◌, ◌++◌, refl, ◌≤◌}
use whet.Server.Select.{select_target, Selected, authorize, target_addr}
use whet.Base.Int.{pos, ◌+ℤ◌, ◌-ℤ◌}

offer_accepted : post api uuid offer start ≡ ok (answered offer uuid (codes "sdp"), after_post)
unfolding post authorize select_target open_peer exchange split trim_prefix atoi lookup bytes_eq
offer_accepted = refl

-- The same object with a socket, as the opened data channel leaves it.
abbrev with_socket : World
with_socket = record after_post { heap = record (new_connection server 5) { conn = some 9 } ∷ [] }

delete_closes :
    (whet_handler api (λ s. some s) [] (delete_request uuid offer) with_socket).1.closed_sockets
    ≡ 9 ∷ []
unfolding whet_handler delete_peer remove_connection store insert lookup trim_prefix bytes_eq
delete_closes = refl

abbrev chosen : Selected
chosen = record { name = codes "ssh"; target = ssh; offset = pos 10 }

target_addr_in_range_example :
    (first : ℕ) × (last : ℕ) × (port : ℕ) × Ports ssh first last
    × (first ≤ port)
    × (port ≤ last)
    × (target_addr chosen ≡ codes "localhost" ++ b':' ∷ itoa_ℕ port)
unfolding select_target split trim_prefix atoi lookup bytes_eq parse_forward ◌+ℤ◌ ◌-ℤ◌
target_addr_in_range_example =
    target_addr_in_range server (codes "/whet/ssh-10") (codes "ssh=localhost:10000-10010") chosen
      refl refl

abbrev intruder : Request
intruder = record offer { authorization = codes "Bearer guess" }

intruder_refused_example :
    whet_handler api (λ s. some s) uuid intruder start
    ≡ (http_error (codes "Unauthorized") 401 (cors blank), start)
intruder_refused_example =
    intruder_refused api (λ s. some s) uuid intruder start
      (record { posts = refl; guarded = λ e. cc; wrong = λ e. cc })

post_delete_example :
    let (d, w) = whet_handler api (λ s. some s) [] (delete_request uuid offer) after_post in
    (d ≡ cors blank) × ((j : Bytes) → lookup j w.open_connections ≡ lookup j [])
unfolding lookup
post_delete_example =
    post_delete api (λ s. some s) uuid [] offer offer start (answered offer uuid (codes "sdp"))
      after_post refl refl offer_accepted

post_outcomes_example : Outcome uuid offer start (whet_handler api (λ s. some s) uuid offer start)
post_outcomes_example = post_outcomes api (λ s. some s) uuid offer start refl
