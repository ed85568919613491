-- ===== src/Command/Serve/Tests.antt =====
-- The program at concrete flags.
use whet.Base.{◌≡◌, refl, [], ◌∷◌, some, none, true, false, Bytes, codes, bytes_eq, ◌⊎◌}
use whet.Base.Assoc.{lookup, insert}
use whet.Base.Result.{ok}
use whet.Base.Int.{◌+ℤ◌, ◌-ℤ◌}
use whet.Decimal.{atoi}
use whet.Strings.{split, trim, trim_prefix}
use whet.PortSpec.{parse_forward, parse_forward_all, ForwardTargetPort}
use whet.PortSpec.Forward.{range_target}
use whet.PortSpec.Slice.{latest}
use whet.Server.State.{WhetServer, World}
use whet.Server.Routes.{
  Mux, configure_signal_server, new_whet_server, signals, not_found, health, serves, handle_all,
  handle, folder_routes, is_registered,
}
use whet.Server.Serving.{Service, start_with_address}
use whet.Server.Handler.{whet_handler, post, open_peer, exchange, answered}
use whet.Peer.{setup_connection, setting_engine}
use whet.Connection.{Connection}
use whet.Base.Int.{pos}
use whet.Http.{Request}
use whet.Server.Opening.Detaching.{on_open, crashes, with_pion}
use whet.Command.Serve.Attached.{undetached_program_panics}
use whet.Server.Registry.{object_at, store, new_connection}
use whet.Server.Select.{Selected, authorize, select_target}
use whet.Server.Samples.{pion, pion-IsPion, api, offer, start, uuid}
use whet.Command.{Flags, defaults, main}
use whet.Command.Serve.{
  Host, serving, run_whet, new_service, carry_out, run_server, after_new, after_start,
}
use whet.Command.Serve.Made.{IsUp}
use whet.Command.Serve.Admission.{CanServe, main_serves, main_admits}

abbrev host : Host
host = record {
  listen = λ addr. some 7;
  listens = λ opened addr. true;
  refuses = λ pattern mux. false;
  mirror_listens = λ addr. true;
  getenv = λ name. [];
  tunnel = λ token options. none;
}

abbrev guarded : Flags
guarded = record defaults {
  serve = true;
  token = codes "secret";
  tcptarget = codes "ssh=localhost:22" ∷ [];
  servefolder = codes "files=/srv" ∷ [];
}

abbrev patterns : Mux
patterns =
    (codes "/whet/", signals)
    ∷ (codes "/", not_found)
    ∷ (codes "/api/health", health)
    ∷ (codes "/files/", serves (codes "/srv"))
    ∷ []

patterns_built : configure_signal_server host.refuses [] guarded.servefolder ≡ some patterns
unfolding configure_signal_server handle_all handle folder_routes split is_registered bytes_eq trim
patterns_built = refl

abbrev ssh : ForwardTargetPort
ssh = range_target (codes "ssh") (codes "localhost") 22 22

ssh_parsed : parse_forward_all guarded.tcptarget ≡ ok ((codes "ssh", ssh) ∷ [])
unfolding parse_forward_all parse_forward split atoi ◌+ℤ◌ ◌-ℤ◌ insert bytes_eq
ssh_parsed = refl

abbrev server : WhetServer
server = record {
  targets = (codes "ssh", ssh) ∷ [];
  serve_folders = guarded.servefolder;
  proxy_targets = [];
  detached = false;
  bearer_token = [];
  addr = codes "localhost:8080";
  listeners = [];
}

abbrev service : Service
service = record (new_service (7 ∷ [])) {
  http = some 0;
  addr = codes "localhost:8080";
  servers = 1;
  serves = (0, 7) ∷ [];
}

guarded_runs : (run_whet host [] guarded).1 ≡ serving server patterns service
unfolding run_whet main whet.Command.start whet.Command.start_server carry_out run_server after_new
    after_start new_whet_server start_with_address bytes_eq
guarded_runs =
    rw
      (
        ssh_parsed, whet.Command.start_server, carry_out, run_server, new_whet_server,
        patterns_built,
      )
      refl

guarded_can : CanServe host guarded
unfolding bytes_eq
guarded_can = record {
  asked = refl;
  plain = refl;
  wanted = refl;
  targets = _;
  parsed = ssh_parsed;
  mux = patterns;
  routed = patterns_built;
  mirrored = refl;
  socket = 7;
  opened = refl;
}

main_serves_example :
    (s : WhetServer) × (mux : Mux) × (v : Service) × ((run_whet host [] guarded).1
      ≡ serving s mux v)
    × (configure_signal_server host.refuses guarded.proxytarget guarded.servefolder ≡ some mux)
    × ((k : Bytes)
        → lookup k s.targets ≡ latest parse_forward (λ t. t.target_name) k guarded.tcptarget)
    × (s.detached ≡ guarded.detached)
    × (s.bearer_token ≡ [])
    × IsUp v
main_serves_example = main_serves host [] guarded guarded_can

main_admits_example :
    let answer =
      (whet_handler api (λ s. some s) [] offer (record start { server = server })).0.status in
    (answer ≡ 200) ⊎ ((answer ≡ 400) ⊎ (answer ≡ 500))
main_admits_example =
    main_admits host [] guarded server patterns service api (λ s. some s) [] offer
      (record start { server = server }) guarded_runs refl refl

abbrev idle : World
idle = record start { server = server }

abbrev single : Request
single = record offer { path = codes "/whet/ssh" }

abbrev after_single : World
after_single = store uuid (new_connection server 6) (record idle { peers = 6 ∷ [] })

abbrev chosen : Selected
chosen = record { name = codes "ssh"; target = ssh; offset = pos 0 }

single_accepted :
    post (with_pion pion api) uuid single idle
    ≡ ok (answered single uuid (codes "sdp"), after_single)
unfolding post authorize select_target open_peer exchange split trim_prefix lookup bytes_eq
    setup_connection setting_engine
single_accepted = refl

undetached_program_panics_example :
    (c : Connection) × (object_at after_single.heap 0 ≡ some c)
    × (on_open pion (λ addr. some 9) c.peer_connection 3 chosen 0 after_single ≡ crashes)
undetached_program_panics_example =
    undetached_program_panics host [] guarded server patterns service pion pion-IsPion api uuid
      single idle after_single (answered single uuid (codes "sdp")) (λ addr. some 9) 3 chosen
      guarded_runs refl refl single_accepted
