-- ===== src/Command/Serve.antt =====
-- cmd/main.go: `runServer`, `runServerNGROK`, and what `main` comes to with them. The operating system
-- and ngrok are given by what their calls return; net listeners are numbers, as in `Server.Serving`.
pub mod Made
pub mod Admission
pub mod Attached
mod Tests
use whet.Base.{
  ℕ, Bool, true, List, [], ◌∷◌, Option, none, some, Bytes, codes, bytes_eq, if◌then◌else◌, ◌||◌,
}
use whet.Base.Assoc.{Assoc}
use whet.PortSpec.{ForwardTargetPort}
use whet.Server.State.{WhetServer, ProxyTarget}
use whet.Server.Routes.{Mux, Refuses, new_whet_server}
use whet.Server.Serving.{
  Service, Started, still_serving, returns_nil, returns_error, start_with_listener,
  start_with_address,
}
use whet.Command.{Flags, Start, no_targets, no_listeners, bad_spec, runs_server, runs_client, main}
use whet.Command.Run.{Forward, run_client}

-- `config.HTTPEndpointOption`.
pub data EndpointOption : Type 0 where
  with_domain with_scheme : Bytes → EndpointOption

pub record Host : Type 0 where
  -- The net listener that `ListenAndServe` opens on an address, if it can.
  pub listen : Bytes → Option ℕ
  -- `net.Listen` of a client, as in `Command.Run`.
  pub listens : List Bytes → Bytes → Bool
  -- Which patterns `http.ServeMux` refuses though they are not registered.
  pub refuses : Refuses
  -- `net.Listen` of the mirror server.
  pub mirror_listens : Bytes → Bool
  pub getenv : Bytes → Bytes
  -- `ngrok.Listen` with a token: the net listener and its address.
  pub tunnel : Bytes → List EndpointOption → Option (ℕ × Bytes)

pub data Running : Type 0 where
  -- `log.Fatal`; a panic; the end of `main`.
  exits panics returns : Running
  serving : WhetServer → Mux → Service → Running
  forwarding : Assoc Forward → Running

-- The server of a new `WhetServer`, with the net listeners that are open.
abbrev pub new_service : List ℕ → Service
new_service accepting = record {
  http = none;
  addr = [];
  listeners = [];
  servers = 0;
  serves = [];
  accepting = accepting;
}

-- A blocking start has returned only with an error, or it serves.
unfoldable pub after_start : WhetServer → Mux → Started × Service → Running
after_start s mux (still_serving, v) = serving (record s { addr = v.addr }) mux v
after_start s mux (returns_nil, v) = returns
after_start s mux (returns_error, v) = exits

-- What follows `NewWhetServer`, by what the start would return; a pattern registered twice has panicked.
unfoldable pub after_new : Started × Service → Option (WhetServer × Mux) → Running
unfolding after_start
after_new st none = panics
after_new st (some (s, mux)) = after_start s mux st

unfoldable pub run_server :
    Host → Bytes → Bytes → Assoc ForwardTargetPort → List Bytes → List ProxyTarget → Bool → Running
unfolding after_new
run_server host token addr targets folders ps detached =
    after_new (start_with_address (host.listen addr) addr true (new_service []))
      (new_whet_server host.refuses token targets folders ps detached)

unfoldable pub endpoint_options : Bytes → List EndpointOption
endpoint_options domain =
    if bytes_eq domain [] then [] else with_domain domain ∷ with_scheme (codes "https") ∷ []

-- What follows `ngrok.Listen`.
unfoldable pub after_tunnel : Option (WhetServer × Mux) → Option (ℕ × Bytes) → Running
unfolding after_new
after_tunnel made none = panics
after_tunnel made (some (l, addr)) =
    after_new (start_with_listener l addr true (new_service (l ∷ []))) made

unfoldable pub run_server_ngrok :
    Host → Bytes → Assoc ForwardTargetPort → List Bytes → List ProxyTarget → Bool → Running
unfolding after_tunnel endpoint_options
run_server_ngrok host token targets folders ps detached =
    let options = endpoint_options (host.getenv (codes "NGROK_DOMAIN")) in
    after_tunnel (new_whet_server host.refuses token targets folders ps detached)
      (host.tunnel (host.getenv (codes "NGROK_AUTHTOKEN")) options)

-- What `runClient` comes to; it panics on a socket that cannot be opened.
unfoldable pub after_sockets : Option (Assoc Forward) → Running
after_sockets none = panics
after_sockets (some fs) = forwarding fs

unfoldable pub carry_out : Host → Start → Running
unfolding run_server run_server_ngrok after_sockets
carry_out host no_targets = exits
carry_out host no_listeners = exits
carry_out host (bad_spec e) = exits
carry_out host (runs_server ngrok token addr targets f) =
    if ngrok
    then run_server_ngrok host token targets f.servefolder f.proxytarget f.detached
    else run_server host token addr targets f.servefolder f.proxytarget f.detached
carry_out host (runs_client token server ls detached) =
    after_sockets (run_client host.listens server token detached ls)

-- `SimpleMirrorServer` in its goroutine panics if it cannot listen, which ends a program that runs on.
unfoldable pub beside_mirror : Bool → Running → Running
beside_mirror listens (serving s mux v) = if listens then serving s mux v else panics
beside_mirror listens (forwarding fs) = if listens then forwarding fs else panics
beside_mirror listens exits = exits
beside_mirror listens panics = panics
beside_mirror listens returns = returns

-- The program, with the address of the mirror server that it starts in a goroutine of its own.
unfoldable pub run_whet : Host → Bytes → Flags → Option Bytes × Running
unfolding carry_out beside_mirror
run_whet host uuid parsed = (
  if bytes_eq parsed.mirror [] then none else some parsed.mirror,
  beside_mirror (bytes_eq parsed.mirror [] || host.mirror_listens parsed.mirror)
      (carry_out host (main uuid parsed)),
)
