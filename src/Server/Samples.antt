-- ===== src/Server/Samples.antt =====
-- A server, requests to it and the results of the calls that a POST makes, for the tests.
use whet.Peer.{Pion, IsPion}
use whet.Server.Registry.{store, new_connection}
use whet.PortSpec.Forward.{range_target}
use whet.Server.Sound.{IsSound}
use whet.Base.Assoc.{lookup}
use whet.Server.Handler.{Webrtc}
use whet.Server.State.{World, WhetServer}
use whet.PortSpec.{ForwardTargetPort}
use whet.Http.{Request}
use whet.Base.{none, if◌then◌else◌, ◌==◌, arith, codes, Bytes, some, ◌∷◌, [], true}

abbrev pub api : Webrtc
api = record {
  new_peer = λ detached. some 5;
  set_remote = λ peer offer. true;
  create_answer = λ peer. some (codes "answer");
  set_local = λ peer answer. true;
  local_sdp = λ peer. codes "sdp";
}

abbrev pub ssh : ForwardTargetPort
ssh = range_target (codes "ssh") (codes "localhost") 10000 10010

abbrev pub server : WhetServer
server = record {
  targets = (codes "ssh", ssh) ∷ [];
  serve_folders = [];
  proxy_targets = [];
  detached = true;
  bearer_token = codes "secret";
  addr = codes "localhost:8080";
  listeners = [];
}

abbrev pub start : World
start = record {
  server = server;
  heap = [];
  open_connections = [];
  closed_sockets = [];
  peers = [];
}

abbrev pub offer : Request
offer = record {
  method = codes "POST";
  path = codes "/whet/ssh-10";
  proto = codes "HTTP/1.1";
  host = codes "h";
  authorization = codes "Bearer secret";
  content = some (codes "offer");
}

abbrev pub uuid : Bytes
uuid = codes "f47ac10b"

abbrev pub after_post : World
after_post = store uuid (new_connection server 5) (record start { peers = 5 ∷ [] })

pub start-IsSound : IsSound start
unfolding lookup
start-IsSound = record { inside = λ id p h. cc; distinct = λ id j p h k. cc }

-- pion with one peer for each mode.
abbrev pub pion : Pion
pion = record {
  new_peer_connection = λ engine config. some (if engine.detaches then 5 else 6);
  detach = λ peer channel. if peer == 5 then some channel else none;
}

pub pion-IsPion : IsPion pion
pion-IsPion = record {
  raw = λ peer channel. channel;
  grants = λ config peer channel h. ground (arith, h);
  refuses = λ config peer channel h. ground (arith, h);
}
