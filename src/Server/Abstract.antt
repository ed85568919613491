-- ===== src/Server/Abstract.antt =====
-- What `OpenConnections` promises, with the heap forgotten: a function from UUIDs to connection
-- objects, and the sockets that were closed. A request is an operation on it.
pub mod View
pub mod Refinement
use Prim.Native.Nat.{ℕ}
use whet.Base.{List, [], ◌∷◌, ◌++◌, Option, none, some, Bytes, codes, bytes_eq, if◌then◌else◌}
use whet.Base.Result.{Result, ok, err, ◌>>=◌}
use whet.Base.Assoc.{lookup}
use whet.Strings.{trim_prefix}
use whet.Http.{Request}
use whet.Connection.{Connection}
use whet.Server.State.{WhetServer, World}
use whet.Server.Select.{Refusal, whet_path, authorize, select_target}
use whet.Server.Registry.{new_connection, object_at}
use whet.Server.Handler.{Webrtc, open_peer, exchange, whet_handler}
use whet.Server.Sound.{closes}

pub record Registry : Type 0 where
  pub connections : Bytes → Option Connection
  pub sockets : List ℕ

-- A map that is changed at one UUID.
abbrev pub update :
    (Bytes → Option Connection) → Bytes → Option Connection → Bytes → Option Connection
update f id c j = if bytes_eq id j then c else f j

-- A connection comes in, or its entry goes and its socket is closed if it has an open one.
abbrev pub register : Bytes → Connection → Registry → Registry
register id c f = record f { connections = update f.connections id (some c) }

abbrev pub unregister : Bytes → Registry → Registry
unregister id f = record f {
  connections = update f.connections id none;
  sockets = f.sockets ++ closes (f.connections id);
}

-- The peer of a POST that is accepted; the connections have no part in that.
unfoldable pub admit : Webrtc → WhetServer → Request → Result Refusal ℕ
admit api s r = do
  _ ← authorize s r
  selected ← select_target s r.path
  (body, peer) ← open_peer api s.detached r.content
  sdp ← exchange api body peer
  ok peer

admitted : WhetServer → Bytes → Result Refusal ℕ → Registry → Registry
admitted s uuid (ok peer) f = register uuid (new_connection s peer) f
admitted s uuid (err e) f = f

deleted : Option Bytes → Registry → Registry
deleted none f = f
deleted (some id) f = unregister id f

-- What a request does to the registry.
unfoldable pub abstract_step :
    Webrtc → (Bytes → Option Bytes) → WhetServer → Bytes × Request → Registry → Registry
unfolding admitted deleted
abstract_step api parse_uuid s (uuid, r) f =
    if bytes_eq r.method (codes "POST")
    then admitted s uuid (admit api s r) f
    else if bytes_eq r.method (codes "DELETE")
    then deleted (parse_uuid (trim_prefix whet_path r.path)) f
    else f

-- The requests in order, each with the UUID that it would draw; on the registry, and on the program.
unfoldable pub replay :
    Webrtc → (Bytes → Option Bytes) → WhetServer → List (Bytes × Request) → Registry → Registry
replay api parse_uuid s [] f = f
replay api parse_uuid s (q ∷ qs) f = replay api parse_uuid s qs (abstract_step api parse_uuid s q f)

unfoldable pub serve_requests :
    Webrtc → (Bytes → Option Bytes) → List (Bytes × Request) → World → World
serve_requests api parse_uuid [] w = w
serve_requests api parse_uuid ((uuid, r) ∷ qs) w =
    serve_requests api parse_uuid qs (whet_handler api parse_uuid uuid r w).1

-- The object that an entry points to.
unfoldable pub found : List Connection → Option ℕ → Option Connection
found heap none = none
found heap (some p) = object_at heap p

-- The registry that a world stands for.
abbrev pub view : World → Registry
view w = record {
  connections = λ id. found w.heap (lookup id w.open_connections);
  sockets = w.closed_sockets;
}
