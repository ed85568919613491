-- ===== src/Server/State.antt =====
-- pkg/server.go: the state that the handler reads and writes.
-- The connection objects lie on a heap, and `open_connections` maps a UUID to a place of it.
-- `closed_sockets` is the record of the calls `c.conn.Close()`, and `peers` that of the peers that were
-- made.
use whet.Base.{ℕ, Bool, List, Bytes}
use whet.Base.Assoc.{Assoc}
use whet.Connection.{Connection}
use whet.PortSpec.{ForwardTargetPort}

pub record ProxyTarget : Type 0 where
  pub subdomain : Bytes
  pub address : Bytes

pub record WhetServer : Type 0 where
  pub targets : Assoc ForwardTargetPort
  pub serve_folders : List Bytes
  pub proxy_targets : List ProxyTarget
  pub detached : Bool
  pub bearer_token : Bytes
  pub addr : Bytes
  pub listeners : Assoc ℕ

pub record World : Type 0 where
  pub server : WhetServer
  pub heap : List Connection
  pub open_connections : Assoc ℕ
  pub closed_sockets : List ℕ
  pub peers : List ℕ
