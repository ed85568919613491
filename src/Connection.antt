-- ===== src/Connection.antt =====
-- pkg/connection.go: the connection object that the client and the server share.
-- Handles of pion objects and of sockets are numbers; `send_more` is the channel of one place.
use whet.Base.{ℕ, Bool, Option, Bytes}

pub record Connection : Type 0 where
  pub peer_connection : ℕ
  pub data_channel : Option ℕ
  pub conn : Option ℕ
  pub resource_url : Bytes
  pub client_ready : Bool
  pub detached : Bool
  pub raw_detached : Option ℕ
  pub send_more : Bool
  pub bearer_token : Bytes
  pub closed : Bool
