-- ===== src/Server/Registry.antt =====
-- pkg/server.go: `OpenConnections` and the objects that it holds.
use whet.Base.{
  ℕ, zero, suc, true, false, List, [], ◌∷◌, ◌++◌, Option, none, some, Bytes, if◌then◌else◌, length,
}
use whet.Base.Assoc.{lookup, insert, delete}
use whet.Connection.{Connection}
use whet.Server.State.{WhetServer, World}

-- The connection object of a POST, before its data channel opens.
abbrev pub new_connection : WhetServer → ℕ → Connection
new_connection s peer = record {
  peer_connection = peer;
  data_channel = none;
  conn = none;
  resource_url = [];
  client_ready = false;
  detached = s.detached;
  raw_detached = none;
  send_more = false;
  bearer_token = s.bearer_token;
  closed = false;
}

-- `OpenConnections[uuid] = c`, for a new object `c`.
unfoldable pub store : Bytes → Connection → World → World
store uuid c w = record w {
  heap = w.heap ++ c ∷ [];
  open_connections = insert uuid (length w.heap) w.open_connections;
}

-- The object at a place of the heap.
unfoldable pub object_at : List Connection → ℕ → Option Connection
object_at [] p = none
object_at (c ∷ cs) zero = some c
object_at (c ∷ cs) (suc p) = object_at cs p

unfoldable pub write_at : List Connection → ℕ → Connection → List Connection
write_at [] p c = []
write_at (d ∷ cs) zero c = c ∷ cs
write_at (d ∷ cs) (suc p) c = d ∷ write_at cs p c

-- `if c != nil && c.conn != nil { if !c.closed { c.conn.Close(); c.closed = true } }`.
unfoldable pub close_object : Option Connection → ℕ → World → World
unfolding write_at
close_object none p w = w
close_object (some c) p w = elim c.conn [
  | none ↦ w
  | some socket ↦ if c.closed then w else record w {
    heap = write_at w.heap p (record c { closed = true });
    closed_sockets = w.closed_sockets ++ socket ∷ [];
  }
]

-- The entry is taken from the map, and its object is closed.
unfoldable pub remove_connection : Bytes → World → World
unfolding close_object object_at
remove_connection id w = elim (lookup id w.open_connections) [
  | none ↦ w
  | some p ↦
      close_object (object_at w.heap p) p
        (record w { open_connections = delete id w.open_connections })
]
