-- ===== src/Server/Opening.antt =====
-- pkg/server.go, `WhetHandler`: the body of `OnOpen`, which runs when the data channel of a POST
-- opens. The handshake and the receiving loop, which it starts first, are `Handshake` and `Pump`; the
-- wait for the handshake of a listener's target, which is in `Offering`, is taken to be over.
pub mod Dialled
pub mod Detaching
use whet.Base.{ℕ, Option, none, some, Bytes}
use whet.Base.Assoc.{lookup}
use whet.Connection.{Connection}
use whet.PortSpec.{ForwardTargetType, tcp, listener}
use whet.Server.State.{World}
use whet.Server.Select.{Selected, target_addr}
use whet.Server.Registry.{object_at, write_at}

-- The socket is stored and both pumps run; "SERVER_ERROR" is sent and the peer closed, with the object
-- left in the map; the connection is offered to the listener at a place; there is no such listener; or
-- there is no object at the place.
pub data Opened : Type 0 where
  tunnels : World → Opened
  refuses_channel : World → Opened
  offers : ℕ → World → Opened
  no_listener : World → Opened
  no_object : Opened

store_object : ℕ → Connection → World → World
unfolding write_at
store_object p c w = record w { heap = write_at w.heap p c }

open_tcp : Option ℕ → ℕ → Connection → World → Opened
unfolding store_object
open_tcp none p c w = refuses_channel (store_object p c w)
open_tcp (some socket) p c w = tunnels (store_object p (record c { conn = some socket }) w)

open_listener : Option ℕ → ℕ → Connection → World → Opened
unfolding store_object
open_listener none p c w = no_listener (store_object p c w)
open_listener (some place) p c w = offers place (store_object p c w)

open_object : (Bytes → Option ℕ) → Selected → ℕ → ForwardTargetType → Connection → World → Opened
unfolding open_tcp open_listener lookup target_addr
open_object dial selected p tcp c w = open_tcp (dial (target_addr selected)) p c w
open_object dial selected p listener c w =
    open_listener (lookup selected.name w.server.listeners) p c w

open_at : (Bytes → Option ℕ) → ℕ → ℕ → Selected → ℕ → Option Connection → World → Opened
unfolding open_object
open_at dial channel raw selected p none w = no_object
open_at dial channel raw selected p (some c) w =
    open_object dial selected p selected.target.forward_target_type
      (record c { raw_detached = some raw; data_channel = some channel }) w

-- The first argument is `net.Dial`, with a handle of the socket; then come the handles of the data
-- channel and of the detached channel, what the POST selected, and the place of its object.
unfoldable pub open_channel : (Bytes → Option ℕ) → ℕ → ℕ → Selected → ℕ → World → Opened
unfolding open_at object_at
open_channel dial channel raw selected p w =
    open_at dial channel raw selected p (object_at w.heap p) w
