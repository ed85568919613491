-- ===== src/Server/Opening/Dialled.antt =====
-- A connection whose data channel opens to a target of type TCP.
use whet.Base.{
  ℕ, zero, suc, ◌≡◌, ◌<◌, refl, ap, ◌∙◌, arith, List, [], ◌∷◌, ◌++◌, Option, some, Bytes, length,
  length-append, bytes_eq_self,
}
use whet.Base.Result.{ok}
use whet.Base.Assoc.{lookup-insert}
use whet.Http.{Request, Response}
use whet.Connection.{Connection}
use whet.PortSpec.{ForwardTargetType, tcp}
use whet.Server.State.{World}
use whet.Server.Select.{Selected, target_addr}
use whet.Server.Registry.{new_connection, store, object_at, write_at, remove_connection}
use whet.Server.Handler.{make_peer, Webrtc, post, whet_handler}
use whet.Server.Atomic.{post-IsPosted}
use whet.Server.Lifecycle.{delete_request, handler_delete, object_at-append}
use whet.Server.Sound.{closes, remove_once}
use whet.Server.Opening.{open_channel, open_at, open_object, open_tcp, store_object, tunnels}

object_at-write_at :
    (cs : List Connection) (p : ℕ) (c : Connection)
    → p < length cs
    → object_at (write_at cs p c) p ≡ some c
unfolding object_at write_at
object_at-write_at [] p c h = absurd (omega arith)
object_at-write_at (d ∷ cs) zero c h = refl
object_at-write_at (d ∷ cs) (suc p) c h = object_at-write_at cs p c (omega arith)

-- The object of a POST once its data channel is open and its target dialled.
abbrev dialled : World → ℕ → ℕ → ℕ → ℕ → Connection
dialled w peer channel raw socket = record (new_connection w.server peer) {
  raw_detached = some raw;
  data_channel = some channel;
  conn = some socket;
}

abbrev open_world : Bytes → World → ℕ → ℕ → ℕ → ℕ → World
open_world uuid w peer channel raw socket = record (store uuid (new_connection w.server peer) w) {
  heap =
      write_at (w.heap ++ new_connection w.server peer ∷ []) (length w.heap)
        (dialled w peer channel raw socket);
}

opens :
    (dial : Bytes → Option ℕ) (uuid : Bytes) (w : World) (peer channel raw socket : ℕ)
    (x : Selected)
    → x.target.forward_target_type ≡ tcp
    → dial (target_addr x) ≡ some socket
    → open_channel dial channel raw x (length w.heap) (store uuid (new_connection w.server peer) w)
      ≡ tunnels (open_world uuid w peer channel raw socket)
unfolding open_channel open_at open_object open_tcp store_object store
opens dial uuid w peer channel raw socket x t d =
    let c = new_connection w.server peer in
    let p = length w.heap in
    let w' = store uuid c w in
    let attached = record c { raw_detached = some raw; data_channel = some channel } in
    ap (λ (o : Option Connection). open_at dial channel raw x p o w') (object_at-append w.heap c)
    ∙ (ap (λ (k : ForwardTargetType). open_object dial x p k attached w') t
        ∙ ap (λ (o : Option ℕ). open_tcp o p attached w') d)

closes_dialled :
    (uuid : Bytes) (w : World) (peer channel raw socket : ℕ)
    → (remove_connection uuid (open_world uuid w peer channel raw socket)).closed_sockets
      ≡ w.closed_sockets ++ socket ∷ []
unfolding store
closes_dialled uuid w peer channel raw socket =
    (remove_once uuid (length w.heap) (open_world uuid w peer channel raw socket)
      (rw (lookup-insert uuid uuid (length w.heap) w.open_connections, bytes_eq_self uuid) refl)).0
    ∙ ap (λ (o : Option Connection). w.closed_sockets ++ closes o)
        (object_at-write_at (w.heap ++ new_connection w.server peer ∷ []) (length w.heap)
          (dialled w peer channel raw socket)
          (omega (arith, length-append w.heap (new_connection w.server peer ∷ []))))

-- A POST that succeeded, the opening of its data channel to a TCP target that could be dialled, and
-- the DELETE of its UUID: the socket that was dialled is closed by the DELETE, and no other.
pub open_delete :
    (api : Webrtc) (parse_uuid : Bytes → Option Bytes) (dial : Bytes → Option ℕ)
    (uuid fresh : Bytes) (r q : Request) (w w' : World) (r' : Response) (x : Selected)
    (channel raw socket : ℕ)
    → parse_uuid uuid ≡ some uuid
    → post api uuid r w ≡ ok (r', w')
    → x.target.forward_target_type ≡ tcp
    → dial (target_addr x) ≡ some socket
    → (opened : World) × (open_channel dial channel raw x (length w.heap) w' ≡ tunnels opened)
      × ((whet_handler api parse_uuid fresh (delete_request uuid q) opened).1.closed_sockets
          ≡ w.closed_sockets ++ socket ∷ [])
open_delete api parse_uuid dial uuid fresh r q w w' r' x channel raw socket hp h t d =
    let posted = post-IsPosted api uuid r w r' w' h in
    let made = make_peer posted.peer w in
    let opened = open_world uuid made posted.peer channel raw socket in
    (
      opened,
      rw posted.world (opens dial uuid made posted.peer channel raw socket x t d),
      ap (λ (y : Response × World). y.1.closed_sockets)
            (handler_delete api parse_uuid uuid fresh q opened hp)
          ∙ closes_dialled uuid made posted.peer channel raw socket,
    )
