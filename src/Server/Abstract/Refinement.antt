-- ===== src/Server/Abstract/Refinement.antt =====
-- The handler refines the registry.
use whet.Server.Abstract.View.{view-remove, view-store}
use whet.Base.Result.{Result-cases, Result, ok, err}
use whet.Base.Assoc.{lookup}
use whet.Server.Sound.{IsSound, handler-IsSound}
use whet.Server.Abstract.{serve_requests, replay, view, abstract_step, admitted, deleted, admit}
use whet.Connection.{Connection}
use whet.Server.State.{World, WhetServer}
use whet.Http.{Request}
use whet.Server.Handler.{
  leaving, whet_handler, open_peer, exchange, Webrtc, delete_peer, post, respond,
}
use whet.Strings.{trim_prefix}
use whet.Server.Select.{Refusal, whet_path, authorize, select_target}
use whet.Server.Registry.{new_connection, store, object_at, remove_connection, close_object}
use whet.Base.{
  ℕ, Bytes, ◌≡◌, List, Option, ◌∷◌, [], arith, refl, ap, bytes_eq, Option-cases, ◌∙◌, some, none,
  inl, inr, Bool-cases, codes,
}

-- The world after a POST, by its outcome.
world_after : Bytes → World → Result Refusal ℕ → World
world_after uuid w (ok peer) = store uuid (new_connection w.server peer) w
world_after uuid w (err e) = w

post-admit :
    (api : Webrtc) (uuid : Bytes) (r : Request) (w : World)
    → (view (respond (post api uuid r w)).1 ≡ view (world_after uuid w (admit api w.server r)))
      × ((respond (post api uuid r w)).1.server ≡ w.server)
unfolding post leaving admit world_after store
post-admit api uuid r w = elim (Result-cases (authorize w.server r)) [
  | inr (e, a) ↦ rw (a, leaving) (refl, refl)
  | inl (u, a) ↦ elim (Result-cases (select_target w.server r.path)) [
    | inr (e, b) ↦ rw (a, b, leaving) (refl, refl)
    | inl (x, b) ↦ elim (Result-cases (open_peer api w.server.detached r.content)) [
      | inr (e, c) ↦ rw (a, b, c, leaving) (refl, refl)
      | inl ((body, peer), c) ↦ elim (Result-cases (exchange api body peer)) [
        | inr (e, d) ↦ rw (a, b, c, d, leaving) (refl, refl)
        | inl (sdp, d) ↦ rw (a, b, c, d, leaving) (refl, refl)
      ]
    ]
  ]
]

view-after :
    (uuid : Bytes) (w : World) (m : Result Refusal ℕ)
    → IsSound w
    → view (world_after uuid w m) ≡ admitted w.server uuid m (view w)
unfolding world_after admitted
view-after uuid w (ok peer) s = view-store uuid (new_connection w.server peer) w s
view-after uuid w (err e) s = refl

view-delete :
    (parse_uuid : Bytes → Option Bytes) (r : Request) (w : World)
    → IsSound w
    → view (delete_peer parse_uuid r w).1
      ≡ deleted (parse_uuid (trim_prefix whet_path r.path)) (view w)
unfolding delete_peer deleted
view-delete parse_uuid r w s = elim (Option-cases (parse_uuid (trim_prefix whet_path r.path))) [
  | inl e ↦ rw (e, delete_peer, deleted)
  | inr (id, e) ↦ rw (e, delete_peer, deleted) (view-remove id w s)
]

-- A request is the operation that the specification says.
view-handler :
    (api : Webrtc) (parse_uuid : Bytes → Option Bytes) (uuid : Bytes) (r : Request) (w : World)
    → IsSound w
    → view (whet_handler api parse_uuid uuid r w).1
      ≡ abstract_step api parse_uuid w.server (uuid, r) (view w)
unfolding whet_handler abstract_step
view-handler api parse_uuid uuid r w s = elim (Bool-cases (bytes_eq r.method (codes "POST"))) [
  | inl e ↦ rw e ((post-admit api uuid r w).0 ∙ view-after uuid w (admit api w.server r) s)
  | inr e ↦ elim (Bool-cases (bytes_eq r.method (codes "DELETE"))) [
    | inl d ↦ rw (e, d) (view-delete parse_uuid r w s)
    | inr d ↦ elim (Bool-cases (bytes_eq r.method (codes "OPTIONS"))) [
      | inl o ↦ rw (e, d, o)
      | inr o ↦ rw (e, d, o)
    ]
  ]
]

close_object-server :
    (o : Option Connection) (p : ℕ) (w : World) → (close_object o p w).server ≡ w.server
unfolding close_object
close_object-server none p w = refl
close_object-server (some c) p w = ground arith

remove-server : (id : Bytes) (w : World) → (remove_connection id w).server ≡ w.server
unfolding remove_connection
remove-server id w = elim (Option-cases (lookup id w.open_connections)) [
  | inl e ↦ rw (e, remove_connection)
  | inr (p, e) ↦ rw (e, remove_connection) (close_object-server (object_at w.heap p) p _)
]

delete-server :
    (parse_uuid : Bytes → Option Bytes) (r : Request) (w : World)
    → (delete_peer parse_uuid r w).1.server ≡ w.server
unfolding delete_peer
delete-server parse_uuid r w = elim (Option-cases (parse_uuid (trim_prefix whet_path r.path))) [
  | inl e ↦ rw (e, delete_peer)
  | inr (id, e) ↦ rw (e, delete_peer) (remove-server id w)
]

-- The handler never changes the server.
pub handler-server :
    (api : Webrtc) (parse_uuid : Bytes → Option Bytes) (uuid : Bytes) (r : Request) (w : World)
    → (whet_handler api parse_uuid uuid r w).1.server ≡ w.server
unfolding whet_handler
handler-server api parse_uuid uuid r w = elim (Bool-cases (bytes_eq r.method (codes "POST"))) [
  | inl e ↦ rw e (post-admit api uuid r w).1
  | inr e ↦ elim (Bool-cases (bytes_eq r.method (codes "DELETE"))) [
    | inl d ↦ rw (e, d) (delete-server parse_uuid r w)
    | inr d ↦ elim (Bool-cases (bytes_eq r.method (codes "OPTIONS"))) [
      | inl o ↦ rw (e, d, o)
      | inr o ↦ rw (e, d, o)
    ]
  ]
]

-- Refinement: from a sound world, any sequence of requests leaves a sound world, and what it does to
-- `OpenConnections` and to the sockets is what the sequence does to the abstract registry, in which
-- there are no places and no heap.
pub serve_refines :
    (api : Webrtc) (parse_uuid : Bytes → Option Bytes) (qs : List (Bytes × Request)) (w : World)
    → IsSound w
    → IsSound (serve_requests api parse_uuid qs w)
      × (view (serve_requests api parse_uuid qs w) ≡ replay api parse_uuid w.server qs (view w))
unfolding serve_requests replay
serve_refines api parse_uuid [] w s = (s, refl)
serve_refines api parse_uuid ((uuid, r) ∷ qs) w s =
    let w' = (whet_handler api parse_uuid uuid r w).1 in
    let (sound, same) =
      serve_refines api parse_uuid qs w' (handler-IsSound api parse_uuid uuid r w s) in
    (
      sound,
      same
          ∙ (ap (λ (v : WhetServer). replay api parse_uuid v qs (view w'))
                (handler-server api parse_uuid uuid r w)
              ∙ ap (replay api parse_uuid w.server qs) (view-handler api parse_uuid uuid r w s)),
    )
