-- ===== src/Server/Lifecycle.antt =====
-- A connection from its POST to its DELETE, and the invariant of the registry.
use whet.Strings.{trim_prefix}
use whet.Base.{
  zero, ℕ, suc, ◌≡◌, refl, inl, inr, List, [], ◌∷◌, ◌++◌, some, none, true, false, arith, Bytes,
  codes, Option, bytes_eq, bytes_eq_iff, Option-cases, ◌∙◌, ap, length, if◌then◌else◌,
}
use whet.Base.Result.{ok}
use whet.Base.Assoc.{lookup, lookup-insert, lookup-delete}
use whet.Http.{Request, Response, blank}
use whet.Connection.{Connection}
use whet.Strings.Affix.{trim_prefix-append}
use whet.Server.State.{World}
use whet.Server.Select.{whet_path}
use whet.Server.Registry.{
  new_connection, store, object_at, write_at, close_object, remove_connection,
}
use whet.Server.Handler.{Webrtc, make_peer, post, delete_peer, whet_handler, cors}
use whet.Server.Atomic.{post-IsPosted}

length-write_at :
    (cs : List Connection) (p : ℕ) (c : Connection) → length (write_at cs p c) ≡ length cs
unfolding write_at
length-write_at [] p c = refl
length-write_at (d ∷ cs) zero c = refl
length-write_at (d ∷ cs) (suc p) c = ap suc (length-write_at cs p c)

pub object_at-append :
    (cs : List Connection) (c : Connection) → object_at (cs ++ c ∷ []) (length cs) ≡ some c
unfolding object_at
object_at-append [] c = refl
object_at-append (d ∷ cs) c = object_at-append cs c

-- Closing an object touches neither the map nor the number of objects.
close_object-keeps :
    (o : Option Connection) (p : ℕ) (w : World)
    → ((close_object o p w).open_connections ≡ w.open_connections)
      × (length (close_object o p w).heap ≡ length w.heap)
unfolding close_object
close_object-keeps none p w = (refl, refl)
close_object-keeps (some c) p w =
    ground (arith, length-write_at w.heap p (record c { closed = true }))

pub remove-open :
    (id : Bytes) (w : World) (j : Bytes)
    → lookup j (remove_connection id w).open_connections
      ≡ (if bytes_eq id j then none else lookup j w.open_connections)
unfolding remove_connection
remove-open id w j = elim (Option-cases (lookup id w.open_connections)) [
  | inl e ↦ rw (e, remove_connection) (ground (arith, e, bytes_eq_iff id j))
  | inr (p, e) ↦
      rw (e, remove_connection, (close_object-keeps (object_at w.heap p) p _).0)
        (lookup-delete id j w.open_connections)
]

pub length-remove : (id : Bytes) (w : World) → length (remove_connection id w).heap ≡ length w.heap
unfolding remove_connection
length-remove id w = elim (Option-cases (lookup id w.open_connections)) [
  | inl e ↦ rw (e, remove_connection)
  | inr (p, e) ↦ rw (e, remove_connection) (close_object-keeps (object_at w.heap p) p _).1
]

-- After a POST its UUID is registered, for a fresh object that is not closed, and no other entry
-- has changed.
pub post_registers :
    (api : Webrtc) (uuid : Bytes) (r : Request) (w : World) (r' : Response) (w' : World)
    → post api uuid r w ≡ ok (r', w')
    → (p : ℕ) × (c : Connection) × (object_at w'.heap p ≡ some c)
      × (c.closed ≡ false)
      × ((j : Bytes)
          → lookup j w'.open_connections
            ≡ (if bytes_eq uuid j then some p else lookup j w.open_connections))
unfolding store
post_registers api uuid r w r' w' h =
    let posted = post-IsPosted api uuid r w r' w' h in
    (
      length w.heap,
      new_connection w.server posted.peer,
      rw posted.world (object_at-append w.heap _),
      refl,
      λ j. rw (posted.world, lookup-insert uuid j (length w.heap) w.open_connections),
    )

-- A DELETE of the path `/whet/uuid`, with or without a token.
abbrev pub delete_request : Bytes → Request → Request
delete_request uuid r = record r { method = codes "DELETE"; path = whet_path ++ uuid }

delete_peer-found :
    (parse_uuid : Bytes → Option Bytes) (id : Bytes) (r : Request) (w : World)
    → parse_uuid (trim_prefix whet_path r.path) ≡ some id
    → delete_peer parse_uuid r w ≡ (cors blank, remove_connection id w)
unfolding delete_peer
delete_peer-found parse_uuid id r w e = rw (e, delete_peer)

pub handler_delete :
    (api : Webrtc) (parse_uuid : Bytes → Option Bytes) (uuid fresh : Bytes) (q : Request)
    (w : World)
    → parse_uuid uuid ≡ some uuid
    → whet_handler api parse_uuid fresh (delete_request uuid q) w
      ≡ (cors blank, remove_connection uuid w)
unfolding whet_handler bytes_eq
handler_delete api parse_uuid uuid fresh q w h =
    delete_peer-found parse_uuid uuid (delete_request uuid q) w
      (ap parse_uuid (trim_prefix-append whet_path uuid) ∙ h)

entry_removed :
    (uuid : Bytes) (c : Connection) (w w' : World) (j : Bytes)
    → lookup uuid w.open_connections ≡ none
    → w' ≡ store uuid c w
    → (if bytes_eq uuid j then none else lookup j w'.open_connections) ≡ lookup j w.open_connections
unfolding store
entry_removed uuid c w w' j h e =
    ground (arith, lookup-insert uuid j (length w.heap) w.open_connections, bytes_eq_iff uuid j)

-- The DELETE of the UUID that a POST drew gives the map of connections as it was before the POST, if
-- the UUID was fresh. It is answered 200, and no token is asked for.
pub post_delete :
    (api : Webrtc) (parse_uuid : Bytes → Option Bytes) (uuid fresh : Bytes) (r q : Request)
    (w : World) (r' : Response) (w' : World)
    → parse_uuid uuid ≡ some uuid
    → lookup uuid w.open_connections ≡ none
    → post api uuid r w ≡ ok (r', w')
    → let (d, w'') = whet_handler api parse_uuid fresh (delete_request uuid q) w' in
      (d ≡ cors blank) × ((j : Bytes) → lookup j w''.open_connections ≡ lookup j w.open_connections)
post_delete api parse_uuid uuid fresh r q w r' w' hp hf h =
    let posted = post-IsPosted api uuid r w r' w' h in
    rw (handler_delete api parse_uuid uuid fresh q w' hp) (
      refl,
      λ j.
          remove-open uuid w' j
          ∙ entry_removed uuid (new_connection w.server posted.peer) (make_peer posted.peer w) w' j
              hf posted.world,
    )
