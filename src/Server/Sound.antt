-- ===== src/Server/Sound.antt =====
-- The invariant of the registry, which every request keeps, and sockets that are closed once.
use whet.Strings.{trim_prefix}
use whet.Base.{
  ℕ, ◌<◌, ◌≡◌, refl, inl, inr, List, [], ◌∷◌, ◌++◌, some, none, true, false, arith, Bytes, codes,
  Option, bytes_eq, bytes_eq_iff, Bool-cases, Option-cases, sym, ◌∙◌, length, length-append,
  if◌then◌else◌, bytes_eq_self, Bool, append-nil, subst,
}
use whet.Base.Result.{Fails, Result, ok, err}
use whet.Base.Assoc.{lookup, lookup-insert}
use whet.Http.{Request, Response, blank, http_error}
use whet.Connection.{Connection}
use whet.Server.State.{World}
use whet.Server.Select.{whet_path, Refusal}
use whet.Server.Registry.{new_connection, store, object_at, close_object, remove_connection}
use whet.Server.Handler.{Webrtc, make_peer, post, delete_peer, respond, whet_handler, cors}
use whet.Server.Refusals.{Leaves, post-Leaves}
use whet.Server.Atomic.{post-IsPosted}
use whet.Server.Lifecycle.{remove-open, length-remove}

-- The map's entries point to objects, and no two of them to the same one.
pub record IsSound (w : World) : Type 0 where
  pub inside : (id : Bytes) (p : ℕ) → lookup id w.open_connections ≡ some p → p < length w.heap
  pub distinct :
      (id j : Bytes) (p : ℕ)
      → lookup id w.open_connections ≡ some p
      → lookup j w.open_connections ≡ some p
      → id ≡ j

store-IsSound : (uuid : Bytes) (c : Connection) (w : World) → IsSound w → IsSound (store uuid c w)
unfolding store
store-IsSound uuid c w s = record {
  inside = λ id p.
      rw (lookup-insert uuid id (length w.heap) w.open_connections)
        (λ h. ground (arith, s.inside id p, length-append w.heap (c ∷ [])));
  distinct = λ id j p.
      rw
        (
          lookup-insert uuid id (length w.heap) w.open_connections,
          lookup-insert uuid j (length w.heap) w.open_connections,
        )
        (λ h k. ground (
          arith,
          s.distinct id j p,
          s.inside id p,
          s.inside j p,
          bytes_eq_iff uuid id,
          bytes_eq_iff uuid j,
        ));
}

remove-IsSound : (id : Bytes) (w : World) → IsSound w → IsSound (remove_connection id w)
remove-IsSound id w s = record {
  inside = λ j p.
      rw (remove-open id w j)
        (λ h. ground (arith, s.inside j p, length-remove id w, bytes_eq_iff id j));
  distinct = λ i j p.
      rw (remove-open id w i, remove-open id w j) (λ h k. ground (arith, s.distinct i j p));
}

-- A new peer is not in the registry.
made-IsSound : (peer : ℕ) (w : World) → IsSound w → IsSound (make_peer peer w)
made-IsSound peer w s = record { inside = s.inside; distinct = s.distinct }

respond-IsSound :
    (api : Webrtc) (uuid : Bytes) (r : Request) (w : World)
    (m : Result (Refusal × World) (Response × World))
    → post api uuid r w ≡ m
    → IsSound w
    → IsSound (respond m).1
respond-IsSound api uuid r w (ok (r', w')) e s =
    let posted = post-IsPosted api uuid r w r' w' e in
    subst IsSound (sym posted.world) (
      store-IsSound uuid (new_connection w.server posted.peer) (make_peer posted.peer w)
        (made-IsSound posted.peer w s))
respond-IsSound api uuid r w (err (e, w')) p s =
    let left = subst (Fails (Leaves r w)) p (post-Leaves api uuid r w) in
    elim left [
      | inl (refused, same) ↦ subst IsSound (sym same) s
      | inr (refused, allowed, (peer, same)) ↦ subst IsSound (sym same) (made-IsSound peer w s)
    ]

delete_peer-IsSound :
    (parse_uuid : Bytes → Option Bytes) (r : Request) (w : World)
    → IsSound w
    → IsSound (delete_peer parse_uuid r w).1
unfolding delete_peer
delete_peer-IsSound parse_uuid r w s =
    elim (Option-cases (parse_uuid (trim_prefix whet_path r.path))) [
      | inl e ↦ rw (e, delete_peer) s
      | inr (id, e) ↦ rw (e, delete_peer) (remove-IsSound id w s)
    ]

-- Every request keeps the registry sound, whatever its method and its outcome.
pub handler-IsSound :
    (api : Webrtc) (parse_uuid : Bytes → Option Bytes) (uuid : Bytes) (r : Request) (w : World)
    → IsSound w
    → IsSound (whet_handler api parse_uuid uuid r w).1
unfolding whet_handler
handler-IsSound api parse_uuid uuid r w s = elim (Bool-cases (bytes_eq r.method (codes "POST"))) [
  | inl e ↦ rw e (respond-IsSound api uuid r w (post api uuid r w) refl s)
  | inr e ↦ rw e (others (bytes_eq r.method (codes "DELETE")) (bytes_eq r.method (codes "OPTIONS")))
]
  where
    others :
        (d o : Bool)
        → IsSound
            (if d
              then delete_peer parse_uuid r w
              else if o
              then (cors blank, w)
              else (http_error (codes "Method not allowed you doink!") 405 (cors blank), w)).1
    others true o = delete_peer-IsSound parse_uuid r w s
    others false true = s
    others false false = s

-- The sockets that the removal of an entry closes: that of its object, if it has one and is open.
abbrev pub closes : Option Connection → List ℕ
closes none = []
closes (some c) = elim c.conn [ none ↦ [] | some socket ↦ if c.closed then [] else socket ∷ [] ]

close_object-sockets :
    (o : Option Connection) (p : ℕ) (w : World)
    → (close_object o p w).closed_sockets ≡ w.closed_sockets ++ closes o
unfolding close_object
close_object-sockets none p w = sym (append-nil w.closed_sockets)
close_object-sockets (some c) p w = ground (arith, append-nil w.closed_sockets)

pub remove_missing :
    (id : Bytes) (w : World) → lookup id w.open_connections ≡ none → remove_connection id w ≡ w
unfolding remove_connection
remove_missing id w e = rw (e, remove_connection)

-- The removal of a registered connection closes the socket of its object, if it has one that is not
-- closed, and no other; the entry is gone, so a second removal changes nothing at all.
pub remove_once :
    (id : Bytes) (p : ℕ) (w : World)
    → lookup id w.open_connections ≡ some p
    → ((remove_connection id w).closed_sockets ≡ w.closed_sockets ++ closes (object_at w.heap p))
      × (remove_connection id (remove_connection id w) ≡ remove_connection id w)
unfolding remove_connection
remove_once id p w h = (
  rw (h, remove_connection) (close_object-sockets (object_at w.heap p) p _),
  remove_missing id (remove_connection id w) (remove-open id w id ∙ rw (bytes_eq_self id)),
)
