-- ===== src/Server/Abstract/View.antt =====
-- Storing an object and removing an entry, seen as operations on the registry.
use whet.Server.Lifecycle.{remove-open, object_at-append}
use whet.Base.Assoc.{insert, lookup-insert, lookup}
use whet.Server.Sound.{IsSound, remove_missing, remove_once, closes}
use whet.Server.Abstract.{Registry, view, register, unregister, found}
use whet.Connection.{Connection}
use whet.Server.State.{World}
use whet.Server.Registry.{store, object_at, write_at, remove_connection, close_object}
use whet.Base.{
  ℕ, Bytes, ◌≡◌, List, Option, ◌≢◌, ◌<◌, length, ◌++◌, ◌∷◌, [], arith, suc, zero, refl, ap,
  bytes_eq, Option-cases, false, some, true, if◌then◌else◌, none, inl, inr, Bool-cases, sym,
  bytes_eq_iff, append-nil,
}

-- Two registries that agree at every UUID are equal.
registry_ext :
    (f g : Registry)
    → ((id : Bytes) → f.connections id ≡ g.connections id)
    → f.sockets ≡ g.sockets
    → f ≡ g
registry_ext f g h s = λ i. record { connections = λ id. h id i; sockets = s i }

object_at_inside :
    (cs : List Connection) (c : Connection) (p : ℕ)
    → p < length cs
    → object_at (cs ++ c ∷ []) p ≡ object_at cs p
unfolding object_at
object_at_inside [] c p h = absurd (omega arith)
object_at_inside (d ∷ cs) c zero h = refl
object_at_inside (d ∷ cs) c (suc p) h = object_at_inside cs c p (omega arith)

object_at-write_at_ne :
    (cs : List Connection) (p q : ℕ) (c : Connection)
    → p ≢ q
    → object_at (write_at cs p c) q ≡ object_at cs q
unfolding object_at write_at
object_at-write_at_ne [] p q c h = refl
object_at-write_at_ne (d ∷ cs) zero zero c h = absurd (h refl)
object_at-write_at_ne (d ∷ cs) zero (suc q) c h = refl
object_at-write_at_ne (d ∷ cs) (suc p) zero c h = refl
object_at-write_at_ne (d ∷ cs) (suc p) (suc q) c h =
    object_at-write_at_ne cs p q c (λ e. h (ap suc e))

found_inside :
    (heap : List Connection) (c : Connection) (o : Option ℕ)
    → ((p : ℕ) → o ≡ some p → p < length heap)
    → found (heap ++ c ∷ []) o ≡ found heap o
unfolding found
found_inside heap c none h = refl
found_inside heap c (some p) h = object_at_inside heap c p (h p refl)

-- Storing a new object is a registration.
pub view-store :
    (uuid : Bytes) (c : Connection) (w : World)
    → IsSound w
    → view (store uuid c w) ≡ register uuid c (view w)
unfolding store found object_at
view-store uuid c w s = registry_ext _ _ entries refl
  where
    entries :
        (id : Bytes)
        → found (w.heap ++ c ∷ []) (lookup id (insert uuid (length w.heap) w.open_connections))
          ≡ (if bytes_eq uuid id then some c else found w.heap (lookup id w.open_connections))
    entries id = elim (Bool-cases (bytes_eq uuid id)) [
      | inl e ↦
          rw (lookup-insert uuid id (length w.heap) w.open_connections, e)
            (object_at-append w.heap c)
      | inr e ↦
          rw (lookup-insert uuid id (length w.heap) w.open_connections, e)
            (found_inside w.heap c (lookup id w.open_connections) (λ p h. s.inside id p h))
    ]

close_object_other :
    (o : Option Connection) (p q : ℕ) (w : World)
    → p ≢ q
    → object_at (close_object o p w).heap q ≡ object_at w.heap q
unfolding close_object
close_object_other none p q w h = refl
close_object_other (some c) p q w h =
    ground (arith, object_at-write_at_ne w.heap p q (record c { closed = true }) h)

found_other :
    (id j : Bytes) (w : World)
    → IsSound w
    → bytes_eq id j ≡ false
    → found (remove_connection id w).heap (lookup j w.open_connections)
      ≡ found w.heap (lookup j w.open_connections)
unfolding remove_connection found
found_other id j w s ne = elim (Option-cases (lookup id w.open_connections)) [
  | inl e ↦ rw (e, remove_connection)
  | inr (p, e) ↦ elim (Option-cases (lookup j w.open_connections)) [
    | inl f ↦ rw (f, found)
    | inr (q, f) ↦
        rw (f, found, e, remove_connection)
          (close_object_other (object_at w.heap p) p q _
            (λ same. ground (arith, ne, bytes_eq_iff id j, s.distinct id j p e, f, same)))
  ]
]

removed_sockets :
    (id : Bytes) (w : World)
    → (remove_connection id w).closed_sockets
      ≡ w.closed_sockets ++ closes (found w.heap (lookup id w.open_connections))
unfolding found
removed_sockets id w = elim (Option-cases (lookup id w.open_connections)) [
  | inl e ↦ rw (remove_missing id w e, e, found) (sym (append-nil w.closed_sockets))
  | inr (p, e) ↦ rw (e, found) (remove_once id p w e).0
]

-- A removal is one.
pub view-remove :
    (id : Bytes) (w : World) → IsSound w → view (remove_connection id w) ≡ unregister id (view w)
unfolding found
view-remove id w s = registry_ext _ _ entries (removed_sockets id w)
  where
    entries :
        (j : Bytes)
        → found (remove_connection id w).heap (lookup j (remove_connection id w).open_connections)
          ≡ (if bytes_eq id j then none else found w.heap (lookup j w.open_connections))
    entries j = elim (Bool-cases (bytes_eq id j)) [
      | inl e ↦ rw (remove-open id w j, e, found) refl
      | inr e ↦ rw (remove-open id w j, e) (found_other id j w s e)
    ]
