-- ===== src/Server/Listening.antt =====
-- Listeners: what registering, accepting and closing do.
use whet.Base.Assoc.{lookup, lookup-insert, insert}
use whet.Server.Select.{whet_path}
use whet.Server.State.{WhetServer}
use whet.Strings.{has_prefix}
use whet.Base.{
  if◌then◌else◌, ℕ, ◌≡◌, Bytes, not, length, true, bytes_eq, ◌∷◌, ◌≤◌, some, false, Bool-cases,
  arith, ◌+◌, [], ◌++◌, ◌==◌, length-append, inl, inr, ap, bytes_eq_iff, refl,
}
use whet.Server.Routes.{Mux}
use whet.Server.Listeners.{
  listener_target, WhetListener, listener_closed, accept, fine, panicked, close_listener, offer,
  pattern_matches, longer, best_pattern, handler_pattern, add_listener,
}

has_prefix-length : (p s : Bytes) → has_prefix p s ≡ true → length p ≤ length s
unfolding has_prefix
has_prefix-length [] s h = omega arith
has_prefix-length (c ∷ p) [] h = cc
has_prefix-length (c ∷ p) (d ∷ s) h = elim (Bool-cases (c == d)) [
  | inl e ↦ omega (arith, has_prefix-length p s (rw e at h))
  | inr e ↦ cc (rw e at h)
]

matches-length : (p path : Bytes) → pattern_matches p path ≡ true → length p ≤ length path
matches-length p path h = elim (Bool-cases (bytes_eq p path)) [
  | inl e ↦ rw ((bytes_eq_iff p path).0 e) (omega arith)
  | inr e ↦ has_prefix-length p path (ground (arith, e, h))
]

longer_fits : (p q : Bytes) (n : ℕ) → length p ≤ n → length q ≤ n → length (longer p q) ≤ n
longer_fits p q n h k = ground arith

best_pattern-length : (mux : Mux) (path : Bytes) → length (best_pattern mux path) ≤ length path
unfolding best_pattern
best_pattern-length [] path = omega arith
best_pattern-length ((p, r) ∷ mux) path = elim (Bool-cases (pattern_matches p path)) [
  | inl e ↦ rw e (
      longer_fits p (best_pattern mux path) (length path) (matches-length p path e)
        (best_pattern-length mux path))
  | inr e ↦ rw e (best_pattern-length mux path)
]

handler_pattern-length :
    (mux : Mux) (path : Bytes) → length (handler_pattern mux path) ≤ length path + 1
unfolding handler_pattern
handler_pattern-length mux path =
    ground (arith, best_pattern-length mux path, length-append path (b'/' ∷ []))

differs :
    (mux : Mux) (id : Bytes) → bytes_eq (handler_pattern mux (b'/' ∷ id)) (whet_path ++ id) ≡ false
differs mux id = elim (Bool-cases (bytes_eq (handler_pattern mux (b'/' ∷ id)) (whet_path ++ id))) [
  | inl e ↦ absurd (
      omega (
        arith,
        ap length ((bytes_eq_iff (handler_pattern mux (b'/' ∷ id)) (whet_path ++ id)).0 e),
        handler_pattern-length mux (b'/' ∷ id),
      ))
  | inr e ↦ e
]

-- `AddListener` never refuses an ID, whatever is registered: the pattern that it looks up is shorter
-- than the one that it compares with. So an ID that is in use is taken over: its target becomes a
-- listener's, and its entry in the listeners is replaced; no other entry changes.
pub add_listener-takes_over :
    (mux : Mux) (id : Bytes) (place : ℕ) (s : WhetServer)
    → (s' : WhetServer) × (add_listener mux id place s ≡ some s')
      × ((j : Bytes)
          → lookup j s'.listeners ≡ (if bytes_eq id j then some place else lookup j s.listeners))
      × ((j : Bytes)
          → lookup j s'.targets
            ≡ (if bytes_eq id j then some (listener_target id) else lookup j s.targets))
unfolding add_listener
add_listener-takes_over mux id place s = (
  record s {
    targets = insert id (listener_target id) s.targets;
    listeners = insert id place s.listeners;
  },
  rw (differs mux id) refl,
  λ j. lookup-insert id j place s.listeners,
  λ j. lookup-insert id j (listener_target id) s.targets,
)

-- The listener's channel is closed exactly when the listener is not open, and then nobody is blocked.
pub record IsCoherent (l : WhetListener) : Type 0 where
  pub agrees : l.is_closed ≡ not l.isopen
  pub emptied : l.isopen ≡ false → l.senders ≡ []

-- Every operation keeps that, and closing never panics the caller.
pub listener-IsCoherent :
    (c : ℕ) (l : WhetListener)
    → IsCoherent l
    → IsCoherent (accept l).1
      × IsCoherent (offer c l).1
      × IsCoherent (close_listener l).2
      × ((close_listener l).0 ≡ fine)
unfolding accept offer close_listener
listener-IsCoherent c l h = (
  record {
    agrees = ground (arith, h.agrees, h.emptied);
    emptied = ground (arith, h.agrees, h.emptied);
  },
  record {
    agrees = ground (arith, h.agrees, h.emptied);
    emptied = ground (arith, h.agrees, h.emptied);
  },
  record {
    agrees = ground (arith, h.agrees, h.emptied);
    emptied = ground (arith, h.agrees, h.emptied);
  },
  ground (arith, h.agrees, h.emptied),
)

-- A closed listener: `Accept` returns an error, another `Close` does nothing, and the handler that
-- offers it a connection panics.
pub closed_listener :
    (c : ℕ) (l : WhetListener)
    → IsCoherent l
    → let l' = (close_listener l).2 in
      ((accept l').0 ≡ listener_closed)
      × (close_listener l' ≡ (fine, 0, l'))
      × ((offer c l').0 ≡ panicked)
unfolding accept offer close_listener
closed_listener c l h = ground (arith, h.agrees, h.emptied)
