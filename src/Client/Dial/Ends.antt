-- ===== src/Client/Dial/Ends.antt =====
-- How a dial ends, and what it leaves in the map.
use whet.Base.Assoc.{lookup, lookup-insert}
use whet.Handshake.Outcomes.{Reflects, handshake-Reflects}
use whet.Client.Dial.{
  after_shake, on_open, dial_client, by_shake, finish, Ended, Opening, enter, connected, Peers, Web,
  Negotiated, client_connection, Objects, fails_with, dial_hangs, negotiate, handle_client,
  start_loops, DialError, Handled, drops, runs,
}
use whet.Connection.{Connection}
use whet.Handshake.{Shaken, handle_handshake, handle_attached_handshake}
use whet.Client.{dial_url, handle_url}
use whet.Base.Result.{ok, Result, Result-cases, err}
use whet.Base.{
  ℕ, Bool, Bytes, Option, ◌≡◌, false, Option-cases, true, none, inl, ◌⊎◌, inr, ◌++◌, ◌∷◌, [],
  if◌then◌else◌, bytes_eq, some, length, refl,
}

-- The registered object, by how the dial ended.
abbrev pub Fits : Bool → Ended → Connection → Type 0
Fits detached (connected d) c = (d ≡ c) × (c.client_ready ≡ detached) × (c.closed ≡ false)
Fits detached (fails_with e) c = (c.raw_detached ≡ none) ⊎ (c.closed ≡ true)
Fits detached dial_hangs c = (c.client_ready ≡ false) × (c.closed ≡ false)

by_shake-Fits :
    (c : Connection) (s : Shaken)
    → c.client_ready ≡ false
    → c.closed ≡ false
    → Reflects false c s
    → Fits true (after_shake s).0 (after_shake s).1
unfolding after_shake by_shake
by_shake-Fits c s r k (inl (e, f, _, _)) = rw (e, f) (refl, refl, k)
by_shake-Fits c s r k (inr (inl (e, f, _, _))) = rw (e, f) (inr refl)
by_shake-Fits c s r k (inr (inr (e, f, _, _))) = rw (e, f) (r, k)

on_open-Fits :
    (o : Opening) (detached : Bool) (token : Bytes) (socket : Option ℕ) (n : Negotiated)
    → let c = client_connection detached token socket n in
      Fits detached (on_open o detached c).0 (on_open o detached c).1
unfolding on_open handle_handshake handle_attached_handshake after_shake by_shake
on_open-Fits o true token socket n = elim (Option-cases o.raw) [
  | inl e ↦ rw e (inl refl)
  | inr (raw, e) ↦
      let c = record (client_connection true token socket n) { raw_detached = some raw } in
      rw e (
        by_shake-Fits c _ refl refl (handshake-Reflects false false c (o.first ∷ o.rest) o.message))
]
on_open-Fits o false token socket n = (refl, refl, refl)

-- A dial that has negotiated registers one object under the ID of the location and changes no other
-- entry, also if the handshake fails: the object of a dial that connected is ready exactly in detached
-- mode, and that of one that failed is closed, or has no detached channel, and stays in the map.
pub dial_ends :
    (api : Peers) (web : Web) (o : Opening) (server target token : Bytes) (detached : Bool)
    (objects : Objects) (n : Negotiated)
    → negotiate true api web detached (dial_url server target) token ≡ ok n
    → let (end, after) = dial_client api web o server target token detached objects in
      (c : Connection) × (after.heap ≡ objects.heap ++ c ∷ [])
      × ((id : Bytes)
          → lookup id after.open_connections ≡ (
              if bytes_eq n.answered.id id
              then some (length objects.heap)
              else lookup id objects.open_connections))
      × Fits detached end c
unfolding dial_client finish enter
dial_ends api web o server target token detached objects n h = rw h (
  (on_open o detached (client_connection detached token none n)).1,
  refl,
  (λ id. lookup-insert n.answered.id id (length objects.heap) objects.open_connections),
  on_open-Fits o detached token none n,
)

-- What a handled connection leaves: the object that is registered under an ID, and no other change; or
-- the socket and the peer that are closed, and nothing registered.
abbrev pub Leaves :
    Result DialError Negotiated → ℕ → Option ℕ → Bool → Bytes → Objects → Handled × Objects → Type 0
Leaves (err e) socket peer detached token objects (handled, after) =
    (handled ≡ drops socket peer) × (after ≡ objects)
Leaves (ok n) socket peer detached token objects (handled, after) =
    (handled ≡ runs (client_connection detached token (some socket) n))
    × (after.heap ≡ objects.heap ++ client_connection detached token (some socket) n ∷ [])
    × ((id : Bytes)
        → lookup id after.open_connections ≡ (
            if bytes_eq n.answered.id id
            then some (length objects.heap)
            else lookup id objects.open_connections))

-- An accepted TCP connection, on both branches: if the negotiation succeeds, its object is registered
-- under the ID of the location and the loops run, and no other entry changes; if it fails, the socket
-- and the peer that was made are closed, and the map is as it was.
pub handle_client-Leaves :
    (api : Peers) (web : Web) (socket : ℕ) (server target token : Bytes) (detached : Bool)
    (objects : Objects)
    → Leaves
        (negotiate false api web detached (handle_url server target) token)
        socket
        (api.new_peer detached)
        detached
        token
        objects
        (handle_client api web socket server target token detached objects)
unfolding handle_client start_loops enter
handle_client-Leaves api web socket server target token detached objects =
    elim (Result-cases (negotiate false api web detached (handle_url server target) token)) [
      | inl (n, e) ↦ rw e (
        refl,
        refl,
        λ id. lookup-insert n.answered.id id (length objects.heap) objects.open_connections,
      )
      | inr (e, f) ↦ rw f (refl, refl)
    ]
