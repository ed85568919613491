-- ===== src/Client/Dial/Closing.antt =====
-- A dialled connection as a `net.Conn`: it starts empty, and closing it tells the server.
use whet.Stream.Closing.{close_open}
use whet.Client.Dial.{
  dial_hangs, after_shake, dial_client, on_open, by_shake, Ended, finish, Peers, connected, Web,
  fails_with, Opening, Objects, Negotiated, negotiate, client_connection, authorization,
}
use whet.Stream.Close.{close, Client, Closed, closed_peer, sent_delete, tear_down}
use whet.FlowControl.{max_buffer_size}
use whet.Handshake.Outcomes.{Reflects, handshake-Reflects}
use whet.Handshake.{handle_attached_handshake, handle_handshake, Shaken}
use whet.Base.{
  ◌≡◌, ℕ, true, length, [], suc, false, ap, arith, zero, Bytes, inl, refl, inr, bytes_eq, Bool,
  some, Option, ◌∷◌, Option-cases, none,
}
use whet.Connection.{Connection}
use whet.Client.{dial_url}
use whet.Base.Result.{ok}
use whet.Stream.Made.{make_bytes, dial_webrtc_conn, WebrtcConn, dials, new_webrtc_conn}
use whet.Stream.Reading.{IsReady, pending}

-- What a dial that connects keeps of the object that it set up.
abbrev Keeps : Connection → Ended → Type 0
Keeps c (connected d) =
    (d.detached ≡ c.detached)
    × (d.resource_url ≡ c.resource_url)
    × (d.bearer_token ≡ c.bearer_token)
Keeps c (fails_with e) = Unit
Keeps c dial_hangs = Unit

by_shake-Keeps : (c : Connection) (s : Shaken) → Reflects false c s → Keeps c (after_shake s).0
unfolding after_shake by_shake
by_shake-Keeps c s (inl (e, f, _, _)) = rw (e, f) (refl, refl, refl)
by_shake-Keeps c s (inr (inl (e, f, _, _))) = rw e tt
by_shake-Keeps c s (inr (inr (e, f, _, _))) = rw e tt

on_open-Keeps :
    (o : Opening) (detached : Bool) (token : Bytes) (socket : Option ℕ) (n : Negotiated)
    → let c = client_connection detached token socket n in Keeps c (on_open o detached c).0
unfolding on_open handle_handshake handle_attached_handshake after_shake by_shake
on_open-Keeps o true token socket n = elim (Option-cases o.raw) [
  | inl e ↦ rw e tt
  | inr (raw, e) ↦
      let c = record (client_connection true token socket n) { raw_detached = some raw } in
      rw e (by_shake-Keeps c _ (handshake-Reflects false false c (o.first ∷ o.rest) o.message))
]
on_open-Keeps o false token socket n = (refl, refl, refl)

length-make_bytes : (n : ℕ) → length (make_bytes n) ≡ n
unfolding make_bytes
length-make_bytes zero = refl
length-make_bytes (suc n) = ap suc (length-make_bytes n)

-- A fresh connection that is detached is ready to read, and nothing is pending.
new_webrtc_conn-IsReady :
    (c : Connection)
    → c.detached ≡ true
    → IsReady (new_webrtc_conn c).stream × (pending (new_webrtc_conn c).stream ≡ [])
unfolding new_webrtc_conn
new_webrtc_conn-IsReady c d = (
  record {
    is_detached = d;
    ordered = omega arith;
    inside = omega arith;
    capacity = length-make_bytes max_buffer_size;
  },
  refl,
)

dials-Keeps :
    (c : Connection) (e : Ended) (w : WebrtcConn)
    → Keeps c e
    → dial_webrtc_conn e ≡ dials w
    → (d : Connection) × (w ≡ new_webrtc_conn d) × Keeps c (connected d)
unfolding dial_webrtc_conn
dials-Keeps c (connected d) w k e = (d, ground (arith, e), k)
dials-Keeps c (fails_with x) w k e = cc
dials-Keeps c dial_hangs w k e = cc

new_close :
    (c : Connection) (url token : Bytes) (client : Client) (amount : ℕ → ℕ)
    → c.resource_url ≡ url
    → c.bearer_token ≡ token
    → bytes_eq url [] ≡ false
    → client.builds url ≡ true
    → (r : Closed) × (close client amount (new_webrtc_conn c).conn ≡ some r)
      × (r.effects ≡ closed_peer ∷ sent_delete url (authorization token) ∷ [])
unfolding new_webrtc_conn tear_down
new_close c url token client amount u t located builds =
    let (d, _, _, closes) = close_open client amount (new_webrtc_conn c).conn refl in
    (_, closes, rw (u, t, located, builds))

-- A detached dial that has negotiated a location and returns a connection returns one that is ready to
-- read with nothing pending; its first close returns, having closed the peer and sent the DELETE of
-- that location with the token that it dialled with.
pub dial_close :
    (api : Peers) (web : Web) (o : Opening) (server target token : Bytes) (objects : Objects)
    (n : Negotiated) (w : WebrtcConn) (client : Client) (amount : ℕ → ℕ)
    → negotiate true api web true (dial_url server target) token ≡ ok n
    → dial_webrtc_conn (dial_client api web o server target token true objects).0 ≡ dials w
    → bytes_eq n.answered.resource_url [] ≡ false
    → client.builds n.answered.resource_url ≡ true
    → IsReady w.stream
      × (pending w.stream ≡ [])
      × ((r : Closed) × (close client amount w.conn ≡ some r)
          × (r.effects
              ≡ closed_peer ∷ sent_delete n.answered.resource_url (authorization token) ∷ []))
unfolding dial_client finish
dial_close api web o server target token objects n w client amount h returned located builds =
    let (c, same, (detached, url, bearer)) =
      dials-Keeps (client_connection true token none n)
        (on_open o true (client_connection true token none n)).0 w
        (on_open-Keeps o true token none n) (rw h at returned) in
    let (ready, empty) = new_webrtc_conn-IsReady c detached in
    rw same (
      ready,
      empty,
      new_close c n.answered.resource_url token client amount url bearer located builds,
    )
