-- ===== src/Server/Opening/Detaching.antt =====
-- pkg/server.go, `OnOpen`: the data channel is detached first, whatever the mode of the server.
use whet.Server.Lifecycle.{object_at-append}
use whet.Base.{
  ℕ, Bool, true, false, ◌≡◌, refl, Option, none, some, Bytes, length, inl, inr, if◌then◌else◌, ◌∙◌,
  arith, Option-cases,
}
use whet.Base.Result.{ok}
use whet.Peer.{Pion, IsPion, setup_connection, setting_engine, default_config}
use whet.Http.{Request, Response}
use whet.Connection.{Connection}
use whet.Server.State.{World}
use whet.Server.Select.{Selected, or_refuse}
use whet.Server.Registry.{object_at, new_connection, store}
use whet.Server.Handler.{Webrtc, post, open_peer}
use whet.Server.Atomic.{post-IsPosted}
use whet.Server.Opening.{Opened, open_channel}

pub data Met : Type 0 where
  -- `panic(dErr)`, which ends the program.
  crashes : Met
  goes_on : Opened → Met

after_detach : (ℕ → Opened) → Option ℕ → Met
after_detach go none = crashes
after_detach go (some raw) = goes_on (go raw)

-- `OnOpen` for a data channel of a peer.
unfoldable pub on_open : Pion → (Bytes → Option ℕ) → ℕ → ℕ → Selected → ℕ → World → Met
unfolding after_detach
on_open pion dial peer channel x p w =
    after_detach (λ raw. open_channel dial channel raw x p w) (pion.detach peer channel)

-- The calls of a server whose peers are those of `setupWebRTCConnection`.
abbrev pub with_pion : Pion → Webrtc → Webrtc
with_pion pion api = record api { new_peer = setup_connection pion }

open_peer-peer :
    (api : Webrtc) (detached : Bool) (content : Option Bytes) (body : Bytes) (peer : ℕ)
    → open_peer api detached content ≡ ok (body, peer)
    → api.new_peer detached ≡ some peer
unfolding open_peer or_refuse
open_peer-peer api detached none body peer h = cc
open_peer-peer api detached (some b) body peer h = elim (Option-cases (api.new_peer detached)) [
  | inl e ↦ absurd (ground (arith, rw (e, or_refuse) at h))
  | inr (p, e) ↦ e ∙ ground (arith, rw (e, or_refuse) at h)
]

-- What the data channel of a peer meets.
pub setup-on_open :
    (pion : Pion) (docs : IsPion pion) (dial : Bytes → Option ℕ) (detached : Bool)
    (peer channel : ℕ) (x : Selected) (p : ℕ) (w : World)
    → setup_connection pion detached ≡ some peer
    → on_open pion dial peer channel x p w ≡ (
        if detached
        then goes_on (open_channel dial channel (docs.raw peer channel) x p w)
        else crashes)
unfolding setup_connection setting_engine on_open after_detach
setup-on_open pion docs dial true peer channel x p w h =
    rw (docs.grants default_config peer channel h, after_detach) refl
setup-on_open pion docs dial false peer channel x p w h =
    rw (docs.refuses default_config peer channel h, after_detach) refl

-- A POST that succeeded leaves an object with a peer. When a data channel of that peer opens, to whatever
-- target, a server in detached mode goes on to dial or to offer; any other server panics.
pub opening_needs_detached :
    (pion : Pion) (docs : IsPion pion) (api : Webrtc) (uuid : Bytes) (r : Request) (w w' : World)
    (r' : Response) (dial : Bytes → Option ℕ) (channel : ℕ) (x : Selected)
    → post (with_pion pion api) uuid r w ≡ ok (r', w')
    → (c : Connection) × (object_at w'.heap (length w.heap) ≡ some c)
      × (on_open pion dial c.peer_connection channel x (length w.heap) w' ≡ (
          if w.server.detached
          then goes_on
              (open_channel dial channel (docs.raw c.peer_connection channel) x (length w.heap) w')
          else crashes))
unfolding store
opening_needs_detached pion docs api uuid r w w' r' dial channel x h =
    let posted = post-IsPosted (with_pion pion api) uuid r w r' w' h in
    let made =
      open_peer-peer (with_pion pion api) w.server.detached r.content posted.body posted.peer
        posted.opened in
    (
      new_connection w.server posted.peer,
      rw posted.world (object_at-append w.heap _),
      setup-on_open pion docs dial w.server.detached posted.peer channel x (length w.heap) w' made,
    )
