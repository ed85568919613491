-- ===== src/Command/Serve/Attached.antt =====
-- A server that is run without `-detached`.
use whet.Base.{ℕ, ◌≡◌, some, false, ◌∙◌, Bytes, Option, length, refl}
use whet.Base.Result.{ok}
use whet.Peer.{Pion, IsPion}
use whet.Http.{Request, Response}
use whet.Connection.{Connection}
use whet.Server.State.{WhetServer, World}
use whet.Server.Routes.{Mux}
use whet.Server.Serving.{Service}
use whet.Server.Select.{Selected}
use whet.Server.Registry.{object_at}
use whet.Server.Handler.{Webrtc, post}
use whet.Server.Opening.Detaching.{on_open, crashes, with_pion, opening_needs_detached}
use whet.Command.{Flags}
use whet.Command.Serve.{Host, serving, run_whet}
use whet.Command.Serve.Admission.{serving_server}

-- If the program serves without `-detached`, every POST that succeeds leaves an object with a peer whose
-- first data channel, to whatever target, makes the program panic when it opens.
pub undetached_program_panics :
    (host : Host) (uuid : Bytes) (f : Flags) (s : WhetServer) (mux : Mux) (v : Service)
    (pion : Pion) (docs : IsPion pion) (api : Webrtc) (id : Bytes) (r : Request) (w w' : World)
    (r' : Response) (dial : Bytes → Option ℕ) (channel : ℕ) (x : Selected)
    → (run_whet host uuid f).1 ≡ serving s mux v
    → f.detached ≡ false
    → w.server ≡ s
    → post (with_pion pion api) id r w ≡ ok (r', w')
    → (c : Connection) × (object_at w'.heap (length w.heap) ≡ some c)
      × (on_open pion dial c.peer_connection channel x (length w.heap) w' ≡ crashes)
undetached_program_panics host uuid f s mux v pion docs api id r w w' r' dial channel x h d e p =
    let mode = (serving_server host uuid f s mux v h).2 in
    let (c, at, met) = opening_needs_detached pion docs api id r w w' r' dial channel x p in
    (c, at, met ∙ rw (e, mode, d) refl)
