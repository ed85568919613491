-- ===== src/Command/Serve/Admission.antt =====
-- What a server that `main` starts is, and whom it admits.
use whet.Command.Serve.Made.{IsUp, IsMade, MadeIf, run_server-MadeIf, run_server_ngrok-MadeIf}
use whet.Server.Atomic.{open_post-status}
use whet.Base.{
  ℕ, ◌≡◌, refl, [], some, none, true, false, Bytes, Bool, Option, Bool-cases, inl, inr, ◌||◌, subst,
  bytes_eq, ap, ◌∙◌, codes, ◌⊎◌, ◌&&◌,
}
use whet.Base.Assoc.{Assoc, lookup}
use whet.Base.Result.{Result, ok, err}
use whet.Http.{Request}
use whet.PortSpec.{ForwardTargetPort, SpecError, parse_forward, parse_forward_all, parse_listen_all}
use whet.PortSpec.Slice.{latest, parse_forward_all-latest}
use whet.Server.State.{WhetServer, World}
use whet.Server.Routes.{Mux, Refuses, new_whet_server, configure_signal_server}
use whet.Server.Serving.{Service, start_with_address}
use whet.Server.Handler.{Webrtc, whet_handler}
use whet.Command.{Flags, start, start_server, start_client, main, ListenTargetPort, is_empty}
use whet.Command.Serve.{
  Host, Running, exits, panics, returns, forwarding, serving, run_server, carry_out, after_start,
  run_whet, after_new, after_sockets, Forward, beside_mirror,
}

-- What a program's server is, by the flags.
abbrev Told : Refuses → Flags → Running → Type 0
Told refuses f (serving s mux v) =
    (targets : Assoc ForwardTargetPort) × (parse_forward_all f.tcptarget ≡ ok targets)
    × IsMade refuses [] targets f.servefolder f.proxytarget f.detached s mux v
Told refuses f exits = Unit
Told refuses f panics = Unit
Told refuses f returns = Unit
Told refuses f (forwarding fs) = Unit

MadeIf-Told :
    (refuses : Refuses) (f : Flags) (targets : Assoc ForwardTargetPort) (r : Running)
    → parse_forward_all f.tcptarget ≡ ok targets
    → MadeIf refuses [] targets f.servefolder f.proxytarget f.detached r
    → Told refuses f r
MadeIf-Told refuses f targets exits e m = tt
MadeIf-Told refuses f targets panics e m = tt
MadeIf-Told refuses f targets returns e m = tt
MadeIf-Told refuses f targets (forwarding fs) e m = tt
MadeIf-Told refuses f targets (serving s mux v) e m = (targets, e, m)

start_server-Told :
    (host : Host) (f : Flags) (b : Bool) (r : Result SpecError (Assoc ForwardTargetPort))
    → parse_forward_all f.tcptarget ≡ r
    → Told host.refuses f (carry_out host (start_server [] f b r))
unfolding start_server carry_out
start_server-Told host f true r e = tt
start_server-Told host f false (err x) e = tt
start_server-Told host f false (ok targets) e =
    MadeIf-Told host.refuses f targets _ e (elim (Bool-cases f.ngrok) [
      | inl h ↦ rw h (
          run_server_ngrok-MadeIf host.refuses [] targets f.servefolder f.proxytarget f.detached
            host refl)
      | inr h ↦ rw h (
          run_server-MadeIf host.refuses [] targets f.servefolder f.proxytarget f.detached host
            f.server refl)
    ])

after_sockets-Told :
    (refuses : Refuses) (f : Flags) (o : Option (Assoc Forward)) → Told refuses f (after_sockets o)
unfolding after_sockets
after_sockets-Told refuses f none = tt
after_sockets-Told refuses f (some fs) = tt

start_client-Told :
    (host : Host) (f : Flags) (b : Bool) (r : Result SpecError (Assoc ListenTargetPort))
    → Told host.refuses f (carry_out host (start_client [] f b r))
unfolding start_client carry_out
start_client-Told host f true r = tt
start_client-Told host f false (err x) = tt
start_client-Told host f false (ok ls) = after_sockets-Told host.refuses f _

main-Told :
    (host : Host) (uuid : Bytes) (f : Flags) → Told host.refuses f (carry_out host (main uuid f))
unfolding main start bytes_eq
main-Told host uuid f = elim (Bool-cases (f.serve || f.ngrok)) [
  | inl e ↦ rw e (start_server-Told host f _ (parse_forward_all f.tcptarget) refl)
  | inr e ↦ rw e (start_client-Told host f _ (parse_listen_all f.tcplisten))
]

beside_mirror-Told :
    (refuses : Refuses) (f : Flags) (listens : Bool) (r : Running)
    → Told refuses f r
    → Told refuses f (beside_mirror listens r)
unfolding beside_mirror
beside_mirror-Told refuses f true (serving s mux v) h = h
beside_mirror-Told refuses f false (serving s mux v) h = tt
beside_mirror-Told refuses f true (forwarding fs) h = tt
beside_mirror-Told refuses f false (forwarding fs) h = tt
beside_mirror-Told refuses f listens exits h = tt
beside_mirror-Told refuses f listens panics h = tt
beside_mirror-Told refuses f listens returns h = tt

-- A server that the program runs has the mux of the proxy targets and folders that the flags list,
-- maps each name to the last `-tcptarget` text for it, is detached as the flag says, and has no
-- bearer token, whatever `-token` and `-gentoken` say; its HTTP server serves an open net listener.
pub serving_server :
    (host : Host) (uuid : Bytes) (f : Flags) (s : WhetServer) (mux : Mux) (v : Service)
    → (run_whet host uuid f).1 ≡ serving s mux v
    → (configure_signal_server host.refuses f.proxytarget f.servefolder ≡ some mux)
      × ((k : Bytes) → lookup k s.targets ≡ latest parse_forward (λ t. t.target_name) k f.tcptarget)
      × (s.detached ≡ f.detached)
      × (s.bearer_token ≡ [])
      × IsUp v
unfolding run_whet
serving_server host uuid f s mux v h =
    let (targets, e, m) =
      subst (Told host.refuses f) h
        (beside_mirror-Told host.refuses f _ _ (main-Told host uuid f)) in
    (
      m.routed,
      λ k. ap (lookup k) m.known ∙ parse_forward_all-latest f.tcptarget targets k e,
      m.mode,
      m.guarded,
      m.up,
    )

-- No POST to a server that the program runs is refused for its bearer token, in any state of the server's
-- connections: it is answered, or refused with status 400 or 500.
pub main_admits :
    (host : Host) (uuid : Bytes) (f : Flags) (s : WhetServer) (mux : Mux) (v : Service)
    (api : Webrtc) (parse_uuid : Bytes → Option Bytes) (id : Bytes) (r : Request) (w : World)
    → (run_whet host uuid f).1 ≡ serving s mux v
    → w.server ≡ s
    → r.method ≡ codes "POST"
    → let answer = (whet_handler api parse_uuid id r w).0.status in
      (answer ≡ 200) ⊎ ((answer ≡ 400) ⊎ (answer ≡ 500))
main_admits host uuid f s mux v api parse_uuid id r w h e p =
    let made = serving_server host uuid f s mux v h in
    open_post-status api parse_uuid id r w p (rw e made.3)

-- What the program needs to serve at an address.
pub record CanServe (host : Host) (f : Flags) : Type 0 where
  pub asked : f.serve ≡ true
  pub plain : f.ngrok ≡ false
  pub wanted : is_empty f.tcptarget && is_empty f.proxytarget && is_empty f.servefolder ≡ false
  pub targets : Assoc ForwardTargetPort
  pub parsed : parse_forward_all f.tcptarget ≡ ok targets
  pub mux : Mux
  pub routed : configure_signal_server host.refuses f.proxytarget f.servefolder ≡ some mux
  -- No mirror server is asked for, or its address can be listened on.
  pub mirrored : (bytes_eq f.mirror [] || host.mirror_listens f.mirror) ≡ true
  pub socket : ℕ
  pub opened : host.listen f.server ≡ some socket

CanServe-serves :
    (host : Host) (uuid : Bytes) (f : Flags)
    → CanServe host f
    → (s : WhetServer) × (mux : Mux) × (v : Service) × ((run_whet host uuid f).1 ≡ serving s mux v)
unfolding run_whet main start start_server carry_out run_server after_new after_start
    new_whet_server start_with_address beside_mirror
CanServe-serves host uuid f c =
    rw
      (
        c.asked, start, c.wanted, c.parsed, start_server, carry_out, c.plain, run_server,
        new_whet_server, c.routed, c.opened, c.mirrored, beside_mirror,
      )
      (_, _, _, refl)

-- If `-serve` is given without `-ngrok`, some target is named, all `-tcptarget` texts are targets, no
-- pattern is registered twice or refused by the mux or refused by the mux, the address of `-server` can be listened on, and that of `-mirror` too if it is
-- given, the program serves: with
-- the mux of the proxy targets and folders that the flags list, with each name mapped to the last
-- `-tcptarget` text for it, in the mode of `-detached`, with an HTTP server on an open net listener,
-- and without a bearer token, whatever `-token` and `-gentoken` say.
pub main_serves :
    (host : Host) (uuid : Bytes) (f : Flags)
    → CanServe host f
    → (s : WhetServer) × (mux : Mux) × (v : Service) × ((run_whet host uuid f).1 ≡ serving s mux v)
      × (configure_signal_server host.refuses f.proxytarget f.servefolder ≡ some mux)
      × ((k : Bytes) → lookup k s.targets ≡ latest parse_forward (λ t. t.target_name) k f.tcptarget)
      × (s.detached ≡ f.detached)
      × (s.bearer_token ≡ [])
      × IsUp v
main_serves host uuid f c =
    let (s, mux, v, h) = CanServe-serves host uuid f c in
    let (routed, known, mode, open_door, up) = serving_server host uuid f s mux v h in
    (s, mux, v, h, routed, known, mode, open_door, up)
