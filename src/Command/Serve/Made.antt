-- ===== src/Command/Serve/Made.antt =====
-- What the server of `runServer` and of `runServerNGROK` is, by what it was made from.
use whet.Base.{
  ℕ, ◌≡◌, refl, List, [], ◌∷◌, some, none, true, arith, Bytes, Bool, Option, Option-cases, inl, inr,
  ==_iff,
}
use whet.Base.Assoc.{Assoc}
use whet.PortSpec.{ForwardTargetPort}
use whet.Server.State.{WhetServer, ProxyTarget}
use whet.Server.Routes.{Mux, Refuses, new_whet_server, configure_signal_server}
use whet.Server.Serving.{
  Service, Started, start_with_address, start_with_listener, is_in, tracks, still_serving,
  returns_nil, returns_error,
}
use whet.Command.Serve.{
  Host, Running, exits, panics, returns, forwarding, serving, run_server, run_server_ngrok,
  after_start, new_service, after_new, after_tunnel,
}

-- The `http.Server` of the program serves a net listener that accepts.
abbrev pub IsUp : Service → Type 0
IsUp v = (l : ℕ) × (v.http ≡ some 0) × (tracks 0 l v.serves ≡ true) × (is_in l v.accepting ≡ true)

-- What a server is, by the values it was made from.
pub record IsMade (refuses : Refuses) (token : Bytes) (targets : Assoc ForwardTargetPort)
    (folders : List Bytes) (ps : List ProxyTarget) (detached : Bool) (s : WhetServer) (mux : Mux)
    (v : Service) : Type 0 where
  pub guarded : s.bearer_token ≡ token
  pub known : s.targets ≡ targets
  pub mode : s.detached ≡ detached
  pub routed : configure_signal_server refuses ps folders ≡ some mux
  pub up : IsUp v

abbrev UpIf : Started × Service → Type 0
UpIf (still_serving, v) = IsUp v
UpIf (returns_nil, v) = Unit
UpIf (returns_error, v) = Unit

start_with_address-UpIf :
    (o : Option ℕ) (addr : Bytes) → UpIf (start_with_address o addr true (new_service []))
unfolding start_with_address is_in tracks
start_with_address-UpIf none addr = tt
start_with_address-UpIf (some l) addr =
    (l, refl, ground (arith, ==_iff l l), ground (arith, ==_iff l l))

start_with_listener-UpIf :
    (l : ℕ) (addr : Bytes) → UpIf (start_with_listener l addr true (new_service (l ∷ [])))
unfolding start_with_listener is_in tracks
start_with_listener-UpIf l addr =
    let same = (==_iff l l).1 refl in
    rw (same, is_in) (l, refl, ground (arith, same), ground (arith, same))

module _ (refuses : Refuses) (token : Bytes) (targets : Assoc ForwardTargetPort)
    (folders : List Bytes) (ps : List ProxyTarget) (detached : Bool) where
  abbrev pub MadeIf : Running → Type 0
  MadeIf (serving s mux v) = IsMade refuses token targets folders ps detached s mux v
  MadeIf exits = Unit
  MadeIf panics = Unit
  MadeIf returns = Unit
  MadeIf (forwarding fs) = Unit

  -- The fields of a new server, and its mux.
  abbrev IsNew : Option (WhetServer × Mux) → Type 0
  IsNew none = Unit
  IsNew (some (n, m)) =
      (n.bearer_token ≡ token)
      × (n.targets ≡ targets)
      × (n.detached ≡ detached)
      × (configure_signal_server refuses ps folders ≡ some m)

  new_whet_server-IsNew : IsNew (new_whet_server refuses token targets folders ps detached)
  unfolding new_whet_server
  new_whet_server-IsNew = elim (Option-cases (configure_signal_server refuses ps folders)) [
    | inl e ↦ rw (e, new_whet_server) tt
    | inr (m, e) ↦ rw (e, new_whet_server) (refl, refl, refl, e)
  ]

  after_start-MadeIf :
      (n : WhetServer) (m : Mux) (r : Started × Service)
      → IsNew (some (n, m))
      → UpIf r
      → MadeIf (after_start n m r)
  unfolding after_start
  after_start-MadeIf n m (returns_nil, u) made up = tt
  after_start-MadeIf n m (returns_error, u) made up = tt
  after_start-MadeIf n m (still_serving, u) (g, k, d, r) up = record {
    guarded = g;
    known = k;
    mode = d;
    routed = r;
    up = up;
  }

  after_new-MadeIf :
      (st : Started × Service) (o : Option (WhetServer × Mux))
      → IsNew o
      → UpIf st
      → MadeIf (after_new st o)
  unfolding after_new
  after_new-MadeIf st none new up = tt
  after_new-MadeIf st (some (n, m)) new up = after_start-MadeIf n m st new up

  pub run_server-MadeIf :
      (host : Host) (addr : Bytes)
      → host.refuses ≡ refuses
      → MadeIf (run_server host token addr targets folders ps detached)
  unfolding run_server
  run_server-MadeIf host addr e =
      rw e (
        after_new-MadeIf _ _ new_whet_server-IsNew
          (start_with_address-UpIf (host.listen addr) addr))

  after_tunnel-MadeIf :
      (o : Option (WhetServer × Mux)) (t : Option (ℕ × Bytes)) → IsNew o → MadeIf (after_tunnel o t)
  unfolding after_tunnel
  after_tunnel-MadeIf o none new = tt
  after_tunnel-MadeIf o (some (l, addr)) new =
      after_new-MadeIf _ o new (start_with_listener-UpIf l addr)

  pub run_server_ngrok-MadeIf :
      (host : Host)
      → host.refuses ≡ refuses
      → MadeIf (run_server_ngrok host token targets folders ps detached)
  unfolding run_server_ngrok
  run_server_ngrok-MadeIf host e = rw e (after_tunnel-MadeIf _ _ new_whet_server-IsNew)
