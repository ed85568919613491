-- ===== src/Command/Tokens.antt =====
-- The bearer token of the command line, and the targets that the flags describe.
use whet.Strings.Split.{split-append, split_whole}
use whet.Base.{
  List, Option, some, Bool, ◌≡◌, Lacks, none, ◌⊎◌, [], ◌++◌, Bool-cases, ◌∷◌, ◌||◌, inl, inr, true,
  false, refl, bytes_eq,
}
use whet.Command.{
  Flags, Start, runs_server, runs_client, start, start_server, start_client, main, set_proxy,
  show_proxy, Bytes, ProxyTarget, Result, SpecError, trim, Assoc, ForwardTargetPort,
  ListenTargetPort, err, parse_forward_all, ok, parse_listen_all,
}

-- The token that is handed on, if a server or a client is started.
abbrev pub token_of : Start → Option Bytes
token_of (runs_server ngrok token address targets f) = some token
token_of (runs_client token address listeners detached) = some token
token_of _ = none

start_server-token :
    (token : Bytes) (f : Flags) (b : Bool) (r : Result SpecError (Assoc ForwardTargetPort))
    → (token_of (start_server token f b r) ≡ none)
      ⊎ (token_of (start_server token f b r) ≡ some token)
unfolding start_server
start_server-token token f true r = inl refl
start_server-token token f false (err e) = inl refl
start_server-token token f false (ok m) = inr refl

start_client-token :
    (token : Bytes) (f : Flags) (b : Bool) (r : Result SpecError (Assoc ListenTargetPort))
    → (token_of (start_client token f b r) ≡ none)
      ⊎ (token_of (start_client token f b r) ≡ some token)
unfolding start_client
start_client-token token f true r = inl refl
start_client-token token f false (err e) = inl refl
start_client-token token f false (ok m) = inr refl

start-token :
    (token : Bytes) (f : Flags)
    → (token_of (start token f) ≡ none) ⊎ (token_of (start token f) ≡ some token)
unfolding start
start-token token f = elim (Bool-cases (f.serve || f.ngrok)) [
  | inl e ↦ rw e (start_server-token token f _ (parse_forward_all f.tcptarget))
  | inr e ↦ rw e (start_client-token token f _ (parse_listen_all f.tcplisten))
]

-- Whatever `-token` and `-gentoken` say, a server or client that `main` starts has no bearer token.
pub main_ignores_token :
    (uuid : Bytes) (parsed : Flags)
    → (token_of (main uuid parsed) ≡ none) ⊎ (token_of (main uuid parsed) ≡ some [])
unfolding main bytes_eq
main_ignores_token uuid parsed = start-token [] parsed

-- A proxy target that `Set` has taken from its own text is added to the list as it was, if its
-- subdomain holds no slash at its ends and neither text holds "=".
set_proxy-show :
    (list : List ProxyTarget) (p : ProxyTarget)
    → Lacks b'=' p.subdomain
    → Lacks b'=' p.address
    → trim b'/' p.subdomain ≡ p.subdomain
    → set_proxy list (show_proxy p) ≡ some (list ++ p ∷ [])
unfolding set_proxy
set_proxy-show list p hs ha ht =
    rw (split-append b'=' p.subdomain p.address hs, split_whole b'=' p.address ha, ht)
