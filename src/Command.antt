-- ===== src/Command.antt =====
-- cmd/main.go: the flag lists, and what `main` does with the flags. `flag.Parse` is given by the values
-- that it stores; until it is called, each flag has its default.
pub mod Tokens
pub mod Run
pub mod Serve
mod Tests
use whet.Base.{
  Bool, true, false, ◌&&◌, ◌||◌, List, [], ◌∷◌, ◌++◌, Option, none, some, Bytes, codes, bytes_eq,
  if◌then◌else◌,
}
use whet.Base.Result.{Result, ok, err}
use whet.Base.Assoc.{Assoc}
use whet.Strings.{split, join, trim}
use whet.PortSpec.{
  ForwardTargetPort, ListenTargetPort, SpecError, parse_forward_all, parse_listen_all,
}
use whet.Server.State.{ProxyTarget}

-- `targetAddrList.Set` and `serveFolderList.Set`.
abbrev set_text : List Bytes → Bytes → List Bytes
set_text list value = list ++ value ∷ []

-- The `String` method of both lists.
abbrev show_texts : List Bytes → Bytes
show_texts list = join (codes ", ") list

set_parts : List ProxyTarget → List Bytes → Option (List ProxyTarget)
set_parts list (subdomain ∷ address ∷ []) =
    some (list ++ record { subdomain = trim b'/' subdomain; address = address } ∷ [])
set_parts list _ = none

-- `proxyTargetList.Set`, with `none` for its error.
unfoldable pub set_proxy : List ProxyTarget → Bytes → Option (List ProxyTarget)
unfolding set_parts
set_proxy list value = set_parts list (split b'=' value)

abbrev pub show_proxy : ProxyTarget → Bytes
show_proxy p = p.subdomain ++ b'=' ∷ p.address

abbrev show_each : List ProxyTarget → List Bytes
show_each [] = []
show_each (p ∷ ps) = show_proxy p ∷ show_each ps

-- `proxyTargetList.String`.
abbrev show_proxies : List ProxyTarget → Bytes
show_proxies list = join (codes ", ") (show_each list)

pub record Flags : Type 0 where
  pub serve : Bool
  pub ngrok : Bool
  pub server : Bytes
  pub token : Bytes
  pub gentoken : Bool
  pub detached : Bool
  pub mirror : Bytes
  pub tcplisten : List Bytes
  pub tcptarget : List Bytes
  pub servefolder : List Bytes
  pub proxytarget : List ProxyTarget

abbrev pub defaults : Flags
defaults = record {
  serve = false;
  ngrok = false;
  server = codes "localhost:8080";
  token = [];
  gentoken = false;
  detached = false;
  mirror = [];
  tcplisten = [];
  tcptarget = [];
  servefolder = [];
  proxytarget = [];
}

-- The bearer token that the flags ask for; `uuid` is the text of `uuid.New()`.
unfoldable pub choose_token : Bytes → Flags → Bytes
choose_token uuid f = if f.gentoken then uuid else if bytes_eq f.token [] then [] else f.token

pub data Start : Type 0 where
  no_targets no_listeners : Start
  bad_spec : SpecError → Start
  runs_server : Bool → Bytes → Bytes → Assoc ForwardTargetPort → Flags → Start
  runs_client : Bytes → Bytes → Assoc ListenTargetPort → Bool → Start

abbrev pub is_empty {ℓ} : {A : Type ℓ} → List A → Bool
is_empty [] = true
is_empty (x ∷ xs) = false

start_server : Bytes → Flags → Bool → Result SpecError (Assoc ForwardTargetPort) → Start
start_server token f true r = no_targets
start_server token f false (err e) = bad_spec e
start_server token f false (ok targets) = runs_server f.ngrok token f.server targets f

start_client : Bytes → Flags → Bool → Result SpecError (Assoc ListenTargetPort) → Start
start_client token f true r = no_listeners
start_client token f false (err e) = bad_spec e
start_client token f false (ok listeners) = runs_client token f.server listeners f.detached

-- What `main` starts once the flags are parsed, with the bearer token that is set by then. The mirror
-- server that `-mirror` starts besides is left out; an ngrok server does not use the address.
unfoldable pub start : Bytes → Flags → Start
unfolding start_server start_client
start token f =
    if f.serve || f.ngrok
    then start_server token f
        (is_empty f.tcptarget && is_empty f.proxytarget && is_empty f.servefolder)
        (parse_forward_all f.tcptarget)
    else start_client token f (is_empty f.tcplisten) (parse_listen_all f.tcplisten)

-- `main`: the token is chosen from the flags before `flag.Parse` is called.
unfoldable pub main : Bytes → Flags → Start
unfolding start choose_token
main uuid parsed = let token = choose_token uuid defaults in start token parsed
