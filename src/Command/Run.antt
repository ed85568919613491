-- ===== src/Command/Run.antt =====
-- cmd/main.go: `runClient`. Whether `net.Listen` opens a socket is a function of the sockets that are
-- open already and of the address; the goroutines are taken in the order of the map's iteration.
pub mod Forwards
use whet.Base.{Bool, List, [], ◌∷◌, ◌++◌, Option, none, some, Bytes, if◌then◌else◌}
use whet.Base.Assoc.{Assoc}
use whet.Decimal.{itoa}
use whet.PortSpec.{ListenTargetPort}

-- What is done with the connections that a socket accepts: the call of `HandleClientConnection`.
pub record Forward : Type 0 where
  pub address : Bytes
  pub server : Bytes
  pub target : Bytes
  pub token : Bytes
  pub detached : Bool

-- `fmt.Sprintf("%s:%d", listener.LocalHost, listener.LocalPort)`.
abbrev pub local_addr : ListenTargetPort → Bytes
local_addr l = l.local_host ++ b':' ∷ itoa l.local_port

abbrev pub forward_of : Bytes → Bytes → Bool → ListenTargetPort → Forward
forward_of server token detached l = record {
  address = local_addr l;
  server = server;
  target = l.target_name;
  token = token;
  detached = detached;
}

unfoldable pub add_forward : Bytes → Forward → Option (Assoc Forward) → Option (Assoc Forward)
add_forward k f none = none
add_forward k f (some fs) = some ((k, f) ∷ fs)

-- The sockets that run, by the key of the map; `none` for the panic of one that cannot be opened. The
-- last argument but one holds the addresses that are open.
unfoldable pub open_sockets :
    (List Bytes → Bytes → Bool)
    → (ListenTargetPort → Forward)
    → List Bytes
    → Assoc ListenTargetPort
    → Option (Assoc Forward)
unfolding add_forward
open_sockets listens forward opened [] = some []
open_sockets listens forward opened ((k, l) ∷ ls) =
    let rest = open_sockets listens forward (local_addr l ∷ opened) ls in
    if listens opened (local_addr l) then add_forward k (forward l) rest else none

-- `runClient`.
unfoldable pub run_client :
    (List Bytes → Bytes → Bool)
    → Bytes
    → Bytes
    → Bool
    → Assoc ListenTargetPort
    → Option (Assoc Forward)
unfolding open_sockets
run_client listens server token detached ls =
    open_sockets listens (forward_of server token detached) [] ls
