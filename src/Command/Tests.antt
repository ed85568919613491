-- ===== src/Command/Tests.antt =====
-- The command line at concrete flags.
use whet.PortSpec.Slice.{latest}
use whet.Command.Run.Forwards.{forwarded, run_client_forwards}
use whet.Command.Run.{run_client, forward_of}
use whet.Base.Assoc.{lookup}
use whet.PortSpec.{parse_listen, parse_listen_all, ListenTargetPort}
use whet.Base.Int.{pos}
use whet.Command.{Flags, choose_token, defaults}
use whet.Base.{codes, bytes_eq, [], true, ◌≡◌, ◌∷◌, refl, List, Bytes}

abbrev secured : Flags
secured = record defaults {
  serve = true;
  token = codes "secret";
  servefolder = codes "files=/srv" ∷ [];
}

-- The token that is set by the flags is not the one that the server gets.
asked_for : choose_token [] secured ≡ codes "secret"
unfolding choose_token bytes_eq
asked_for = refl

abbrev ssh_listens : List Bytes
ssh_listens = codes "ssh=a:1" ∷ codes "ssh=b:2" ∷ []

abbrev ssh_last : ListenTargetPort
ssh_last = record {
  target_name = codes "ssh";
  local_host = codes "b";
  local_port = pos 2;
  port_index = pos 0;
}

run_client_forwards_example :
    lookup (codes "ssh") ((codes "ssh", forward_of (codes "h") [] true ssh_last) ∷ [])
    ≡ forwarded
        (forward_of (codes "h") [] true)
        (latest parse_listen (λ t. t.target_name) (codes "ssh") ssh_listens)
unfolding whet.PortSpec.parse_listen_all parse_listen bytes_eq run_client whet.Strings.split
    whet.Decimal.atoi whet.Base.Assoc.insert
run_client_forwards_example =
    run_client_forwards (λ opened addr. true) (codes "h") [] true ssh_listens
      ((codes "ssh", ssh_last) ∷ []) ((codes "ssh", forward_of (codes "h") [] true ssh_last) ∷ [])
      (codes "ssh") refl refl
