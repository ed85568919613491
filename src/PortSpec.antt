-- ===== src/PortSpec.antt =====
-- pkg/forwardportid.go: the command line's forward targets and listen targets.
-- A Go error is a constructor of `SpecError`; a map of pointers is an association list of records,
-- since each parsed record is fresh and never written again.
pub mod Forward
pub mod Accepted
pub mod Bounds
pub mod Listen
pub mod Slice
mod Tests
use whet.Base.{List, [], ◌∷◌, Option, none, some, Bytes, if◌then◌else◌}
use whet.Base.Result.{Result, ok, err, ◌>>=◌}
use whet.Base.Assoc.{Assoc, insert}
use whet.Base.Int.{ℤ, pos, ◌+ℤ◌, ◌-ℤ◌, ltb_ℤ}
use whet.Strings.{split}
use whet.Decimal.{atoi}

pub data ForwardTargetType : Type 0 where
  tcp listener : ForwardTargetType

pub record ForwardTargetPort : Type 0 where
  pub target_name : Bytes
  pub host : Bytes
  pub start_port : ℤ
  pub port_count : ℤ
  pub forward_target_type : ForwardTargetType

pub record ListenTargetPort : Type 0 where
  pub target_name : Bytes
  pub local_host : Bytes
  pub local_port : ℤ
  pub port_index : ℤ

pub data SpecError : Type 0 where
  invalid_forward_id invalid_host_port invalid_target_port_index : SpecError
  invalid_target_name invalid_local_port not_a_number : SpecError
  invalid_port_range : ℤ → ℤ → SpecError

-- `if len(parts) != 2 { return err }`, and the two parts.
pub exactly_two : SpecError → List Bytes → Result SpecError (Bytes × Bytes)
exactly_two e (p ∷ q ∷ []) = ok (p, q)
exactly_two e _ = err e

pub int_or : SpecError → Option ℤ → Result SpecError ℤ
int_or e none = err e
int_or e (some z) = ok z

-- The first two parts of a port range; a single port stands for both of its ends.
pub range_ends : List Bytes → Result SpecError (Bytes × Bytes)
range_ends [] = err not_a_number
range_ends (p ∷ []) = ok (p, p)
range_ends (p ∷ q ∷ more) = ok (p, q)

unfoldable pub parse_forward : Bytes → Result SpecError ForwardTargetPort
unfolding exactly_two int_or range_ends
parse_forward id = do
  (name, address) ← exactly_two invalid_forward_id (split b'=' id)
  (host, ports) ← exactly_two invalid_host_port (split b':' address)
  (first, last) ← range_ends (split b'-' ports)
  start_port ← int_or not_a_number (atoi first)
  end_port ← int_or not_a_number (atoi last)
  if ltb_ℤ end_port start_port
      then err (invalid_port_range start_port end_port)
      else ok (record {
        target_name = name;
        host = host;
        start_port = start_port;
        port_count = end_port -ℤ start_port +ℤ pos 1;
        forward_target_type = tcp;
      })

-- The name and the port index of a listen target's first half.
target_parts : List Bytes → Result SpecError (Bytes × ℤ)
unfolding int_or
target_parts [] = err invalid_target_name
target_parts (p ∷ []) = ok (p, pos 0)
target_parts (p ∷ q ∷ []) = do index ← int_or invalid_target_port_index (atoi p); ok (p, index)
target_parts (p ∷ q ∷ r ∷ more) = err invalid_target_name

unfoldable pub parse_listen : Bytes → Result SpecError ListenTargetPort
unfolding exactly_two int_or target_parts
parse_listen id = do
  (target, address) ← exactly_two invalid_forward_id (split b'=' id)
  (host, port) ← exactly_two invalid_host_port (split b':' address)
  (name, index) ← target_parts (split b'-' target)
  local_port ← int_or invalid_local_port (atoi port)
  ok (record { target_name = name; local_host = host; local_port = local_port; port_index = index })

-- The loop that both `…FromStringSlice` functions run.
module _ {ℓ} {T : Type ℓ} (parse : Bytes → Result SpecError T) (name : T → Bytes) where
  collect : List Bytes → Assoc T → Result SpecError (Assoc T)
  collect [] m = ok m
  collect (id ∷ ids) m = do t ← parse id; collect ids (insert (name t) t m)

unfoldable pub parse_forward_all : List Bytes → Result SpecError (Assoc ForwardTargetPort)
unfolding collect
parse_forward_all ids = collect parse_forward (λ t. t.target_name) ids []

unfoldable pub parse_listen_all : List Bytes → Result SpecError (Assoc ListenTargetPort)
unfolding collect
parse_listen_all ids = collect parse_listen (λ t. t.target_name) ids []
