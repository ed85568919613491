-- ===== src/Server/Select.antt =====
-- pkg/server.go, `WhetHandler`: the checks of a POST, and the target that its path names.
use whet.Base.{
  ℕ, zero, suc, Bool, true, false, ◌&&◌, ◌||◌, not, List, [], ◌∷◌, ◌++◌, Option, none, some, Bytes,
  codes, bytes_eq, if◌then◌else◌,
}
use whet.Base.Result.{Result, ok, err, ◌>>=◌}
use whet.Base.Assoc.{lookup}
use whet.Base.Int.{ℤ, pos, negsuc, ◌+ℤ◌, ltb_ℤ}
use whet.Strings.{split, trim_prefix}
use whet.Decimal.{atoi, itoa}
use whet.Http.{Request}
use whet.PortSpec.{ForwardTargetPort}
use whet.Server.State.{WhetServer}

-- A call `http.Error(w, message, status)` followed by a return.
pub record Refusal : Type 0 where
  pub message : Bytes
  pub status : ℕ

abbrev pub whet_path : Bytes
whet_path = codes "/whet/"

abbrev pub invalid_target : Refusal
invalid_target = record { message = codes "Invalid target"; status = 400 }

abbrev unauthorized : Refusal
unauthorized = record { message = codes "Unauthorized"; status = 401 }

abbrev pub is_allowed : WhetServer → Request → Bool
is_allowed s r =
    bytes_eq s.bearer_token [] || bytes_eq r.authorization (codes "Bearer " ++ s.bearer_token)

-- The bearer token is checked if one is set.
unfoldable pub authorize : WhetServer → Request → Result Refusal (Unit {0})
authorize s r = if is_allowed s r then ok tt else err unauthorized

-- The target's name and the port offset, from the parts of the path's suffix.
unfoldable pub port_offset : List Bytes → Result Refusal (Bytes × ℤ)
port_offset [] = err invalid_target
port_offset (name ∷ []) = ok (name, pos 0)
port_offset (name ∷ offset ∷ []) = elim (atoi offset) [
  | none ↦ err invalid_target
  | some z ↦ ok (name, z)
]
port_offset (name ∷ offset ∷ more ∷ rest) = err invalid_target

unfoldable pub or_refuse {ℓ} : {A : Type ℓ} → Refusal → Option A → Result Refusal A
or_refuse e none = err e
or_refuse e (some a) = ok a

is_zero : ℤ → Bool
is_zero (pos zero) = true
is_zero (pos (suc n)) = false
is_zero (negsuc n) = false

-- `portoffset < 0 || (portoffset != 0 && portoffset >= target.PortCount)`.
unfoldable pub out_of_range : ℤ → ℤ → Bool
unfolding is_zero
out_of_range offset count =
    ltb_ℤ offset (pos 0) || (not (is_zero offset) && not (ltb_ℤ offset count))

pub record Selected : Type 0 where
  pub name : Bytes
  pub target : ForwardTargetPort
  pub offset : ℤ

-- The target and the port offset that a path names.
unfoldable pub select_target : WhetServer → Bytes → Result Refusal Selected
unfolding port_offset or_refuse out_of_range
select_target s path = do
  (name, offset) ← port_offset (split b'-' (trim_prefix whet_path path))
  target ← or_refuse invalid_target (lookup name s.targets)
  if out_of_range offset target.port_count
      then err invalid_target
      else ok (record { name = name; target = target; offset = offset })

-- `fmt.Sprintf("%s:%d", target.Host, target.StartPort+portoffset)`.
unfoldable pub target_addr : Selected → Bytes
target_addr t = t.target.host ++ b':' ∷ itoa (t.target.start_port +ℤ t.offset)
