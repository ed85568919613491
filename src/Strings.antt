-- ===== src/Strings.antt =====
-- The functions of Go's `strings` that the program calls, each at the arguments that it passes.
pub mod Split
pub mod Affix
use whet.Base.{
  ℕ, suc, Bool, true, false, ◌&&◌, List, [], ◌∷◌, ◌++◌, Option, none, some, Bytes, ◌==◌,
  if◌then◌else◌, drop, length,
}

push : ℕ → List Bytes → List Bytes
push c [] = (c ∷ []) ∷ []
push c (p ∷ ps) = (c ∷ p) ∷ ps

-- `strings.Split(s, sep)` for a separator of one byte.
unfoldable pub split : ℕ → Bytes → List Bytes
unfolding push
split sep [] = [] ∷ []
split sep (c ∷ s) = let rest = split sep s in if c == sep then [] ∷ rest else push c rest

-- `strings.Join(parts, sep)`.
unfoldable pub join : Bytes → List Bytes → Bytes
join sep [] = []
join sep (p ∷ []) = p
join sep (p ∷ q ∷ ps) = p ++ (sep ++ join sep (q ∷ ps))

unfoldable pub has_prefix : Bytes → Bytes → Bool
has_prefix [] s = true
has_prefix (c ∷ p) [] = false
has_prefix (c ∷ p) (d ∷ s) = c == d && has_prefix p s

-- `strings.TrimPrefix(s, p)`.
unfoldable pub trim_prefix : Bytes → Bytes → Bytes
unfolding has_prefix
trim_prefix p s = if has_prefix p s then drop (length p) s else s

trim_left : ℕ → Bytes → Bytes
trim_left c [] = []
trim_left c (d ∷ s) = if d == c then trim_left c s else d ∷ s

cons_unless : ℕ → ℕ → Bytes → Bytes
cons_unless c d [] = if d == c then [] else d ∷ []
cons_unless c d (e ∷ s) = d ∷ e ∷ s

trim_right : ℕ → Bytes → Bytes
unfolding cons_unless
trim_right c [] = []
trim_right c (d ∷ s) = cons_unless c d (trim_right c s)

-- `strings.Trim(s, cutset)` for a cutset of one byte.
unfoldable pub trim : ℕ → Bytes → Bytes
unfolding trim_left trim_right
trim c s = trim_right c (trim_left c s)

-- `strings.ReplaceAll(s, old, new)` for texts of one byte.
unfoldable pub replace_all : ℕ → ℕ → Bytes → Bytes
replace_all old new [] = []
replace_all old new (c ∷ s) = (if c == old then new else c) ∷ replace_all old new s

-- `strings.LastIndex(s, sep)` for a separator of one byte, with `none` for -1.
unfoldable pub last_index : ℕ → Bytes → Option ℕ
last_index sep [] = none
last_index sep (c ∷ s) = elim (last_index sep s) [
  | some i ↦ some (suc i)
  | none ↦ if c == sep then some 0 else none
]
