-- ===== src/Strings/Affix.antt =====
-- Prefixes, trimmed ends and the last separator.
use whet.Base.{
  ℕ, suc, ◌≡◌, refl, true, [], ◌∷◌, ◌++◌, none, some, arith, Bytes, Lacks, drop, length,
}
use whet.Strings.{has_prefix, trim_prefix, last_index, replace_all}

has_prefix-append : (p s : Bytes) → has_prefix p (p ++ s) ≡ true
unfolding has_prefix
has_prefix-append [] s = refl
has_prefix-append (c ∷ p) s = ground (arith, has_prefix-append p s)

drop-append : (p s : Bytes) → drop (length p) (p ++ s) ≡ s
drop-append [] s = refl
drop-append (c ∷ p) s = drop-append p s

pub trim_prefix-append : (p s : Bytes) → trim_prefix p (p ++ s) ≡ s
unfolding trim_prefix
trim_prefix-append p s = rw (has_prefix-append p s) (drop-append p s)

last_index-Lacks : (sep : ℕ) (s : Bytes) → Lacks sep s → last_index sep s ≡ none
unfolding last_index
last_index-Lacks sep [] h = refl
last_index-Lacks sep (c ∷ s) (hc, hs) = ground (arith, last_index-Lacks sep s hs)

pub last_index-append :
    (sep : ℕ) (p s : Bytes) → Lacks sep s → last_index sep (p ++ sep ∷ s) ≡ some (length p)
unfolding last_index
last_index-append sep [] s h = ground (arith, last_index-Lacks sep s h)
last_index-append sep (c ∷ p) s h = ground (arith, last_index-append sep p s h)

-- What stands behind the last separator, as `s[strings.LastIndex(s, sep)+1:]` cuts it.
pub drop_last : (sep : ℕ) (p s : Bytes) → drop (suc (length p)) (p ++ sep ∷ s) ≡ s
drop_last sep [] s = refl
drop_last sep (c ∷ p) s = drop_last sep p s

pub replace_all-Lacks : (old new : ℕ) (s : Bytes) → Lacks old s → replace_all old new s ≡ s
unfolding replace_all
replace_all-Lacks old new [] h = refl
replace_all-Lacks old new (c ∷ s) (hc, hs) = ground (arith, replace_all-Lacks old new s hs)
