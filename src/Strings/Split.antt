-- ===== src/Strings/Split.antt =====
-- `strings.Split` and `strings.Join` undo one another.
use whet.Base.{
  ℕ, ◌≡◌, refl, ◌≢◌, inl, inr, List, [], ◌∷◌, ◌++◌, arith, Bytes, ◌==◌, Bool-cases, All, Lacks,
  if◌then◌else◌,
}
use whet.Strings.{push, split, join}

module _ (sep : ℕ) where
  pub split-ne-nil : (s : Bytes) → split sep s ≢ []
  unfolding split
  split-ne-nil [] h = cc
  split-ne-nil (c ∷ s) h =
      elim (split sep s) as (λ r. (if c == sep then [] ∷ r else push c r) ≡ [] → ⊥) [
        | [] ↦ λ e. ground arith
        | p ∷ ps ↦ λ e. ground arith
      ]
        h

  -- Text without the separator is one part.
  pub split_whole : (p : Bytes) → Lacks sep p → split sep p ≡ p ∷ []
  unfolding split
  split_whole [] h = refl
  split_whole (c ∷ p) (hc, hp) = ground (arith, split_whole p hp)

  -- The text before the first separator is the first part.
  pub split-append :
      (p rest : Bytes) → Lacks sep p → split sep (p ++ sep ∷ rest) ≡ p ∷ split sep rest
  unfolding split
  split-append [] rest h = ground arith
  split-append (c ∷ p) rest (hc, hp) = ground (arith, split-append p rest hp)

  push-Lacks :
      (c : ℕ) (ps : List Bytes) → c ≢ sep → All (Lacks sep) ps → All (Lacks sep) (push c ps)
  unfolding push
  push-Lacks c [] hc hs = ((hc, tt), tt)
  push-Lacks c (p ∷ ps) hc (hp, hs) = ((hc, hp), hs)

  -- No part holds the separator.
  pub split-Lacks : (s : Bytes) → All (Lacks sep) (split sep s)
  unfolding split
  split-Lacks [] = (tt, tt)
  split-Lacks (c ∷ s) = elim (Bool-cases (c == sep)) [
    | inl e ↦ rw e (tt, split-Lacks s)
    | inr e ↦ rw e (push-Lacks c (split sep s) (ground arith) (split-Lacks s))
  ]

  join-push : (c : ℕ) (ps : List Bytes) → join (sep ∷ []) (push c ps) ≡ c ∷ join (sep ∷ []) ps
  unfolding push join
  join-push c [] = refl
  join-push c (p ∷ []) = refl
  join-push c (p ∷ q ∷ ps) = refl

  join_cons_nil : (ps : List Bytes) → ps ≢ [] → join (sep ∷ []) ([] ∷ ps) ≡ sep ∷ join (sep ∷ []) ps
  unfolding join
  join_cons_nil [] h = absurd (h refl)
  join_cons_nil (p ∷ ps) h = refl

  -- Joining the parts gives the text back.
  pub join-split : (s : Bytes) → join (sep ∷ []) (split sep s) ≡ s
  unfolding split
  join-split [] = unfold join in refl
  join-split (c ∷ s) = elim (Bool-cases (c == sep)) [
    | inl e ↦ rw (e, join_cons_nil (split sep s) (split-ne-nil s), join-split s) (ground arith)
    | inr e ↦ rw (e, join-push c (split sep s), join-split s)
  ]
