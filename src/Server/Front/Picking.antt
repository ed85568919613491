-- ===== src/Server/Front/Picking.antt =====
-- A choice of routes as `http.ServeMux` documents it, which redirects nothing.
use whet.Base.{
  ◌≡◌, ◌≤◌, refl, arith, true, false, Bool-cases, inl, inr, Bytes, Option, none, some, length, ltb,
  if◌then◌else◌, [], ◌∷◌, ==_iff, bytes_eq_iff, subst,
}
use whet.Strings.{has_prefix}
use whet.Server.Routes.{Route, Mux}
use whet.Server.Routes.Own.{Holds}
use whet.Server.Front.{matches, ends_in_slash, IsServeMux}

abbrev longer : Bytes → Route → Option (Bytes × Route) → Option (Bytes × Route)
longer q s none = some (q, s)
longer q s (some (p, r)) = if ltb (length q) (length p) then some (p, r) else some (q, s)

unfoldable pub pick : Mux → Bytes → Option (Bytes × Route)
pick [] path = none
pick ((q, s) ∷ mux) path =
    let rest = pick mux path in if matches q path then longer q s rest else rest

-- What is chosen of some entries.
abbrev Chosen : Mux → Bytes → Option (Bytes × Route) → Type 0
Chosen mux path none = (q : Bytes) (s : Route) → Holds q s mux → matches q path ≡ false
Chosen mux path (some (p, r)) =
    Holds p r mux
    × (matches p path ≡ true)
    × ((q : Bytes) (s : Route) → Holds q s mux → matches q path ≡ true → length q ≤ length p)

has_prefix_self : (p : Bytes) → has_prefix p p ≡ true
unfolding has_prefix
has_prefix_self [] = refl
has_prefix_self (c ∷ p) = ground (arith, ==_iff c c, has_prefix_self p)

matches_self : (p : Bytes) → matches p p ≡ true
unfolding matches
matches_self p = elim (Bool-cases (ends_in_slash p)) [
  | inl e ↦ rw e (has_prefix_self p)
  | inr e ↦ rw e ((bytes_eq_iff p p).1 refl)
]

longer-Chosen :
    (q : Bytes) (s : Route) (mux : Mux) (path : Bytes) (o : Option (Bytes × Route))
    → matches q path ≡ true
    → Chosen mux path o
    → Chosen ((q, s) ∷ mux) path (longer q s o)
longer-Chosen q s mux path none m c = (
  inl (refl, refl),
  m,
  λ x y h k. elim h [
    | inl (e, f) ↦ let same : length q ≡ length x = rw e refl in omega arith
    | inr g ↦ absurd (ground (arith, c x y g, k))
  ],
)
longer-Chosen q s mux path (some (p, r)) m (h, n, l) =
    elim (Bool-cases (ltb (length q) (length p))) [
      | inl e ↦ rw e (
        inr h,
        n,
        λ x y g k. elim g [
          | inl (a, b) ↦ let same : length q ≡ length x = rw a refl in ground arith
          | inr a ↦ l x y a k
        ],
      )
      | inr e ↦ rw e (
        inl (refl, refl),
        m,
        λ x y g k. elim g [
          | inl (a, b) ↦ let same : length q ≡ length x = rw a refl in omega arith
          | inr a ↦ let less = l x y a k in ground arith
        ],
      )
    ]

skipped-Chosen :
    (q : Bytes) (s : Route) (mux : Mux) (path : Bytes) (o : Option (Bytes × Route))
    → matches q path ≡ false
    → Chosen mux path o
    → Chosen ((q, s) ∷ mux) path o
skipped-Chosen q s mux path none m c = λ x y h. elim h [ inl (e, f) ↦ rw⁻¹ e m | inr g ↦ c x y g ]
skipped-Chosen q s mux path (some (p, r)) m (h, n, l) = (
  inr h,
  n,
  λ x y g k. elim g [
    | inl (a, b) ↦ let hit : matches q path ≡ true = rw a k in absurd (ground (arith, m, hit))
    | inr a ↦ l x y a k
  ],
)

pick-Chosen : (mux : Mux) (path : Bytes) → Chosen mux path (pick mux path)
unfolding pick
pick-Chosen [] path = λ q s h. absurd h
pick-Chosen ((q, s) ∷ mux) path = elim (Bool-cases (matches q path)) [
  | inl e ↦ rw e (longer-Chosen q s mux path (pick mux path) e (pick-Chosen mux path))
  | inr e ↦ rw e (skipped-Chosen q s mux path (pick mux path) e (pick-Chosen mux path))
]

Chosen-some :
    (mux : Mux) (path : Bytes) (o : Option (Bytes × Route)) (p : Bytes) (r : Route)
    → Chosen mux path o
    → o ≡ some (p, r)
    → Chosen mux path (some (p, r))
Chosen-some mux path o p r c e = subst (Chosen mux path) e c

pub pick-IsServeMux : IsServeMux pick (λ path. path)
pick-IsServeMux = record {
  registered =
      λ mux path p r e. (Chosen-some mux path (pick mux path) p r (pick-Chosen mux path) e).0;
  matching =
      λ mux path p r e. (Chosen-some mux path (pick mux path) p r (pick-Chosen mux path) e).1;
  longest = λ mux path p q r s e.
      (Chosen-some mux path (pick mux path) p r (pick-Chosen mux path) e).2 q s;
  direct_hit = λ mux path s h c e.
      let none_matches : Chosen mux path none = subst (Chosen mux path) e (pick-Chosen mux path) in
      ground (arith, none_matches path s h, matches_self path);
}
