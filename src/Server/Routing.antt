-- ===== src/Server/Routing.antt =====
-- What a mux that was built holds, and what the reverse proxy asks for.
use whet.Strings.{split, join}
use whet.Strings.Split.{split-append}
use whet.Base.{
  Bytes, List, ◌++◌, ◌≡◌, Lacks, ◌↔◌, ◌∷◌, true, arith, ◌⊎◌, [], inr, bytes_eq_iff, inl, some,
  codes, none, append-nil, ap, Bool-cases, subst, Option-cases, sym, ◌∙◌, append_assoc, refl, ◌≢◌,
  ◌||◌, false,
}
use mathlib.Core.Bool.{false≢true}
use whet.Strings.Split.{split-ne-nil, join-split}
use whet.Server.Routes.{
  Route, Mux, Refuses, is_registered, handle, handle_all, routes, configure_signal_server,
  without_first, proxied_path, proxy_routes, own_routes, subdomain_pattern, folder_routes,
}
use whet.Server.State.{ProxyTarget}

-- The pattern is among those of the entries.
abbrev pub Names : Bytes → List (Bytes × Route) → Type 0
Names pattern [] = ⊥
Names pattern ((p, r) ∷ es) = (p ≡ pattern) ⊎ Names pattern es

-- No two entries have one pattern.
abbrev pub AreDistinct : List (Bytes × Route) → Type 0
AreDistinct [] = Unit
AreDistinct ((p, r) ∷ es) = (¬ Names p es) × AreDistinct es

is_registered_iff :
    (pattern : Bytes) (mux : Mux) → (is_registered pattern mux ≡ true) ↔ Names pattern mux
unfolding is_registered
is_registered_iff pattern [] = (λ h. cc, λ h. absurd h)
is_registered_iff pattern ((p, r) ∷ mux) = (
  λ h. ground (arith, bytes_eq_iff p pattern, is_registered_iff pattern mux),
  λ h. ground (arith, bytes_eq_iff p pattern, is_registered_iff pattern mux),
)

Names-append :
    (pattern : Bytes) (xs ys : List (Bytes × Route))
    → Names pattern (xs ++ ys) ↔ (Names pattern xs ⊎ Names pattern ys)
Names-append pattern [] ys = (inr, λ h. elim h [ inl a ↦ absurd a | inr b ↦ b ])
Names-append pattern ((p, r) ∷ xs) ys = (
  λ h. elim h [
    | inl e ↦ inl (inl e)
    | inr n ↦ elim ((Names-append pattern xs ys).0 n) [ inl a ↦ inl (inr a) | inr b ↦ inr b ]
  ],
  λ h. elim h [
    | inl a ↦ elim a [ inl e ↦ inl e | inr n ↦ inr ((Names-append pattern xs ys).1 (inl n)) ]
    | inr b ↦ inr ((Names-append pattern xs ys).1 (inr b))
  ],
)

handle_all-AreDistinct :
    (refuses : Refuses) (es : List (Bytes × Route)) (mux m : Mux)
    → handle_all refuses es mux ≡ some m
    → (m ≡ mux ++ es) × AreDistinct es × ((p : Bytes) → Names p mux → ¬ Names p es)
unfolding handle_all handle
handle_all-AreDistinct refuses [] mux m h = (ground (arith, append-nil mux), tt, λ p a b. b)
handle_all-AreDistinct refuses ((p, r) ∷ es) mux m h =
    elim (Bool-cases (is_registered p mux || refuses p mux)) [
      | inl e ↦ cc (rw (e, handle_all) at h)
      | inr e ↦
          let later =
            handle_all-AreDistinct refuses es (mux ++ (p, r) ∷ []) m (rw (e, handle_all) at h) in
          let unregistered : is_registered p mux ≡ false = ground (arith, e) in
          let missing =
            λ (k : Names p mux). false≢true (sym unregistered ∙ (is_registered_iff p mux).1 k) in
          (
            later.0 ∙ append_assoc mux ((p, r) ∷ []) es,
            ((λ k. later.2 p ((Names-append p mux ((p, r) ∷ [])).1 (inr (inl refl))) k), later.1),
            λ q a b. elim b [
              | inl same ↦ missing (subst (λ (x : Bytes). Names x mux) (sym same) a)
              | inr k ↦ later.2 q ((Names-append q mux ((p, r) ∷ [])).1 (inl a)) k
            ],
          )
    ]

-- A mux that was built has distinct patterns, so two equal subdomains make the constructor panic.
pub configure-AreDistinct :
    (refuses : Refuses) (ps : List ProxyTarget) (fs : List Bytes) (mux : Mux)
    → configure_signal_server refuses ps fs ≡ some mux
    → AreDistinct (routes ps fs) × (mux ≡ routes ps fs)
unfolding configure_signal_server
configure-AreDistinct refuses ps fs mux h =
    let r = handle_all-AreDistinct refuses (routes ps fs) [] mux h in (r.1, r.0)

-- A proxy subdomain `sub` among the targets.
abbrev HasSubdomain : Bytes → List ProxyTarget → Type 0
HasSubdomain sub [] = ⊥
HasSubdomain sub (p ∷ ps) = (p.subdomain ≡ sub) ⊎ HasSubdomain sub ps

not_distinct :
    (ps : List ProxyTarget) (more : List (Bytes × Route))
    → HasSubdomain (codes "whet") ps
    → ¬ AreDistinct (proxy_routes ps ++ (own_routes ++ more))
not_distinct [] more h d = h
not_distinct (p ∷ ps) more (inl e) (hp, d) = hp (
    (Names-append _ (proxy_routes ps) (own_routes ++ more)).1
      (inr (inl (ap subdomain_pattern (sym e)))))
not_distinct (p ∷ ps) more (inr h) (hp, d) = not_distinct ps more h d

-- A proxy target for the subdomain `whet`, which is the signal handler's, makes the constructor panic.
pub reserved_subdomain :
    (refuses : Refuses) (ps : List ProxyTarget) (fs : List Bytes)
    → HasSubdomain (codes "whet") ps
    → configure_signal_server refuses ps fs ≡ none
reserved_subdomain refuses ps fs h = elim (Option-cases (configure_signal_server refuses ps fs)) [
  | inl e ↦ e
  | inr (mux, e) ↦
      absurd (not_distinct ps (folder_routes fs) h (configure-AreDistinct refuses ps fs mux e).0)
]

without_first-rest :
    (path a b : Bytes) (ps : List Bytes)
    → ps ≢ []
    → without_first path (a ∷ b ∷ ps) ≡ b'/' ∷ join (b'/' ∷ []) ps
unfolding without_first
without_first-rest path a b [] h = absurd (h refl)
without_first-rest path a b (c ∷ ps) h = refl

-- A path `/sub/rest` is proxied as `/rest`, whatever the rest holds.
pub proxied_path-sub :
    (sub rest : Bytes) → Lacks b'/' sub → proxied_path (b'/' ∷ (sub ++ b'/' ∷ rest)) ≡ b'/' ∷ rest
unfolding proxied_path
proxied_path-sub sub rest h =
    rw (split-append b'/' [] (sub ++ b'/' ∷ rest) tt, split-append b'/' sub rest h)
      (without_first-rest (b'/' ∷ (sub ++ b'/' ∷ rest)) [] sub (split b'/' rest)
          (split-ne-nil b'/' rest)
        ∙ ap (◌∷◌ b'/') (join-split b'/' rest))
