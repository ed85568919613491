-- ===== src/Server/Routes/Own.antt =====
-- Which patterns the routes of the program's own handlers have.
use whet.Base.{◌≡◌, refl, ◌⊎◌, inl, inr, List, [], ◌∷◌, ◌++◌, Bytes, codes, sym, ◌∙◌, arith, subst}
use whet.Strings.{split}
use whet.Server.State.{ProxyTarget}
use whet.Server.Routes.{
  Route, proxies, signals, health, routes, folder_routes, folder_route, subdomain_pattern,
}
use whet.Server.Routing.{Names, AreDistinct}

-- The entry of a pattern and a route.
abbrev pub Holds : Bytes → Route → List (Bytes × Route) → Type 0
Holds p r [] = ⊥
Holds p r ((q, s) ∷ es) = ((q ≡ p) × (s ≡ r)) ⊎ Holds p r es

pub Holds-Names : (p : Bytes) (r : Route) (es : List (Bytes × Route)) → Holds p r es → Names p es
Holds-Names p r [] h = absurd h
Holds-Names p r ((q, s) ∷ es) (inl (e, f)) = inl e
Holds-Names p r ((q, s) ∷ es) (inr h) = inr (Holds-Names p r es h)

-- A pattern of a mux has one route.
pub Holds-unique :
    (p : Bytes) (r s : Route) (es : List (Bytes × Route))
    → AreDistinct es
    → Holds p r es
    → Holds p s es
    → r ≡ s
Holds-unique p r s [] d g h = absurd g
Holds-unique p r s ((q, t) ∷ es) (hq, d) (inl (e, f)) (inl (g, h)) = sym f ∙ h
Holds-unique p r s ((q, t) ∷ es) (hq, d) (inl (e, f)) (inr h) =
    absurd (hq (Holds-Names q s es (subst (λ (x : Bytes). Holds x s es) (sym e) h)))
Holds-unique p r s ((q, t) ∷ es) (hq, d) (inr h) (inl (e, f)) =
    absurd (hq (Holds-Names q r es (subst (λ (x : Bytes). Holds x r es) (sym e) h)))
Holds-unique p r s ((q, t) ∷ es) (hq, d) (inr g) (inr h) = Holds-unique p r s es d g h

Holds-append :
    (p : Bytes) (r : Route) (xs ys : List (Bytes × Route))
    → Holds p r (xs ++ ys)
    → Holds p r xs ⊎ Holds p r ys
Holds-append p r [] ys h = inr h
Holds-append p r ((q, s) ∷ xs) ys (inl e) = inl (inl e)
Holds-append p r ((q, s) ∷ xs) ys (inr h) = elim (Holds-append p r xs ys h) [
  | inl a ↦ inl (inr a)
  | inr b ↦ inr b
]

folder_route-signals : (p : Bytes) (parts : List Bytes) → ¬ Holds p signals (folder_route parts)
unfolding folder_route
folder_route-signals p [] h = h
folder_route-signals p (a ∷ []) h = h
folder_route-signals p (a ∷ b ∷ []) (inl (e, f)) = ground (arith, f)
folder_route-signals p (a ∷ b ∷ []) (inr h) = h
folder_route-signals p (a ∷ b ∷ c ∷ more) h = h

folder_routes-signals : (p : Bytes) (fs : List Bytes) → ¬ Holds p signals (folder_routes fs)
unfolding folder_routes
folder_routes-signals p [] h = h
folder_routes-signals p (f ∷ fs) h =
    elim (Holds-append p signals (folder_route (split b'=' f)) (folder_routes fs) h) [
      | inl a ↦ folder_route-signals p (split b'=' f) a
      | inr b ↦ folder_routes-signals p fs b
    ]

-- Only "/whet/" leads to the signal handler.
pub signals-whet :
    (p : Bytes) (ps : List ProxyTarget) (fs : List Bytes)
    → Holds p signals (routes ps fs)
    → p ≡ codes "/whet/"
signals-whet p [] fs (inl (e, f)) = sym e
signals-whet p [] fs (inr (inl (e, f))) = absurd (ground (arith, f))
signals-whet p [] fs (inr (inr (inl (e, f)))) = absurd (ground (arith, f))
signals-whet p [] fs (inr (inr (inr h))) = absurd (folder_routes-signals p fs h)
signals-whet p (q ∷ ps) fs (inl (e, f)) = absurd (ground (arith, f))
signals-whet p (q ∷ ps) fs (inr h) = signals-whet p ps fs h

-- The health endpoint is registered.
pub health-Holds :
    (ps : List ProxyTarget) (fs : List Bytes) → Holds (codes "/api/health") health (routes ps fs)
health-Holds [] fs = inr (inr (inl (refl, refl)))
health-Holds (p ∷ ps) fs = inr (health-Holds ps fs)

-- A target is registered.
abbrev pub IsTarget : ProxyTarget → List ProxyTarget → Type 0
IsTarget t [] = ⊥
IsTarget t (p ∷ ps) = (p ≡ t) ⊎ IsTarget t ps

pub proxies-Holds :
    (t : ProxyTarget) (ps : List ProxyTarget) (fs : List Bytes)
    → IsTarget t ps
    → Holds (subdomain_pattern t.subdomain) (proxies t.address) (routes ps fs)
proxies-Holds t [] fs h = absurd h
proxies-Holds t (p ∷ ps) fs (inl e) = inl (rw e refl, rw e refl)
proxies-Holds t (p ∷ ps) fs (inr h) = inr (proxies-Holds t ps fs h)
