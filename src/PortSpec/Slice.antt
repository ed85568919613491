-- ===== src/PortSpec/Slice.antt =====
-- The maps that the `…FromStringSlice` functions return, against what the list of texts says.
use whet.Base.{
  ◌≡◌, refl, List, [], ◌∷◌, Option, none, some, arith, Bytes, bytes_eq, if◌then◌else◌, ◌∙◌, inl,
  inr, subst,
}
use whet.Base.Result.{Result, ok, err, Result-cases}
use whet.Base.Assoc.{Assoc, lookup, insert, lookup-insert}
use whet.PortSpec.{
  SpecError, parse_forward, parse_listen, collect, parse_forward_all, parse_listen_all,
  ForwardTargetPort, ListenTargetPort,
}

-- The later of two answers.
abbrev or_else {ℓ} : {T : Type ℓ} → Option T → Option T → Option T
or_else (some t) o = some t
or_else none o = o

-- The error of a result, or else another answer.
abbrev error_or : {T : Type 0} → Result SpecError T → Option SpecError → Option SpecError
error_or (ok t) o = o
error_or (err e) o = some e

module _ {T : Type 0} (parse : Bytes → Result SpecError T) (name : T → Bytes) where
  -- What one text says of the key `k`.
  abbrev pub entry : Bytes → Result SpecError T → Option T
  entry k (ok t) = if bytes_eq (name t) k then some t else none
  entry k (err e) = none

  -- The last of the texts that is a target named `k`.
  abbrev pub latest : Bytes → List Bytes → Option T
  latest k [] = none
  latest k (id ∷ ids) = or_else (latest k ids) (entry k (parse id))

  -- The error of the first text that has one.
  abbrev pub first_error : List Bytes → Option SpecError
  first_error [] = none
  first_error (id ∷ ids) = error_or (parse id) (first_error ids)

  -- The returned map, or the returned error, as the texts determine it.
  abbrev pub Agrees : List Bytes → Assoc T → Result SpecError (Assoc T) → Type 0
  Agrees ids m (err e) = first_error ids ≡ some e
  Agrees ids m (ok m') =
      (first_error ids ≡ none) × ((k : Bytes) → lookup k m' ≡ or_else (latest k ids) (lookup k m))

  or_else-none : (a : Option T) → or_else a none ≡ a
  or_else-none none = refl
  or_else-none (some a) = refl

  or_else_assoc : (a b c : Option T) → or_else (or_else a b) c ≡ or_else a (or_else b c)
  or_else_assoc none b c = refl
  or_else_assoc (some a) b c = refl

  Agrees-step :
      (id : Bytes) (ids : List Bytes) (m : Assoc T) (t : T) (r : Result SpecError (Assoc T))
      → parse id ≡ ok t
      → Agrees ids (insert (name t) t m) r
      → Agrees (id ∷ ids) m r
  Agrees-step id ids m t (err e) p h = rw (p, error_or) h
  Agrees-step id ids m t (ok m') p (h, at) =
      (rw (p, error_or) h, λ k. rw p (at k ∙ rw (lookup-insert (name t) k t m) (ground arith)))

  collect-Agrees : (ids : List Bytes) (m : Assoc T) → Agrees ids m (collect parse name ids m)
  unfolding collect
  collect-Agrees [] m = (refl, λ k. refl)
  collect-Agrees (id ∷ ids) m = elim (Result-cases (parse id)) [
    | inl (t, p) ↦
        rw (p, collect)
          (Agrees-step id ids m t (collect parse name ids (insert (name t) t m)) p
            (collect-Agrees ids (insert (name t) t m)))
    | inr (e, p) ↦ rw (p, collect) (rw (p, error_or))
  ]

-- The forward targets: if some text is refused, the result is the error of the first such text.
-- If none is, each name is mapped to the last target of that name, and other keys to nothing.
pub parse_forward_all-Agrees :
    (ids : List Bytes) → Agrees parse_forward (λ t. t.target_name) ids [] (parse_forward_all ids)
unfolding parse_forward_all
parse_forward_all-Agrees ids = collect-Agrees parse_forward (λ t. t.target_name) ids []

-- What a map of listen targets holds, in the same way.
pub parse_listen_all-latest :
    (ids : List Bytes) (m : Assoc ListenTargetPort) (k : Bytes)
    → parse_listen_all ids ≡ ok m
    → lookup k m ≡ latest parse_listen (λ t. t.target_name) k ids
unfolding parse_listen_all lookup
parse_listen_all-latest ids m k h =
    let agrees = collect-Agrees parse_listen (λ t. t.target_name) ids [] in
    let found = subst (Agrees parse_listen (λ t. t.target_name) ids []) h agrees in
    found.1 k ∙ or_else-none parse_listen (λ t. t.target_name) _

-- What a map of forward targets holds.
pub parse_forward_all-latest :
    (ids : List Bytes) (m : Assoc ForwardTargetPort) (k : Bytes)
    → parse_forward_all ids ≡ ok m
    → lookup k m ≡ latest parse_forward (λ t. t.target_name) k ids
unfolding lookup
parse_forward_all-latest ids m k h =
    let agrees = parse_forward_all-Agrees ids in
    let found = subst (Agrees parse_forward (λ t. t.target_name) ids []) h agrees in
    found.1 k ∙ or_else-none parse_forward (λ t. t.target_name) _
