-- ===== src/Server/Targets.antt =====
-- Which targets a POST can name, and the ports that it can reach through them.
use whet.Base.{ℕ, ◌+◌, ◌≤◌, ◌≡◌, refl, ◌⊎◌, ◌∷◌, ◌++◌, some, none, arith, Bytes, Lacks, Option}
use whet.Base.Result.{ok, when_ok}
use whet.Base.Assoc.{lookup}
use whet.Base.Int.{ℤ, pos, negsuc, max_int, ◌<ℤ◌, +ℤ-pos, neg_part}
use whet.Strings.{split, trim_prefix}
use whet.Strings.Split.{split-append, split_whole}
use whet.Strings.Affix.{trim_prefix-append}
use whet.Decimal.{itoa_ℕ, itoa}
use whet.Decimal.RoundTrip.{atoi-itoa_ℕ, itoa_ℕ-IsDigit, digits-Lacks}
use whet.PortSpec.{ForwardTargetPort, parse_forward}
use whet.PortSpec.Bounds.{Ports, parse_forward-Ports}
use whet.Server.State.{WhetServer}
use whet.Server.Select.{
  whet_path, invalid_target, port_offset, or_refuse, Selected, select_target, target_addr, Refusal,
}

-- The path `/whet/name-offset`.
abbrev pub offset_path : Bytes → ℕ → Bytes
offset_path name offset = whet_path ++ (name ++ b'-' ∷ itoa_ℕ offset)

-- A target that is registered under a name without a hyphen is selected at every offset below its
-- port count, and at offset 0 also where its count is 0, as a listener's is.
pub select_offset :
    (s : WhetServer) (name : Bytes) (t : ForwardTargetPort) (offset : ℕ)
    → Lacks b'-' name
    → lookup name s.targets ≡ some t
    → offset ≤ max_int
    → (offset ≡ 0) ⊎ (pos offset <ℤ t.port_count)
    → select_target s (offset_path name offset)
      ≡ ok (record { name = name; target = t; offset = pos offset })
unfolding select_target
select_offset s name t offset hn found fits inside =
    rw
      (
        trim_prefix-append whet_path (name ++ b'-' ∷ itoa_ℕ offset),
        split-append b'-' name (itoa_ℕ offset) hn,
        split_whole b'-' (itoa_ℕ offset)
            (digits-Lacks b'-' (itoa_ℕ offset) (omega arith) (itoa_ℕ-IsDigit offset)),
        port_offset,
        atoi-itoa_ℕ offset fits,
        found,
      )
      (ground arith)

-- The path `/whet/name` selects the target at offset 0.
pub select_name :
    (s : WhetServer) (name : Bytes) (t : ForwardTargetPort)
    → Lacks b'-' name
    → lookup name s.targets ≡ some t
    → select_target s (whet_path ++ name) ≡ ok (record { name = name; target = t; offset = pos 0 })
unfolding select_target
select_name s name t hn found =
    rw (trim_prefix-append whet_path name, split_whole b'-' name hn, port_offset, found)
      (ground arith)

-- What a selection says: the target is registered under the selected name, which holds no dash, and
-- the offset is 0 or below the target's count.
pub record IsSelected (s : WhetServer) (x : Selected) : Type 0 where
  pub registered : lookup x.name s.targets ≡ some x.target
  pub natural : neg_part x.offset ≡ 0
  pub inside : (x.offset ≡ pos 0) ⊎ (x.offset <ℤ x.target.port_count)

or_refuse-eq-ok :
    (e : Refusal) (o : Option ForwardTargetPort) {t : ForwardTargetPort}
    → or_refuse e o ≡ ok t
    → o ≡ some t
unfolding or_refuse
or_refuse-eq-ok e none h = cc
or_refuse-eq-ok e (some t) h = cc

pub select-IsSelected :
    (s : WhetServer) (path : Bytes) (x : Selected) → select_target s path ≡ ok x → IsSelected s x
unfolding select_target
select-IsSelected s path x h =
    when_ok (port_offset (split b'-' (trim_prefix whet_path path))) _ h λ d e1 h1.
      when_ok (or_refuse invalid_target (lookup d.0 s.targets)) _ h1 λ t e2 h2. record {
        registered = ground (arith, or_refuse-eq-ok _ _ e2);
        natural = ground arith;
        inside = ground arith;
      }

-- A target that was parsed from text is reached at one of the ports that the text names: the address
-- that is dialled is its host and a port from its first to its last.
pub target_addr_in_range :
    (s : WhetServer) (path id : Bytes) (x : Selected)
    → select_target s path ≡ ok x
    → parse_forward id ≡ ok x.target
    → (first : ℕ) × (last : ℕ) × (port : ℕ) × Ports x.target first last
      × (first ≤ port)
      × (port ≤ last)
      × (target_addr x ≡ x.target.host ++ b':' ∷ itoa_ℕ port)
target_addr_in_range s path id x h parsed =
    let sel = select-IsSelected s path x h in
    let (first, last, p) = parse_forward-Ports id x.target parsed in
    go first last p x.offset refl sel.natural sel.inside
  where
    go :
        (first last : ℕ)
        → Ports x.target first last
        → (z : ℤ) → x.offset ≡ z
        → neg_part x.offset ≡ 0
        → (x.offset ≡ pos 0) ⊎ (x.offset <ℤ x.target.port_count)
        → (first : ℕ) × (last : ℕ) × (port : ℕ) × Ports x.target first last
          × (first ≤ port)
          × (port ≤ last)
          × (target_addr x ≡ x.target.host ++ b':' ∷ itoa_ℕ port)
    go first last p (negsuc n) e n0 i = absurd (ground arith)
    go first last p (pos n) e n0 i = (
      first,
      last,
      first + n,
      p,
      ground arith,
      ground arith,
      unfold target_addr itoa in rw (p.2, e, +ℤ-pos first n (ground arith)),
    )
