-- ===== src/PortSpec/Bounds.antt =====
-- The numbers of an accepted forward target, the range whose count wraps, and what is ignored.
use whet.Base.{ℕ, ◌+◌, ◌-◌, ◌≤◌, ◌≡◌, refl, ◌⊎◌, ◌∷◌, ◌++◌, false, arith, Bytes, Lacks}
use whet.Base.Result.{ok}
use whet.Base.Int.{ℤ, pos, negsuc, neg_part, max_int, ◌+ℤ◌, ◌-ℤ◌, ltb_ℤ, IsInt}
use whet.Strings.{split}
use whet.Strings.Split.{split-Lacks, split-append, split_whole}
use whet.Decimal.RoundTrip.{atoi-IsInt, atoi_unsigned, atoi-itoa_ℕ}
use whet.PortSpec.{ForwardTargetPort, tcp, range_ends, parse_forward}
use whet.PortSpec.Accepted.{parse_forward-Parts, range_ends-Lacks}
use whet.PortSpec.Forward.{
  range_target, target_text, IsName, split_target, range_text, range_text-Lacks, split_range,
  Lacks-append,
}

-- The ports that an accepted text names, and the count that is stored for them.
abbrev pub Ports : ForwardTargetPort → ℕ → ℕ → Type 0
Ports t first last =
    (first ≤ last)
    × (last ≤ max_int)
    × (t.start_port ≡ pos first)
    × ((t.port_count ≡ pos (last - first + 1))
        ⊎ ((first ≡ 0) × (last ≡ max_int) × (t.port_count ≡ negsuc max_int)))
    × (t.forward_target_type ≡ tcp)

count_of_ends :
    (t : ForwardTargetPort) (lo hi : ℤ)
    → neg_part lo ≡ 0
    → neg_part hi ≡ 0
    → IsInt hi
    → ltb_ℤ hi lo ≡ false
    → t.start_port ≡ lo
    → t.port_count ≡ hi -ℤ lo +ℤ pos 1
    → t.forward_target_type ≡ tcp
    → (first : ℕ) × (last : ℕ) × Ports t first last
unfolding ◌+ℤ◌ ◌-ℤ◌
count_of_ends t (negsuc a) hi nlo nhi ihi o s c k = absurd (omega arith)
count_of_ends t (pos a) (negsuc b) nlo nhi ihi o s c k = absurd (omega arith)
count_of_ends t (pos a) (pos b) nlo nhi ihi o s c k =
    (a, b, (ground arith, ground arith, s, ground arith, k))

-- An accepted target is a TCP target whose ports are non-negative and in order. Its count is the
-- number of those ports, but for the range from 0 to the largest `int`, whose count wraps around to
-- the smallest.
pub parse_forward-Ports :
    (id : Bytes) (t : ForwardTargetPort)
    → parse_forward id ≡ ok t
    → (first : ℕ) × (last : ℕ) × Ports t first last
parse_forward-Ports id t h =
    let p = parse_forward-Parts id t h in
    let (l, k) = range_ends-Lacks (split b'-' p.ports) (split-Lacks b'-' p.ports) p.ends in
    count_of_ends t p.lo p.hi (atoi_unsigned p.first l p.lo_read) (atoi_unsigned p.last k p.hi_read)
      (atoi-IsInt p.last p.hi_read) p.ordered p.start p.count p.kind

-- The wrapped count is reached: the range from 0 to the largest `int` is accepted, with the smallest
-- `int` for its count.
parse_forward_overflow :
    (name host : Bytes)
    → IsName name host
    → (t : ForwardTargetPort) × (parse_forward (target_text name host (range_text 0 max_int))
        ≡ ok t)
      × (t.port_count ≡ negsuc max_int)
unfolding parse_forward ◌+ℤ◌ ◌-ℤ◌
parse_forward_overflow name host hn =
    let (e, e') =
      split_target name host (range_text 0 max_int) hn
        (range_text-Lacks b'=' 0 max_int (omega arith))
        (range_text-Lacks b':' 0 max_int (omega arith)) in
    (
      record (range_target name host 0 0) { port_count = negsuc max_int },
      rw (
        e,
        e',
        split_range 0 max_int,
        atoi-itoa_ℕ 0 (omega arith),
        atoi-itoa_ℕ max_int (omega arith),
      ),
      refl,
    )

-- What follows a second dash in the port range is ignored.
parse_forward_ignores :
    (name host first last more : Bytes)
    → IsName name host
    → Lacks b'=' first × Lacks b'=' last × Lacks b'=' more
    → Lacks b':' first × Lacks b':' last × Lacks b':' more
    → Lacks b'-' first × Lacks b'-' last
    → parse_forward (target_text name host (first ++ b'-' ∷ (last ++ b'-' ∷ more)))
      ≡ parse_forward (target_text name host (first ++ b'-' ∷ last))
unfolding parse_forward
parse_forward_ignores name host first last more hn (e1, e2, e3) (c1, c2, c3) (d1, d2) =
    let ne = λ (b : ℕ). Lacks-append b b'-' in
    let (p, p') =
      split_target name host (first ++ b'-' ∷ (last ++ b'-' ∷ more)) hn
        (ne b'=' first _ e1 (omega arith) (ne b'=' last more e2 (omega arith) e3))
        (ne b':' first _ c1 (omega arith) (ne b':' last more c2 (omega arith) c3)) in
    let (q, q') =
      split_target name host (first ++ b'-' ∷ last) hn (ne b'=' first last e1 (omega arith) e2)
        (ne b':' first last c1 (omega arith) c2) in
    rw
      (
        p,
        p',
        q,
        q',
        split-append b'-' first (last ++ b'-' ∷ more) d1,
        split-append b'-' last more d2,
        split-append b'-' first last d1,
        split_whole b'-' last d2,
      )
      (unfold range_ends in refl)
