-- ===== src/PortSpec/Accepted.antt =====
-- What is known of a forward target that was accepted.
use whet.Base.{◌≡◌, List, [], ◌∷◌, Option, none, some, false, arith, Bytes, Lacks, All, ◌∙◌, subst}
use whet.Base.Result.{ok, when_ok}
use whet.Base.Int.{ℤ, pos, ◌+ℤ◌, ◌-ℤ◌, ltb_ℤ}
use whet.Strings.{split}
use whet.Decimal.{atoi}
use whet.PortSpec.{
  ForwardTargetPort, SpecError, invalid_forward_id, invalid_host_port, tcp, not_a_number,
  exactly_two, int_or, range_ends, parse_forward,
}

exactly_two-eq-ok :
    (e : SpecError) (ps : List Bytes) {p q : Bytes} → exactly_two e ps ≡ ok (p, q) → ps ≡ p ∷ q ∷ []
unfolding exactly_two
exactly_two-eq-ok e [] h = cc
exactly_two-eq-ok e (p ∷ []) h = cc
exactly_two-eq-ok e (p ∷ q ∷ []) h = ground arith
exactly_two-eq-ok e (p ∷ q ∷ r ∷ ps) h = cc

int_or-eq-ok : (e : SpecError) (o : Option ℤ) {z : ℤ} → int_or e o ≡ ok z → o ≡ some z
unfolding int_or
int_or-eq-ok e none h = cc
int_or-eq-ok e (some z) h = cc

pub range_ends-Lacks :
    (ps : List Bytes) {p q : Bytes}
    → All (Lacks b'-') ps
    → range_ends ps ≡ ok (p, q)
    → Lacks b'-' p × Lacks b'-' q
unfolding range_ends
range_ends-Lacks [] l h = cc
range_ends-Lacks (p ∷ []) {p = a} {q = b} (l, _) h =
    let e : p ≡ a = cc in let e' : p ≡ b = cc in (subst (Lacks b'-') e l, subst (Lacks b'-') e' l)
range_ends-Lacks (p ∷ q ∷ more) {p = a} {q = b} (l, (k, _)) h =
    let e : p ≡ a = cc in let e' : q ≡ b = cc in (subst (Lacks b'-') e l, subst (Lacks b'-') e' k)

-- The parts of an accepted text.
pub record Parts (id : Bytes) (t : ForwardTargetPort) : Type 0 where
  pub address : Bytes
  pub ports : Bytes
  pub first : Bytes
  pub last : Bytes
  pub lo : ℤ
  pub hi : ℤ
  pub at_equals : split b'=' id ≡ t.target_name ∷ address ∷ []
  pub at_colon : split b':' address ≡ t.host ∷ ports ∷ []
  pub ends : range_ends (split b'-' ports) ≡ ok (first, last)
  pub lo_read : atoi first ≡ some lo
  pub hi_read : atoi last ≡ some hi
  pub ordered : ltb_ℤ hi lo ≡ false
  pub start : t.start_port ≡ lo
  pub count : t.port_count ≡ hi -ℤ lo +ℤ pos 1
  pub kind : t.forward_target_type ≡ tcp

pub parse_forward-Parts :
    (id : Bytes) (t : ForwardTargetPort) → parse_forward id ≡ ok t → Parts id t
unfolding parse_forward
parse_forward-Parts id t h = when_ok (exactly_two invalid_forward_id (split b'=' id)) _ h λ d e1 h1.
    when_ok (exactly_two invalid_host_port (split b':' d.1)) _ h1 λ d2 e2 h2.
      when_ok (range_ends (split b'-' d2.1)) _ h2 λ d3 e3 h3.
        when_ok (int_or not_a_number (atoi d3.0)) _ h3 λ lo e4 h4.
          when_ok (int_or not_a_number (atoi d3.1)) _ h4 λ hi e5 h5. record {
            address = d.1;
            ports = d2.1;
            first = d3.0;
            last = d3.1;
            lo = lo;
            hi = hi;
            at_equals = exactly_two-eq-ok _ _ e1 ∙ ground arith;
            at_colon = exactly_two-eq-ok _ _ e2 ∙ ground arith;
            ends = e3;
            lo_read = int_or-eq-ok _ _ e4;
            hi_read = int_or-eq-ok _ _ e5;
            ordered = ground arith;
            start = ground arith;
            count = ground arith;
            kind = ground arith;
          }
