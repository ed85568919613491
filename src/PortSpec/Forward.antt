-- ===== src/PortSpec/Forward.antt =====
-- What `ParseForwardTargetPortFromString` accepts and what it makes of it.
use whet.Base.{ℕ, ◌+◌, ◌-◌, ◌≤◌, ◌<◌, ◌≡◌, ◌⊎◌, [], ◌∷◌, ◌++◌, arith, Bytes, Lacks}
use whet.Base.Result.{ok}
use whet.Base.Int.{pos, max_int, +ℤ-pos, -ℤ-pos}
use whet.Strings.{split}
use whet.Strings.Split.{split_whole, split-append}
use whet.Decimal.{itoa_ℕ}
use whet.Decimal.RoundTrip.{atoi-itoa_ℕ, itoa_ℕ-IsDigit, digits-Lacks}
use whet.PortSpec.{ForwardTargetPort, tcp, parse_forward}

-- The target that the documentation's `name=host:first-last` stands for.
abbrev pub range_target : Bytes → Bytes → ℕ → ℕ → ForwardTargetPort
range_target name host first last = record {
  target_name = name;
  host = host;
  start_port = pos first;
  port_count = pos (last - first + 1);
  forward_target_type = tcp;
}

-- The text `name=host:ports`.
abbrev pub target_text : Bytes → Bytes → Bytes → Bytes
target_text name host ports = name ++ b'=' ∷ (host ++ b':' ∷ ports)

-- The parts that a well-formed text splits into.
abbrev pub IsName : Bytes → Bytes → Type 0
IsName name host = Lacks b'=' name × Lacks b'=' host × Lacks b':' host

pub Lacks-append :
    (b c : ℕ) (s t : Bytes) → Lacks b s → ¬ (c ≡ b) → Lacks b t → Lacks b (s ++ c ∷ t)
Lacks-append b c [] t hs hc ht = (hc, ht)
Lacks-append b c (d ∷ s) t (hd, hs) hc ht = (hd, Lacks-append b c s t hs hc ht)

-- Both splits of a target text give its name, its host and its ports.
pub split_target :
    (name host ports : Bytes)
    → IsName name host
    → Lacks b'=' ports
    → Lacks b':' ports
    → (split b'=' (target_text name host ports) ≡ name ∷ (host ++ b':' ∷ ports) ∷ [])
      × (split b':' (host ++ b':' ∷ ports) ≡ host ∷ ports ∷ [])
split_target name host ports (hn, hh, hc) hp hq = (
  rw (
    split-append b'=' name (host ++ b':' ∷ ports) hn,
    split_whole b'=' (host ++ b':' ∷ ports) (Lacks-append b'=' b':' host ports hh (omega arith) hp),
  ),
  rw (split-append b':' host ports hc, split_whole b':' ports hq),
)

pub digits_lack : (b n : ℕ) → (b < b'0') ⊎ (b'9' < b) → Lacks b (itoa_ℕ n)
digits_lack b n h = digits-Lacks b (itoa_ℕ n) h (itoa_ℕ-IsDigit n)

-- The text of a range of ports.
abbrev pub range_text : ℕ → ℕ → Bytes
range_text first last = itoa_ℕ first ++ b'-' ∷ itoa_ℕ last

pub range_text-Lacks :
    (b first last : ℕ) → (b < b'-') ⊎ (b'9' < b) → Lacks b (range_text first last)
range_text-Lacks b first last h =
    Lacks-append b b'-' _ _ (digits_lack b first (ground arith)) (ground arith)
      (digits_lack b last (ground arith))

pub split_range :
    (first last : ℕ) → split b'-' (range_text first last) ≡ itoa_ℕ first ∷ itoa_ℕ last ∷ []
split_range first last = rw (
  split-append b'-' (itoa_ℕ first) (itoa_ℕ last) (digits_lack b'-' first (omega arith)),
  split_whole b'-' (itoa_ℕ last) (digits_lack b'-' last (omega arith)),
)

-- A text `name=host:first-last` with decimal ports in order parses to its name, its host, its first
-- port and the number of its ports, if that number is an `int`.
pub parse_forward_range :
    (name host : Bytes) (first last : ℕ)
    → IsName name host
    → first ≤ last
    → last - first + 1 ≤ max_int
    → last ≤ max_int
    → parse_forward (target_text name host (range_text first last))
      ≡ ok (range_target name host first last)
unfolding parse_forward
parse_forward_range name host first last hn h hc hl =
    let (e, e') =
      split_target name host (range_text first last) hn
        (range_text-Lacks b'=' first last (omega arith))
        (range_text-Lacks b':' first last (omega arith)) in
    rw (e, e', split_range first last, atoi-itoa_ℕ first (omega arith), atoi-itoa_ℕ last hl)
      (ground (arith, -ℤ-pos last first h hl, +ℤ-pos (last - first) 1 hc))

-- A text `name=host:port` parses to a range of that one port.
parse_forward_port :
    (name host : Bytes) (port : ℕ)
    → IsName name host
    → port ≤ max_int
    → parse_forward (target_text name host (itoa_ℕ port)) ≡ ok (range_target name host port port)
unfolding parse_forward
parse_forward_port name host port hn hl =
    let (e, e') =
      split_target name host (itoa_ℕ port) hn (digits_lack b'=' port (omega arith))
        (digits_lack b':' port (omega arith)) in
    rw
      (
        e,
        e',
        split_whole b'-' (itoa_ℕ port) (digits_lack b'-' port (omega arith)),
        atoi-itoa_ℕ port hl,
      )
      (ground (arith, -ℤ-pos port port (omega arith) hl, +ℤ-pos 0 1 (omega arith)))
