-- ===== src/Decimal.antt =====
-- Decimal text: Go's `strconv.Atoi` on a 64-bit `int`, and the verb `%d`.
pub mod RoundTrip
use whet.Base.{
  ℕ, zero, suc, ◌+◌, ◌-◌, ◌*◌, ◌/◌, ◌%◌, [], ◌∷◌, Option, none, some, Bytes, ◌==◌, ltb, leb,
  if◌then◌else◌, ◌&&◌, Bool,
}
use whet.Base.Int.{ℤ, pos, negsuc, sub_ℕ, max_int}

abbrev is_digit : ℕ → Bool
is_digit c = leb b'0' c && leb c b'9'

-- The digits of `s` read behind the number `n`; any other byte is an error.
read : ℕ → Bytes → Option ℕ
read n [] = some n
read n (c ∷ s) = if is_digit c then read (n * 10 + (c - b'0')) s else none

magnitude : Bytes → Option ℕ
unfolding read
magnitude [] = none
magnitude (c ∷ s) = read 0 (c ∷ s)

non_negative : Option ℕ → Option ℤ
non_negative none = none
non_negative (some n) = if leb n max_int then some (pos n) else none

non_positive : Option ℕ → Option ℤ
non_positive none = none
non_positive (some n) = if leb n (suc max_int) then some (sub_ℕ 0 n) else none

-- `strconv.Atoi(s)`: an optional sign and at least one digit, within the range of `int`.
unfoldable pub atoi : Bytes → Option ℤ
unfolding magnitude non_negative non_positive
atoi [] = none
atoi (c ∷ s) =
    if c == b'-'
    then non_positive (magnitude s)
    else if c == b'+'
    then non_negative (magnitude s)
    else non_negative (magnitude (c ∷ s))

-- The digits of `n` in front of `out`; the first argument bounds the rounds.
digits : ℕ → ℕ → Bytes → Bytes
digits zero n out = out
digits (suc fuel) n out =
    let more = digits fuel (n / 10) ((b'0' + n % 10) ∷ out) in
    if ltb n 10 then (b'0' + n % 10) ∷ out else more

abbrev rounds : ℕ → ℕ
rounds n = suc n

unfoldable pub itoa_ℕ : ℕ → Bytes
unfolding digits
itoa_ℕ n = digits (rounds n) n []

-- `fmt.Sprintf("%d", z)`.
unfoldable pub itoa : ℤ → Bytes
unfolding itoa_ℕ
itoa (pos n) = itoa_ℕ n
itoa (negsuc n) = b'-' ∷ itoa_ℕ (suc n)
