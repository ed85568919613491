-- ===== src/Decimal/RoundTrip.antt =====
-- A printed number is read back, and what is printed holds digits only.
use whet.Base.{
  ℕ, zero, suc, ◌+◌, ◌/◌, ◌%◌, ◌≤◌, ◌<◌, ◌≡◌, ◌≢◌, refl, ◌⊎◌, inl, inr, [], ◌∷◌, some, arith, Bytes,
  ltb, Bool-cases, All, Lacks,
}
use whet.Base.Int.{ℤ, pos, max_int, IsInt, neg_part}
use whet.Decimal.{read, non_negative, atoi, digits, itoa_ℕ}

-- Reading behind `0` what `digits` prints in front of `out` reads `n` and then `out`.
read-digits : (fuel n : ℕ) (out : Bytes) → n < fuel → read 0 (digits fuel n out) ≡ read n out
unfolding digits
read-digits zero n out h = absurd (omega arith)
read-digits (suc fuel) n out h = elim (Bool-cases (ltb n 10)) [
  | inl small ↦ rw small (unfold read in ground arith)
  | inr large ↦
      rw (large, read-digits fuel (n / 10) ((b'0' + n % 10) ∷ out) (ground arith))
        (unfold read in ground arith)
]

abbrev IsDigit : ℕ → Type 0
IsDigit c = (b'0' ≤ c) × (c ≤ b'9')

digits-IsDigit : (fuel n : ℕ) (out : Bytes) → All IsDigit out → All IsDigit (digits fuel n out)
unfolding digits
digits-IsDigit zero n out h = h
digits-IsDigit (suc fuel) n out h = elim (Bool-cases (ltb n 10)) [
  | inl small ↦ rw small ((omega arith, omega arith), h)
  | inr large ↦ rw large (digits-IsDigit fuel (n / 10) _ ((omega arith, omega arith), h))
]

digits-ne-nil : (fuel n : ℕ) (out : Bytes) → out ≢ [] → digits fuel n out ≢ []
unfolding digits
digits-ne-nil zero n out h = h
digits-ne-nil (suc fuel) n out h = elim (Bool-cases (ltb n 10)) [
  | inl small ↦ rw small (λ e. cc)
  | inr large ↦ rw large (digits-ne-nil fuel (n / 10) _ (λ e. cc))
]

pub itoa_ℕ-IsDigit : (n : ℕ) → All IsDigit (itoa_ℕ n)
unfolding itoa_ℕ
itoa_ℕ-IsDigit n = digits-IsDigit (suc n) n [] tt

itoa_ℕ-ne-nil : (n : ℕ) → itoa_ℕ n ≢ []
unfolding itoa_ℕ digits
itoa_ℕ-ne-nil n = elim (Bool-cases (ltb n 10)) [
  | inl small ↦ rw small (λ e. cc)
  | inr large ↦ rw large (digits-ne-nil n (n / 10) _ (λ e. cc))
]

atoi_digits : (s : Bytes) → s ≢ [] → All IsDigit s → atoi s ≡ non_negative (read 0 s)
unfolding atoi
atoi_digits [] h d = absurd (h refl)
atoi_digits (c ∷ s) h d = ground arith

-- `Atoi` reads back what `%d` prints of a number in the range of `int`.
pub atoi-itoa_ℕ : (n : ℕ) → n ≤ max_int → atoi (itoa_ℕ n) ≡ some (pos n)
atoi-itoa_ℕ n h = rw (atoi_digits (itoa_ℕ n) (itoa_ℕ-ne-nil n) (itoa_ℕ-IsDigit n)) (
    unfold itoa_ℕ in
    rw (read-digits (suc n) n [] (omega arith)) (unfold read non_negative in ground arith))

-- Whatever `Atoi` accepts is in the range of `int`.
pub atoi-IsInt : (s : Bytes) {z : ℤ} → atoi s ≡ some z → IsInt z
unfolding atoi
atoi-IsInt [] h = cc
atoi-IsInt (c ∷ s) h = ground arith

-- Without a minus sign the number is not negative.
pub atoi_unsigned : (s : Bytes) {z : ℤ} → Lacks b'-' s → atoi s ≡ some z → neg_part z ≡ 0
unfolding atoi
atoi_unsigned [] l h = cc
atoi_unsigned (c ∷ s) (hc, hs) h = ground arith

-- Digits hold no byte outside their range.
pub digits-Lacks : (b : ℕ) (s : Bytes) → (b < b'0') ⊎ (b'9' < b) → All IsDigit s → Lacks b s
digits-Lacks b [] h d = tt
digits-Lacks b (c ∷ s) h (dc, ds) = (ground arith, digits-Lacks b s h ds)
