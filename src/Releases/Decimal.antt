-- ===== src/Releases/Decimal.antt =====
-- releaseid.go: a segment of a version against the number that it stands for.
use mathlib.Core.List.{append-nil}
use passwall_node.Prelude.{
  ℕ, zero, suc, ◌+◌, ◌-◌, ◌*◌, ◌/◌, ◌%◌, ◌≤◌, ◌<◌, ◌≡◌, refl, ap, ◌∙◌, true, false, List, [], ◌∷◌,
  ◌++◌, get_or, ltb, ◌==◌, ok, arith, Bool-cases, inl, inr,
}
use passwall_node.Releases.{
  no_bytes, holds, digits_onto, decimal, value_from, all_digits, leading_zero, max_segment,
  parse_segment,
}

-- More fuel than the number does not change its digits.
fuel_enough :
    (f g n : ℕ) (rest : List ℕ) → n < f → n < g → digits_onto f n rest ≡ digits_onto g n rest
unfolding digits_onto
fuel_enough zero g n rest a b = absurd (omega arith)
fuel_enough (suc f) zero n rest a b = absurd (omega arith)
fuel_enough (suc f) (suc g) n rest a b = elim (Bool-cases (ltb n 10)) [
  | inl e ↦ rw e refl
  | inr e ↦
      rw e (fuel_enough f g (n / 10) ((48 + n % 10) ∷ rest) (ground (arith, e)) (ground (arith, e)))
]

digits_small : (n : ℕ) (rest : List ℕ) → n < 10 → digits_onto (suc n) n rest ≡ (48 + n) ∷ rest
unfolding digits_onto
digits_small n rest h = ground (arith, h)

-- The digits of a number that has another one in front of it
digits_next :
    (n d : ℕ) (rest : List ℕ)
    → 0 < n
    → d < 10
    → digits_onto (suc (n * 10 + d)) (n * 10 + d) rest ≡ digits_onto (suc n) n ((48 + d) ∷ rest)
unfolding digits_onto
digits_next n d rest a b =
    let large : ltb (n * 10 + d) 10 ≡ false = ground arith in
    let front : (n * 10 + d) / 10 ≡ n = omega arith in
    let last : (n * 10 + d) % 10 ≡ d = omega arith in
    rw (large, front, last)
      (fuel_enough (n * 10 + d) (suc n) n ((48 + d) ∷ rest) (omega arith) (omega arith))

-- Digits behind a positive number are the digits of their value.
digits_onto-value_from :
    (n : ℕ) (cs rest : List ℕ)
    → 0 < n
    → all_digits cs ≡ true
    → digits_onto (suc (value_from n cs)) (value_from n cs) rest
      ≡ digits_onto (suc n) n (cs ++ rest)
unfolding value_from all_digits
digits_onto-value_from n [] rest a h = refl
digits_onto-value_from n (c ∷ cs) rest a h =
    digits_onto-value_from (n * 10 + (c - 48)) cs rest (omega arith) (ground (arith, h))
    ∙ digits_next n (c - 48) (cs ++ rest) a (ground (arith, h))
    ∙ ap (λ k. digits_onto (suc n) n (k ∷ cs ++ rest)) {y = c} (ground (arith, h))

-- A text of digits without a leading zero is the decimal text of its value.
decimal-value_from :
    (cs : List ℕ)
    → no_bytes cs ≡ false
    → all_digits cs ≡ true
    → leading_zero cs ≡ false
    → decimal (value_from 0 cs) ≡ cs
unfolding decimal value_from all_digits leading_zero
decimal-value_from [] a h z = cc a
decimal-value_from (c ∷ []) a h z =
    digits_small (0 * 10 + (c - 48)) [] (ground (arith, h))
    ∙ ap (λ k. k ∷ []) {y = c} (ground (arith, h))
decimal-value_from (c ∷ d ∷ cs) a h z =
    digits_onto-value_from (0 * 10 + (c - 48)) (d ∷ cs) [] (ground (arith, h, z))
      (ground (arith, h))
    ∙ digits_small (0 * 10 + (c - 48)) ((d ∷ cs) ++ []) (ground (arith, h))
    ∙ ap (λ k. k ∷ ((d ∷ cs) ++ [])) {y = c} (ground (arith, h))
    ∙ ap (λ l. c ∷ l) (append-nil (d ∷ cs))

-- The value of the digits of a number
value_from-digits_onto :
    (f n : ℕ) (rest : List ℕ) → n < f → value_from 0 (digits_onto f n rest) ≡ value_from n rest
unfolding digits_onto value_from
value_from-digits_onto zero n rest h = absurd (omega arith)
value_from-digits_onto (suc f) n rest h = elim (Bool-cases (ltb n 10)) [
  | inl e ↦ rw e (ap (λ k. value_from k rest) (omega arith))
  | inr e ↦ rw e (
      value_from-digits_onto f (n / 10) ((48 + n % 10) ∷ rest) (ground (arith, e))
      ∙ ap (λ k. value_from k rest) (omega arith))
]

digits_onto-all_digits :
    (f n : ℕ) (rest : List ℕ)
    → n < f
    → all_digits rest ≡ true
    → all_digits (digits_onto f n rest) ≡ true
unfolding digits_onto all_digits
digits_onto-all_digits zero n rest h a = absurd (omega arith)
digits_onto-all_digits (suc f) n rest h a = elim (Bool-cases (ltb n 10)) [
  | inl e ↦ rw e (ground (arith, e, a))
  | inr e ↦ rw e (
      digits_onto-all_digits f (n / 10) ((48 + n % 10) ∷ rest) (ground (arith, e))
        (ground (arith, a)))
]

-- The first digit of a positive number is not zero.
digits_onto_first :
    (f n : ℕ) (rest : List ℕ) → n < f → 0 < n → (get_or (digits_onto f n rest) 0 0 == 48) ≡ false
unfolding digits_onto
digits_onto_first zero n rest h a = absurd (omega arith)
digits_onto_first (suc f) n rest h a = elim (Bool-cases (ltb n 10)) [
  | inl e ↦ rw e (ground arith)
  | inr e ↦
      rw e (
        digits_onto_first f (n / 10) ((48 + n % 10) ∷ rest) (ground (arith, e)) (ground (arith, e)))
]

digits_onto_bytes : (f n : ℕ) (rest : List ℕ) → n < f → no_bytes (digits_onto f n rest) ≡ false
unfolding digits_onto
digits_onto_bytes zero n rest h = absurd (omega arith)
digits_onto_bytes (suc f) n rest h = elim (Bool-cases (ltb n 10)) [
  | inl e ↦ rw e refl
  | inr e ↦ rw e (digits_onto_bytes f (n / 10) ((48 + n % 10) ∷ rest) (ground (arith, e)))
]

no_leading_zero : (n : ℕ) → leading_zero (decimal n) ≡ false
unfolding leading_zero decimal digits_onto
no_leading_zero zero = refl
no_leading_zero (suc n) =
    rw (digits_onto_first (suc (suc n)) (suc n) [] (omega arith) (omega arith)) (ground arith)

pub decimal_digits :
    (n : ℕ)
    → (all_digits (decimal n) ≡ true)
      × (no_bytes (decimal n) ≡ false)
      × (value_from 0 (decimal n) ≡ n)
      × (leading_zero (decimal n) ≡ false)
unfolding decimal value_from all_digits
decimal_digits n = (
  digits_onto-all_digits (suc n) n [] (omega arith) refl,
  digits_onto_bytes (suc n) n [] (omega arith),
  value_from-digits_onto (suc n) n [] (omega arith),
  no_leading_zero n,
)

-- The text of a number in range is read back.
pub parse_segment-decimal : (n : ℕ) → n ≤ max_segment → parse_segment (decimal n) ≡ ok n
unfolding parse_segment
parse_segment-decimal n h = let d = decimal_digits n in rw (d.0, d.1, d.2, d.3) (ground (arith, h))

-- A segment that is read is the text of what it is read as, which is in range.
pub decimal-parse_segment :
    (s : List ℕ) (n : ℕ) → parse_segment s ≡ ok n → (s ≡ decimal n) × (n ≤ max_segment)
unfolding parse_segment
decimal-parse_segment s n h = ground (arith, h, decimal-value_from s)

-- A byte that is no digit does not stand in digits.
pub all_digits-holds : (c : ℕ) (s : List ℕ) → c < 48 → all_digits s ≡ true → holds c s ≡ false
unfolding all_digits holds
all_digits-holds c [] h a = refl
all_digits-holds c (x ∷ xs) h a = ground (arith, a, all_digits-holds c xs)

pub decimal-holds : (c n : ℕ) → c < 48 → holds c (decimal n) ≡ false
decimal-holds c n h = all_digits-holds c (decimal n) h (decimal_digits n).0
