-- ===== src/Decimal.antt =====
-- `std::to_string` and `ostream <<` of unsigned numbers, as the sources print them.
use audit_forwarder.Prelude.{
  ℕ, zero, suc, ◌+◌, ◌-◌, ◌*◌, ◌/◌, ◌%◌, ◌<◌, ◌≤◌, ◌≡◌, [], ◌∷◌, arith, ltb, if◌then◌else◌, Text,
  inl, inr, Bool-cases, ap, ◌∙◌,
}

-- Digits are put in front of those that are there. A number has at most as many digits as it
-- counts, so that number of rounds is enough.
unfoldable pub digits : ℕ → ℕ → Text → Text
digits zero n out = out
digits (suc f) n out =
    let rest = digits f (n / 10) ((b'0' + n % 10) ∷ out) in
    if ltb n 10 then (b'0' + n) ∷ out else rest

unfoldable pub decimal : ℕ → Text
unfolding digits
decimal n = digits (suc n) n []

-- The number that a run of digits stands for, on top of what was read before.
unfoldable pub number_from : ℕ → Text → ℕ
number_from acc [] = acc
number_from acc (c ∷ s) = number_from (acc * 10 + (c - b'0')) s

digits_value : (f n : ℕ) (out : Text) → n < f → number_from 0 (digits f n out) ≡ number_from n out
unfolding digits number_from
digits_value zero n out h = absurd (omega arith)
digits_value (suc f) n out h = elim (Bool-cases (ltb n 10)) [
  | inl small ↦
      let value : 0 * 10 + (b'0' + n - b'0') ≡ n = omega arith in
      rw small (ap (λ k. number_from k out) value)
  | inr large ↦
      let ten : 10 ≤ n = ground arith in
      let value : n / 10 * 10 + (b'0' + n % 10 - b'0') ≡ n = omega arith in
      rw large (
        digits_value f (n / 10) ((b'0' + n % 10) ∷ out) (omega arith)
        ∙ ap (λ k. number_from k out) value)
]

-- A number is read back from its digits, so different numbers are printed differently.
pub number_from-decimal : (n : ℕ) → number_from 0 (decimal n) ≡ n
unfolding decimal number_from
number_from-decimal n = digits_value (suc n) n [] (omega arith)
