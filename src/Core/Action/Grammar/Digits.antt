-- ===== src/Core/Action/Grammar/Digits.antt =====
-- The decimal digits of the canonical encoder, as `int` reads them.
use wagmi_bench.Prelude.{
  ℕ, zero, suc, ◌+◌, ◌/◌, ◌%◌, ◌<◌, ◌≡◌, Bool-cases, inl, inr, ltb, [], ◌∷◌, Text, arith,
}
use wagmi_bench.Spec.Canonical.{digits_from, digits}
use wagmi_bench.Core.Action.Grammar.{digits_value}

-- With more fuel than the number, the digits in front of the text are those of the number.
digits_from-digits_value :
    (fuel n : ℕ) (out : Text)
    → n < fuel
    → digits_value 0 (digits_from fuel n out) ≡ digits_value n out
unfolding digits_from digits_value
digits_from-digits_value zero n out h = absurd (omega arith)
digits_from-digits_value (suc fuel) n out h = elim (Bool-cases (ltb n 10)) [
  | inl e ↦ rw e (ground arith)
  | inr e ↦
      rw (e, digits_from-digits_value fuel (n / 10) ((48 + n % 10) ∷ out) (ground arith))
        (ground arith)
]

-- The fuel of `digits` is enough: reading the decimal digits of a natural number as `int` does
-- gives the number.
pub digits-digits_value : (n : ℕ) → digits_value 0 (digits n) ≡ n
unfolding digits digits_value
digits-digits_value n = digits_from-digits_value (suc n) n [] (omega arith)
