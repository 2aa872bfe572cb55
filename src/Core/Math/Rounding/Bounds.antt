-- ===== src/Core/Math/Rounding/Bounds.antt =====
-- Floors and ceilings: characterised by the multiples of the divisor next to the value.
use wagmi_bench.Prelude.{
  ℕ, suc, ◌≡◌, refl, sym, Bool-cases, ltb→lt, not_ltb→le, arith, ok, Returns, inl, inr,
}
use wagmi_bench.Prelude.Int.{
  ℤ, pos, negsuc, ◌+ℤ◌, ◌*ℤ◌, ◌//◌, neg, abs, ltb_ℤ, ◌≤ℤ◌, ◌<ℤ◌, int_laws,
}
use wagmi_bench.Prelude.Int.Laws.{
  //_bounds, neg-*ℤ, neg-*ℤ_parts, //_nonneg, mul_nonneg, mul_mono, negsuc-zero-mul,
}
use wagmi_bench.Core.Math.Rounding.{
  fraction, ceil_div, floor_fraction, ceil_fraction, floor_to_step, apply_cost_multiplier,
}

-- `q` is the last integer whose multiple of `d` does not pass `n`.
abbrev pub IsFloor : ℤ → ℤ → ℤ → Type 0
IsFloor n d q = (q *ℤ d ≤ℤ n) × (n <ℤ q *ℤ d +ℤ d)

-- `q` is the first integer whose multiple of `d` reaches `n`.
abbrev pub IsCeil : ℤ → ℤ → ℤ → Type 0
IsCeil n d q = (n ≤ℤ q *ℤ d) × (q *ℤ d <ℤ n +ℤ d)

pub floor_fraction-IsFloor : (n d : ℤ) → pos 0 <ℤ d → IsFloor n d (floor_fraction (fraction n d))
unfolding floor_fraction
floor_fraction-IsFloor n d h = //_bounds n d h

neg-IsCeil : (n d q : ℤ) → IsFloor (neg n) d q → IsCeil n d (neg q)
neg-IsCeil n d q h = omega (int_laws, neg-*ℤ_parts q d, h.0, h.1)

pub ceil_fraction-IsCeil : (n d : ℤ) → pos 0 <ℤ d → IsCeil n d (ceil_fraction (fraction n d))
unfolding ceil_fraction
ceil_fraction-IsCeil n d h = neg-IsCeil n d (neg n // d) (//_bounds (neg n) d h)

pub ceil_div-IsCeil : (n d : ℤ) → pos 0 <ℤ d → Returns (IsCeil n d) (ceil_div n d)
unfolding ceil_div
ceil_div-IsCeil n d h = ground (arith, neg-IsCeil n d (neg n // d), //_bounds (neg n) d h)

-- A step-rounded value is a multiple of the step, between zero and the value, less than a step away.
pub record IsStepRounded (value step result : ℤ) : Type 0 where
  pub count : ℤ
  pub multiple : result ≡ count *ℤ step
  pub above : pos 0 ≤ℤ value → (pos 0 ≤ℤ result) × (result ≤ℤ value) × (value <ℤ result +ℤ step)
  pub below : value ≤ℤ pos 0 → (result ≤ℤ pos 0) × (value ≤ℤ result) × (result <ℤ value +ℤ step)

abs_nonneg : (a : ℤ) → pos 0 ≤ℤ abs a
abs_nonneg (pos a) = omega arith
abs_nonneg (negsuc a) = omega arith

module _ (step : ℤ) (h : pos 0 <ℤ step) where
  magnitude : ℤ → ℤ
  magnitude value = abs value // step *ℤ step

  magnitude_bounds :
      (value : ℤ)
      → (pos 0 ≤ℤ magnitude value)
        × (magnitude value ≤ℤ abs value)
        × (abs value <ℤ magnitude value +ℤ step)
  unfolding magnitude
  magnitude_bounds value =
      let (low, high) = //_bounds (abs value) step h in
      (
        mul_nonneg (abs value // step) step
            (//_nonneg (abs value) step (abs_nonneg value) (omega arith)) (omega arith),
        low,
        high,
      )

  floor_to_step-pos : (v : ℕ) → floor_to_step (pos v) step ≡ ok (magnitude (pos v))
  unfolding floor_to_step magnitude
  floor_to_step-pos v = ground arith

  floor_to_step-negsuc : (v : ℕ) → floor_to_step (negsuc v) step ≡ ok (neg (magnitude (negsuc v)))
  unfolding floor_to_step magnitude
  floor_to_step-negsuc v = ground arith

  -- With a positive step, `floor_to_step` returns a multiple of the step, between zero and the
  -- value and less than a step away from the value.
  pub floor_to_step-IsStepRounded :
      (value : ℤ) → Returns (IsStepRounded value step) (floor_to_step value step)
  unfolding magnitude
  floor_to_step-IsStepRounded (pos v) = rw (floor_to_step-pos v) (record {
    count = pos v // step;
    multiple = refl;
    above = λ k. omega (arith, magnitude_bounds (pos v));
    below = λ k. omega (int_laws, magnitude_bounds (pos v));
  })
  floor_to_step-IsStepRounded (negsuc v) = rw (floor_to_step-negsuc v) (record {
    count = neg (pos (suc v) // step);
    multiple = sym (neg-*ℤ (pos (suc v) // step) step);
    above = λ k. absurd (omega arith);
    below = λ k. omega (int_laws, magnitude_bounds (negsuc v));
  })

-- For a base from zero up and a positive multiplier and scale, `apply_cost_multiplier` returns the
-- ceiling of the exact scaled cost.
pub apply_cost_multiplier-IsCeil :
    (base multiplier scale : ℤ)
    → pos 0 ≤ℤ base
    → pos 0 <ℤ multiplier
    → pos 0 <ℤ scale
    → Returns (IsCeil (base *ℤ multiplier) scale) (apply_cost_multiplier base multiplier scale)
unfolding apply_cost_multiplier
apply_cost_multiplier-IsCeil base multiplier scale b m s =
    ground (arith, ceil_fraction-IsCeil (base *ℤ multiplier) scale s)

-- The ceiling of a ratio from zero up is from zero up.
pub ceil_fraction_nonneg :
    (n d : ℤ) → pos 0 ≤ℤ n → pos 0 <ℤ d → pos 0 ≤ℤ ceil_fraction (fraction n d)
ceil_fraction_nonneg n d h k = elim (Bool-cases (ltb_ℤ (ceil_fraction (fraction n d)) (pos 0))) [
  | inl below ↦ absurd (
      negative_quotient (ceil_fraction (fraction n d)) (ltb→lt _ _ below)
        (ceil_fraction-IsCeil n d k))
  | inr fine ↦ not_ltb→le _ _ fine
]
  where
    negative_quotient : (q : ℤ) → q <ℤ pos 0 → IsCeil n d q → ⊥
    negative_quotient q b c =
        omega
          (int_laws, mul_mono q (negsuc 0) d (omega arith) (omega arith), negsuc-zero-mul d, c.0, h)
