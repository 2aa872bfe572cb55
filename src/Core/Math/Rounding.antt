-- ===== src/Core/Math/Rounding.antt =====
-- core/math.py, the rounding helpers. `Fraction` is the standard library's; it is kept here as a
-- numerator over a positive denominator, not reduced: floor, ceiling and comparison depend on the
-- ratio alone.
pub mod Bounds
pub mod Roots
use wagmi_bench.Prelude.{
  ℕ, zero, suc, ◌+◌, ◌*◌, ◌/◌, Bool, true, false, leb, ◌==◌, if◌then◌else◌, Result, ok, raise_if,
  value_error, ◌>>=◌, ◌>>◌, ◌||◌,
}
use wagmi_bench.Prelude.Int.{ℤ, pos, pos_part, ◌+ℤ◌, ◌*ℤ◌, ◌//◌, neg, abs, leb_ℤ, ltb_ℤ, eqb_ℤ}

abbrev pub rate_scale : ℤ
rate_scale = pos 100_000_000

abbrev pub qty_scale : ℤ
qty_scale = pos 100_000_000

abbrev pub leverage_scale : ℤ
leverage_scale = pos 10_000

abbrev pub cost_multiplier_scale : ℤ
cost_multiplier_scale = pos 10_000

pub record Fraction : Type 0 where
  pub numerator : ℤ
  pub denominator : ℤ

abbrev pub fraction : ℤ → ℤ → Fraction
fraction n d = record { numerator = n; denominator = d }

-- `*` and, by a positive fraction, `/` of `Fraction`.
unfoldable pub fraction_mul : Fraction → Fraction → Fraction
fraction_mul a b = fraction (a.numerator *ℤ b.numerator) (a.denominator *ℤ b.denominator)

unfoldable pub fraction_div : Fraction → Fraction → Fraction
fraction_div a b = fraction (a.numerator *ℤ b.denominator) (a.denominator *ℤ b.numerator)

unfoldable pub ceil_div : ℤ → ℤ → Result ℤ
unfolding ◌>>=◌
ceil_div dividend divisor = do
  raise_if (leb_ℤ divisor (pos 0)) value_error
  ok (neg (neg dividend // divisor))

unfoldable pub floor_fraction : Fraction → ℤ
floor_fraction value = value.numerator // value.denominator

unfoldable pub ceil_fraction : Fraction → ℤ
ceil_fraction value = neg (neg value.numerator // value.denominator)

unfoldable pub floor_to_step : ℤ → ℤ → Result ℤ
unfolding ◌>>=◌
floor_to_step value step = do
  raise_if (leb_ℤ step (pos 0)) value_error
  let magnitude = (abs value // step) *ℤ step
  ok (if leb_ℤ (pos 0) value then magnitude else neg magnitude)

-- `math.isqrt`, digit by digit in base four. The depth is below the number itself.
isqrt_from : ℕ → ℕ → ℕ
isqrt_from zero n = 0
isqrt_from (suc fuel) n = elim (n == 0) [
  | true ↦ 0
  | false ↦
      let root = 2 * isqrt_from fuel (n / 4) in
      if leb ((root + 1) * (root + 1)) n then root + 1 else root
]

unfoldable pub isqrt : ℕ → ℕ
unfolding isqrt_from
isqrt n = isqrt_from n n

unfoldable pub ceil_sqrt_fraction : Fraction → Result ℤ
unfolding ◌>>=◌
ceil_sqrt_fraction value = do
  raise_if (ltb_ℤ value.numerator (pos 0)) value_error
  let floor_root = pos (isqrt (pos_part (value.numerator // value.denominator)))
  ok (
      if eqb_ℤ (floor_root *ℤ floor_root *ℤ value.denominator) value.numerator
      then floor_root
      else floor_root +ℤ pos 1)

unfoldable pub apply_cost_multiplier : ℤ → ℤ → ℤ → Result ℤ
unfolding ◌>>=◌
apply_cost_multiplier base_rate multiplier_1e4 multiplier_scale = do
  raise_if (ltb_ℤ base_rate (pos 0)) value_error
  raise_if (leb_ℤ multiplier_1e4 (pos 0) || leb_ℤ multiplier_scale (pos 0)) value_error
  ok (ceil_fraction (fraction (base_rate *ℤ multiplier_1e4) multiplier_scale))
