-- ===== src/Core/Metrics.antt =====
-- core/metrics.py. A `Fraction` here keeps a positive denominator and is not reduced.
pub mod Ranks
pub mod Ratio
use wagmi_bench.Prelude.{
  ℕ, suc, ◌-◌, Bool, ◌&&◌, ◌||◌, not, if◌then◌else◌, Option, none, some, List, [], ◌∷◌, length,
  get_elem?, take, sort_by, Result, ok, err, raise_if, or_raise, value_error, undefined_metric,
  index_error, ◌>>=◌, ◌>>◌,
}
use wagmi_bench.Prelude.Int.{
  ℤ, pos, pos_part, ◌+ℤ◌, ◌-ℤ◌, ◌*ℤ◌, ◌//◌, neg, abs, max_ℤ, min_ℤ, leb_ℤ, ltb_ℤ, eqb_ℤ,
}
use wagmi_bench.Core.Models.{DistanceStatistics}
use wagmi_bench.Core.Math.Rounding.{
  Fraction, fraction, fraction_mul, fraction_div, floor_fraction, ceil_div, isqrt,
}

-- `+` and `<` of `Fraction`.
unfoldable pub fraction_add : Fraction → Fraction → Fraction
fraction_add a b =
    fraction (a.numerator *ℤ b.denominator +ℤ b.numerator *ℤ a.denominator)
      (a.denominator *ℤ b.denominator)

unfoldable pub fraction_ltb : Fraction → Fraction → Bool
fraction_ltb a b = ltb_ℤ (a.numerator *ℤ b.denominator) (b.numerator *ℤ a.denominator)

abbrev pub zero_fraction : Fraction
zero_fraction = fraction (pos 0) (pos 1)

-- The loop of `bar_returns` over neighbours.
returns_from : ℤ → List ℤ → Result (List Fraction)
unfolding ◌>>=◌
returns_from previous [] = ok []
returns_from previous (current ∷ navs) = do
  raise_if (leb_ℤ previous (pos 0)) undefined_metric
  returns ← returns_from current navs
  ok (fraction (current -ℤ previous) previous ∷ returns)

unfoldable pub bar_returns : List ℤ → Result (List Fraction)
unfolding returns_from
bar_returns [] = err value_error
bar_returns (nav ∷ []) = err value_error
bar_returns (first ∷ second ∷ navs) = returns_from first (second ∷ navs)

unfoldable pub net_return_1e8 : ℤ → ℤ → ℤ → Result ℤ
unfolding ◌>>=◌
net_return_1e8 final_nav_micro starting_nav_micro rate_scale = do
  raise_if (leb_ℤ starting_nav_micro (pos 0)) value_error
  ok (
      floor_fraction
        (fraction ((final_nav_micro -ℤ starting_nav_micro) *ℤ rate_scale) starting_nav_micro))

-- The loop of `max_drawdown_1e8`.
unfoldable pub drawdown_loop : ℤ → ℤ → Fraction → List ℤ → Result Fraction
unfolding ◌>>=◌
drawdown_loop rate_scale peak maximum [] = ok maximum
drawdown_loop rate_scale peak maximum (nav ∷ navs) =
    let top = max_ℤ peak nav in
    let drawdown = fraction ((top -ℤ nav) *ℤ rate_scale) top in
    raise_if (leb_ℤ top (pos 0)) undefined_metric
    >> drawdown_loop rate_scale top (if fraction_ltb maximum drawdown then drawdown else maximum)
        navs

unfoldable pub max_drawdown_1e8 : List ℤ → ℤ → Result ℤ
unfolding ◌>>=◌
max_drawdown_1e8 [] rate_scale = err value_error
max_drawdown_1e8 (first ∷ navs) rate_scale = do
  raise_if (leb_ℤ first (pos 0)) value_error
  maximum ← drawdown_loop rate_scale first zero_fraction (first ∷ navs)
  ok (floor_fraction maximum)

-- `exact`: the reduced square is the square of the root, so its own denominator is one.
unfoldable pub floor_ratio_over_sqrt : Fraction → Fraction → Result ℤ
unfolding ◌>>=◌
floor_ratio_over_sqrt numerator denominator = do
  raise_if (leb_ℤ denominator.numerator (pos 0)) undefined_metric
  let squared = fraction_div (fraction_mul numerator numerator) denominator
  let root_floor = pos (isqrt (pos_part (floor_fraction squared)))
  ok (
      if leb_ℤ (pos 0) numerator.numerator
      then root_floor
      else if eqb_ℤ (root_floor *ℤ root_floor *ℤ squared.denominator) squared.numerator
      then neg root_floor
      else neg (root_floor +ℤ pos 1))

unfoldable pub sum_fractions : List Fraction → Fraction
sum_fractions [] = zero_fraction
sum_fractions (value ∷ values) = fraction_add value (sum_fractions values)

-- `min(value, Fraction(0))`
unfoldable pub downside : Fraction → Fraction
downside value = if ltb_ℤ value.numerator (pos 0) then value else zero_fraction

unfoldable pub sum_downside_squares : List Fraction → Fraction
unfolding downside
sum_downside_squares [] = zero_fraction
sum_downside_squares (value ∷ values) =
    fraction_add (fraction_mul (downside value) (downside value)) (sum_downside_squares values)

unfoldable pub sortino_1e8 : List Fraction → ℤ → Result ℤ
unfolding ◌>>=◌
sortino_1e8 [] rate_scale = err value_error
sortino_1e8 (value ∷ values) rate_scale = do
  let count = fraction (pos (length (value ∷ values))) (pos 1)
  let mean_return = fraction_div (sum_fractions (value ∷ values)) count
  let mean_squared_downside = fraction_div (sum_downside_squares (value ∷ values)) count
  raise_if (leb_ℤ mean_squared_downside.numerator (pos 0)) undefined_metric
  floor_ratio_over_sqrt (fraction_mul mean_return (fraction rate_scale (pos 1)))
      mean_squared_downside

-- The order of `sorted` on fractions and on integers.
abbrev pub fraction_leb : Fraction → Fraction → Bool
fraction_leb a b = not (fraction_ltb b a)

unfoldable pub cvar_5_1e8 : List Fraction → ℤ → Result ℤ
unfolding ◌>>=◌
cvar_5_1e8 [] rate_scale = err value_error
cvar_5_1e8 (value ∷ values) rate_scale = do
  tail_count ← ceil_div (pos (length (value ∷ values))) (pos 20)
  let worst = take (pos_part tail_count) (sort_by fraction_leb (value ∷ values))
  ok (
      floor_fraction (
        fraction_div (fraction_mul (sum_fractions worst) (fraction rate_scale (pos 1)))
          (fraction tail_count (pos 1))))

-- `not 0 <= percentile_num <= percentile_den`
abbrev pub is_percentile : ℤ → ℤ → Bool
is_percentile num den = leb_ℤ (pos 0) num && leb_ℤ num den

unfoldable pub nearest_rank : List ℤ → ℤ → ℤ → Result ℤ
unfolding ◌>>=◌
nearest_rank [] percentile_num percentile_den = err value_error
nearest_rank (value ∷ values) percentile_num percentile_den = do
  raise_if (leb_ℤ percentile_den (pos 0) || not (is_percentile percentile_num percentile_den))
      value_error
  let ordered = sort_by leb_ℤ (value ∷ values)
  rank ← ceil_div (percentile_num *ℤ pos (length (value ∷ values))) percentile_den
  or_raise (get_elem? ordered (pos_part (max_ℤ (pos 1) rank) - 1)) index_error

-- `min` of a sequence that is not empty.
unfoldable pub minimum : ℤ → List ℤ → ℤ
minimum least [] = least
minimum least (value ∷ values) = minimum (min_ℤ least value) values

unfoldable pub distance_statistics : List ℤ → List ℤ → Result DistanceStatistics
unfolding ◌>>=◌
distance_statistics [] [] = ok (record {
  min_intrabar_1e8 = none;
  p05_close_1e8 = none;
  p25_close_1e8 = none;
  median_close_1e8 = none;
})
distance_statistics [] (wick ∷ wicks) = err value_error
distance_statistics (close ∷ closes) [] = err value_error
distance_statistics (close ∷ closes) (wick ∷ wicks) = do
  p05 ← nearest_rank (close ∷ closes) (pos 1) (pos 20)
  p25 ← nearest_rank (close ∷ closes) (pos 1) (pos 4)
  median ← nearest_rank (close ∷ closes) (pos 1) (pos 2)
  ok (record {
    min_intrabar_1e8 = some (minimum wick wicks);
    p05_close_1e8 = some p05;
    p25_close_1e8 = some p25;
    median_close_1e8 = some median;
  })

unfoldable pub turnover_1e8 : ℤ → ℤ → ℤ → Result ℤ
unfolding ◌>>=◌
turnover_1e8 turnover_notional_micro starting_nav_micro rate_scale = do
  raise_if (ltb_ℤ turnover_notional_micro (pos 0)) value_error
  raise_if (leb_ℤ starting_nav_micro (pos 0)) value_error
  ok (floor_fraction (fraction (turnover_notional_micro *ℤ rate_scale) starting_nav_micro))

-- The loop of `total_fill_cost_micro`, on the total so far.
unfoldable pub fill_cost_loop : ℤ → List (ℤ × ℤ) → Result ℤ
unfolding ◌>>=◌
fill_cost_loop total [] = ok total
fill_cost_loop total ((fill_notional, reference_notional) ∷ rest) =
    raise_if (ltb_ℤ fill_notional (pos 0) || ltb_ℤ reference_notional (pos 0)) value_error
    >> fill_cost_loop (total +ℤ abs (fill_notional -ℤ reference_notional)) rest

unfoldable pub total_fill_cost_micro : List (ℤ × ℤ) → Result ℤ
total_fill_cost_micro notionals = fill_cost_loop (pos 0) notionals
