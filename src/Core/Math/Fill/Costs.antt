-- ===== src/Core/Math/Fill/Costs.antt =====
-- The costs of a fill.
use wagmi_bench.Prelude.{◌≡◌, inl, inr, arith, Bool-cases, ok, Returns, ◌||◌}
use wagmi_bench.Prelude.Int.{ℤ, pos, negsuc, ◌-ℤ◌, ◌*ℤ◌, ◌//◌, eqb_ℤ, ◌≤ℤ◌, ◌<ℤ◌}
use wagmi_bench.Prelude.Int.Laws.{//_bounds, //_nonneg, mul_nonneg, mul_pos}
use wagmi_bench.Core.Models.{ImpactModel, linear, sqrt}
use wagmi_bench.Core.Math.Rounding.{
  fraction, floor_fraction, ceil_fraction, ceil_sqrt_fraction, apply_cost_multiplier, qty_scale,
  cost_multiplier_scale,
}
use wagmi_bench.Core.Math.Rounding.Bounds.{
  IsFloor, IsCeil, floor_fraction-IsFloor, ceil_fraction-IsCeil, ceil_fraction_nonneg,
}
use wagmi_bench.Core.Math.Rounding.Roots.{ceil_sqrt_fraction-IsCeilSqrt}
use wagmi_bench.Core.Math.Fill.{
  half_spread_ticks, modeled_impact, impact_ticks, notional_micro, fee_micro, slippage_1e8,
}

abbrev pub IsNonneg : ℤ → Type 0
IsNonneg a = pos 0 ≤ℤ a

ceil_sqrt-IsNonneg :
    (n d : ℤ) → pos 0 ≤ℤ n → pos 0 <ℤ d → Returns IsNonneg (ceil_sqrt_fraction (fraction n d))
ceil_sqrt-IsNonneg (pos n) (pos d) h k =
    let (r, e, _) = ceil_sqrt_fraction-IsCeilSqrt n d (omega arith) in rw e (omega arith)
ceil_sqrt-IsNonneg (pos n) (negsuc d) h k = absurd (omega arith)
ceil_sqrt-IsNonneg (negsuc n) d h k = absurd (omega arith)

module _ (ref scale : ℤ) (ref_pos : pos 0 <ℤ ref) (scale_pos : pos 0 <ℤ scale) where
  pub half_spread-IsNonneg :
      (spread : ℤ) → pos 0 ≤ℤ spread → Returns IsNonneg (half_spread_ticks ref spread scale)
  unfolding half_spread_ticks
  half_spread-IsNonneg spread h = ground (
    arith,
    ceil_fraction_nonneg (ref *ℤ spread) scale (mul_nonneg ref spread (omega arith) h) scale_pos,
  )

  modeled_impact-IsNonneg :
      (model : ImpactModel) (filled volume coeff : ℤ)
      → pos 0 ≤ℤ filled
      → pos 0 ≤ℤ coeff
      → pos 0 <ℤ volume
      → Returns IsNonneg (modeled_impact model ref filled volume coeff scale)
  unfolding modeled_impact
  modeled_impact-IsNonneg linear filled volume coeff f c v =
      ceil_fraction_nonneg (ref *ℤ coeff *ℤ filled) (scale *ℤ volume)
        (mul_nonneg _ filled (mul_nonneg ref coeff (omega arith) c) f)
        (mul_pos scale volume scale_pos v)
  modeled_impact-IsNonneg sqrt filled volume coeff f c v =
      let r : pos 0 ≤ℤ ref = omega arith in
      ceil_sqrt-IsNonneg (ref *ℤ ref *ℤ coeff *ℤ coeff *ℤ filled) (scale *ℤ scale *ℤ volume)
        (mul_nonneg _ filled (mul_nonneg _ coeff (mul_nonneg _ coeff (mul_nonneg ref ref r r) c) c)
          f)
        (mul_pos _ volume (mul_pos scale scale scale_pos scale_pos) v)

  pub impact-IsNonneg :
      (model : ImpactModel) (filled volume coeff : ℤ)
      → pos 0 ≤ℤ filled
      → pos 0 ≤ℤ coeff
      → pos 0 ≤ℤ volume
      → filled ≤ℤ volume
      → Returns IsNonneg (impact_ticks ref filled volume coeff model scale)
  unfolding impact_ticks
  impact-IsNonneg model filled volume coeff f c v fv =
      elim (Bool-cases (eqb_ℤ filled (pos 0) || eqb_ℤ coeff (pos 0))) [
        | inl none_left ↦ ground arith
        | inr some_left ↦ ground (arith, modeled_impact-IsNonneg model filled volume coeff)
      ]

pub scaled-IsNonneg :
    (base multiplier : ℤ)
    → pos 0 ≤ℤ base
    → pos 0 <ℤ multiplier
    → Returns IsNonneg (apply_cost_multiplier base multiplier cost_multiplier_scale)
unfolding apply_cost_multiplier
scaled-IsNonneg base multiplier b m = ground (
  arith,
  ceil_fraction_nonneg (base *ℤ multiplier) cost_multiplier_scale
      (mul_nonneg base multiplier b (omega arith)) (omega arith),
)

pub notional-IsFloor :
    (qty px tick : ℤ)
    → pos 0 ≤ℤ qty
    → pos 0 <ℤ px
    → pos 0 <ℤ tick
    → (n : ℤ) × (notional_micro qty px tick qty_scale ≡ ok n)
      × IsNonneg n
      × IsFloor (qty *ℤ px *ℤ tick) qty_scale n
unfolding notional_micro
notional-IsFloor (pos q) px tick h p t =
    let exact = pos q *ℤ px *ℤ tick in
    let exact_nonneg =
      mul_nonneg (pos q *ℤ px) tick (mul_nonneg (pos q) px h (omega arith)) (omega arith) in
    (
      exact // qty_scale,
      ground arith,
      //_nonneg exact qty_scale exact_nonneg (omega arith),
      //_bounds exact qty_scale (omega arith),
    )
notional-IsFloor (negsuc q) px tick h p t = absurd (omega arith)

pub fee-IsCeil :
    (notional rate scale : ℤ)
    → pos 0 ≤ℤ notional
    → pos 0 ≤ℤ rate
    → pos 0 <ℤ scale
    → (f : ℤ) × (fee_micro notional rate scale ≡ ok f)
      × IsNonneg f
      × IsCeil (notional *ℤ rate) scale f
unfolding fee_micro
fee-IsCeil notional rate scale n r s = (
  ceil_fraction (fraction (notional *ℤ rate) scale),
  ground arith,
  ceil_fraction_nonneg (notional *ℤ rate) scale (mul_nonneg notional rate n r) s,
  ceil_fraction-IsCeil (notional *ℤ rate) scale s,
)

pub slippage-IsFloor :
    (px ref scale : ℤ)
    → pos 0 <ℤ px
    → pos 0 <ℤ ref
    → (l : ℤ) × (slippage_1e8 px ref scale ≡ ok l) × IsFloor ((px -ℤ ref) *ℤ scale) ref l
unfolding slippage_1e8
slippage-IsFloor px ref scale p r = (
  floor_fraction (fraction ((px -ℤ ref) *ℤ scale) ref),
  ground arith,
  floor_fraction-IsFloor ((px -ℤ ref) *ℤ scale) ref r,
)
