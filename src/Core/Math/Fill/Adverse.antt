-- ===== src/Core/Math/Fill/Adverse.antt =====
-- The price of a fill, against the taker.
use wagmi_bench.Prelude.{
  ◌≡◌, inl, inr, refl, arith, Bool-cases, leb→le, not_leb→lt, Result, ok, err, value_error,
  Returns-eq-ok, ◌>>=◌,
}
use wagmi_bench.Prelude.Int.{ℤ, pos, ◌+ℤ◌, ◌-ℤ◌, ◌*ℤ◌, leb_ℤ, ◌≤ℤ◌, ◌<ℤ◌, int_laws}
use wagmi_bench.Prelude.Int.Laws.{mul_mono, le_of_mul-le, *ℤ_comm, parts_of_eq}
use wagmi_bench.Core.Models.{Side, buy, sell, FillQuantity, FillCalculation}
use wagmi_bench.Core.Math.Rounding.{apply_cost_multiplier, qty_scale, cost_multiplier_scale}
use wagmi_bench.Core.Math.Rounding.Bounds.{IsFloor}
use wagmi_bench.Core.Math.Sizing.{participation_fill}
use wagmi_bench.Core.Math.Sizing.Bounds.{IsCappedFill, participation_fill-IsCappedFill}
use wagmi_bench.Core.Math.Fill.{
  half_spread_ticks, impact_ticks, adjusted_price, fill_price_ticks, notional_micro, fee_micro,
  slippage_1e8, FillRequest, calculate_fill,
}
use wagmi_bench.Core.Math.Fill.Costs.{
  IsNonneg, half_spread-IsNonneg, impact-IsNonneg, scaled-IsNonneg, notional-IsFloor, fee-IsCeil,
  slippage-IsFloor,
}

-- The price moves against the side that takes it.
abbrev pub IsAdversePrice : Side → ℤ → ℤ → Type 0
IsAdversePrice buy ref px = ref ≤ℤ px
IsAdversePrice sell ref px = px ≤ℤ ref

adjusted-IsAdverse :
    (side : Side) (ref adjustment : ℤ)
    → pos 0 ≤ℤ adjustment
    → IsAdversePrice side ref (adjusted_price side ref adjustment)
unfolding adjusted_price
adjusted-IsAdverse buy ref adjustment h = omega int_laws
adjusted-IsAdverse sell ref adjustment h = omega int_laws

-- The arguments that a pack with checked market parameters gives.
pub record IsGoodRequest (r : FillRequest) : Type 0 where
  pub requested_nonneg : pos 0 ≤ℤ r.requested_qty_base_1e8
  pub volume_nonneg : pos 0 ≤ℤ r.bar_volume_base_1e8
  pub cap_nonneg : pos 0 ≤ℤ r.participation_cap_1e8
  pub cap-le-scale : r.participation_cap_1e8 ≤ℤ r.rate_scale
  pub step_pos : pos 0 <ℤ r.qty_step_base_1e8
  pub ref_pos : pos 0 <ℤ r.ref_px_ticks
  pub tick_pos : pos 0 <ℤ r.tick_size_micro
  pub spread_nonneg : pos 0 ≤ℤ r.half_spread_1e8
  pub coeff_nonneg : pos 0 ≤ℤ r.impact_coeff_1e8
  pub fee_nonneg : pos 0 ≤ℤ r.taker_fee_rate_1e8
  pub multiplier_pos : pos 0 <ℤ r.cost_multiplier_1e4
  pub scale_pos : pos 0 <ℤ r.rate_scale

-- What a calculated fill promises.
pub record IsAdverseFill (r : FillRequest) (f : FillCalculation) : Type 0 where
  pub side_kept : f.side ≡ r.side
  pub capped :
      IsCappedFill r.bar_volume_base_1e8 r.participation_cap_1e8 r.qty_step_base_1e8 r.rate_scale
        r.requested_qty_base_1e8 f.quantities
  pub spread_nonneg : pos 0 ≤ℤ f.half_spread_ticks
  pub impact_nonneg : pos 0 ≤ℤ f.impact_ticks
  pub price_pos : pos 0 <ℤ f.fill_px_ticks
  pub adverse : IsAdversePrice r.side r.ref_px_ticks f.fill_px_ticks
  pub notional_floor :
      IsFloor
        (f.quantities.filled_qty_base_1e8 *ℤ f.fill_px_ticks *ℤ r.tick_size_micro)
        qty_scale
        f.notional_micro
  pub fee_nonneg : pos 0 ≤ℤ f.fee_micro
  pub notional_nonneg : pos 0 ≤ℤ f.notional_micro
  pub slippage_floor :
      IsFloor ((f.fill_px_ticks -ℤ r.ref_px_ticks) *ℤ r.rate_scale) r.ref_px_ticks f.slippage_1e8

-- A fill, or the refusal of a sale whose price would not stay positive.
abbrev pub IsPriced : FillRequest → Result FillCalculation → Type 0
IsPriced r (ok f) = IsAdverseFill r f
IsPriced r (err e) = (e ≡ value_error) × (r.side ≡ sell)

filled-le-volume :
    (volume cap step scale requested : ℤ) (q : FillQuantity)
    → pos 0 ≤ℤ volume
    → cap ≤ℤ scale
    → pos 0 <ℤ scale
    → IsCappedFill volume cap step scale requested q
    → q.filled_qty_base_1e8 ≤ℤ volume
filled-le-volume volume cap step scale requested q v c s k =
    let x = q.capacity_qty_base_1e8 in
    let x-le : x ≤ℤ volume = le_of_mul-le x volume scale s (
      omega (
        arith,
        k.capacity,
        mul_mono cap scale volume c v,
        parts_of_eq _ _ (*ℤ_comm cap volume),
        parts_of_eq _ _ (*ℤ_comm scale volume),
      )) in
    omega (arith, k.split.filled-le-capacity)

nonpositive_price-sell :
    (side : Side) (ref adjustment : ℤ)
    → pos 0 <ℤ ref
    → pos 0 ≤ℤ adjustment
    → adjusted_price side ref adjustment ≤ℤ pos 0
    → side ≡ sell
unfolding adjusted_price
nonpositive_price-sell buy ref adjustment r a h = absurd (omega int_laws)
nonpositive_price-sell sell ref adjustment r a h = refl

fill_price-ok :
    (side : Side) (ref spread impact : ℤ)
    → pos 0 <ℤ ref
    → pos 0 ≤ℤ spread
    → pos 0 ≤ℤ impact
    → pos 0 <ℤ adjusted_price side ref (spread +ℤ impact)
    → fill_price_ticks side ref spread impact ≡ ok (adjusted_price side ref (spread +ℤ impact))
unfolding fill_price_ticks
fill_price-ok side ref spread impact r s i p = ground arith

fill_price-err :
    (side : Side) (ref spread impact : ℤ)
    → pos 0 <ℤ ref
    → pos 0 ≤ℤ spread
    → pos 0 ≤ℤ impact
    → adjusted_price side ref (spread +ℤ impact) ≤ℤ pos 0
    → fill_price_ticks side ref spread impact ≡ err value_error
unfolding fill_price_ticks
fill_price-err side ref spread impact r s i p = ground arith

module _ (r : FillRequest) (g : IsGoodRequest r) where
  -- From the quantities and the scaled rates on.
  priced :
      (q : FillQuantity) (spread impact fee : ℤ)
      → IsCappedFill r.bar_volume_base_1e8 r.participation_cap_1e8 r.qty_step_base_1e8 r.rate_scale
          r.requested_qty_base_1e8 q
      → pos 0 ≤ℤ spread
      → pos 0 ≤ℤ impact
      → pos 0 ≤ℤ fee
      → (px : ℤ) → px ≡ adjusted_price r.side r.ref_px_ticks (spread +ℤ impact)
      → pos 0 <ℤ px
      → IsPriced r (do
        fill_notional ← notional_micro q.filled_qty_base_1e8 px r.tick_size_micro qty_scale
        reference_notional ←
            notional_micro q.filled_qty_base_1e8 r.ref_px_ticks r.tick_size_micro qty_scale
        charge ← fee_micro fill_notional fee r.rate_scale
        slippage ← slippage_1e8 px r.ref_px_ticks r.rate_scale
        ok (record {
          side = r.side;
          quantities = q;
          ref_open_px_ticks = r.ref_px_ticks;
          half_spread_ticks = spread;
          impact_ticks = impact;
          fill_px_ticks = px;
          notional_micro = fill_notional;
          reference_notional_micro = reference_notional;
          fee_micro = charge;
          slippage_1e8 = slippage;
        }))
  unfolding ◌>>=◌
  priced q spread impact fee k s i f px e p =
      let filled = q.filled_qty_base_1e8 in
      let filled_nonneg = k.split.filled_nonneg in
      let (n, en, n_nonneg, n_floor) =
        notional-IsFloor filled px r.tick_size_micro filled_nonneg p g.tick_pos in
      let (m, em, _, _) =
        notional-IsFloor filled r.ref_px_ticks r.tick_size_micro filled_nonneg g.ref_pos
          g.tick_pos in
      let (c, ec, c_nonneg, _) = fee-IsCeil n fee r.rate_scale n_nonneg f g.scale_pos in
      let (l, el, l_floor) = slippage-IsFloor px r.ref_px_ticks r.rate_scale p g.ref_pos in
      rw (en, em, ec, el)
        (record {
          side_kept = refl;
          capped = k;
          spread_nonneg = s;
          impact_nonneg = i;
          price_pos = p;
          adverse =
              rw e (adjusted-IsAdverse r.side r.ref_px_ticks (spread +ℤ impact) (omega int_laws));
          notional_floor = n_floor;
          fee_nonneg = c_nonneg;
          notional_nonneg = n_nonneg;
          slippage_floor = l_floor;
        })

  split :
      (q : FillQuantity) × (participation_fill r.requested_qty_base_1e8 r.bar_volume_base_1e8
          r.participation_cap_1e8 r.qty_step_base_1e8 r.rate_scale
        ≡ ok q)
      × IsCappedFill r.bar_volume_base_1e8 r.participation_cap_1e8 r.qty_step_base_1e8 r.rate_scale
          r.requested_qty_base_1e8 q
  split =
      Returns-eq-ok
        (IsCappedFill r.bar_volume_base_1e8 r.participation_cap_1e8 r.qty_step_base_1e8 r.rate_scale
          r.requested_qty_base_1e8)
        _
        (participation_fill-IsCappedFill r.bar_volume_base_1e8 r.participation_cap_1e8
          r.qty_step_base_1e8 r.rate_scale g.volume_nonneg g.cap_nonneg g.cap-le-scale g.step_pos
          g.scale_pos r.requested_qty_base_1e8 g.requested_nonneg)

  scaled :
      (base : ℤ)
      → pos 0 ≤ℤ base
      → (x : ℤ) × (apply_cost_multiplier base r.cost_multiplier_1e4 cost_multiplier_scale ≡ ok x)
        × IsNonneg x
  scaled base h =
      Returns-eq-ok IsNonneg _ (scaled-IsNonneg base r.cost_multiplier_1e4 h g.multiplier_pos)

  spread_of :
      (rate : ℤ)
      → pos 0 ≤ℤ rate
      → (x : ℤ) × (half_spread_ticks r.ref_px_ticks rate r.rate_scale ≡ ok x) × IsNonneg x
  spread_of rate h =
      Returns-eq-ok IsNonneg _
        (half_spread-IsNonneg r.ref_px_ticks r.rate_scale g.ref_pos g.scale_pos rate h)

  impact_of :
      (q : FillQuantity) (coeff : ℤ)
      → IsCappedFill r.bar_volume_base_1e8 r.participation_cap_1e8 r.qty_step_base_1e8 r.rate_scale
          r.requested_qty_base_1e8 q
      → pos 0 ≤ℤ coeff
      → (x : ℤ) × (impact_ticks r.ref_px_ticks q.filled_qty_base_1e8 r.bar_volume_base_1e8 coeff
            r.impact_model r.rate_scale
          ≡ ok x)
        × IsNonneg x
  impact_of q coeff k h = Returns-eq-ok IsNonneg _ (
      impact-IsNonneg r.ref_px_ticks r.rate_scale g.ref_pos g.scale_pos r.impact_model
        q.filled_qty_base_1e8 r.bar_volume_base_1e8 coeff k.split.filled_nonneg h g.volume_nonneg
        (filled-le-volume r.bar_volume_base_1e8 r.participation_cap_1e8 r.qty_step_base_1e8
          r.rate_scale r.requested_qty_base_1e8 q g.volume_nonneg g.cap-le-scale g.scale_pos k))

  -- With checked market parameters `calculate_fill` returns a fill or refuses a sale with a value
  -- error. A fill has the side asked for, a split of the request that respects the participation
  -- cap, spread and impact from zero up, a positive price that is never better for the taker than
  -- the reference price, the floor of the exact notional, a fee from zero up, and the floor of the
  -- exact slippage.
  pub calculate_fill-IsPriced : IsPriced r (calculate_fill r)
  unfolding calculate_fill
  calculate_fill-IsPriced =
      let ref = r.ref_px_ticks in
      let (q, eq, k) = split in
      let (ss, ess, ss_nonneg) = scaled r.half_spread_1e8 g.spread_nonneg in
      let (si, esi, si_nonneg) = scaled r.impact_coeff_1e8 g.coeff_nonneg in
      let (sf, esf, sf_nonneg) = scaled r.taker_fee_rate_1e8 g.fee_nonneg in
      let (spread, esp, spread_nonneg) = spread_of ss ss_nonneg in
      let (impact, eim, impact_nn) = impact_of q si k si_nonneg in
      let px = adjusted_price r.side ref (spread +ℤ impact) in
      elim (Bool-cases (leb_ℤ px (pos 0))) [
        | inl sunk ↦
            rw
              (
                eq,
                ess,
                esi,
                esf,
                esp,
                eim,
                fill_price-err r.side ref spread impact g.ref_pos spread_nonneg impact_nn
                    (leb→le _ _ sunk),
              )
              (
                refl,
                nonpositive_price-sell r.side ref (spread +ℤ impact) g.ref_pos (omega int_laws)
                    (leb→le _ _ sunk),
              )
        | inr up ↦
            rw
              (
                eq,
                ess,
                esi,
                esf,
                esp,
                eim,
                fill_price-ok r.side ref spread impact g.ref_pos spread_nonneg impact_nn
                    (not_leb→lt _ _ up),
              )
              (priced q spread impact sf k spread_nonneg impact_nn sf_nonneg px refl
                (not_leb→lt _ _ up))
      ]
