-- ===== src/Core/Math/Pnl/Laws.antt =====
-- Funding: the clamp, and the rounding of a settlement against the account.
use wagmi_bench.Prelude.{◌≡◌, arith, Returns}
use wagmi_bench.Prelude.Int.{ℤ, pos, ◌*ℤ◌, neg, ◌≤ℤ◌, ◌<ℤ◌, int_laws}
use wagmi_bench.Prelude.Int.Laws.{neg-*ℤ_parts, mul_pos}
use wagmi_bench.Core.Math.Rounding.{fraction, ceil_fraction}
use wagmi_bench.Core.Math.Rounding.Bounds.{IsCeil, IsFloor, ceil_fraction-IsCeil}
use wagmi_bench.Core.Math.Pnl.{clamp_funding_rate_1e8, funding_cash_flow_micro}

-- For a floor of at most the cap, `clamp_funding_rate_1e8` returns a rate in the band, and a rate
-- in the band is returned as it is.
pub clamp_funding_rate-InBand :
    (rate low high : ℤ)
    → low ≤ℤ high
    → Returns
        (λ r. (low ≤ℤ r) × (r ≤ℤ high) × (low ≤ℤ rate → rate ≤ℤ high → r ≡ rate))
        (clamp_funding_rate_1e8 rate low high)
unfolding clamp_funding_rate_1e8
clamp_funding_rate-InBand rate low high h = ground arith

-- The exact venue amount of a settlement, times the scales.
abbrev pub venue_amount : ℤ → ℤ → ℤ → ℤ → ℤ
venue_amount qty index tick rate = qty *ℤ index *ℤ tick *ℤ rate

-- With a positive index price, tick and scales, `funding_cash_flow_micro` returns the floor of
-- minus the exact venue amount: it rounds against the account on both sides.
pub funding_cash_flow-rounds_down :
    (qty index tick rate qs rs : ℤ)
    → pos 0 <ℤ index
    → pos 0 <ℤ tick
    → pos 0 <ℤ qs
    → pos 0 <ℤ rs
    → Returns
        (IsFloor (neg (venue_amount qty index tick rate)) (qs *ℤ rs))
        (funding_cash_flow_micro qty index tick rate qs rs)
unfolding funding_cash_flow_micro
funding_cash_flow-rounds_down qty index tick rate qs rs i t q r = ground (
  arith,
  floor_of_ceil (venue_amount qty index tick rate) (qs *ℤ rs)
      (ceil_fraction (fraction (venue_amount qty index tick rate) (qs *ℤ rs)))
      (ceil_fraction-IsCeil (venue_amount qty index tick rate) (qs *ℤ rs) (mul_pos qs rs q r)),
)
  where
    floor_of_ceil : (n d c : ℤ) → IsCeil n d c → IsFloor (neg n) d (neg c)
    floor_of_ceil n d c h = omega (int_laws, neg-*ℤ_parts c d, h.0, h.1)
