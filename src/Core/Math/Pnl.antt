-- ===== src/Core/Math/Pnl.antt =====
-- core/math.py, profit and loss, funding flows, and the ledger identities.
pub mod Laws
use wagmi_bench.Prelude.{Bool, ◌||◌, not, Result, ok, raise_if, value_error, ◌>>=◌, ◌>>◌}
use wagmi_bench.Prelude.Int.{
  ℤ, pos, negsuc, ◌+ℤ◌, ◌-ℤ◌, ◌*ℤ◌, ◌//◌, neg, max_ℤ, min_ℤ, leb_ℤ, ltb_ℤ, eqb_ℤ,
}
use wagmi_bench.Core.Models.{LedgerDelta, require_balanced}
use wagmi_bench.Core.Math.Rounding.{fraction, ceil_fraction}

-- `position_sign in (-1, 1)`
abbrev pub is_sign : ℤ → Bool
is_sign s = eqb_ℤ s (negsuc 0) || eqb_ℤ s (pos 1)

unfoldable pub unrealized_pnl_micro : ℤ → ℤ → ℤ → ℤ → ℤ → Result ℤ
unfolding ◌>>=◌
unrealized_pnl_micro position_qty_base_1e8 entry_px_ticks mark_px_ticks tick_size_micro qty_scale =
    do
      raise_if
          (leb_ℤ entry_px_ticks (pos 0)
            || leb_ℤ mark_px_ticks (pos 0)
            || leb_ℤ tick_size_micro (pos 0))
          value_error
      ok (
          (mark_px_ticks -ℤ entry_px_ticks)
          *ℤ position_qty_base_1e8
          *ℤ tick_size_micro
          // qty_scale)

unfoldable pub realized_pnl_micro : ℤ → ℤ → ℤ → ℤ → ℤ → ℤ → Result ℤ
unfolding ◌>>=◌
realized_pnl_micro position_sign closed_qty_base_1e8 entry_px_ticks close_px_ticks tick_size_micro
      qty_scale =
    do
      raise_if (not (is_sign position_sign)) value_error
      raise_if (ltb_ℤ closed_qty_base_1e8 (pos 0)) value_error
      raise_if
          (leb_ℤ entry_px_ticks (pos 0)
            || leb_ℤ close_px_ticks (pos 0)
            || leb_ℤ tick_size_micro (pos 0))
          value_error
      let signed_closed = position_sign *ℤ closed_qty_base_1e8
      ok ((close_px_ticks -ℤ entry_px_ticks) *ℤ signed_closed *ℤ tick_size_micro // qty_scale)

unfoldable pub funding_cash_flow_micro : ℤ → ℤ → ℤ → ℤ → ℤ → ℤ → Result ℤ
unfolding ◌>>=◌
funding_cash_flow_micro position_qty_base_1e8 index_px_ticks tick_size_micro funding_rate_1e8
      qty_scale rate_scale =
    do
      raise_if (leb_ℤ index_px_ticks (pos 0) || leb_ℤ tick_size_micro (pos 0)) value_error
      let venue_amount = ceil_fraction (
          fraction (position_qty_base_1e8 *ℤ index_px_ticks *ℤ tick_size_micro *ℤ funding_rate_1e8)
            (qty_scale *ℤ rate_scale))
      ok (neg venue_amount)

unfoldable pub clamp_funding_rate_1e8 : ℤ → ℤ → ℤ → Result ℤ
unfolding ◌>>=◌
clamp_funding_rate_1e8 observed_rate_1e8 floor_1e8 cap_1e8 = do
  raise_if (ltb_ℤ cap_1e8 floor_1e8) value_error
  ok (min_ℤ (max_ℤ observed_rate_1e8 floor_1e8) cap_1e8)

unfoldable pub price_pnl_delta_micro : ℤ → ℤ → ℤ → ℤ → ℤ
price_pnl_delta_micro previous_upnl current_upnl previous_realized current_realized =
    (current_upnl -ℤ previous_upnl) +ℤ (current_realized -ℤ previous_realized)

unfoldable pub ledger_delta : ℤ → ℤ → ℤ → ℤ → ℤ → ℤ → Result LedgerDelta
unfolding ◌>>=◌
ledger_delta previous_nav_micro current_nav_micro d_price_pnl_micro d_funding_micro d_fees_micro
      d_liq_penalty_micro =
    do
      let result : LedgerDelta = record {
        d_nav_micro = current_nav_micro -ℤ previous_nav_micro;
        d_price_pnl_micro = d_price_pnl_micro;
        d_funding_micro = d_funding_micro;
        d_fees_micro = d_fees_micro;
        d_liq_penalty_micro = d_liq_penalty_micro;
      }
      require_balanced result
      ok result

unfoldable pub nav_identity_holds : ℤ → ℤ → ℤ → Bool
nav_identity_holds nav_micro cash_micro upnl_micro = eqb_ℤ nav_micro (cash_micro +ℤ upnl_micro)

unfoldable pub cash_conservation_holds : ℤ → ℤ → ℤ → Bool
cash_conservation_holds cash_micro starting_cash_micro cumulative_realized_pnl_micro =
    eqb_ℤ (cash_micro -ℤ starting_cash_micro) cumulative_realized_pnl_micro
