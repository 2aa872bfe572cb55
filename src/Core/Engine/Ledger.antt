-- ===== src/Core/Engine/Ledger.antt =====
-- core/engine.py, `_ledger_rows`: the rows of a run, each with its attribution of the change in NAV.
pub mod Balance
pub mod Conservation
pub mod Rows
use wagmi_bench.Prelude.{
  ℕ, zero, suc, Bool, not, Option, none, some, List, [], ◌∷◌, if◌then◌else◌, Result, ok, raise_if,
  engine_error, ◌>>=◌, ◌>>◌,
}
use wagmi_bench.Prelude.Int.{ℤ, pos, ◌+ℤ◌, ◌-ℤ◌, neg, eqb_ℤ}
use wagmi_bench.Core.Models.{LedgerDelta}
use wagmi_bench.Core.Engine.State.{Snapshot}

-- The row's position map holds fields of the snapshot, which stands here whole.
pub record LedgerRow : Type 0 where
  pub snapshot : Snapshot
  pub turn : Option ℕ
  pub realized_pnl_micro : ℤ
  pub delta : LedgerDelta

abbrev no_delta : LedgerDelta
no_delta = record {
  d_nav_micro = pos 0;
  d_price_pnl_micro = pos 0;
  d_funding_micro = pos 0;
  d_fees_micro = pos 0;
  d_liq_penalty_micro = pos 0;
}

-- The deltas of a row against the row before.
unfoldable pub delta_of : Option Snapshot → Snapshot → LedgerDelta
delta_of none s = no_delta
delta_of (some previous) s = record {
  d_nav_micro = s.nav_micro -ℤ previous.nav_micro;
  d_funding_micro = neg (s.funding_cum_micro -ℤ previous.funding_cum_micro);
  d_fees_micro = neg (s.fees_cum_micro -ℤ previous.fees_cum_micro);
  d_liq_penalty_micro =
      neg (s.liquidation_penalty_cum_micro -ℤ previous.liquidation_penalty_cum_micro);
  d_price_pnl_micro =
      s.upnl_micro -ℤ previous.upnl_micro +ℤ s.realized_price_cum_micro
      -ℤ previous.realized_price_cum_micro;
}

-- `None if snapshot.bar_index == 0 else snapshot.bar_index - 1`
abbrev pub row_turn : ℕ → Option ℕ
row_turn zero = none
row_turn (suc k) = some k

abbrev pub row_of : Option Snapshot → Snapshot → LedgerRow
row_of previous s = record {
  snapshot = s;
  turn = row_turn s.bar_index;
  realized_pnl_micro =
      s.realized_price_cum_micro -ℤ s.fees_cum_micro -ℤ s.funding_cum_micro
      -ℤ s.liquidation_penalty_cum_micro;
  delta = delta_of previous s;
}

-- The MATH-2 test of a row.
unfoldable pub check_row : LedgerDelta → Result (Unit {0})
check_row d =
    raise_if
      (not (
        eqb_ℤ d.d_nav_micro
          (d.d_price_pnl_micro +ℤ d.d_funding_micro +ℤ d.d_fees_micro +ℤ d.d_liq_penalty_micro)))
      engine_error

-- `_ledger_rows`, from the oldest snapshot on.
unfoldable pub ledger_rows : Option Snapshot → List Snapshot → Result (List LedgerRow)
ledger_rows previous [] = ok []
ledger_rows previous (s ∷ rest) = do
  check_row (delta_of previous s)
  rows ← ledger_rows (some s) rest
  ok (row_of previous s ∷ rows)
