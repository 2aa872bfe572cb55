-- ===== src/Core/Pack.antt =====
-- core/pack.py, the part that the engine reads: rows, market parameters, the clock of the turns.
-- Loading and hashing the files is not modelled.
use wagmi_bench.Prelude.{
  Text, text_eqb, ℕ, ◌+◌, ◌-◌, leb, ltb, if◌then◌else◌, Option, none, some, List, [], ◌∷◌, length,
  Result, ok, err, raise_if, pack_error, ◌>>◌, ◌>>=◌,
}
use wagmi_bench.Prelude.Int.{ℤ, pos, ◌+ℤ◌, ◌*ℤ◌, ltb_ℤ}
use wagmi_bench.Core.Config.{EffectiveLookback}
use wagmi_bench.Core.Models.{ImpactModel}

pub record BarRow : Type 0 where
  pub ts : ℤ
  pub available_at : ℤ
  pub o : ℤ
  pub h : ℤ
  pub l : ℤ
  pub c : ℤ
  pub v_base_1e8 : ℤ

pub record FundingRow : Type 0 where
  pub ts : ℤ
  pub available_at : ℤ
  pub rate_1e8 : ℤ

pub record FundingSpec : Type 0 where
  pub interval_ms : ℤ
  pub settlement_offsets_ms : List ℤ
  pub cap_1e8 : ℤ
  pub floor_1e8 : ℤ

pub record MarginTier : Type 0 where
  pub notional_cap_micro : ℤ
  pub initial_rate_1e8 : ℤ
  pub maintenance_rate_1e8 : ℤ

-- A `Mapping` with string keys, in the order of insertion.
abbrev pub Mapping {ℓ} : Type ℓ → Type ℓ
Mapping V = List (Text × V)

-- `mapping.get(key)`
unfoldable pub get {ℓ} : {V : Type ℓ} → Text → Mapping V → Option V
unfolding text_eqb
get key [] = none
get key ((k, v) ∷ rest) = if text_eqb k key then some v else get key rest

-- The maker fee is not read by the engine.
pub record MarketSpec : Type 0 where
  pub tick_size_micro : ℤ
  pub qty_step_base_1e8 : ℤ
  pub min_notional_micro : ℤ
  pub taker_fee_rate_1e8 : ℤ
  pub leverage_cap_lev_1e4 : ℤ
  pub margin_tiers : List MarginTier
  pub liquidation_penalty_1e8 : ℤ
  pub funding : FundingSpec
  pub half_spread_1e8 : ℤ
  pub impact_model : ImpactModel
  pub impact_coeff_1e8 : ℤ
  pub participation_cap_1e8 : ℤ
  pub cost_profile_multipliers_1e4 : Mapping ℤ

pub record MarketData : Type 0 where
  pub spec : MarketSpec
  pub trade : List BarRow
  pub mark : List BarRow
  pub index : List BarRow
  pub funding : List FundingRow

pub record PackData : Type 0 where
  pub window_start_ts : ℤ
  pub window_end_ts : ℤ
  pub decision_bar_ms : ℤ
  pub warmup_bars : ℕ
  pub default_lookback : EffectiveLookback
  pub markets : Mapping MarketData

-- `min(len(market.trade) for market in markets)`, from the first market on.
unfoldable pub shortest_trade : MarketData → Mapping MarketData → ℕ
shortest_trade first [] = length first.trade
shortest_trade first ((alias, m) ∷ rest) =
    let others = shortest_trade m rest in
    if ltb others (length first.trade) then others else length first.trade

-- `PackData.bars_total`. Truncated subtraction gives 0 where the source's total is below 1.
unfoldable pub bars_total : PackData → Result ℕ
unfolding shortest_trade ◌>>=◌
bars_total pack = elim pack.markets [
  | [] ↦ err pack_error
  | (alias, first) ∷ rest ↦ do
    let total = shortest_trade first rest - pack.warmup_bars - 1
    raise_if (ltb total 1) pack_error
    ok total
]

-- `PackData.clock_real_ts`
unfoldable pub clock_real_ts : PackData → ℕ → Result ℤ
unfolding bars_total ◌>>=◌
clock_real_ts pack turn = do
  total ← bars_total pack
  raise_if (leb total turn) pack_error
  let clock = pack.window_start_ts +ℤ pos (pack.warmup_bars + turn + 1) *ℤ pack.decision_bar_ms
  raise_if (ltb_ℤ pack.window_end_ts clock) pack_error
  ok clock
