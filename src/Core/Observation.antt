-- ===== src/Core/Observation.antt =====
-- core/observation.py, the parts of an observation: states, the rows of a market, its document and that
-- of a position, the risk constraints. A row stands for its provenance too.
pub mod Build
pub mod Blind
pub mod Sources
pub mod Proof
use wagmi_bench.Prelude.{
  ℕ, zero, suc, ◌+◌, ◌-◌, ◌*◌, ◌/◌, Bool, true, false, not, ◌&&◌, ◌||◌, ltb, leb, ◌==◌,
  if◌then◌else◌, Option, none, some, List, [], ◌∷◌, length, Text, codes, ◌++◌, Result, ok, err,
  raise_if, or_raise, ◌>>=◌, ◌>>◌, observation_error, type_error,
}
use wagmi_bench.Prelude.Int.{ℤ, pos, negsuc, ◌+ℤ◌, ◌-ℤ◌, ◌*ℤ◌, ◌//◌, abs, ltb_ℤ, leb_ℤ, eqb_ℤ}
use wagmi_bench.Core.Config.{EpisodeConfig}
use wagmi_bench.Core.Config.Clock.{VirtualClock, rebase_timestamp}
use wagmi_bench.Core.Pack.{BarRow, FundingRow, MarketSpec, MarketData, Mapping, get}

-- `DAY_MS`, `RATE_SCALE_1E8` and `LEV_SCALE_1E4`
abbrev pub day_ms : ℕ
day_ms = 86_400_000

abbrev pub rate_scale_1e8 : ℤ
rate_scale_1e8 = pos 100_000_000

abbrev pub lev_scale : ℤ
lev_scale = pos 10_000

pub record PositionState : Type 0 where
  pub qty_base_1e8 : ℤ
  pub entry_px_ticks : Option ℤ
  pub margin_micro : ℤ
  pub liq_px_ticks : Option ℤ

-- `PositionState()`
abbrev pub no_position : PositionState
no_position = record {
  qty_base_1e8 = pos 0;
  entry_px_ticks = none;
  margin_micro = pos 0;
  liq_px_ticks = none;
}

abbrev is_none : Option ℤ → Bool
is_none none = true
is_none (some n) = false

abbrev is_price : Option ℤ → Bool
is_price none = false
is_price (some n) = leb_ℤ (pos 0) n

-- `PositionState.__post_init__`
unfoldable pub check_position : PositionState → Result PositionState
check_position p =
    if ltb_ℤ p.margin_micro (pos 0)
    then err observation_error
    else if eqb_ℤ p.qty_base_1e8 (pos 0)
    then (if is_none p.entry_px_ticks && is_none p.liq_px_ticks && eqb_ℤ p.margin_micro (pos 0)
        then ok p
        else err observation_error)
    else if is_price p.entry_px_ticks && is_price p.liq_px_ticks
    then ok p
    else err observation_error

pub record AccountState : Type 0 where
  pub cash_micro : ℤ
  pub realized_pnl_micro : ℤ

pub record RiskState : Type 0 where
  pub drawdown_used_1e8 : ℤ
  pub turnover_used_1e8 : ℤ
  pub kill_switch_active : Bool

-- `row.available_at <= clock_ts` for each row: the four `available_` methods of core/pack.py.
unfoldable pub available {ℓ} : {A : Type ℓ} → (A → ℤ) → ℤ → List A → List A
available at clock [] = []
available at clock (row ∷ rows) =
    let later = available at clock rows in if leb_ℤ (at row) clock then row ∷ later else later

abbrev pub bar_at : BarRow → ℤ
bar_at row = row.available_at

abbrev pub print_at : FundingRow → ℤ
print_at row = row.available_at

-- `rows[-n:]`, for n from 1 up; no row for n = 0.
unfoldable pub last {ℓ} : {A : Type ℓ} → ℕ → List A → List A
last n [] = []
last n (x ∷ xs) = let rest = last n xs in if leb (suc (length xs)) n then x ∷ xs else rest

-- `_last_available_bar`
unfoldable pub last_available_bar : List BarRow → Result BarRow
last_available_bar [] = err observation_error
last_available_bar (row ∷ []) = ok row
last_available_bar (row ∷ next ∷ rows) = last_available_bar (next ∷ rows)

-- `_upnl_micro`
unfoldable pub upnl_micro : PositionState → ℤ → ℤ → Result ℤ
unfolding ◌>>=◌
upnl_micro p mark_px_ticks tick_size_micro =
    if eqb_ℤ p.qty_base_1e8 (pos 0)
    then ok (pos 0)
    else or_raise p.entry_px_ticks type_error >>= λ entry.
        ok (p.qty_base_1e8 *ℤ (mark_px_ticks -ℤ entry) *ℤ tick_size_micro // rate_scale_1e8)

-- `_distance_to_liquidation_1e8`
unfoldable pub distance_1e8 : PositionState → ℤ → Result (Option ℤ)
unfolding ◌>>=◌
distance_1e8 p mark_px_ticks =
    if eqb_ℤ p.qty_base_1e8 (pos 0)
    then ok none
    else if leb_ℤ mark_px_ticks (pos 0)
    then err observation_error
    else or_raise p.liq_px_ticks type_error >>= λ liquidation.
        ok (some (abs (mark_px_ticks -ℤ liquidation) *ℤ rate_scale_1e8 // mark_px_ticks))

-- `_notional_micro`
unfoldable pub position_notional_micro : PositionState → ℤ → ℤ → ℤ
position_notional_micro p mark_px_ticks tick_size_micro =
    abs p.qty_base_1e8 *ℤ mark_px_ticks *ℤ tick_size_micro // rate_scale_1e8

-- The first settlement of the day after the clock.
unfoldable pub next_in_day : ℤ → ℤ → List ℤ → Option ℤ
next_in_day clock_ts day_start [] = none
next_in_day clock_ts day_start (offset ∷ offsets) =
    let others = next_in_day clock_ts day_start offsets in
    if ltb_ℤ clock_ts (day_start +ℤ offset) then some (day_start +ℤ offset) else others

-- `_next_settlement_real_ts`
unfoldable pub next_settlement_real_ts : ℕ → List ℤ → Result ℤ
unfolding next_in_day
next_settlement_real_ts clock_ts [] = err observation_error
next_settlement_real_ts clock_ts (offset ∷ offsets) =
    elim (next_in_day (pos clock_ts) (pos (clock_ts / day_ms * day_ms)) (offset ∷ offsets)) [
      | none ↦ ok (pos (clock_ts / day_ms * day_ms) +ℤ pos day_ms +ℤ offset)
      | some candidate ↦ ok candidate
    ]

pub record PositionDocument : Type 0 where
  pub qty_base_1e8 : ℤ
  pub entry_px_ticks : Option ℤ
  pub upnl_micro : ℤ
  pub margin_micro : ℤ
  pub liq_px_ticks : Option ℤ
  pub dist_to_liq_1e8 : Option ℤ

-- `_position_document`, whose uPnL is a field of the document.
unfoldable pub position_document : PositionState → ℤ → ℤ → Result PositionDocument
unfolding upnl_micro distance_1e8
position_document p mark_px_ticks tick_size_micro = do
  upnl ← upnl_micro p mark_px_ticks tick_size_micro
  distance ← distance_1e8 p mark_px_ticks
  ok (record {
    qty_base_1e8 = p.qty_base_1e8;
    entry_px_ticks = p.entry_px_ticks;
    upnl_micro = upnl;
    margin_micro = p.margin_micro;
    liq_px_ticks = p.liq_px_ticks;
    dist_to_liq_1e8 = distance;
  })

-- `BarRow.observation_mapping`: both times rebased.
unfoldable pub bar_mapping : ℕ → BarRow → Result BarRow
unfolding ◌>>=◌ rebase_timestamp
bar_mapping offset_ms row = do
  ts ← rebase_timestamp row.ts (pos offset_ms)
  at ← rebase_timestamp row.available_at (pos offset_ms)
  ok (record row { ts = pos ts; available_at = pos at })

-- What the agent sees of a funding row: no `available_at`.
pub record FundingPrint : Type 0 where
  pub ts : ℕ
  pub rate_1e8 : ℤ

-- `FundingRow.observation_mapping`
unfoldable pub funding_mapping : ℕ → FundingRow → Result FundingPrint
unfolding ◌>>=◌ rebase_timestamp
funding_mapping offset_ms row = do
  ts ← rebase_timestamp row.ts (pos offset_ms)
  ok (record { ts = ts; rate_1e8 = row.rate_1e8 })

unfoldable pub map_result {ℓ κ} :
    {A : Type ℓ} {B : Type κ} → (A → Result B) → List A → Result (List B)
unfolding ◌>>=◌
map_result f [] = ok []
map_result f (x ∷ xs) = do y ← f x; ys ← map_result f xs; ok (y ∷ ys)

pub record MarketDocument : Type 0 where
  pub spec : MarketSpec
  pub last_mark_px_ticks : ℤ
  pub last_index_px_ticks : ℤ
  pub bars : List BarRow
  pub next_settlement_ts : ℕ
  pub prints : List FundingPrint

-- The rows behind a market's document: `MarketObservationProvenance`.
pub record MarketRows : Type 0 where
  pub trade_rows : List BarRow
  pub mark_row : BarRow
  pub index_row : BarRow
  pub funding_rows : List FundingRow

-- `_market_document`. The document's constants are those of the market's parameters.
unfoldable pub market_document :
    MarketData → VirtualClock → ℕ → ℕ → Result (MarketDocument × MarketRows)
unfolding available last
market_document market clock bars_lookback funding_lookback = do
  let trade_rows = last bars_lookback (available bar_at (pos clock.real_ts) market.trade)
  mark_row ← last_available_bar (available bar_at (pos clock.real_ts) market.mark)
  index_row ← last_available_bar (available bar_at (pos clock.real_ts) market.index)
  let funding_rows = last funding_lookback (available print_at (pos clock.real_ts) market.funding)
  raise_if (length trade_rows == 0) observation_error
  next_settlement ← next_settlement_real_ts clock.real_ts market.spec.funding.settlement_offsets_ms
  bars ← map_result (bar_mapping clock.rebase_offset_ms) trade_rows
  next ← rebase_timestamp next_settlement (pos clock.rebase_offset_ms)
  prints ← map_result (funding_mapping clock.rebase_offset_ms) funding_rows
  ok (
    record {
      spec = market.spec;
      last_mark_px_ticks = mark_row.c;
      last_index_px_ticks = index_row.c;
      bars = bars;
      next_settlement_ts = next;
      prints = prints;
    },
    record {
      trade_rows = trade_rows;
      mark_row = mark_row;
      index_row = index_row;
      funding_rows = funding_rows;
    },
  )
