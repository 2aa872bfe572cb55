-- ===== src/Core/Observation/Blind.antt =====
-- core/observation.py, the document of a market and the rows of the pack's future.
use wagmi_bench.Prelude.{ℕ, ◌≡◌, refl, false, List, [], ◌∷◌, ◌++◌, All}
use wagmi_bench.Prelude.Int.{ℤ, pos, leb_ℤ}
use wagmi_bench.Core.Config.Clock.{VirtualClock}
use wagmi_bench.Core.Pack.{BarRow, FundingRow, MarketData}
use wagmi_bench.Core.Observation.{available, bar_at, print_at, market_document}

-- Rows that are not available yet.
abbrev pub IsFuture {ℓ} : {A : Type ℓ} → (A → ℤ) → ℤ → List A → Type 0
IsFuture at clock = All (λ row. leb_ℤ (at row) clock ≡ false)

available-nil {ℓ} :
    {A : Type ℓ} (at : A → ℤ) (clock : ℤ) (rows : List A)
    → IsFuture at clock rows
    → available at clock rows ≡ []
unfolding available
available-nil at clock [] h = refl
available-nil at clock (row ∷ rows) h = rw (h.0, available-nil at clock rows h.1)

available-append {ℓ} :
    {A : Type ℓ} (at : A → ℤ) (clock : ℤ) (rows future : List A)
    → IsFuture at clock future
    → available at clock (rows ++ future) ≡ available at clock rows
unfolding available
available-append at clock [] future h = available-nil at clock future h
available-append at clock (row ∷ rows) future h = rw (available-append at clock rows future h)

-- Rows that are not available at the clock, appended to any of the four streams of a market, change
-- nothing in the document that the agent sees of it, nor in its provenance, errors included.
pub market_document-blind :
    (market : MarketData) (clock : VirtualClock) (bars_lookback funding_lookback : ℕ)
    (trade mark index : List BarRow) (funding : List FundingRow)
    → IsFuture bar_at (pos clock.real_ts) trade
    → IsFuture bar_at (pos clock.real_ts) mark
    → IsFuture bar_at (pos clock.real_ts) index
    → IsFuture print_at (pos clock.real_ts) funding
    → market_document
        (record market {
          trade = market.trade ++ trade;
          mark = market.mark ++ mark;
          index = market.index ++ index;
          funding = market.funding ++ funding;
        })
        clock
        bars_lookback
        funding_lookback
      ≡ market_document market clock bars_lookback funding_lookback
unfolding market_document
market_document-blind market clock b f trade mark index funding h k m n = rw (
  available-append bar_at (pos clock.real_ts) market.trade trade h,
  available-append bar_at (pos clock.real_ts) market.mark mark k,
  available-append bar_at (pos clock.real_ts) market.index index m,
  available-append print_at (pos clock.real_ts) market.funding funding n,
)
