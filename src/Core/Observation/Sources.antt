-- ===== src/Core/Observation/Sources.antt =====
-- core/observation.py, the rows behind a market's document.
use wagmi_bench.Prelude.{
  ℕ, suc, ◌≡◌, refl, true, Bool-cases, inl, inr, leb, List, [], ◌∷◌, ◌++◌, length, Keeps, Keeps-ok,
  Keeps-any, Keeps-bind, arith,
}
use wagmi_bench.Prelude.Int.{ℤ, pos, leb_ℤ}
use wagmi_bench.Core.Config.Clock.{VirtualClock}
use wagmi_bench.Core.Pack.{BarRow, FundingRow, MarketData}
use wagmi_bench.Core.Observation.{
  available, bar_at, print_at, last, last_available_bar, MarketDocument, MarketRows,
  market_document,
}
use wagmi_bench.Core.Observation.Build.{all_past, rows_are_past}

module _ {ℓ} {A : Type ℓ} (at : A → ℤ) (clock : ℤ) where
  available-past : (rows : List A) → all_past at clock (available at clock rows) ≡ true
  unfolding available all_past
  available-past [] = refl
  available-past (row ∷ rows) = elim (Bool-cases (leb_ℤ (at row) clock)) [
    | inl e ↦ rw (e, available-past rows) (ground arith)
    | inr e ↦ rw (e, available-past rows)
  ]

  last-past :
      (n : ℕ) (rows : List A)
      → all_past at clock rows ≡ true
      → all_past at clock (last n rows) ≡ true
  unfolding last all_past
  last-past n [] h = refl
  last-past n (row ∷ rows) h = elim (Bool-cases (leb (suc (length rows)) n)) [
    | inl e ↦ rw e h
    | inr e ↦ rw e (last-past n rows (ground arith))
  ]

  past-append :
      (xs ys : List A)
      → all_past at clock xs ≡ true
      → all_past at clock ys ≡ true
      → all_past at clock (xs ++ ys) ≡ true
  unfolding all_past
  past-append [] ys h k = k
  past-append (x ∷ xs) ys h k = ground (arith, past-append xs ys)

last_available_bar-past :
    (clock : ℤ) (rows : List BarRow)
    → all_past bar_at clock rows ≡ true
    → Keeps (λ row. leb_ℤ (bar_at row) clock ≡ true) (last_available_bar rows)
unfolding last_available_bar all_past
last_available_bar-past clock [] h = record { holds = tt }
last_available_bar-past clock (row ∷ []) h = Keeps-ok (ground arith)
last_available_bar-past clock (row ∷ next ∷ rows) h =
    last_available_bar-past clock (next ∷ rows) (ground arith)

rows_past :
    (clock : ℤ) (trade : List BarRow) (mark index : BarRow) (funding : List FundingRow)
    → all_past bar_at clock trade ≡ true
    → leb_ℤ (bar_at mark) clock ≡ true
    → leb_ℤ (bar_at index) clock ≡ true
    → all_past print_at clock funding ≡ true
    → rows_are_past clock
        (record { trade_rows = trade; mark_row = mark; index_row = index; funding_rows = funding })
      ≡ true
unfolding all_past
rows_past clock trade mark index funding h k m n =
    rw (past-append bar_at clock trade (mark ∷ index ∷ []) h (ground arith), n)

-- A market's document: its rows are past, and its mark is that of its mark row.
abbrev pub IsSourced : MarketData → ℤ → MarketDocument × MarketRows → Type 0
IsSourced market clock (document, rows) =
    (rows_are_past clock rows ≡ true)
    × (document.last_mark_px_ticks ≡ rows.mark_row.c)
    × (document.spec ≡ market.spec)

pub market_document-IsSourced :
    (market : MarketData) (clock : VirtualClock) (b f : ℕ)
    → Keeps (IsSourced market (pos clock.real_ts)) (market_document market clock b f)
unfolding market_document
market_document-IsSourced market clock b f =
    let now = pos clock.real_ts in
    let trade_past =
      last-past bar_at now b (available bar_at now market.trade)
        (available-past bar_at now market.trade) in
    let funding_past =
      last-past print_at now f (available print_at now market.funding)
        (available-past print_at now market.funding) in
    Keeps-bind (λ row. leb_ℤ (bar_at row) now ≡ true)
      (last_available_bar-past now (available bar_at now market.mark)
        (available-past bar_at now market.mark))
      (λ mark mk.
        Keeps-bind (λ row. leb_ℤ (bar_at row) now ≡ true)
          (last_available_bar-past now (available bar_at now market.index)
            (available-past bar_at now market.index))
          (λ index ik. Keeps-any (λ a e. Keeps-any (λ a e. Keeps-any (λ a e. Keeps-any (λ a e.
            Keeps-any (λ a e.
              Keeps-ok
                (rows_past now _ mark index _ trade_past mk ik funding_past, refl, refl))))))))
