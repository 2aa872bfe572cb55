-- ===== src/Report/Compare/Bar.antt =====
-- report/compare.py: which baselines set the bar of a pack, read off the dictionary of the returns.
use wagmi_bench.Prelude.{
  refl, true, false, ◌&&◌, if◌then◌else◌, List, [], ◌∷◌, ◌++◌, ◌≡◌, ◌↔◌, ◌∙◌, inl, inr, arith, All,
  Text, text_eqb, text_eqb_iff, Bool-cases, ap, ◌∙◌,
}
use wagmi_bench.Prelude.Int.{ℤ, ltb_ℤ, ◌<ℤ◌}
use wagmi_bench.Report.Compare.{
  ComparisonRow, has_survived, beats_all, Groups, append_to, group, surviving_returns, has_baseline,
  tiered,
}

-- A baseline run of the pack that survived.
abbrev pub SetsBar : Text → ComparisonRow → Type 0
SetsBar pack b = (b.is_baseline ≡ true) × (has_survived b.survival_verdict ≡ true) × (b.pack ≡ pack)

abbrev pub returns_of : ComparisonRow → ℤ × ℤ
returns_of row = (row.net_return_primary_1e8, row.net_return_stress_2x_1e8)

-- The return is above that of each surviving baseline of the pack.
abbrev pub Tops : ℤ → (ℤ × ℤ → ℤ) → Text → List ComparisonRow → Type 0
Tops own side pack rows = All (λ b. SetsBar pack b → side (returns_of b) <ℤ own) rows

module _ {ℓ} {A : Type ℓ} where
  -- What a key reads after a value is appended.
  pub group-append_to :
      (k key : Text) (value : A) (groups : Groups A)
      → group k (append_to key value groups)
        ≡ (if text_eqb key k then group k groups ++ value ∷ [] else group k groups)
  unfolding append_to group
  group-append_to k key value [] = ground arith
  group-append_to k key value ((k', values) ∷ rest) = elim (Bool-cases (text_eqb k' key)) [
    | inl e ↦ let same = (text_eqb_iff k' key).0 e in rw (e, same) (ground arith)
    | inr e ↦ elim (Bool-cases (text_eqb key k)) [
      | inl h ↦
          let same = (text_eqb_iff key k).0 h in
          let apart : text_eqb k' k ≡ false = rw (← same, e) in
          rw (e, h, apart) (group-append_to k key value rest ∙ rw h)
      | inr h ↦ rw (e, h) (ground (arith, group-append_to k key value rest))
    ]
  ]

beats_all-append :
    (own : ℤ) (side : ℤ × ℤ → ℤ) (xs : List (ℤ × ℤ)) (r : ℤ × ℤ)
    → beats_all own side (xs ++ r ∷ []) ≡ (beats_all own side xs && ltb_ℤ (side r) own)
unfolding beats_all
beats_all-append own side [] r = ground arith
beats_all-append own side (x ∷ xs) r = ground (arith, beats_all-append own side xs r)

-- What a row adds to the group of the pack.
beats_all-row :
    (own : ℤ) (side : ℤ × ℤ → ℤ) (pack : Text) (row : ComparisonRow) (found : Groups (ℤ × ℤ))
    → (beats_all own side (
          group pack (
            if row.is_baseline && has_survived row.survival_verdict
            then append_to row.pack (returns_of row) found
            else found))
        ≡ true)
      ↔ ((beats_all own side (group pack found) ≡ true)
          × (SetsBar pack row → side (returns_of row) <ℤ own))
beats_all-row own side pack row found =
    elim (Bool-cases (row.is_baseline && has_survived row.survival_verdict)) [
      | inl e ↦ elim (Bool-cases (text_eqb row.pack pack)) [
        | inl h ↦
            let same = (text_eqb_iff row.pack pack).0 h in
            rw
              (
                e,
                group-append_to pack row.pack (returns_of row) found,
                h,
                beats_all-append own side (group pack found) (returns_of row),
              )
              (
                λ k. (ground arith, λ b. ground arith),
                λ k. let above = k.1 (ground arith, ground arith, same) in ground arith,
              )
        | inr h ↦
            rw (e, group-append_to pack row.pack (returns_of row) found, h)
              (λ k. (k, λ b. ground (arith, (text_eqb_iff row.pack pack).1 b.2)), λ k. k.0)
      ]
      | inr e ↦ rw e (λ k. (k, λ b. ground arith), λ k. k.0)
    ]

-- One side of the test of the tier, against all rows of the table.
pub beats_all-surviving_returns :
    (own : ℤ) (side : ℤ × ℤ → ℤ) (pack : Text) (rows : List ComparisonRow) (found : Groups (ℤ × ℤ))
    → (beats_all own side (group pack (surviving_returns rows found)) ≡ true)
      ↔ ((beats_all own side (group pack found) ≡ true) × Tops own side pack rows)
unfolding surviving_returns
beats_all-surviving_returns own side pack [] found = (λ h. (h, tt), λ h. h.0)
beats_all-surviving_returns own side pack (row ∷ rows) found =
    let (to, from) = beats_all-surviving_returns own side pack rows _ in
    let (to_row, from_row) = beats_all-row own side pack row found in
    (
      λ h. let (k, tops) = to h in let (l, m) = to_row k in (l, (m, tops)),
      λ h. from (from_row (h.0, h.1.0), h.1.1),
    )

-- A row that is no baseline run that survived.
abbrev pub IsIdle : ComparisonRow → Type 0
IsIdle row = (row.is_baseline && has_survived row.survival_verdict) ≡ false

surviving_returns-IsIdle :
    (xs ys : List ComparisonRow) (a b : ComparisonRow) (found : Groups (ℤ × ℤ))
    → IsIdle a
    → IsIdle b
    → surviving_returns (xs ++ a ∷ ys) found ≡ surviving_returns (xs ++ b ∷ ys) found
unfolding surviving_returns
surviving_returns-IsIdle [] ys a b found h k = ap (surviving_returns ys) (ground arith)
surviving_returns-IsIdle (x ∷ xs) ys a b found h k = surviving_returns-IsIdle xs ys a b _ h k

has_baseline-replace :
    (pack : Text) (xs ys : List ComparisonRow) (a b : ComparisonRow)
    → a.is_baseline ≡ b.is_baseline
    → a.pack ≡ b.pack
    → has_baseline pack (xs ++ a ∷ ys) ≡ has_baseline pack (xs ++ b ∷ ys)
unfolding has_baseline
has_baseline-replace pack [] ys a b h k = ground arith
has_baseline-replace pack (x ∷ xs) ys a b h k = rw (has_baseline-replace pack xs ys a b h k) refl

-- A row that is no surviving baseline may be replaced by another such row of the same pack, also
-- baseline or not, and the tier of every row stays what it is, errors included: a dead baseline
-- never sets the bar.
pub tiered-replace :
    (xs ys : List ComparisonRow) (a b row : ComparisonRow)
    → IsIdle a
    → IsIdle b
    → a.is_baseline ≡ b.is_baseline
    → a.pack ≡ b.pack
    → tiered (xs ++ a ∷ ys) row ≡ tiered (xs ++ b ∷ ys) row
unfolding tiered
tiered-replace xs ys a b row idle idle' based packs =
    rw
      (
        surviving_returns-IsIdle xs ys a b [] idle idle',
        has_baseline-replace row.pack xs ys a b based packs,
      )
      refl
