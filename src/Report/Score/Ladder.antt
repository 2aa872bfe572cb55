-- ===== src/Report/Score/Ladder.antt =====
-- report/score.py and report/compare.py: the five rungs of the ladder as the module's text has them,
-- without the dictionaries of the code.
use wagmi_bench.Prelude.{
  ℕ, Bool, true, false, not, ◌&&◌, ◌==◌, if◌then◌else◌, List, [], ◌≡◌, ◌≢◌, ◌↔◌, refl, inl, inr,
  arith, Text, codes, text_eqb, text_eqb_iff, Bool-cases, Result, ok, err, Ensures, Ensures-eq-ok,
  report_error, ◌>>=◌,
}
use wagmi_bench.Prelude.Int.{pos, ◌<ℤ◌}
use wagmi_bench.Report.Compare.{
  ComparisonRow, is_dead, has_survived, assign_tier, beats_all, group, surviving_returns,
  has_baseline, tiered,
}
use wagmi_bench.Report.Compare.Bar.{Tops, beats_all-surviving_returns}
use wagmi_bench.Report.Score.{positive_both, pack_score}

-- A net return above zero under both cost profiles.
abbrev pub IsPositive : ComparisonRow → Type 0
IsPositive row = (pos 0 <ℤ row.net_return_primary_1e8) × (pos 0 <ℤ row.net_return_stress_2x_1e8)

-- The pack has a baseline, and both returns are above those of each that survived.
abbrev pub MadeIt : List ComparisonRow → ComparisonRow → Type 0
MadeIt rows row =
    (has_baseline row.pack rows ≡ true)
    × Tops row.net_return_primary_1e8 (λ r. r.0) row.pack rows
    × Tops row.net_return_stress_2x_1e8 (λ r. r.1) row.pack rows

-- Survived, with a fill.
abbrev pub IsEngaged : ComparisonRow → Type 0
IsEngaged row = (has_survived row.survival_verdict ≡ true) × (row.fills ≢ 0)

pub data Rung (rows : List ComparisonRow) (row : ComparisonRow) : ℕ → Type 0 where
  dead : is_dead row.survival_verdict ≡ true → Rung rows row 0
  flat : has_survived row.survival_verdict ≡ true → row.fills ≡ 0 → Rung rows row 25
  engaged : IsEngaged row → ¬ (IsPositive row) → Rung rows row 50
  profitable : IsEngaged row → IsPositive row → ¬ (MadeIt rows row) → Rung rows row 75
  made_it : IsEngaged row → IsPositive row → MadeIt rows row → Rung rows row 100

survived-not_dead : (verdict : Text) → has_survived verdict ≡ true → is_dead verdict ≡ false
unfolding has_survived is_dead text_eqb
survived-not_dead verdict h =
    let same = (text_eqb_iff verdict (codes "survived")).0 h in rw same refl

-- The two `all` tests of the tier, and all of what the tier asks of an engaged survivor.
abbrev beats_both : List ComparisonRow → ComparisonRow → Bool
beats_both rows row =
    beats_all row.net_return_primary_1e8 (λ r. r.0) (group row.pack (surviving_returns rows []))
    && beats_all row.net_return_stress_2x_1e8 (λ r. r.1)
        (group row.pack (surviving_returns rows []))

abbrev bar_test : List ComparisonRow → ComparisonRow → Bool
bar_test rows row = has_baseline row.pack rows && beats_both rows row

bar_test_iff :
    (rows : List ComparisonRow) (row : ComparisonRow) → (bar_test rows row ≡ true) ↔ MadeIt rows row
unfolding beats_all group
bar_test_iff rows row =
    let (to, from) =
      beats_all-surviving_returns row.net_return_primary_1e8 (λ r. r.0) row.pack rows [] in
    let (to_2x, from_2x) =
      beats_all-surviving_returns row.net_return_stress_2x_1e8 (λ r. r.1) row.pack rows [] in
    (
      λ h. (ground arith, (to (ground arith)).1, (to_2x (ground arith)).1),
      λ (based, tops, tops_2x).
          let first = from (refl, tops) in
          let second = from_2x (refl, tops_2x) in ground (arith, first, second),
    )

-- The score by the tests of the code in one chain.
abbrev rung_of : List ComparisonRow → ComparisonRow → Result ℕ
rung_of rows row =
    if is_dead row.survival_verdict
    then ok 0
    else if not (has_survived row.survival_verdict)
    then err report_error
    else if row.fills == 0
    then ok 25
    else if not (positive_both row)
    then ok 50
    else if bar_test rows row
    then ok 100
    else ok 75

score-rung_of :
    (rows : List ComparisonRow) (row : ComparisonRow)
    → row.is_baseline ≡ false
    → (tiered rows row >>= pack_score) ≡ rung_of rows row
unfolding tiered assign_tier pack_score text_eqb ◌>>=◌
score-rung_of rows row h = elim (Bool-cases (is_dead row.survival_verdict)) [
  | inl d ↦ rw (h, d) (rw d refl)
  | inr d ↦ elim (Bool-cases (has_survived row.survival_verdict)) [
    | inr s ↦ rw (h, d, s) refl
    | inl s ↦ elim (Bool-cases (row.fills == 0)) [
      | inl f ↦ rw (h, d, s, f) (rw (d, s, f) refl)
      | inr f ↦ elim (Bool-cases (has_baseline row.pack rows)) [
        | inr b ↦ rw (h, d, s, f, b) (rw (d, s, f) (ground arith))
        | inl b ↦ elim (Bool-cases (beats_both rows row)) [
          | inl t ↦ rw (h, d, s, f, b, t) (rw (d, s, f) (ground arith))
          | inr t ↦ rw (h, d, s, f, b, t) (rw (d, s, f) (ground arith))
        ]
      ]
    ]
  ]
]

rung_of-Rung :
    (rows : List ComparisonRow) (row : ComparisonRow) → Ensures (Rung rows row) (rung_of rows row)
rung_of-Rung rows row = elim (Bool-cases (is_dead row.survival_verdict)) [
  | inl d ↦ rw d (dead d)
  | inr d ↦ elim (Bool-cases (has_survived row.survival_verdict)) [
    | inr s ↦ rw (d, s) tt
    | inl s ↦ elim (Bool-cases (row.fills == 0)) [
      | inl f ↦ rw (d, s, f) (flat s (ground arith))
      | inr f ↦ elim (Bool-cases (positive_both row)) [
        | inr p ↦ rw (d, s, f, p) (engaged (s, ground arith) (λ k. ground arith))
        | inl p ↦ elim (Bool-cases (bar_test rows row)) [
          | inl t ↦
              rw (d, s, f, p, t)
                (made_it (s, ground arith) (ground arith, ground arith)
                  ((bar_test_iff rows row).0 t))
          | inr t ↦
              rw (d, s, f, p, t)
                (profitable (s, ground arith) (ground arith, ground arith)
                  (λ k. ground (arith, (bar_test_iff rows row).1 k)))
        ]
      ]
    ]
  ]
]

Rung-rung_of :
    (rows : List ComparisonRow) (row : ComparisonRow) (score : ℕ)
    → Rung rows row score
    → rung_of rows row ≡ ok score
Rung-rung_of rows row score (dead d) = rw d refl
Rung-rung_of rows row score (flat s f) =
    let d = survived-not_dead row.survival_verdict s in rw (d, s, f) refl
Rung-rung_of rows row score (engaged (s, f) p) =
    let d = survived-not_dead row.survival_verdict s in
    elim (Bool-cases (positive_both row)) [
      | inl both ↦ absurd (p (ground arith, ground arith))
      | inr both ↦ rw (d, s, both) (ground arith)
    ]
Rung-rung_of rows row score (profitable (s, f) p t) =
    let d = survived-not_dead row.survival_verdict s in
    elim (Bool-cases (bar_test rows row)) [
      | inl above ↦ absurd (t ((bar_test_iff rows row).0 above))
      | inr above ↦ rw (d, s, above) (ground arith)
    ]
Rung-rung_of rows row score (made_it (s, f) p t) =
    let d = survived-not_dead row.survival_verdict s in
    rw (d, s, (bar_test_iff rows row).1 t) (ground arith)

-- For a row that is no baseline, the tier and then the score of the row are n exactly if the row is
-- on the rung of n as the ladder of the module has it: 0 for a dead run, 25 for survival without a
-- fill, 50 for engaged survival, 75 with both net returns positive, 100 if in addition the pack has
-- a baseline and both returns are above those of every surviving baseline of the pack.
pub pack_score-refines :
    (rows : List ComparisonRow) (row : ComparisonRow) (score : ℕ)
    → row.is_baseline ≡ false
    → ((tiered rows row >>= pack_score) ≡ ok score) ↔ Rung rows row score
pack_score-refines rows row score h = rw (score-rung_of rows row h) (
  λ e. Ensures-eq-ok (Rung rows row) (rung_of rows row) (rung_of-Rung rows row) e,
  Rung-rung_of rows row score,
)
