-- ===== src/Report/Compare.antt =====
-- report/compare.py: a row for each bundle, with its tier among the baselines of its pack.
pub mod Bar
use wagmi_bench.Prelude.{
  ℕ, Bool, true, false, not, ◌&&◌, ◌||◌, ltb, ◌==◌, if◌then◌else◌, Option, none, some, List, [],
  ◌∷◌, ◌++◌, length, Text, codes, text_eqb, Result, ok, err, raise_if, report_error, ◌>>=◌, ◌>>◌,
}
use wagmi_bench.Prelude.Int.{ℤ, pos, ltb_ℤ}
use wagmi_bench.Prelude.Objects.{Value, str, object, find_member}
use wagmi_bench.Report.Format.{percent, ratio}
use wagmi_bench.Report.Evidence.{
  CostProfile, primary, stress_2x, Evidence, as_int, pack_id, agent_label, survival_verdict_of,
  execution_counts, display_verdict,
}

pub record ComparisonRow : Type 0 where
  pub pack : Text
  pub agent : Text
  pub verdict : Text
  pub tier : Text
  pub fills : ℕ
  pub max_dd_primary : Text
  pub max_dd_stress_2x : Text
  pub turnover_primary : Text
  pub net_return_primary : Text
  pub net_return_stress_2x : Text
  pub net_return_primary_1e8 : ℤ
  pub net_return_stress_2x_1e8 : ℤ
  pub survival_verdict : Text
  pub is_baseline : Bool
  pub bundle_root : Text

-- `_metric`
unfoldable pub metric : Evidence → CostProfile → Text → Result ℤ
metric evidence profile field = as_int (find_member field (evidence.profiles profile))

-- `_is_baseline`; `_BASELINE_POLICY` is `constant-target`.
unfoldable pub is_policy : Option Value → Bool
is_policy (some (str policy)) = text_eqb policy (codes "constant-target")
is_policy other = false

unfoldable pub has_baseline_policy : Option Value → Bool
unfolding is_policy
has_baseline_policy (some (object params)) = is_policy (find_member (codes "policy") params)
has_baseline_policy other = false

unfoldable pub is_baseline_run : Evidence → Bool
is_baseline_run evidence =
    has_baseline_policy (find_member (codes "inference_params") evidence.agent_manifest)

-- The tiers. No tier is an em dash.
abbrev pub untiered : Text
untiered = 8212 ∷ []

abbrev pub gmi : Text
gmi = codes "GMI"

abbrev pub ngmi : Text
ngmi = codes "NGMI"

-- `survival_verdict in ("liquidated", "killed_flat")`
unfoldable pub is_dead : Text → Bool
is_dead verdict = text_eqb verdict (codes "liquidated") || text_eqb verdict (codes "killed_flat")

unfoldable pub has_survived : Text → Bool
has_survived verdict = text_eqb verdict (codes "survived")

-- `all(own > of_baseline for ...)`, of one side of the returns.
unfoldable pub beats_all : ℤ → (ℤ × ℤ → ℤ) → List (ℤ × ℤ) → Bool
beats_all own side [] = true
beats_all own side (returns ∷ rest) = ltb_ℤ (side returns) own && beats_all own side rest

-- `assign_tier`
unfoldable pub assign_tier : Text → ℕ → Bool → ℤ → ℤ → List (ℤ × ℤ) → Bool → Result Text
assign_tier verdict fills is_baseline primary_1e8 stress_2x_1e8 baseline_returns has_baselines =
    if is_baseline
    then ok untiered
    else if is_dead verdict
    then ok ngmi
    else if not (has_survived verdict)
    then err report_error
    else if fills == 0 || not has_baselines
    then ok untiered
    else if beats_all primary_1e8 (λ r. r.0) baseline_returns
        && beats_all stress_2x_1e8 (λ r. r.1) baseline_returns
    then ok gmi
    else ok untiered

-- `_row`
unfoldable pub row_of_evidence : Evidence → Result ComparisonRow
unfolding ◌>>=◌
row_of_evidence evidence = do
  counts ← execution_counts evidence
  survival_verdict ← survival_verdict_of evidence
  pack ← pack_id evidence
  agent ← agent_label evidence
  verdict ← display_verdict evidence
  max_dd ← metric evidence primary (codes "max_drawdown_1e8")
  max_dd_2x ← metric evidence stress_2x (codes "max_drawdown_1e8")
  turnover ← metric evidence primary (codes "turnover_1e8")
  net ← metric evidence primary (codes "net_return_1e8")
  net_2x ← metric evidence stress_2x (codes "net_return_1e8")
  ok (record {
    pack = pack;
    agent = agent;
    verdict = verdict;
    tier = untiered;
    fills = counts.0;
    max_dd_primary = percent (some max_dd) false;
    max_dd_stress_2x = percent (some max_dd_2x) false;
    turnover_primary = ratio turnover ++ codes "x";
    net_return_primary = percent (some net) true;
    net_return_stress_2x = percent (some net_2x) true;
    net_return_primary_1e8 = net;
    net_return_stress_2x_1e8 = net_2x;
    survival_verdict = survival_verdict;
    is_baseline = is_baseline_run evidence;
    bundle_root = evidence.bundle_root;
  })

unfoldable pub rows_of : List Evidence → Result (List ComparisonRow)
unfolding ◌>>=◌
rows_of [] = ok []
rows_of (evidence ∷ rest) = do row ← row_of_evidence evidence; rows ← rows_of rest; ok (row ∷ rows)

-- A `dict` of lists: `grouped.setdefault(key, []).append(value)`, and `grouped.get(key, ())`.
abbrev pub Groups {ℓ} : Type ℓ → Type ℓ
Groups A = List (Text × List A)

module _ {ℓ} {A : Type ℓ} where
  unfoldable pub append_to : Text → A → Groups A → Groups A
  append_to key value [] = (key, value ∷ []) ∷ []
  append_to key value ((k, values) ∷ rest) =
      let others = append_to key value rest in
      if text_eqb k key then (k, values ++ value ∷ []) ∷ rest else (k, values) ∷ others

  unfoldable pub group : Text → Groups A → List A
  group key [] = []
  group key ((k, values) ∷ rest) = if text_eqb k key then values else group key rest

-- The loop over the rows that fills `surviving_returns`.
unfoldable pub surviving_returns : List ComparisonRow → Groups (ℤ × ℤ) → Groups (ℤ × ℤ)
unfolding append_to
surviving_returns [] found = found
surviving_returns (row ∷ rows) found = surviving_returns rows (
    if row.is_baseline && has_survived row.survival_verdict
    then append_to row.pack (row.net_return_primary_1e8, row.net_return_stress_2x_1e8) found
    else found)

-- `row.pack in packs_with_baselines`
unfoldable pub has_baseline : Text → List ComparisonRow → Bool
has_baseline pack [] = false
has_baseline pack (row ∷ rows) = row.is_baseline && text_eqb row.pack pack || has_baseline pack rows

-- A row with its tier among the rows of the table.
unfoldable pub tiered : List ComparisonRow → ComparisonRow → Result ComparisonRow
unfolding ◌>>=◌
tiered rows row = do
  tier ←
      assign_tier row.survival_verdict row.fills row.is_baseline row.net_return_primary_1e8
        row.net_return_stress_2x_1e8 (group row.pack (surviving_returns rows []))
        (has_baseline row.pack rows)
  ok (record row { tier = tier })

unfoldable pub tier_all : List ComparisonRow → List ComparisonRow → Result (List ComparisonRow)
unfolding ◌>>=◌
tier_all rows [] = ok []
tier_all rows (row ∷ rest) = do
  first ← tiered rows row
  others ← tier_all rows rest
  ok (first ∷ others)

-- `load_comparison_rows`, of bundles that have loaded.
unfoldable pub load_comparison_rows : List Evidence → Result (List ComparisonRow)
unfolding ◌>>=◌
load_comparison_rows bundles = do
  raise_if (ltb (length bundles) 2) report_error
  rows ← rows_of bundles
  tier_all rows rows

-- `_pack_groups`
unfoldable pub pack_groups_from : List ComparisonRow → Groups ComparisonRow → Groups ComparisonRow
unfolding append_to
pack_groups_from [] grouped = grouped
pack_groups_from (row ∷ rows) grouped = pack_groups_from rows (append_to row.pack row grouped)

unfoldable pub pack_groups : List ComparisonRow → Groups ComparisonRow
pack_groups rows = pack_groups_from rows []
