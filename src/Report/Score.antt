-- ===== src/Report/Score.antt =====
-- report/score.py: the rung of a row, and the board that ranks the agents.
pub mod Ladder
pub mod Agents
pub mod Board
pub mod Outrank
use wagmi_bench.Prelude.{
  ℕ, zero, suc, ◌+◌, ◌*◌, ◌/◌, Bool, true, false, not, ◌&&◌, ◌||◌, ltb, leb, ◌==◌, if◌then◌else◌,
  List, [], ◌∷◌, length, sort_by, Text, text_eqb, text_leb, by_key, Result, ok, err, raise_if,
  report_error, ◌>>=◌, ◌>>◌,
}
use wagmi_bench.Prelude.Int.{ℤ, pos, ltb_ℤ}
use wagmi_bench.Report.Evidence.{Evidence}
use wagmi_bench.Report.Compare.{
  ComparisonRow, load_comparison_rows, is_dead, has_survived, gmi, Groups, append_to,
}

-- `CATALOG_PACK_COUNT`
abbrev pub catalog_pack_count : ℕ
catalog_pack_count = 13

pub record PackScore : Type 0 where
  pub pack : Text
  pub score : ℕ
  pub verdict : Text
  pub tier : Text
  pub fills : ℕ
  pub bundle_root : Text

-- The score in hundredths: the source has the float that is nearest to it.
pub record AgentScore : Type 0 where
  pub agent : Text
  pub wagmi_score : ℕ
  pub packs_attempted : ℕ
  pub pack_scores : List PackScore

-- `positive_both`
abbrev pub positive_both : ComparisonRow → Bool
positive_both row =
    ltb_ℤ (pos 0) row.net_return_primary_1e8 && ltb_ℤ (pos 0) row.net_return_stress_2x_1e8

-- `pack_score`
unfoldable pub pack_score : ComparisonRow → Result ℕ
pack_score row =
    if is_dead row.survival_verdict
    then ok 0
    else if not (has_survived row.survival_verdict)
    then err report_error
    else if row.fills == 0
    then ok 25
    else if not (positive_both row)
    then ok 50
    else if text_eqb row.tier gmi
    then ok 100
    else ok 75

-- The candidates of each agent, `by_agent`.
unfoldable pub by_agent : List ComparisonRow → Groups ComparisonRow → Groups ComparisonRow
unfolding append_to
by_agent [] grouped = grouped
by_agent (row ∷ rows) grouped =
    by_agent rows (if row.is_baseline then grouped else append_to row.agent row grouped)

-- `row.pack in seen_packs`
unfoldable pub is_seen : Text → List Text → Bool
is_seen pack [] = false
is_seen pack (p ∷ packs) = text_eqb p pack || is_seen pack packs

-- The loop over the rows of an agent.
unfoldable pub score_rows : List Text → List ComparisonRow → Result (List PackScore)
unfolding ◌>>=◌ is_seen
score_rows seen [] = ok []
score_rows seen (row ∷ rows) = do
  raise_if (is_seen row.pack seen) report_error
  score ← pack_score row
  rest ← score_rows (row.pack ∷ seen) rows
  ok (
      record {
        pack = row.pack;
        score = score;
        verdict = row.verdict;
        tier = row.tier;
        fills = row.fills;
        bundle_root = row.bundle_root;
      }
      ∷ rest)

-- `sum(entry.score for entry in pack_scores)`
unfoldable pub total_score : List PackScore → ℕ
total_score [] = 0
total_score (entry ∷ rest) = entry.score + total_score rest

-- `round(total / CATALOG_PACK_COUNT, 2)` in hundredths. A half cannot come out, since 13 is odd.
unfoldable pub mean_score : ℕ → ℕ
mean_score total = (200 * total + catalog_pack_count) / (2 * catalog_pack_count)

-- An agent's entry.
unfoldable pub score_agent : Text × List ComparisonRow → Result AgentScore
unfolding ◌>>=◌
score_agent (agent, rows) = do
  pack_scores ← score_rows [] rows
  ok (record {
    agent = agent;
    wagmi_score = mean_score (total_score pack_scores);
    packs_attempted = length pack_scores;
    pack_scores = pack_scores;
  })

unfoldable pub score_agents : List (Text × List ComparisonRow) → Result (List AgentScore)
unfolding ◌>>=◌
score_agents [] = ok []
score_agents (group ∷ groups) = do
  entry ← score_agent group
  entries ← score_agents groups
  ok (entry ∷ entries)

-- `key=lambda entry: (-entry.wagmi_score, entry.agent)`
abbrev pub ranks_first : AgentScore → AgentScore → Bool
ranks_first a b =
    ltb b.wagmi_score a.wagmi_score || (a.wagmi_score == b.wagmi_score) && text_leb a.agent b.agent

abbrev pub is_nil {ℓ} : {A : Type ℓ} → List A → Bool
is_nil [] = true
is_nil (x ∷ xs) = false

abbrev pub agent_key : Text × List ComparisonRow → Text
agent_key group = group.0

-- `build_scoreboard`, from the rows of the comparison on.
unfoldable pub rank_rows : List ComparisonRow → Result (List AgentScore)
unfolding ◌>>=◌
rank_rows rows = do
  let grouped = by_agent rows []
  raise_if (is_nil grouped) report_error
  scores ← score_agents (sort_by (by_key agent_key) grouped)
  ok (sort_by ranks_first scores)

-- `build_scoreboard`
unfoldable pub build_scoreboard : List Evidence → Result (List AgentScore)
unfolding ◌>>=◌
build_scoreboard bundles = do rows ← load_comparison_rows bundles; rank_rows rows
