-- ===== src/Tests/Reports.antt =====
-- report/: a pack with two baselines and two candidates.
use wagmi_bench.Prelude.{
  ℕ, ◌*◌, ◌<◌, ◌≡◌, ◌↔◌, refl, Bool, true, false, List, [], ◌∷◌, Text, codes, text_eqb, text_leb,
  sort_by, Result, ok, err, All, AllPairs, IsSorted, ◌≢◌, ◌>>=◌,
}
use wagmi_bench.Prelude.Int.{ℤ, pos, negsuc}
use wagmi_bench.Spec.Canonical.{digits, digits_from}
use wagmi_bench.Report.Format.{fixed, zero_padded, zeros}
use wagmi_bench.Report.Compare.{
  ComparisonRow, assign_tier, append_to, beats_all, group, has_baseline, has_survived, is_dead,
  surviving_returns, tiered, untiered,
}
use wagmi_bench.Report.Compare.Bar.{tiered-replace}
use wagmi_bench.Report.Score.{
  AgentScore, by_agent, is_seen, mean_score, pack_score, rank_rows, ranks_first, score_agent,
  score_agents, score_rows, total_score,
}
use wagmi_bench.Report.Score.Ladder.{Rung, pack_score-refines}
use wagmi_bench.Report.Score.Board.{Scores, rank_rows-IsBoard}
use wagmi_bench.Report.Score.Outrank.{flat_agent-outranks}

abbrev row : Text → Text → ℕ → ℤ → ℤ → Text → Bool → ComparisonRow
row pack agent fills primary stress verdict baseline = record {
  pack = pack;
  agent = agent;
  verdict = codes "SURVIVED";
  tier = untiered;
  fills = fills;
  max_dd_primary = [];
  max_dd_stress_2x = [];
  turnover_primary = [];
  net_return_primary = [];
  net_return_stress_2x = [];
  net_return_primary_1e8 = primary;
  net_return_stress_2x_1e8 = stress;
  survival_verdict = verdict;
  is_baseline = baseline;
  bundle_root = [];
}

abbrev survivor : ComparisonRow
survivor = row (codes "p") (codes "long") 1 (pos 5) (pos 4) (codes "survived") true

-- It died with the higher return.
abbrev dead_baseline : ℤ → ComparisonRow
dead_baseline primary = row (codes "p") (codes "short") 1 primary (pos 90) (codes "liquidated") true

abbrev flat_run : ComparisonRow
flat_run = row (codes "p") (codes "idle") 0 (pos 0) (pos 0) (codes "survived") false

abbrev candidate : ComparisonRow
candidate = row (codes "p") (codes "bot") 3 (pos 7) (pos 6) (codes "survived") false

abbrev table : List ComparisonRow
table = survivor ∷ dead_baseline (pos 90) ∷ flat_run ∷ candidate ∷ []

-- Printed with four places, cut off, never rounded.
fixed-cut : fixed (negsuc 123456788) 100_000_000 4 ≡ codes "-1.2345"
unfolding fixed zero_padded zeros digits digits_from
fixed-cut = refl

pack_score-refines_example :
    ((tiered table candidate >>= pack_score) ≡ ok 100) ↔ Rung table candidate 100
pack_score-refines_example = pack_score-refines table candidate 100 refl

-- The candidate is above the bar that the surviving baseline sets.
candidate-made_it : (tiered table candidate >>= pack_score) ≡ ok 100
unfolding tiered assign_tier append_to beats_all group has_baseline has_survived is_dead
    surviving_returns pack_score text_eqb ◌>>=◌
candidate-made_it = refl

tiered-replace_example :
    tiered (survivor ∷ dead_baseline (pos 90) ∷ flat_run ∷ candidate ∷ []) candidate
    ≡ tiered (survivor ∷ dead_baseline (pos 1) ∷ flat_run ∷ candidate ∷ []) candidate
unfolding has_survived text_eqb
tiered-replace_example =
    tiered-replace (survivor ∷ []) (flat_run ∷ candidate ∷ []) (dead_baseline (pos 90))
      (dead_baseline (pos 1)) candidate refl refl refl refl

abbrev entry : Text → ℕ → ℕ → ComparisonRow → AgentScore
entry agent hundredths score r = record {
  agent = agent;
  wagmi_score = hundredths;
  packs_attempted = 1;
  pack_scores =
      record {
        pack = r.pack;
        score = score;
        verdict = r.verdict;
        tier = r.tier;
        fills = r.fills;
        bundle_root = r.bundle_root;
      }
      ∷ [];
}

-- The rows without their tiers: the candidate has 75.
abbrev board : List AgentScore
board = entry (codes "bot") 577 75 candidate ∷ entry (codes "idle") 192 25 flat_run ∷ []

table-board : rank_rows table ≡ ok board
unfolding rank_rows by_agent is_seen mean_score pack_score score_agent score_agents score_rows
    total_score append_to has_survived is_dead text_eqb text_leb sort_by ◌>>=◌
table-board = refl

rank_rows-IsBoard_example :
    IsSorted ranks_first board
    × AllPairs (λ a b. a.agent ≢ b.agent) board
    × All (Scores table) board
    × All (λ row. row.is_baseline ≡ false → ¬ (All (λ entry. entry.agent ≢ row.agent) board)) table
rank_rows-IsBoard_example = rank_rows-IsBoard table board table-board

abbrev flat_rows : List ComparisonRow
flat_rows =
    row (codes "p") (codes "idle") 0 (pos 0) (pos 0) (codes "survived") false
    ∷ row (codes "q") (codes "idle") 0 (pos 0) (pos 0) (codes "survived") false
    ∷ row (codes "r") (codes "idle") 0 (pos 0) (pos 0) (codes "survived") false
    ∷ []

abbrev engaged_run : ComparisonRow
engaged_run = row (codes "p") (codes "bot") 3 (negsuc 6) (negsuc 9) (codes "survived") false

abbrev result_or {ℓ} : {A : Type ℓ} → A → Result A → A
result_or fallback (ok a) = a
result_or fallback (err e) = fallback

abbrev flat_entry : AgentScore
flat_entry = result_or (entry [] 0 0 flat_run) (score_agent (codes "idle", flat_rows))

flat_agent-outranks_example : (385 < 577) ↔ (2 * 1 < 3)
unfolding score_agent score_rows is_seen mean_score pack_score total_score has_survived is_dead
    text_eqb ◌>>=◌
flat_agent-outranks_example =
    flat_agent-outranks flat_entry (entry (codes "bot") 385 50 engaged_run) flat_rows
      (engaged_run ∷ []) refl refl (refl, (refl, (refl, tt))) (refl, tt)
