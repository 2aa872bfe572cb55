-- ===== src/Report/Score/Outrank.antt =====
-- report/score.py: how an agent that holds flat compares with one that is engaged.
use wagmi_bench.Prelude.{
  ℕ, ◌*◌, ◌<◌, List, [], ◌∷◌, length, ◌≡◌, ◌↔◌, refl, sym, ◌∙◌, arith, All, Text, ok, raise_if,
  >>=-ok, >>-ok, ok-injective, report_error,
}
use wagmi_bench.Report.Compare.{ComparisonRow}
use wagmi_bench.Report.Score.{
  PackScore, AgentScore, is_seen, pack_score, score_rows, total_score, mean_score, score_agent,
}

total_score-rung :
    (rung : ℕ) (seen : List Text) (rows : List ComparisonRow) (scores : List PackScore)
    → All (λ row. pack_score row ≡ ok rung) rows
    → score_rows seen rows ≡ ok scores
    → total_score scores ≡ rung * length scores
unfolding score_rows total_score
total_score-rung rung seen [] scores h e = rw (← ok-injective e) (omega arith)
total_score-rung rung seen (row ∷ rows) scores h e =
    let step = >>-ok (raise_if (is_seen row.pack seen) report_error) _ scores e in
    let (score, s, t) = >>=-ok (pack_score row) _ scores step in
    let (rest, u, v) = >>=-ok (score_rows (row.pack ∷ seen) rows) _ scores t in
    let same = ok-injective (sym s ∙ h.0) in
    let others = total_score-rung rung (row.pack ∷ seen) rows rest h.1 u in
    rw (← ok-injective v, same, others) (grind arith)

score_agent-rung :
    (rung : ℕ) (agent : Text) (rows : List ComparisonRow) (entry : AgentScore)
    → All (λ row. pack_score row ≡ ok rung) rows
    → score_agent (agent, rows) ≡ ok entry
    → entry.wagmi_score ≡ mean_score (rung * entry.packs_attempted)
unfolding score_agent
score_agent-rung rung agent rows entry h e =
    let (scores, s, t) = >>=-ok (score_rows [] rows) _ entry e in
    let total = total_score-rung rung [] rows scores h s in rw (← ok-injective t, total) refl

-- If every row of one agent scores 25 and every row of another scores 50, then the first has the
-- higher mean exactly if it attempted more than twice as many packs.
pub flat_agent-outranks :
    (flat engaged : AgentScore) (flat_rows engaged_rows : List ComparisonRow)
    → score_agent (flat.agent, flat_rows) ≡ ok flat
    → score_agent (engaged.agent, engaged_rows) ≡ ok engaged
    → All (λ row. pack_score row ≡ ok 25) flat_rows
    → All (λ row. pack_score row ≡ ok 50) engaged_rows
    → (engaged.wagmi_score < flat.wagmi_score)
      ↔ (2 * engaged.packs_attempted < flat.packs_attempted)
unfolding mean_score
flat_agent-outranks flat engaged flat_rows engaged_rows s t h k =
    let low = score_agent-rung 25 flat.agent flat_rows flat h s in
    let high = score_agent-rung 50 engaged.agent engaged_rows engaged k t in
    (λ l. omega (arith, low, high), λ l. omega (arith, low, high))
