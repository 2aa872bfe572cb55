-- ===== src/Report/Score/Board.antt =====
-- report/score.py: the board against its rows, read without the dictionary of agents.
use mathlib.Core.List.{Permᴰ}
use mathlib.Core.List.Permᴰ
use wagmi_bench.Prelude.{
  false, List, [], ◌∷◌, map, ◌≡◌, ◌≢◌, ◌↔◌, refl, subst, sym, ap, arith, All, All-perm,
  All-map_pred, AllPairs, AllPairs-perm, Text, by_key, by_key-IsPreorder, sort_by, sort_by-perm,
  sort_by-IsSorted, IsSorted, IsPreorder, ok, raise_if, report_error, >>=-ok, >>-ok, ok-injective,
}
use wagmi_bench.Report.Compare.{ComparisonRow, Groups}
use wagmi_bench.Report.Score.Agents.{
  KeysApart, runs_of, by_agent-KeysApart, by_agent-runs, by_agent_complete,
}
use wagmi_bench.Report.Score.{
  AgentScore, by_agent, score_rows, score_agent, score_agents, ranks_first, agent_key, is_nil,
  rank_rows,
}

-- Each entry scores the runs of its agent.
abbrev pub Scores : List ComparisonRow → AgentScore → Type 0
Scores rows entry = score_agent (entry.agent, runs_of entry.agent rows) ≡ ok entry

score_agent-agent :
    (g : Text × List ComparisonRow) (entry : AgentScore)
    → score_agent g ≡ ok entry
    → entry.agent ≡ g.0
unfolding score_agent
score_agent-agent (agent, rows) entry e =
    let (scores, s, t) = >>=-ok (score_rows [] rows) _ entry e in
    ap (λ a. a.agent) (sym (ok-injective t))

-- A property of the agents carries over from the groups, and each entry is made from its group.
score_agents-entries :
    (P : Text × List ComparisonRow → Type 0) (groups : Groups ComparisonRow)
    (entries : List AgentScore)
    → score_agents groups ≡ ok entries
    → All P groups
    → All (λ entry. (g : Text × List ComparisonRow) × P g × (score_agent g ≡ ok entry)) entries
unfolding score_agents
score_agents-entries P [] entries e h = subst (All _) (ok-injective e) tt
score_agents-entries P (g ∷ groups) entries e h =
    let (entry, s, t) = >>=-ok (score_agent g) _ entries e in
    let (others, u, v) = >>=-ok (score_agents groups) _ entries t in
    subst (All _) (ok-injective v) ((g, h.0, s), score_agents-entries P groups others u h.1)

score_agents-agents :
    (groups : Groups ComparisonRow) (entries : List AgentScore)
    → score_agents groups ≡ ok entries
    → map (λ entry. entry.agent) entries ≡ map (λ g. g.0) groups
unfolding score_agents
score_agents-agents [] entries e = rw (← ok-injective e) refl
score_agents-agents (g ∷ groups) entries e =
    let (entry, s, t) = >>=-ok (score_agent g) _ entries e in
    let (others, u, v) = >>=-ok (score_agents groups) _ entries t in
    rw (← ok-injective v, score_agent-agent g entry s, score_agents-agents groups others u) refl

module _ {ℓ κ μ} {A : Type ℓ} {B : Type κ} (f : A → B) where
  All-map : (P : B → Type μ) (xs : List A) → All (λ a. P (f a)) xs ↔ All P (map f xs)
  All-map P [] = (λ h. h, λ h. h)
  All-map P (x ∷ xs) = (λ h. (h.0, (All-map P xs).0 h.1), λ h. (h.0, (All-map P xs).1 h.1))

  AllPairs-map :
      (R : B → B → Type μ) (xs : List A)
      → AllPairs (λ a b. R (f a) (f b)) xs ↔ AllPairs R (map f xs)
  AllPairs-map R [] = (λ h. h, λ h. h)
  AllPairs-map R (x ∷ xs) = (
    λ h. ((All-map (R (f x)) xs).0 h.0, (AllPairs-map R xs).0 h.1),
    λ h. ((All-map (R (f x)) xs).1 h.0, (AllPairs-map R xs).1 h.1),
  )

ranks_first-IsPreorder : IsPreorder ranks_first
ranks_first-IsPreorder =
    let o = by_key-IsPreorder (λ (entry : AgentScore). entry.agent) in
    record {
      total = λ a b h. ground (arith, o.total a b);
      trans = λ a b c h k. ground (arith, o.trans a b c);
    }

-- The entries of the groups of the rows.
entries-Scores :
    (rows : List ComparisonRow) (groups : Groups ComparisonRow) (entries : List AgentScore)
    → All (λ g. runs_of g.0 rows ≡ g.1) groups
    → score_agents groups ≡ ok entries
    → All (Scores rows) entries
entries-Scores rows groups entries h e =
    All-map_pred _ _ entries
      (λ entry (g, same, scored).
        let named = score_agent-agent g entry scored in
        let made = subst (λ runs. score_agent (g.0, runs) ≡ ok entry) (sym same) scored in
        subst (λ a. score_agent (a, runs_of a rows) ≡ ok entry) (sym named) made)
      (score_agents-entries (λ g. runs_of g.0 rows ≡ g.1) groups entries e h)

-- The agents of a board are those of its groups.
module _ {board entries : List AgentScore} {groups grouped : Groups ComparisonRow}
    (order : Permᴰ board entries)
    (agents : map (λ entry. entry.agent) entries ≡ map (λ g. g.0) groups)
    (named : Permᴰ groups grouped) where
  board-Apart : KeysApart grouped → AllPairs (λ a b. a.agent ≢ b.agent) board
  board-Apart apart =
      let sorted = AllPairs-perm _ (λ a b k e. k (sym e)) (Permᴰ.symm named) apart in
      let keys = (AllPairs-map (λ g. g.0) (λ a b. a ≢ b) groups).0 sorted in
      let names = subst (AllPairs (λ a b. a ≢ b)) (sym agents) keys in
      AllPairs-perm _ (λ a b k e. k (sym e)) (Permᴰ.symm order)
        ((AllPairs-map (λ entry. entry.agent) (λ a b. a ≢ b) entries).1 names)

  board-absent : (P : Text → Type 0) → All (λ entry. P entry.agent) board → All (λ g. P g.0) grouped
  board-absent P h =
      let names = (All-map (λ entry. entry.agent) P entries).0 (All-perm _ order h) in
      All-perm _ named ((All-map (λ g. g.0) P groups).1 (subst (All P) agents names))

-- A score board that is returned is ranked by score and then by name, names each agent once, has
-- for each the entry that its own rows score to, and misses no agent that has a row other than a
-- baseline.
pub rank_rows-IsBoard :
    (rows : List ComparisonRow) (board : List AgentScore)
    → rank_rows rows ≡ ok board
    → IsSorted ranks_first board
      × AllPairs (λ a b. a.agent ≢ b.agent) board
      × All (Scores rows) board
      × All (λ row. row.is_baseline ≡ false → ¬ (All (λ entry. entry.agent ≢ row.agent) board)) rows
unfolding rank_rows
rank_rows-IsBoard rows board e =
    let grouped = by_agent rows [] in
    let apart = by_agent-KeysApart rows [] tt in
    let named = sort_by-perm (by_key agent_key) grouped in
    let groups = sort_by (by_key agent_key) grouped in
    let rest = >>-ok (raise_if (is_nil grouped) report_error) _ board e in
    let (entries, scored, ranked) = >>=-ok (score_agents groups) _ board rest in
    let agents = score_agents-agents groups entries scored in
    let order = sort_by-perm ranks_first entries in
    subst
      (λ b.
        IsSorted ranks_first b
        × AllPairs (λ x y. x.agent ≢ y.agent) b
        × All (Scores rows) b
        × All (λ row. row.is_baseline ≡ false → ¬ (All (λ entry. entry.agent ≢ row.agent) b)) rows)
      (ok-injective ranked)
      (
        sort_by-IsSorted ranks_first ranks_first-IsPreorder entries,
        board-Apart order agents named apart,
        All-perm (Scores rows) (Permᴰ.symm order) (
            entries-Scores rows groups entries (All-perm _ (Permᴰ.symm named) (by_agent-runs rows))
              scored),
        All-map_pred _ _ rows
            (λ row h b none. h b (board-absent order agents named (λ a. a ≢ row.agent) none))
            (by_agent_complete rows),
      )
