-- ===== src/Report/Score/Agents.antt =====
-- report/score.py: the dictionary of the candidates of each agent, against a filter of the rows.
use mathlib.Core.List.{append-nil}
use wagmi_bench.Prelude.{
  Bool, true, false, not, ◌&&◌, if◌then◌else◌, List, [], ◌∷◌, ◌++◌, ◌≡◌, ◌≢◌, refl, sym, ◌∙◌, inl,
  inr, arith, All, All-map_pred, All-zip, AllPairs, append_assoc, Text, text_eqb, text_eqb_iff,
  Bool-cases,
}
use wagmi_bench.Report.Compare.{ComparisonRow, Groups, append_to, group}
use wagmi_bench.Report.Compare.Bar.{group-append_to}
use wagmi_bench.Report.Score.{by_agent}

-- The runs of an agent that are no baselines, in the order of the rows.
abbrev pub runs_of : Text → List ComparisonRow → List ComparisonRow
runs_of agent [] = []
runs_of agent (row ∷ rows) =
    let rest = runs_of agent rows in
    if not row.is_baseline && text_eqb row.agent agent then row ∷ rest else rest

by_agent-group :
    (agent : Text) (rows : List ComparisonRow) (grouped : Groups ComparisonRow)
    → group agent (by_agent rows grouped) ≡ group agent grouped ++ runs_of agent rows
unfolding by_agent
by_agent-group agent [] grouped = sym (append-nil (group agent grouped))
by_agent-group agent (row ∷ rows) grouped = ground (
  arith,
  group-append_to agent row.agent row grouped,
  by_agent-group agent rows grouped,
  by_agent-group agent rows (append_to row.agent row grouped),
  append_assoc (group agent grouped) (row ∷ []) (runs_of agent rows),
)

-- The keys of a dictionary differ.
abbrev pub KeysApart : Groups ComparisonRow → Type 0
KeysApart groups = AllPairs (λ a b. a.0 ≢ b.0) groups

append_to-others :
    (P : Text → Type 0) (key : Text) (row : ComparisonRow) (groups : Groups ComparisonRow)
    → P key
    → All (λ g. P g.0) groups
    → All (λ g. P g.0) (append_to key row groups)
unfolding append_to
append_to-others P key row [] h k = (h, tt)
append_to-others P key row ((k', values) ∷ rest) h k = elim (Bool-cases (text_eqb k' key)) [
  | inl e ↦ rw e k
  | inr e ↦ rw e (k.0, append_to-others P key row rest h k.1)
]

append_to-KeysApart :
    (key : Text) (row : ComparisonRow) (groups : Groups ComparisonRow)
    → KeysApart groups
    → KeysApart (append_to key row groups)
unfolding append_to
append_to-KeysApart key row [] h = (tt, tt)
append_to-KeysApart key row ((k', values) ∷ rest) h = elim (Bool-cases (text_eqb k' key)) [
  | inl e ↦ rw e h
  | inr e ↦ rw e (
    append_to-others (λ k. k' ≢ k) key row rest
        (λ same. ground (arith, (text_eqb_iff k' key).1 same)) h.0,
    append_to-KeysApart key row rest h.1,
  )
]

if-KeysApart :
    (b : Bool) (x y : Groups ComparisonRow)
    → KeysApart x
    → KeysApart y
    → KeysApart (if b then x else y)
if-KeysApart true x y h k = h
if-KeysApart false x y h k = k

pub by_agent-KeysApart :
    (rows : List ComparisonRow) (grouped : Groups ComparisonRow)
    → KeysApart grouped
    → KeysApart (by_agent rows grouped)
unfolding by_agent
by_agent-KeysApart [] grouped h = h
by_agent-KeysApart (row ∷ rows) grouped h =
    by_agent-KeysApart rows _
      (if-KeysApart row.is_baseline grouped _ h (append_to-KeysApart row.agent row grouped h))

-- With different keys, each entry is what its key reads.
entries-group :
    (groups : Groups ComparisonRow) → KeysApart groups → All (λ g. group g.0 groups ≡ g.1) groups
unfolding group
entries-group [] h = tt
entries-group ((k, values) ∷ rest) h = (
  rw ((text_eqb_iff k k).1 refl) refl,
  All-map_pred _ _ rest
      (λ g (apart, same). elim (Bool-cases (text_eqb k g.0)) [
        | inl e ↦ absurd (apart ((text_eqb_iff k g.0).0 e))
        | inr e ↦ rw e same
      ])
      (All-zip _ _ rest h.0 (entries-group rest h.1)),
)

absent-group :
    (key : Text) (groups : Groups ComparisonRow)
    → All (λ g. g.0 ≢ key) groups
    → group key groups ≡ []
unfolding group
absent-group key [] h = refl
absent-group key ((k, values) ∷ rest) h = elim (Bool-cases (text_eqb k key)) [
  | inl e ↦ absurd (h.0 ((text_eqb_iff k key).0 e))
  | inr e ↦ rw e (absent-group key rest h.1)
]

runs_of-cons :
    (agent : Text) (row : ComparisonRow) (rows : List ComparisonRow)
    → runs_of agent rows ≢ []
    → runs_of agent (row ∷ rows) ≢ []
runs_of-cons agent row rows h e = ground arith

runs_of-own :
    (rows : List ComparisonRow)
    → All (λ row. row.is_baseline ≡ false → runs_of row.agent rows ≢ []) rows
runs_of-own [] = tt
runs_of-own (row ∷ rows) = (
  (λ b e. ground (arith, (text_eqb_iff row.agent row.agent).1 refl)),
  All-map_pred _ _ rows (λ r h b. runs_of-cons r.agent row rows (h b)) (runs_of-own rows),
)

-- What the groups of the rows are.
pub by_agent-runs :
    (rows : List ComparisonRow) → All (λ g. runs_of g.0 rows ≡ g.1) (by_agent rows [])
unfolding group
by_agent-runs rows =
    All-map_pred _ _ _ (λ g same. sym (by_agent-group g.0 rows []) ∙ same)
      (entries-group (by_agent rows []) (by_agent-KeysApart rows [] tt))

-- Each candidate is in a group.
pub by_agent_complete :
    (rows : List ComparisonRow)
    → All (λ row. row.is_baseline ≡ false → ¬ (All (λ g. g.0 ≢ row.agent) (by_agent rows []))) rows
unfolding group
by_agent_complete rows =
    All-map_pred _ _ rows
      (λ row h b absent.
        h b (
          sym (by_agent-group row.agent rows [])
          ∙ absent-group row.agent (by_agent rows []) absent))
      (runs_of-own rows)
