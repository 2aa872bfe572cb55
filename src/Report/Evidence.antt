-- ===== src/Report/Evidence.antt =====
-- report/generator.py, what the tables read of a bundle that `_load_evidence` has loaded: documents
-- of decoded JSON, each read with a test of its type.
use wagmi_bench.Prelude.{
  ℕ, ◌+◌, ◌-◌, Bool, false, ◌&&◌, leb, ◌==◌, if◌then◌else◌, Option, some, List, [], ◌∷◌, ◌++◌,
  length, Text, codes, text_eqb, Result, ok, err, report_error, ◌>>=◌,
}
use wagmi_bench.Prelude.Int.{ℤ, pos, ◌+ℤ◌}
use wagmi_bench.Prelude.Objects.{Value, int, str, array, object, Members, values_list, find_member}

-- `_PROFILE_ORDER`
pub data CostProfile : Type 0 where
  primary stress_2x : CostProfile

-- `_Evidence`, without the observations, the raw replies and the directory.
pub record Evidence : Type 0 where
  pub bundle_root : Text
  pub manifest : Members
  pub agent_manifest : Members
  pub metrics : Members
  pub profiles : CostProfile → Members
  pub invariant : Members
  pub events : List Members
  pub decisions : List Members
  pub primary_ledger : List Members
  pub stress_ledger : List Members

-- The types that `_as_object`, `_as_list`, `_as_str` and `_as_int` ask for: `None`, the value of a
-- key that is not there, has none of them, and a Boolean is not an integer.
unfoldable pub as_object : Option Value → Result Members
as_object (some (object members)) = ok members
as_object other = err report_error

unfoldable pub as_list : Option Value → Result (List Value)
as_list (some (array values)) = ok (values_list values)
as_list other = err report_error

unfoldable pub as_str : Option Value → Result Text
as_str (some (str text)) = ok text
as_str other = err report_error

unfoldable pub as_int : Option Value → Result ℤ
as_int (some (int n)) = ok n
as_int other = err report_error

-- `_pack_id`
unfoldable pub pack_id : Evidence → Result Text
unfolding ◌>>=◌
pack_id evidence = do
  pack ← as_object (find_member (codes "pack") evidence.manifest)
  as_str (find_member (codes "pack_id") pack)

-- `_run_id`
unfoldable pub run_id_of : Evidence → Result Text
run_id_of evidence = as_str (find_member (codes "run_id") evidence.manifest)

-- `_agent_label`
unfoldable pub agent_label : Evidence → Result Text
unfolding ◌>>=◌
agent_label evidence = do
  name ← as_str (find_member (codes "name") evidence.agent_manifest)
  model ← as_str (find_member (codes "model_id") evidence.agent_manifest)
  ok (name ++ codes " (" ++ model ++ codes ")")

-- `metrics.profile_invariant.survival_verdict`
unfoldable pub survival_verdict_of : Evidence → Result Text
survival_verdict_of evidence = as_str (find_member (codes "survival_verdict") evidence.invariant)

-- `value.replace("_", " ").upper()`, of ASCII text: the schema of a bundle allows three verdicts.
abbrev upper : ℕ → ℕ
upper c = if c == 95 then 32 else if leb 97 c && leb c 122 then c - 32 else c

unfoldable pub spaced_upper : Text → Text
spaced_upper [] = []
spaced_upper (c ∷ rest) = upper c ∷ spaced_upper rest

-- `_verdict`
unfoldable pub verdict_of : Evidence → Result Text
unfolding ◌>>=◌
verdict_of evidence = do value ← survival_verdict_of evidence; ok (spaced_upper value)

-- `_execution_counts`, from the counts so far: fills, then cancels.
unfoldable pub count_executions : List Members → ℕ → ℕ → Result (ℕ × ℕ)
unfolding ◌>>=◌
count_executions [] fills cancels = ok (fills, cancels)
count_executions (decision ∷ decisions) fills cancels = do
  happened ← as_object (find_member (codes "happened") decision)
  filled ← as_list (find_member (codes "fills") happened)
  cancelled ← as_list (find_member (codes "cancels") happened)
  count_executions decisions (fills + length filled) (cancels + length cancelled)

unfoldable pub execution_counts : Evidence → Result (ℕ × ℕ)
execution_counts evidence = count_executions evidence.decisions 0 0

-- `_is_flat_hold`: the verdict is read only if there is no fill.
unfoldable pub is_flat_hold : Evidence → Result Bool
unfolding ◌>>=◌
is_flat_hold evidence = execution_counts evidence >>= λ counts.
    if counts.0 == 0
    then (verdict_of evidence >>= λ verdict. ok (text_eqb verdict (codes "SURVIVED")))
    else ok false

-- `_display_verdict`, with its dash.
unfoldable pub display_verdict : Evidence → Result Text
unfolding ◌>>=◌
display_verdict evidence = do
  verdict ← verdict_of evidence
  flat ← is_flat_hold evidence
  ok (if flat then verdict ++ codes " " ++ 8212 ∷ codes " FLAT-HOLD" else verdict)

-- The sum of the fields of `_discipline_events`.
unfoldable pub sum_fields : Members → List Text → ℤ → Result ℤ
unfolding ◌>>=◌
sum_fields invariant [] total = ok total
sum_fields invariant (field ∷ fields) total = do
  count ← as_int (find_member field invariant)
  sum_fields invariant fields (total +ℤ count)

abbrev discipline_fields : List Text
discipline_fields =
    codes "invalid_actions"
    ∷ codes "missed_decisions"
    ∷ codes "gate_blocks"
    ∷ codes "post_kill_switch_attempts"
    ∷ codes "egress_blocked_count"
    ∷ []

-- `_discipline_events`
unfoldable pub discipline_events : Evidence → Result ℤ
discipline_events evidence = sum_fields evidence.invariant discipline_fields (pos 0)
