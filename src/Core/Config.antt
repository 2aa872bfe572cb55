-- ===== src/Core/Config.antt =====
-- core/config.py: the run configuration and the virtual clock. An argument that the source tests to be
-- a number of at least 0 or 1 is a natural number here once it has passed.
pub mod Roundtrip
pub mod Accepted
pub mod Clock
use wagmi_bench.Prelude.{
  ℕ, ◌+◌, ◌-◌, ◌*◌, ◌/◌, Bool, true, false, not, ◌&&◌, ◌||◌, ltb, leb, ◌==◌, if◌then◌else◌, Option,
  none, some, List, [], ◌∷◌, length, Text, codes, text_eqb, Result, ok, err, raise_if, ◌>>=◌, ◌>>◌,
  config_error,
}
use wagmi_bench.Prelude.Int.{ℤ, pos, negsuc, leb_ℤ}
use wagmi_bench.Prelude.Objects.{
  Value, null, bool, int, float, str, array, object, Values, nil, item, Members, empty, member,
  dict, find_member,
}

pub record EpisodeConfig : Type 0 where
  pub starting_nav_micro : ℤ
  pub leverage_cap_gross_lev_1e4 : ℤ
  pub drawdown_kill_switch_1e8 : ℤ
  pub lookback_bars : Option ℕ
  pub funding_prints : Option ℕ
  pub response_deadline_ms : ℕ
  pub seed : ℕ
  pub cost_profiles : List Text
  pub turnover_cap_1e8 : Option ℤ
  pub parse_failure_retries : ℕ

-- `DEFAULT_COST_PROFILES`
abbrev pub default_cost_profiles : List Text
default_cost_profiles = codes "primary" ∷ codes "stress_2x" ∷ []

unfoldable pub contains : Text → List Text → Bool
unfolding text_eqb
contains name [] = false
contains name (x ∷ xs) = text_eqb x name || contains name xs

-- `len(set(names)) == len(names)`
unfoldable pub all_differ : List Text → Bool
unfolding contains
all_differ [] = true
all_differ (x ∷ xs) = not (contains x xs) && all_differ xs

abbrev pub is_empty : Text → Bool
is_empty [] = true
is_empty (c ∷ rest) = false

unfoldable pub none_empty : List Text → Bool
none_empty [] = true
none_empty (x ∷ xs) = not (is_empty x) && none_empty xs

-- An optional field, with its least value.
abbrev pub optional_at_least : ℤ → Option ℤ → Bool
optional_at_least minimum none = true
optional_at_least minimum (some n) = leb_ℤ minimum n

abbrev pub optional_positive : Option ℕ → Bool
optional_positive none = true
optional_positive (some n) = leb 1 n

abbrev pub profiles_are_valid : List Text → Bool
profiles_are_valid profiles =
    not (length profiles == 0)
    && none_empty profiles
    && all_differ profiles
    && contains (codes "primary") profiles
    && contains (codes "stress_2x") profiles

-- The tests of `__post_init__` that the types here leave open; each raises `ConfigError`.
unfoldable pub fields_are_valid : EpisodeConfig → Bool
unfolding none_empty all_differ contains
fields_are_valid c =
    leb_ℤ (pos 1) c.starting_nav_micro
    && leb_ℤ (pos 1) c.leverage_cap_gross_lev_1e4
    && leb_ℤ (pos 1) c.drawdown_kill_switch_1e8
    && optional_positive c.lookback_bars
    && leb 1 c.response_deadline_ms
    && optional_at_least (pos 0) c.turnover_cap_1e8
    && profiles_are_valid c.cost_profiles

-- `__post_init__`
unfoldable pub post_init : EpisodeConfig → Result EpisodeConfig
unfolding fields_are_valid
post_init c = if fields_are_valid c then ok c else err config_error

-- `_required_int`
unfoldable pub required_int : ℕ → Value → Result ℕ
required_int minimum (int (pos n)) = if leb minimum n then ok n else err config_error
required_int minimum v = err config_error

-- `_optional_int`
unfoldable pub optional_int : ℕ → Value → Result (Option ℕ)
unfolding required_int
optional_int minimum null = ok none
optional_int minimum v = do n ← required_int minimum v; ok (some n)

-- `raw.get(key, default)`; a `get` without a default gives `None`.
abbrev value_or : Value → Option Value → Value
value_or fallback none = fallback
value_or fallback (some v) = v

unfoldable pub get_or : Value → Text → Members → Value
unfolding find_member
get_or fallback key raw = value_or fallback (find_member key raw)

unfoldable pub text_items : Values → Result (List Text)
text_items nil = ok []
text_items (item (str s) vs) = do rest ← text_items vs; ok (s ∷ rest)
text_items (item v vs) = err config_error

abbrev pub profiles_from : Value → Value → Result (List Text)
profiles_from null null = ok default_cost_profiles
profiles_from null (str legacy) =
    if contains legacy default_cost_profiles then ok default_cost_profiles else err config_error
profiles_from null legacy = err config_error
profiles_from (array values) legacy = text_items values
profiles_from profiles legacy = err config_error

abbrev schema_is_valid : Value → Bool
schema_is_valid null = true
schema_is_valid (str s) = text_eqb s (codes "episode_config/v1")
schema_is_valid v = false

abbrev lookback_from : Value → Result Members
lookback_from null = ok empty
lookback_from (object lookback) = ok lookback
lookback_from v = err config_error

abbrev pub option_pos : Option ℕ → Option ℤ
option_pos none = none
option_pos (some n) = some (pos n)

unfoldable pub from_mapping : Members → Result EpisodeConfig
unfolding post_init get_or contains
from_mapping raw = do
  raise_if (not (schema_is_valid (get_or null (codes "schema") raw))) config_error
  lookback ← lookback_from (get_or null (codes "lookback") raw)
  profiles ←
      profiles_from (get_or null (codes "cost_profiles") raw)
        (get_or null (codes "cost_profile") raw)
  nav ← required_int 1 (get_or (int (pos 10_000_000_000)) (codes "starting_nav_micro") raw)
  cap ← required_int 1 (get_or (int (pos 30_000)) (codes "leverage_cap_gross_lev_1e4") raw)
  kill ← required_int 1 (get_or (int (pos 20_000_000)) (codes "drawdown_kill_switch_1e8") raw)
  bars ← optional_int 1 (get_or (get_or null (codes "bars") lookback) (codes "lookback_bars") raw)
  prints ←
      optional_int 0
        (get_or (get_or null (codes "funding_prints") lookback) (codes "funding_prints") raw)
  deadline ← required_int 1 (
      get_or (get_or (int (pos 120_000)) (codes "decision_timeout_ms") raw)
        (codes "response_deadline_ms") raw)
  seed ← required_int 0 (get_or (int (pos 0)) (codes "seed") raw)
  turnover ← optional_int 0 (get_or null (codes "turnover_cap_1e8") raw)
  retries ← required_int 0 (get_or (int (pos 1)) (codes "parse_failure_retries") raw)
  post_init (record {
    starting_nav_micro = pos nav;
    leverage_cap_gross_lev_1e4 = pos cap;
    drawdown_kill_switch_1e8 = pos kill;
    lookback_bars = bars;
    funding_prints = prints;
    response_deadline_ms = deadline;
    seed = seed;
    cost_profiles = profiles;
    turnover_cap_1e8 = option_pos turnover;
    parse_failure_retries = retries;
  })

abbrev pub optional_value : Option ℕ → Value
optional_value none = null
optional_value (some n) = int (pos n)

abbrev pub optional_int_value : Option ℤ → Value
optional_int_value none = null
optional_int_value (some n) = int n

-- `list(self.cost_profiles)`
unfoldable pub text_values : List Text → Values
text_values [] = nil
text_values (x ∷ xs) = item (str x) (text_values xs)

-- `to_run_config`
unfoldable pub to_run_config : EpisodeConfig → Members
unfolding text_values
to_run_config c = dict (
    (codes "lookback_bars", optional_value c.lookback_bars)
    ∷ (codes "funding_prints", optional_value c.funding_prints)
    ∷ (codes "response_deadline_ms", int (pos c.response_deadline_ms))
    ∷ (codes "seed", int (pos c.seed))
    ∷ (codes "cost_profiles", array (text_values c.cost_profiles))
    ∷ (codes "starting_nav_micro", int c.starting_nav_micro)
    ∷ (codes "leverage_cap_gross_lev_1e4", int c.leverage_cap_gross_lev_1e4)
    ∷ (codes "drawdown_kill_switch_1e8", int c.drawdown_kill_switch_1e8)
    ∷ (codes "turnover_cap_1e8", optional_int_value c.turnover_cap_1e8)
    ∷ [])

-- `EffectiveLookback`
pub record EffectiveLookback : Type 0 where
  pub bars : ℕ
  pub funding_prints : ℕ

abbrev given_or : Option ℕ → ℕ → ℕ
given_or none n = n
given_or (some given) n = given

-- `effective_lookback`
unfoldable pub effective_lookback : EpisodeConfig → ℕ → ℕ → Result EffectiveLookback
unfolding ◌>>=◌
effective_lookback c pack_bars pack_funding_prints = do
  let bars = given_or c.lookback_bars pack_bars
  raise_if (not (leb 1 bars)) config_error
  ok (record { bars = bars; funding_prints = given_or c.funding_prints pack_funding_prints })

unfoldable pub all_available : List Text → List Text → Bool
unfolding contains
all_available available [] = true
all_available available (x ∷ xs) = contains x available && all_available available xs

-- `validate_cost_profiles`, on the names that the pack declares.
abbrev pub validate_cost_profiles : EpisodeConfig → List Text → Result (Unit {0})
validate_cost_profiles c available =
    raise_if (not (all_available available c.cost_profiles)) config_error
