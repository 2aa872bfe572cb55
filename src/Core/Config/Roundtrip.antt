-- ===== src/Core/Config/Roundtrip.antt =====
-- core/config.py, what `from_mapping` accepts, and how it reads `to_run_config`.
use wagmi_bench.Prelude.{
  ℕ, ◌≤◌, ◌≡◌, refl, true, Option, none, some, List, [], ◌∷◌, Text, ok, err, Ensures-eq-ok, Keeps,
  Keeps-ok, Keeps-if, Keeps-any, ◌>>=◌, config_error, arith,
}
use wagmi_bench.Prelude.Int.{ℤ, pos, negsuc, pos_part, ◌≤ℤ◌}
use wagmi_bench.Prelude.Objects.{int, Members}
use wagmi_bench.Core.Config.{
  EpisodeConfig, optional_at_least, optional_positive, profiles_are_valid, fields_are_valid,
  post_init, optional_value, optional_int_value, required_int, optional_int, get_or, text_items,
  option_pos, from_mapping, text_values, to_run_config,
}

-- What `__post_init__` establishes.
abbrev pub IsValidConfig : EpisodeConfig → Type 0
IsValidConfig c =
    (pos 1 ≤ℤ c.starting_nav_micro)
    × (pos 1 ≤ℤ c.leverage_cap_gross_lev_1e4)
    × (pos 1 ≤ℤ c.drawdown_kill_switch_1e8)
    × (optional_positive c.lookback_bars ≡ true)
    × (1 ≤ c.response_deadline_ms)
    × (optional_at_least (pos 0) c.turnover_cap_1e8 ≡ true)
    × (profiles_are_valid c.cost_profiles ≡ true)

text_items-text_values : (l : List Text) → text_items (text_values l) ≡ ok l
unfolding text_items text_values ◌>>=◌
text_items-text_values [] = refl
text_items-text_values (x ∷ l) = rw (text_items-text_values l)

fields_are_valid-IsValidConfig : (c : EpisodeConfig) → fields_are_valid c ≡ true → IsValidConfig c
unfolding fields_are_valid
fields_are_valid-IsValidConfig c h = ground arith

IsValidConfig-fields_are_valid : (c : EpisodeConfig) → IsValidConfig c → fields_are_valid c ≡ true
unfolding fields_are_valid
IsValidConfig-fields_are_valid c h = ground arith

required_int-natural : (m n : ℕ) → m ≤ n → required_int m (int (pos n)) ≡ ok n
unfolding required_int
required_int-natural m n h = ground arith

required_int-positive :
    (z : ℤ) → pos 1 ≤ℤ z → (required_int 1 (int z) ≡ ok (pos_part z)) × (pos (pos_part z) ≡ z)
required_int-positive (pos n) h = (required_int-natural 1 n (omega arith), refl)
required_int-positive (negsuc n) h = absurd (omega arith)

optional_int-optional_value :
    (m : ℕ) (o : Option ℕ)
    → ((n : ℕ) → o ≡ some n → m ≤ n)
    → optional_int m (optional_value o) ≡ ok o
unfolding optional_int ◌>>=◌
optional_int-optional_value m none h = refl
optional_int-optional_value m (some n) h = rw (required_int-natural m n (h n refl))

optional_int-turnover :
    (o : Option ℤ)
    → optional_at_least (pos 0) o ≡ true
    → (n : Option ℕ) × (optional_int 0 (optional_int_value o) ≡ ok n) × (option_pos n ≡ o)
unfolding optional_int ◌>>=◌
optional_int-turnover none h = (none, refl, refl)
optional_int-turnover (some (pos n)) h = (some n, rw (required_int-natural 0 n (omega arith)), refl)
optional_int-turnover (some (negsuc n)) h = absurd (ground arith)

optional-positive : (o : Option ℕ) → optional_positive o ≡ true → (n : ℕ) → o ≡ some n → 1 ≤ n
optional-positive none h n e = cc
optional-positive (some m) h n e = ground arith

post_init-same : (b c : EpisodeConfig) → b ≡ c → fields_are_valid c ≡ true → post_init b ≡ ok c
unfolding post_init
post_init-same b c e h = rw (e, h)

post_init-Keeps : (c : EpisodeConfig) → Keeps IsValidConfig (post_init c)
unfolding post_init
post_init-Keeps c =
    Keeps-if (fields_are_valid c) (ok c) (err config_error)
      (λ h. Keeps-ok (fields_are_valid-IsValidConfig c h)) (λ h. record { holds = tt })

-- A configuration that `from_mapping` returns has a positive starting NAV, leverage cap,
-- kill-switch level and deadline, a positive bar lookback if any, a turnover cap from zero up if
-- any, and distinct non-empty cost profiles with both that are required.
pub from_mapping-IsValidConfig :
    (raw : Members) (c : EpisodeConfig) → from_mapping raw ≡ ok c → IsValidConfig c
unfolding from_mapping
from_mapping-IsValidConfig raw c e =
    let kept : Keeps IsValidConfig (from_mapping raw) = Keeps-any (λ a e. Keeps-any (λ lookback e.
      Keeps-any (λ profiles e. Keeps-any (λ nav e. Keeps-any (λ cap e. Keeps-any (λ kill e.
        Keeps-any (λ bars e. Keeps-any (λ prints e. Keeps-any (λ deadline e. Keeps-any (λ seed e.
          Keeps-any (λ turnover e. Keeps-any (λ retries e. post_init-Keeps (record {
            starting_nav_micro = pos nav;
            leverage_cap_gross_lev_1e4 = pos cap;
            drawdown_kill_switch_1e8 = pos kill;
            lookback_bars = bars;
            funding_prints = prints;
            response_deadline_ms = deadline;
            seed = seed;
            cost_profiles = profiles;
            turnover_cap_1e8 = option_pos turnover;
            parse_failure_retries = retries;
          }))))))))))))) in
    Ensures-eq-ok IsValidConfig (from_mapping raw) kept.holds e

-- `from_mapping` reads a valid configuration back from its `to_run_config`, with the retries, which
-- are left out of it, at their default of 1.
pub from_mapping-to_run_config :
    (c : EpisodeConfig)
    → IsValidConfig c
    → from_mapping (to_run_config c) ≡ ok (record c { parse_failure_retries = 1 })
unfolding from_mapping to_run_config ◌>>=◌ get_or required_int optional_int text_items
from_mapping-to_run_config c h =
    let valid = IsValidConfig-fields_are_valid c h in
    let (nav, cap, kill, bars, deadline, turn, profiles) = h in
    let (rn, en) = required_int-positive c.starting_nav_micro nav in
    let (rc, ec) = required_int-positive c.leverage_cap_gross_lev_1e4 cap in
    let (rk, ek) = required_int-positive c.drawdown_kill_switch_1e8 kill in
    let (t, rt, et) = optional_int-turnover c.turnover_cap_1e8 turn in
    let built : EpisodeConfig = record c {
      starting_nav_micro = pos (pos_part c.starting_nav_micro);
      leverage_cap_gross_lev_1e4 = pos (pos_part c.leverage_cap_gross_lev_1e4);
      drawdown_kill_switch_1e8 = pos (pos_part c.drawdown_kill_switch_1e8);
      turnover_cap_1e8 = option_pos t;
      parse_failure_retries = 1;
    } in
    rw
      (
        text_items-text_values c.cost_profiles,
        rn,
        rc,
        rk,
        optional_int-optional_value 1 c.lookback_bars (optional-positive c.lookback_bars bars),
        optional_int-optional_value 0 c.funding_prints (λ n e. omega arith),
        required_int-natural 1 c.response_deadline_ms deadline,
        required_int-natural 0 c.seed (omega arith),
        rt,
      )
      (post_init-same built (record c { parse_failure_retries = 1 }) (rw (en, ec, ek, et)) valid)
