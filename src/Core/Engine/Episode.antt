-- ===== src/Core/Engine/Episode.antt =====
-- core/engine.py, `_run_profile` and `run_episode`.
pub mod Replay
pub mod KillSwitch
pub mod Quiet
pub mod Trace
use wagmi_bench.Prelude.{
  Text, codes, ℕ, zero, suc, ◌+◌, ◌==◌, Bool, true, false, not, Option, none, some, List, [], ◌∷◌,
  ◌++◌, get_elem?, reverse_onto, if◌then◌else◌, Result, ok, err, raise_if, or_raise, engine_error,
  ◌>>=◌, ◌>>◌,
}
use wagmi_bench.Prelude.Int.{ℤ, pos, negsuc}
use wagmi_bench.Core.Config.{EpisodeConfig}
use wagmi_bench.Core.Pack.{Mapping, get, MarketData, PackData, bars_total, clock_real_ts}
use wagmi_bench.Core.Engine.State.{new_account, new_counters, Snapshot, TurnDecision, Run}
use wagmi_bench.Core.Engine.Valuation.{snapshot}
use wagmi_bench.Core.Engine.Order.{Context}
use wagmi_bench.Core.Engine.Turn.{turn_step}

-- The arguments of `_run_profile` that stay fixed, and its market. A decision comes from the agent
-- or from a recorded trace, by turn.
pub record Profile : Type 0 where
  pub pack : PackData
  pub config : EpisodeConfig
  pub alias : Text
  pub market : MarketData
  pub multiplier : ℤ
  pub decide : ℕ → Result TurnDecision
  pub replays : Bool

abbrev pub context : Profile → ℕ → ℤ → Context
context p turn ts = record {
  pack = p.pack;
  config = p.config;
  alias = p.alias;
  market = p.market;
  multiplier = p.multiplier;
  turn = turn;
  decision_abs = p.pack.warmup_bars + turn;
  decision_ts = ts;
}

-- `run.decisions.append(decision)`, if no trace is replayed.
unfoldable pub keep_decision : Bool → TurnDecision → Run → Run
keep_decision true decision run = run
keep_decision false decision run = record run { decisions = run.decisions ++ decision ∷ [] }

unfoldable pub play_turn : Profile → ℕ → Run → Result Run
unfolding keep_decision
play_turn p turn run = do
  ts ← clock_real_ts p.pack turn
  decision ← p.decide turn
  turn_step (context p turn ts) decision (keep_decision p.replays decision run)

-- `for turn in range(pack.bars_total): if terminal: break; ...`, on the number of turns left.
unfoldable pub play : Profile → ℕ → ℕ → Run → Result Run
play p zero turn run = ok run
play p (suc left) turn run = elim run.terminal [
  | true ↦ ok run
  | false ↦ play_turn p turn run >>= λ next. play p left (turn + 1) next
]

-- The run before the first turn.
abbrev pub first_run : Profile → Bool → Snapshot → Run
first_run p collect first = record {
  account = new_account p.config.starting_nav_micro;
  latest = first;
  earlier = [];
  events = [];
  decisions = [];
  counters = new_counters;
  terminal = false;
  last_turn = negsuc 0;
  collect = collect;
}

unfoldable pub start_run : Profile → Bool → Result Run
start_run p collect = do
  ts ← clock_real_ts p.pack 0
  first ← snapshot (new_account p.config.starting_nav_micro) p.market p.pack.warmup_bars 0 ts
  ok (first_run p collect first)

-- `run.snapshots`, oldest first.
unfoldable pub snapshots : Run → List Snapshot
snapshots run = reverse_onto (run.latest ∷ run.earlier) []

unfoldable pub run_turns : Profile → Bool → Result Run
run_turns p collect = do run ← start_run p collect; total ← bars_total p.pack; play p total 0 run

-- `pack.market_aliases` of exactly one market.
only_market : Mapping MarketData → Result (Text × MarketData)
only_market ((alias, market) ∷ []) = ok (alias, market)
only_market _ = err engine_error

-- `_run_profile`
unfoldable pub run_profile :
    PackData → EpisodeConfig → Text → (ℕ → Result TurnDecision) → Bool → Bool → Result Run
unfolding only_market
run_profile pack config profile decide replays collect =
    only_market pack.markets >>= λ (alias, market).
    or_raise (get profile market.spec.cost_profile_multipliers_1e4) engine_error >>= λ multiplier.
    run_turns
      (record {
        pack = pack;
        config = config;
        alias = alias;
        market = market;
        multiplier = multiplier;
        decide = decide;
        replays = replays;
      })
      collect

-- `replay_decisions[turn]`, or the error that the recorded trace is too short.
unfoldable pub replay : List TurnDecision → ℕ → Result TurnDecision
replay decisions turn = or_raise (get_elem? decisions turn) engine_error

-- The two simulations of `run_episode`: the agent plays the primary profile, and its decisions are
-- replayed under doubled costs.
unfoldable pub run_episode : PackData → EpisodeConfig → (ℕ → TurnDecision) → Result (Run × Run)
unfolding replay
run_episode pack config agent = do
  primary ← run_profile pack config (codes "primary") (λ turn. ok (agent turn)) false true
  stress ← run_profile pack config (codes "stress_2x") (replay primary.decisions) true false
  ok (primary, stress)
