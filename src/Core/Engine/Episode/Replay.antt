-- ===== src/Core/Engine/Episode/Replay.antt =====
-- core/engine.py, `run_episode`: the trace that the primary run leaves and its replay.
use wagmi_bench.Prelude.{
  ℕ, zero, suc, ◌+◌, ◌≤◌, ◌<◌, ◌≡◌, refl, ◌∙◌, sym, subst, arith, Bool-cases, ◌⊎◌, inl, inr, true,
  false, ltb, List, [], ◌∷◌, ◌++◌, length, ok, ok-injective, Bool, codes, Text, Result, Keeps,
  Keeps-ok, Keeps-any, Keeps-all, Keeps-bind, Keeps-map,
}
use wagmi_bench.Core.Config.{EpisodeConfig}
use wagmi_bench.Core.Pack.{PackData, bars_total}
use wagmi_bench.Core.Engine.State.{TurnDecision, Run}
use wagmi_bench.Core.Engine.Episode.{
  Profile, context, keep_decision, play_turn, play, start_run, run_turns, run_profile, replay,
  run_episode,
}
use wagmi_bench.Core.Engine.Episode.Trace.{turn_step-Logs}

replay-within :
    (decisions : List TurnDecision) (turn : ℕ)
    → Keeps (λ decision. turn < length decisions) (replay decisions turn)
unfolding replay
replay-within [] turn = record { holds = tt }
replay-within (d ∷ decisions) zero = Keeps-ok (omega arith)
replay-within (d ∷ decisions) (suc turn) =
    Keeps-map (λ e. turn < length decisions) _ (replay decisions turn) (λ e h. omega arith)
      (replay-within decisions turn)

length-snoc {ℓ} : {A : Type ℓ} (xs : List A) (x : A) → length (xs ++ x ∷ []) ≡ length xs + 1
length-snoc [] x = refl
length-snoc (y ∷ xs) x = omega (arith, length-snoc xs x)

-- The run before turn `turn` has kept a decision for each turn before it.
play_turn-length :
    (p : Profile) (turn : ℕ) (run : Run)
    → p.replays ≡ false
    → Keeps (λ next. length next.decisions ≡ length run.decisions + 1) (play_turn p turn run)
unfolding play_turn keep_decision
play_turn-length p turn run records = Keeps-any λ ts _. Keeps-any λ decision _.
    Keeps-map (λ next. next.decisions ≡ run.decisions ++ decision ∷ []) _ _
      (λ next e. rw (e, length-snoc run.decisions decision))
      (turn_step-Logs (run.decisions ++ decision ∷ []) (context p turn ts) decision _
        (rw records refl))

-- A run that records has a decision for each turn, or is cut short and terminal.
abbrev IsRecorded : ℕ → Run → Type 0
IsRecorded total run =
    (length run.decisions ≤ total) × ((length run.decisions ≡ total) ⊎ (run.terminal ≡ true))

play-IsRecorded :
    (p : Profile) (left turn : ℕ) (run : Run)
    → p.replays ≡ false
    → length run.decisions ≡ turn
    → Keeps (IsRecorded (turn + left)) (play p left turn run)
unfolding play
play-IsRecorded p zero turn run records e = Keeps-ok (omega arith, inl (omega arith))
play-IsRecorded p (suc left) turn run records e = elim (Bool-cases run.terminal) [
  | inl over ↦ rw (over, play) (Keeps-ok (omega arith, inr over))
  | inr on ↦
      rw (on, play)
        (Keeps-bind (λ next. length next.decisions ≡ length run.decisions + 1)
          (play_turn-length p turn run records)
          λ next k.
            subst (λ total. Keeps (IsRecorded total) (play p left (turn + 1) next)) (omega arith)
              (play-IsRecorded p left (turn + 1) next records (omega arith)))
]

play_turn-within :
    (p : Profile) (decisions : List TurnDecision) (turn : ℕ) (run : Run)
    → p.decide ≡ replay decisions
    → Keeps (λ (next : Run). turn < length decisions) (play_turn p turn run)
unfolding play_turn
play_turn-within p decisions turn run e = Keeps-any λ ts _.
    Keeps-bind (λ decision. turn < length decisions)
      (subst (λ decide. Keeps (λ d. turn < length decisions) (decide turn)) (sym e)
        (replay-within decisions turn))
      λ decision h. Keeps-all _ λ next. h

-- A run that replays uses a decision for each turn, or is terminal.
abbrev IsReplayed : ℕ → List TurnDecision → Run → Type 0
IsReplayed total decisions run = (total ≤ length decisions) ⊎ (run.terminal ≡ true)

play-IsReplayed :
    (p : Profile) (decisions : List TurnDecision) (left turn : ℕ) (run : Run)
    → p.decide ≡ replay decisions
    → turn ≤ length decisions
    → Keeps (IsReplayed (turn + left) decisions) (play p left turn run)
unfolding play
play-IsReplayed p decisions zero turn run e h = Keeps-ok (inl (omega arith))
play-IsReplayed p decisions (suc left) turn run e h = elim (Bool-cases run.terminal) [
  | inl over ↦ rw (over, play) (Keeps-ok (inr over))
  | inr on ↦
      rw (on, play)
        (Keeps-bind (λ (next : Run). turn < length decisions)
          (play_turn-within p decisions turn run e)
          λ next k.
            subst (λ total. Keeps (IsReplayed total decisions) (play p left (turn + 1) next))
              (omega arith) (play-IsReplayed p decisions left (turn + 1) next e (omega arith)))
]

module _ (pack : PackData) (config : EpisodeConfig) (profile : Text) (total : ℕ)
    (known : bars_total pack ≡ ok total) where
  counted : (bars : ℕ) → bars_total pack ≡ ok bars → 0 + bars ≡ total
  counted bars b = let same = ok-injective (sym b ∙ known) in omega (arith, same)

  recorded :
      (decide : ℕ → Result TurnDecision) (collect : Bool)
      → Keeps (IsRecorded total) (run_profile pack config profile decide false collect)
  unfolding run_profile run_turns start_run
  recorded decide collect = Keeps-any λ found _. Keeps-any λ multiplier _.
      Keeps-bind (λ (run : Run). run.decisions ≡ [])
        (Keeps-any λ ts _. Keeps-any λ first _. Keeps-ok refl)
        λ run e. Keeps-any λ bars b.
          Keeps-map (IsRecorded (0 + bars)) _ _
            (λ next. subst (λ t. IsRecorded t next) (counted bars b))
            (play-IsRecorded _ bars 0 run refl (rw e refl))

  replayed :
      (decisions : List TurnDecision) (replays collect : Bool)
      → Keeps
          (IsReplayed total decisions)
          (run_profile pack config profile (replay decisions) replays collect)
  unfolding run_profile run_turns start_run
  replayed decisions replays collect = Keeps-any λ found _. Keeps-any λ multiplier _.
      Keeps-any λ run _. Keeps-any λ bars b.
        Keeps-map (IsReplayed (0 + bars) decisions) _ _
          (λ next. subst (λ t. IsReplayed t decisions next) (counted bars b))
          (play-IsReplayed _ decisions bars 0 run refl (omega arith))

one_ending :
    (primary stress : Run) (total : ℕ)
    → IsRecorded total primary
    → IsReplayed total primary.decisions stress
    → (length primary.decisions ≡ total)
      ⊎ ((length primary.decisions < total) × (primary.terminal ≡ true) × (stress.terminal ≡ true))
one_ending primary stress total (bound, inl full) s = inl full
one_ending primary stress total (bound, inr over) (inl enough) = inl (omega arith)
one_ending primary stress total (bound, inr over) (inr ended) =
    elim (Bool-cases (ltb (length primary.decisions) total)) [
      | inl short ↦ inr (ground arith, over, ended)
      | inr full ↦ inl (ground arith)
    ]

-- For a pack with `total` turns, an episode that returns has recorded a decision for every turn of
-- the primary run; or the trace is shorter, and then both the primary and the stress run are
-- terminal.
pub run_episode-terminal :
    (pack : PackData) (config : EpisodeConfig) (agent : ℕ → TurnDecision) (total : ℕ)
    → bars_total pack ≡ ok total
    → Keeps
        (λ (primary, stress).
          (length primary.decisions ≡ total)
          ⊎ ((length primary.decisions < total)
              × (primary.terminal ≡ true)
              × (stress.terminal ≡ true)))
        (run_episode pack config agent)
unfolding run_episode
run_episode-terminal pack config agent total known =
    Keeps-bind (IsRecorded total) (recorded pack config (codes "primary") total known _ true)
      λ primary r.
        Keeps-bind (IsReplayed total primary.decisions)
          (replayed pack config (codes "stress_2x") total known primary.decisions true false)
          λ stress s. Keeps-ok (one_ending primary stress total r s)
