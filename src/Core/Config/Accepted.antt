-- ===== src/Core/Config/Accepted.antt =====
-- core/config.py, the configurations that `from_mapping` accepts, told by their fields alone.
use wagmi_bench.Prelude.{
  ℕ, zero, suc, ◌≤◌, ◌≡◌, ◌≢◌, true, false, refl, Bool-cases, inl, inr, Option, none, some, List,
  [], ◌∷◌, sym, get_elem?, All, AllPairs, Text, codes, text_eqb, text_eqb_iff, ok, arith,
}
use wagmi_bench.Prelude.Int.{ℤ, pos, ◌≤ℤ◌}
use wagmi_bench.Prelude.Objects.{Members}
use wagmi_bench.Core.Config.{
  EpisodeConfig, contains, all_differ, none_empty, optional_positive, optional_at_least,
  from_mapping,
}
use wagmi_bench.Core.Config.Roundtrip.{from_mapping-IsValidConfig}

-- An optional field has the property if it is given.
abbrev pub IfGiven : {A : Type 0} → (A → Type 0) → Option A → Type 0
IfGiven P none = Unit
IfGiven P (some a) = P a

-- The cost profiles: non-empty names, no two alike, and the two that every run needs.
pub record AreProfiles (profiles : List Text) : Type 0 where
  pub named : All (λ p. p ≢ []) profiles
  pub distinct : AllPairs (λ p q. p ≢ q) profiles
  pub primary : (k : ℕ) × (get_elem? profiles k ≡ some (codes "primary"))
  pub stress : (k : ℕ) × (get_elem? profiles k ≡ some (codes "stress_2x"))

pub record IsAccepted (c : EpisodeConfig) : Type 0 where
  pub nav : pos 1 ≤ℤ c.starting_nav_micro
  pub leverage : pos 1 ≤ℤ c.leverage_cap_gross_lev_1e4
  pub drawdown : pos 1 ≤ℤ c.drawdown_kill_switch_1e8
  pub lookback : IfGiven (λ bars. 1 ≤ bars) c.lookback_bars
  pub deadline : 1 ≤ c.response_deadline_ms
  pub turnover : IfGiven (λ cap. pos 0 ≤ℤ cap) c.turnover_cap_1e8
  pub profiles : AreProfiles c.cost_profiles

contains-index :
    (name : Text) (l : List Text) → contains name l ≡ true → (k : ℕ) × (get_elem? l k ≡ some name)
unfolding contains
contains-index name [] h = absurd cc
contains-index name (x ∷ l) h = elim (Bool-cases (text_eqb x name)) [
  | inl e ↦ (zero, rw ((text_eqb_iff x name).0 e) refl)
  | inr e ↦ let (k, found) = contains-index name l (ground (arith, h, e)) in (suc k, found)
]

contains-absent : (x : Text) (l : List Text) → contains x l ≡ false → All (λ y. x ≢ y) l
unfolding contains
contains-absent x [] h = tt
contains-absent x (y ∷ l) h = (
  λ e. (let same = (text_eqb_iff y x).1 (sym e) in absurd (ground arith)),
  contains-absent x l (ground arith),
)

all_differ-distinct : (l : List Text) → all_differ l ≡ true → AllPairs (λ p q. p ≢ q) l
unfolding all_differ
all_differ-distinct [] h = tt
all_differ-distinct (x ∷ l) h =
    (contains-absent x l (ground arith), all_differ-distinct l (ground arith))

none_empty-named : (l : List Text) → none_empty l ≡ true → All (λ p. p ≢ []) l
unfolding none_empty
none_empty-named [] h = tt
none_empty-named ([] ∷ l) h = absurd cc
none_empty-named ((c ∷ x) ∷ l) h = ((λ e. cc), none_empty-named l h)

given-positive : (o : Option ℕ) → optional_positive o ≡ true → IfGiven (λ n. 1 ≤ n) o
given-positive none h = tt
given-positive (some n) h = ground arith

given-at_least : (o : Option ℤ) → optional_at_least (pos 0) o ≡ true → IfGiven (λ z. pos 0 ≤ℤ z) o
given-at_least none h = tt
given-at_least (some z) h = ground arith

valid-AreProfiles :
    (l : List Text)
    → none_empty l ≡ true
    → all_differ l ≡ true
    → contains (codes "primary") l ≡ true
    → contains (codes "stress_2x") l ≡ true
    → AreProfiles l
valid-AreProfiles l named differ primary stress = record {
  named = none_empty-named l named;
  distinct = all_differ-distinct l differ;
  primary = contains-index (codes "primary") l primary;
  stress = contains-index (codes "stress_2x") l stress;
}

-- A configuration that `from_mapping` returns has a starting NAV, leverage cap, kill-switch level
-- and deadline of at least 1, a bar lookback of at least 1 if it has one, and a turnover cap from
-- zero up if it has one. No cost profile has an empty name, no two have the same, and `primary` and
-- `stress_2x` are among them.
pub from_mapping-IsAccepted :
    (raw : Members) (c : EpisodeConfig) → from_mapping raw ≡ ok c → IsAccepted c
from_mapping-IsAccepted raw c e =
    let (nav, leverage, drawdown, bars, deadline, turnover, profiles) =
      from_mapping-IsValidConfig raw c e in
    record {
      nav = nav;
      leverage = leverage;
      drawdown = drawdown;
      lookback = given-positive c.lookback_bars bars;
      deadline = deadline;
      turnover = given-at_least c.turnover_cap_1e8 turnover;
      profiles =
          valid-AreProfiles c.cost_profiles (ground arith) (ground arith) (ground arith)
            (ground arith);
    }
