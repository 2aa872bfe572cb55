-- ===== src/Core/Action/Targets.antt =====
-- What stages V4 to V8 let pass, on the sorted targets.
use mathlib.Core.List.Permᴰ
use wagmi_bench.Prelude.{
  Sum-cases, length-perm, ℕ, ◌≤◌, ◌≡◌, refl, ◌∙◌, sym, ap, subst, Bool, true, Bool-cases, inl, inr,
  ◌&&◌, Option, none, some, List, [], ◌∷◌, map, length, All, AllPairs, All-perm, perm-map, Text,
  codes, text_leb, by_key, by_key-IsPreorder, sort_by, sort_by-perm, sort_by-IsSorted, arith,
}
use wagmi_bench.Prelude.Int.{ℤ, pos, abs, leb_ℤ, pos_part}
use wagmi_bench.Prelude.Objects.{
  Value, object, int, float, null, bool, str, array, Members, empty, member, members_list,
  find_member,
}
use wagmi_bench.Core.Pack.{Mapping}
use wagmi_bench.Core.Engine.State.{ParsedAction}
use wagmi_bench.Core.Engine.Decision.{accepted}
use wagmi_bench.Core.Action.Grammar.{is_market}
use wagmi_bench.Core.Action.{
  all_keys, is_declared, all_declared, target_is_valid, v4_shape_is_valid, target_units,
  parse_targets, all_in_range, parse_slippage, parse_values,
}

abbrev pub name {ℓ} : {V : Type ℓ} → Text × V → Text
name (key, v) = key

-- The aliases of the targets.
abbrev pub names {ℓ} : {V : Type ℓ} → List (Text × V) → List Text
names = map name

abbrev pub SlippageInRange : Option ℤ → Type 0
SlippageInRange none = Unit
SlippageInRange (some n) = (leb_ℤ (pos 0) n ≡ true) × (leb_ℤ n (pos 10_000) ≡ true)

-- Between one and sixteen declared markets in the order of their names, each target of at most
-- 999.9999 times the equity, a slippage of at most 100 percent.
pub record IsValidAction (declared : List Text) (action : ParsedAction) : Type 0 where
  pub some_target : 1 ≤ length (names action.target_lev_1e4)
  pub few_targets : length (names action.target_lev_1e4) ≤ 16
  pub aliases :
      All
        (λ alias. (is_declared declared alias ≡ true) × (is_market alias ≡ true))
        (names action.target_lev_1e4)
  pub in_order : AllPairs (λ a b. text_leb a b ≡ true) (names action.target_lev_1e4)
  pub in_range : All (λ (t : Text × ℤ). pos_part (abs t.1) ≤ 9_999_999) action.target_lev_1e4
  pub slippage : SlippageInRange action.max_slippage_bps

length-names {ℓ} : {V : Type ℓ} (l : List (Text × V)) → length (names l) ≡ length l
length-names [] = refl
length-names (x ∷ l) = omega (arith, length-names l)

parse_targets-names :
    (l : List (Text × Value)) (m : Mapping ℤ) → parse_targets l ≡ inl m → names m ≡ names l
unfolding parse_targets
parse_targets-names [] m e = ground arith
parse_targets-names ((alias, v) ∷ l) m e = elim (Sum-cases (target_units v)) [
  | inr (reason, u) ↦ absurd (ground arith)
  | inl (units, u) ↦ elim (Sum-cases (parse_targets l)) [
    | inr (reason, t) ↦ absurd (ground arith)
    | inl (rest, t) ↦
        let found : (alias, units) ∷ rest ≡ m = ground arith in
        subst (λ x. names x ≡ names ((alias, v) ∷ l)) found
          (ap (λ x. alias ∷ x) (parse_targets-names l rest t))
  ]
]

all_in_range-All :
    (m : Mapping ℤ)
    → all_in_range m ≡ true
    → All (λ (t : Text × ℤ). pos_part (abs t.1) ≤ 9_999_999) m
unfolding all_in_range
all_in_range-All [] h = tt
all_in_range-All ((alias, n) ∷ m) h = (ground arith, all_in_range-All m (ground arith))

all_declared-All :
    (declared : List Text) (l : List (Text × Value))
    → all_declared declared l ≡ true
    → All (λ alias. is_declared declared alias ≡ true) (names l)
unfolding all_declared
all_declared-All declared [] h = tt
all_declared-All declared ((alias, v) ∷ l) h =
    (ground arith, all_declared-All declared l (ground arith))

all_keys-All :
    (test : Text → Bool) (m : Members)
    → all_keys test m ≡ true
    → All (λ key. test key ≡ true) (names (members_list m))
unfolding all_keys members_list
all_keys-All test empty h = tt
all_keys-All test (member key v rest) h = (ground arith, all_keys-All test rest (ground arith))

parse_slippage-InRange :
    (found : Option Value) (s : Option ℤ) → parse_slippage found ≡ inl s → SlippageInRange s
unfolding parse_slippage
parse_slippage-InRange none s e = subst SlippageInRange {x = none} (ground arith) tt
parse_slippage-InRange (some (int n)) s e =
    elim (Bool-cases (leb_ℤ (pos 0) n && leb_ℤ n (pos 10_000))) [
      | inl b ↦ subst SlippageInRange {x = some n} (ground arith) (ground arith)
      | inr b ↦ absurd (ground arith)
    ]
parse_slippage-InRange (some null) s e = absurd (ground arith)
parse_slippage-InRange (some (bool b)) s e = absurd (ground arith)
parse_slippage-InRange (some (float l)) s e = absurd (ground arith)
parse_slippage-InRange (some (str t)) s e = absurd (ground arith)
parse_slippage-InRange (some (array vs)) s e = absurd (ground arith)
parse_slippage-InRange (some (object m)) s e = absurd (ground arith)

-- What V6 to V8 let pass.
parse_values-accepted :
    (slippage : Option Value) (n : ℕ) (target : List (Text × Value)) (action : ParsedAction)
    → parse_values slippage n target ≡ accepted action
    → (parse_targets target ≡ inl action.target_lev_1e4)
      × (all_in_range action.target_lev_1e4 ≡ true)
      × (parse_slippage slippage ≡ inl action.max_slippage_bps)
unfolding parse_values
parse_values-accepted slippage n target action e = elim (Sum-cases (parse_targets target)) [
  | inr (reason, t) ↦ absurd (ground arith)
  | inl (m, t) ↦ elim (Bool-cases (all_in_range m)) [
    | inr r ↦ absurd (ground arith)
    | inl r ↦ elim (Sum-cases (parse_slippage slippage)) [
      | inr (reason, p) ↦ absurd (ground arith)
      | inl (q, p) ↦
          let built : ParsedAction = record {
            target_lev_1e4 = m;
            max_slippage_bps = q;
            from_attempt = n;
          } in
          let same : built ≡ action = ground arith in
          subst
            (λ a.
              (parse_targets target ≡ inl a.target_lev_1e4)
              × (all_in_range a.target_lev_1e4 ≡ true)
              × (parse_slippage slippage ≡ inl a.max_slippage_bps))
            same (t, r, p)
    ]
  ]
]

All-both {ℓ} :
    {A : Type ℓ} (P Q : A → Type 0) (xs : List A) → All P xs → All Q xs → All (λ a. P a × Q a) xs
All-both P Q [] h k = tt
All-both P Q (x ∷ xs) h k = ((h.0, k.0), All-both P Q xs h.1 k.1)

names-IsSorted :
    (l : List (Text × Value))
    → AllPairs (λ a b. by_key name a b ≡ true) l
    → AllPairs (λ a b. text_leb a b ≡ true) (names l)
names-IsSorted [] h = tt
names-IsSorted (x ∷ l) h = (later l h.0, names-IsSorted l h.1)
  where
    later :
        (l : List (Text × Value))
        → All (λ b. by_key name x b ≡ true) l
        → All (λ b. text_leb (name x) b ≡ true) (names l)
    later [] h = tt
    later (y ∷ l) h = (h.0, later l h.1)

-- The document's target, sorted, with the stages before V6 passed.
module _ (declared : List Text) (slippage : Option Value) (target : Members)
    (action : ParsedAction) where
  pub valid_of_target :
      (n : ℕ)
      → target_is_valid (some (object target)) ≡ true
      → all_declared declared (sort_by (by_key name) (members_list target)) ≡ true
      → parse_values slippage n (sort_by (by_key name) (members_list target)) ≡ accepted action
      → IsValidAction declared action
  unfolding target_is_valid
  valid_of_target n shape known e =
      let sorted = sort_by (by_key name) (members_list target) in
      let (t, r, p) = parse_values-accepted slippage n sorted action e in
      let same : names action.target_lev_1e4 ≡ names sorted =
        parse_targets-names sorted action.target_lev_1e4 t in
      let perm = sort_by-perm (by_key name) (members_list target) in
      let size : length (names action.target_lev_1e4) ≡ length (members_list target) =
        ap length same ∙ length-names sorted ∙ length-perm perm in
      record {
        some_target = ground arith;
        few_targets = ground arith;
        aliases = subst (All _) (sym same) (
            All-both _ _ (names sorted) (all_declared-All declared sorted known) (
              All-perm _ (Permᴰ.symm (perm-map name perm))
                (all_keys-All is_market target (ground arith))));
        in_order = subst (AllPairs _) (sym same) (
            names-IsSorted sorted
              (sort_by-IsSorted (by_key name) (by_key-IsPreorder name) (members_list target)));
        in_range = all_in_range-All action.target_lev_1e4 r;
        slippage = parse_slippage-InRange _ action.max_slippage_bps p;
      }

pub target-shape :
    (found : Option Value)
    → target_is_valid found ≡ true
    → (t : Members) × (found ≡ some (object t))
unfolding target_is_valid
target-shape none h = cc
target-shape (some (object t)) h = (t, refl)
target-shape (some null) h = cc
target-shape (some (bool b)) h = cc
target-shape (some (int n)) h = cc
target-shape (some (float l)) h = cc
target-shape (some (str s)) h = cc
target-shape (some (array vs)) h = cc

pub v4_shape-target :
    (document : Members)
    → v4_shape_is_valid document ≡ true
    → target_is_valid (find_member (codes "target") document) ≡ true
unfolding v4_shape_is_valid
v4_shape-target document h = ground arith
