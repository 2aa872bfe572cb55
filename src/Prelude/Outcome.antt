-- ===== src/Prelude/Outcome.antt =====
-- What a Python call returns or raises. The message of an exception is not kept, its class is.
use Prim.Native.Nat.{ℕ}
use mathlib.Core.Path.{◌≡◌, refl, subst}
use mathlib.Core.Bool.{Bool, true, false}
use mathlib.Core.List.{List}
use mathlib.Core.Option.{Option, none, some}
use mathlib.Core.Logic.{◌⊎◌, inl, inr}
use wagmi_bench.Prelude.Tests.{if◌then◌else◌}

-- `ValueError`, `ArithmeticError`, `EngineError`, `UndefinedMetricError`, `PackError`, `IndexError`,
-- `CanonicalizationError`, `FloatNotAllowedError`, `ConfigError`, `ObservationError`, `ReportError`
-- and `TypeError`; `DecisionProjectionError`; and `ChainVerificationError`.
pub data Error : Type 0 where
  value_error arithmetic_error engine_error undefined_metric pack_error index_error : Error
  canonical_error float_error config_error observation_error : Error
  report_error type_error projection_error : Error
  -- The sequence number it names.
  chain_error : ℕ → Error
  -- `_VerificationFailure`, with the stream and the sequence number that it names, if any.
  bundle_error : Option (List ℕ) → Option ℕ → Error

pub data Result {ℓ} (A : Type ℓ) : Type ℓ where
  err : Error → Result A
  ok : A → Result A

-- `if c: raise e`
abbrev pub raise_if : Bool → Error → Result (Unit {0})
raise_if true raised = err raised
raise_if false raised = ok tt

abbrev pub or_raise {ℓ} : {A : Type ℓ} → Option A → Error → Result A
or_raise none raised = err raised
or_raise (some value) raised = ok value

-- The statements after a call that may raise.
infixl 5 ◌>>=◌
unfoldable pub ◌>>=◌ {ℓ κ} : {A : Type ℓ} {B : Type κ} → Result A → (A → Result B) → Result B
err raised >>= rest = err raised
ok value >>= rest = rest value

infixl 5 ◌>>◌
abbrev pub ◌>>◌ {ℓ} : {B : Type ℓ} → Result (Unit {0}) → Result B → Result B
check >> rest = check >>= λ nothing. rest

pub Result-cases {ℓ} :
    {A : Type ℓ} (r : Result A) → ((a : A) × (r ≡ ok a)) ⊎ ((e : Error) × (r ≡ err e))
Result-cases (ok a) = inl (a, refl)
Result-cases (err e) = inr (e, refl)

-- What returns has its first call return.
pub >>=-ok {ℓ κ} :
    {A : Type ℓ} {B : Type κ} (m : Result A) (f : A → Result B) (b : B)
    → (m >>= f) ≡ ok b
    → (a : A) × (m ≡ ok a) × (f a ≡ ok b)
unfolding ◌>>=◌
>>=-ok (ok a) f b e = (a, refl, e)
>>=-ok (err x) f b e = cc

pub >>-ok {ℓ} :
    {B : Type ℓ} (m : Result (Unit {0})) (n : Result B) (b : B) → (m >> n) ≡ ok b → n ≡ ok b
unfolding ◌>>=◌
>>-ok (ok a) n b e = e
>>-ok (err x) n b e = cc

-- The call that follows one that has returned.
pub >>=-of {ℓ κ} :
    {A : Type ℓ} {B : Type κ} (m : Result A) (f : A → Result B) (a : A) → m ≡ ok a → (m >>= f) ≡ f a
unfolding ◌>>=◌
>>=-of m f a e = rw e refl

-- What returns has passed the tests on its way.
pub raise_if-ok {ℓ} :
    {B : Type ℓ} (c : Bool) (raised : Error) (n : Result B) (b : B)
    → (raise_if c raised >> n) ≡ ok b
    → (c ≡ false) × (n ≡ ok b)
unfolding ◌>>=◌
raise_if-ok true raised n b e = cc
raise_if-ok false raised n b e = (refl, e)

pub raise_if-passes :
    (c : Bool) (raised : Error) (u : Unit {0}) → raise_if c raised ≡ ok u → c ≡ false
raise_if-passes true raised u e = cc
raise_if-passes false raised u e = refl

pub or_raise-some {ℓ} :
    {A : Type ℓ} (o : Option A) (raised : Error) (a : A) → or_raise o raised ≡ ok a → o ≡ some a
or_raise-some none raised a e = cc
or_raise-some (some b) raised a e = cc

-- A call that returns, with a property of what it returns.
abbrev pub Returns {ℓ} : {A : Type ℓ} → (A → Type 0) → Result A → Type 0
Returns P (ok a) = P a
Returns P (err e) = ⊥

-- A call whose result, if it returns, has a property.
abbrev pub Ensures {ℓ} : {A : Type ℓ} → (A → Type 0) → Result A → Type 0
Ensures P (ok a) = P a
Ensures P (err e) = Unit

pub Returns-eq-ok {ℓ} :
    {A : Type ℓ} (P : A → Type 0) (r : Result A) → Returns P r → (a : A) × (r ≡ ok a) × P a
Returns-eq-ok P (ok a) h = (a, refl, h)
Returns-eq-ok P (err e) h = absurd h

-- The rule for `>>=`: the rest may use that the first call returned `a`.
pub Ensures-bind {ℓ κ} :
    {A : Type ℓ} {B : Type κ} (Q : B → Type 0) (m : Result A) (f : A → Result B)
    → ((a : A) → m ≡ ok a → Ensures Q (f a))
    → Ensures Q (m >>= f)
unfolding ◌>>=◌
Ensures-bind Q (ok a) f h = h a refl
Ensures-bind Q (err e) f h = tt

pub ok-injective {ℓ} : {A : Type ℓ} {a b : A} → ok a ≡ ok b → a ≡ b
ok-injective e = cc

pub Ensures-eq-ok {ℓ} :
    {A : Type ℓ} (P : A → Type 0) (r : Result A) {a : A} → Ensures P r → r ≡ ok a → P a
Ensures-eq-ok P (ok b) {a} h e = subst P (ok-injective e) h
Ensures-eq-ok P (err x) h e = cc

-- `Ensures`, in a form that rules for `do` blocks apply to.
pub record Keeps {ℓ} {A : Type ℓ} (Q : A → Type 0) (r : Result A) : Type 0 where
  pub holds : Ensures Q r

module _ {ℓ} {A : Type ℓ} {Q : A → Type 0} where
  pub Keeps-ok : {a : A} → Q a → Keeps Q (ok a)
  Keeps-ok h = record { holds = h }

  pub Keeps-if :
      (b : Bool) (r s : Result A)
      → (b ≡ true → Keeps Q r)
      → (b ≡ false → Keeps Q s)
      → Keeps Q (if b then r else s)
  Keeps-if true r s h k = h refl
  Keeps-if false r s h k = k refl

module _ {ℓ κ} {A : Type ℓ} {B : Type κ} {Q : B → Type 0} where
  -- The rest may use that the first call returned `a`, with what the call ensures of it.
  pub Keeps-bind :
      {m : Result A} {f : A → Result B} (P : A → Type 0)
      → Keeps P m
      → ((a : A) → P a → Keeps Q (f a))
      → Keeps Q (m >>= f)
  unfolding ◌>>=◌
  Keeps-bind {m = ok a} P h k = k a h.holds
  Keeps-bind {m = err e} P h k = record { holds = tt }

  pub Keeps-any :
      {m : Result A} {f : A → Result B} → ((a : A) → m ≡ ok a → Keeps Q (f a)) → Keeps Q (m >>= f)
  unfolding ◌>>=◌
  Keeps-any {m = ok a} k = k a refl
  Keeps-any {m = err e} k = record { holds = tt }

module _ {ℓ} {A : Type ℓ} where
  pub Keeps-all : {Q : A → Type 0} (r : Result A) → ((a : A) → Q a) → Keeps Q r
  Keeps-all (ok a) h = record { holds = h a }
  Keeps-all (err e) h = record { holds = tt }

  pub Keeps-eq : {Q : A → Type 0} (r : Result A) → ((a : A) → r ≡ ok a → Q a) → Keeps Q r
  Keeps-eq (ok a) h = record { holds = h a refl }
  Keeps-eq (err e) h = record { holds = tt }

  pub Keeps-both :
      {P Q : A → Type 0} {r : Result A} → Keeps P r → Keeps Q r → Keeps (λ a. P a × Q a) r
  Keeps-both {r = ok a} h k = record { holds = (h.holds, k.holds) }
  Keeps-both {r = err e} h k = record { holds = tt }

  pub Keeps-map : (P Q : A → Type 0) (r : Result A) → ((a : A) → P a → Q a) → Keeps P r → Keeps Q r
  Keeps-map P Q (ok a) h k = record { holds = h a k.holds }
  Keeps-map P Q (err e) h k = record { holds = tt }
