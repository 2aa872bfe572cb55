-- ===== src/Prelude/Codes.antt =====
-- Python's `str` as its code points, with equality and the order of `sorted`.
use Prim.Native.Char.{code}
use Prim.Native.Nat.{ℕ}
use Prim.Native.String.{String}
use mathlib.Core.Path.{◌≡◌, refl}
use mathlib.Core.Logic.{◌≢◌, inl, inr, ◌↔◌}
use mathlib.Core.Bool.{Bool, true, false, ◌&&◌}
use mathlib.Core.List.{List, [], ◌∷◌}
use native.Mathlib.Omega.{arith}
use wagmi_bench.Prelude.Tests.{if◌then◌else◌, Bool-cases, ltb, ◌==◌}
use wagmi_bench.Prelude.Sort.{IsPreorder, Apart}

abbrev pub Text : Type 0
Text = List ℕ

-- The code points of a literal.
abbrev pub codes : String → Text
codes String.[] = []
codes (String.◌∷◌ c s) = code c ∷ codes s

unfoldable pub text_eqb : Text → Text → Bool
text_eqb [] [] = true
text_eqb [] (y ∷ ys) = false
text_eqb (x ∷ xs) [] = false
text_eqb (x ∷ xs) (y ∷ ys) = x == y && text_eqb xs ys

pub text_eqb_iff : (s t : Text) → (text_eqb s t ≡ true) ↔ (s ≡ t)
unfolding text_eqb
text_eqb_iff [] [] = (λ e. refl, λ e. refl)
text_eqb_iff [] (y ∷ ys) = (λ e. cc, λ e. cc)
text_eqb_iff (x ∷ xs) [] = (λ e. cc, λ e. cc)
text_eqb_iff (x ∷ xs) (y ∷ ys) =
    let (to, from) = text_eqb_iff xs ys in (λ e. ground (arith, to), λ e. ground (arith, from))

-- `s <= t`, by code points.
unfoldable pub text_leb : Text → Text → Bool
text_leb [] t = true
text_leb (x ∷ xs) [] = false
text_leb (x ∷ xs) (y ∷ ys) =
    let rest = text_leb xs ys in if ltb x y then true else if ltb y x then false else rest

text_leb_total : (s t : Text) → text_leb s t ≡ false → text_leb t s ≡ true
unfolding text_leb
text_leb_total [] t h = cc
text_leb_total (x ∷ xs) [] h = refl
text_leb_total (x ∷ xs) (y ∷ ys) h = ground (arith, text_leb_total xs ys)

text_leb_trans : (s t u : Text) → text_leb s t ≡ true → text_leb t u ≡ true → text_leb s u ≡ true
unfolding text_leb
text_leb_trans [] t u h k = refl
text_leb_trans (x ∷ xs) [] u h k = cc
text_leb_trans (x ∷ xs) (y ∷ ys) [] h k = cc
text_leb_trans (x ∷ xs) (y ∷ ys) (z ∷ zs) h k = ground (arith, text_leb_trans xs ys zs)

pub text_leb_antisymm : (s t : Text) → text_leb s t ≡ true → text_leb t s ≡ true → s ≡ t
unfolding text_leb
text_leb_antisymm [] [] h k = refl
text_leb_antisymm [] (y ∷ ys) h k = cc
text_leb_antisymm (x ∷ xs) [] h k = cc
text_leb_antisymm (x ∷ xs) (y ∷ ys) h k = ground (arith, text_leb_antisymm xs ys)

-- Elements that carry a key are sorted by it.
abbrev pub by_key {ℓ} : {A : Type ℓ} → (A → Text) → A → A → Bool
by_key key a b = text_leb (key a) (key b)

pub by_key-IsPreorder {ℓ} : {A : Type ℓ} (key : A → Text) → IsPreorder (by_key key)
by_key-IsPreorder key = record {
  total = λ a b. text_leb_total (key a) (key b);
  trans = λ a b c. text_leb_trans (key a) (key b) (key c);
}

-- Different keys are told apart.
pub by_key-Apart {ℓ} :
    {A : Type ℓ} (key : A → Text) (a b : A) → key a ≢ key b → Apart (by_key key) a b
by_key-Apart key a b h = elim (Bool-cases (text_leb (key a) (key b))) [
  | inl e ↦ elim (Bool-cases (text_leb (key b) (key a))) [
    | inl e' ↦ absurd (h (text_leb_antisymm (key a) (key b) e e'))
    | inr e' ↦ rw (e, e')
  ]
  | inr e ↦ rw (e, text_leb_total (key a) (key b) e)
]
