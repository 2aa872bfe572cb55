-- ===== src/Core/Action/Grammar/Units.antt =====
-- What a decimal target means, and how large it is.
use native.Mathlib.Nat.{mul-le-mul_right}
use wagmi_bench.Prelude.{
  ℕ, zero, suc, ◌+◌, ◌-◌, ◌*◌, ◌≤◌, ◌<◌, ◌≡◌, refl, true, if◌then◌else◌, Option, none, some, [],
  ◌∷◌, ◌++◌, length, Text, arith,
}
use wagmi_bench.Prelude.Int.{ℤ, pos, neg}
use wagmi_bench.Core.Action.Grammar.{
  all_chars, is_digit, split_dot, is_negative, unsigned, is_whole, is_fraction, is_target,
  digits_value, padded_value, fraction_units, parse_decimal_target,
}

abbrev pub ten_to : ℕ → ℕ
ten_to zero = 1
ten_to (suc n) = 10 * ten_to n

padded_value-nil : (width n : ℕ) → padded_value width n [] ≡ n * ten_to width
unfolding padded_value digits_value
padded_value-nil zero n = omega arith
padded_value-nil (suc width) n = omega (arith, padded_value-nil width (n * 10))

-- Padding on the right multiplies by the powers of ten that are missing.
padded_value-eq :
    (width n : ℕ) (t : Text)
    → length t ≤ width
    → padded_value width n t * ten_to (length t) ≡ digits_value n t * ten_to width
unfolding padded_value digits_value
padded_value-eq zero n [] h = refl
padded_value-eq zero n (c ∷ t) h = absurd (omega arith)
padded_value-eq (suc width) n [] h = omega (arith, padded_value-nil width (n * 10))
padded_value-eq (suc width) n (c ∷ t) h =
    omega (arith, padded_value-eq width (n * 10 + (c - 48)) t (omega arith))

-- One digit more.
digit_lt :
    (n c T D : ℕ) → is_digit c ≡ true → D < (n * 10 + (c - 48) + 1) * T → D < (n + 1) * (10 * T)
digit_lt n c T D h k =
    let step : n * 10 + (c - 48) + 1 ≤ (n + 1) * 10 = ground arith in
    omega (arith, mul-le-mul_right T step)

digits_value-lt :
    (n : ℕ) (t : Text)
    → all_chars is_digit t ≡ true
    → digits_value n t < (n + 1) * ten_to (length t)
unfolding digits_value all_chars
digits_value-lt n [] h = omega arith
digits_value-lt n (c ∷ t) h =
    digit_lt n c (ten_to (length t)) _ (ground arith)
      (digits_value-lt (n * 10 + (c - 48)) t (ground arith))

padded_value-lt :
    (width n : ℕ) (t : Text)
    → length t ≤ width
    → all_chars is_digit t ≡ true
    → padded_value width n t < (n + 1) * ten_to width
unfolding padded_value digits_value all_chars
padded_value-lt zero n [] k h = omega arith
padded_value-lt zero n (c ∷ t) k h = absurd (omega arith)
padded_value-lt (suc width) n [] k h =
    omega (arith, padded_value-lt width (n * 10) [] (omega arith) refl)
padded_value-lt (suc width) n (c ∷ t) k h =
    digit_lt n c (ten_to width) _ (ground arith)
      (padded_value-lt width (n * 10 + (c - 48)) t (omega arith) (ground arith))

digits_value-append :
    (n : ℕ) (s t : Text) → digits_value n (s ++ t) ≡ digits_value (digits_value n s) t
unfolding digits_value
digits_value-append n [] t = refl
digits_value-append n (c ∷ s) t = digits_value-append (n * 10 + (c - 48)) s t

digits_value-add : (n : ℕ) (t : Text) → digits_value n t ≡ n * ten_to (length t) + digits_value 0 t
unfolding digits_value
digits_value-add n [] = omega arith
digits_value-add n (c ∷ t) =
    omega (arith, digits_value-add (n * 10 + (c - 48)) t, digits_value-add (0 * 10 + (c - 48)) t)

-- The digits after the point.
abbrev pub fraction_text : Option Text → Text
fraction_text none = []
fraction_text (some fraction) = fraction

fraction_units-eq :
    (f : Option Text)
    → is_fraction f ≡ true
    → (fraction_units f * ten_to (length (fraction_text f))
        ≡ digits_value 0 (fraction_text f) * 10_000)
      × (fraction_units f < 10_000)
unfolding digits_value
fraction_units-eq none h = (refl, omega arith)
fraction_units-eq (some f) h =
    (padded_value-eq 4 0 f (ground arith), padded_value-lt 4 0 f (ground arith) (ground arith))

is_whole-lt : (w : Text) → is_whole w ≡ true → digits_value 0 w < 1_000
unfolding all_chars
is_whole-lt [] h = cc
is_whole-lt (c ∷ []) h = omega (arith, digits_value-lt 0 (c ∷ []) (ground arith))
is_whole-lt (c ∷ d ∷ []) h = omega (arith, digits_value-lt 0 (c ∷ d ∷ []) (ground arith))
is_whole-lt (c ∷ d ∷ e ∷ []) h = omega (arith, digits_value-lt 0 (c ∷ d ∷ e ∷ []) (ground arith))
is_whole-lt (c ∷ d ∷ e ∷ f ∷ t) h = absurd (ground arith)

-- If a decimal target parses, the units are exactly ten thousand times its decimal value, with the
-- sign that is written, and at most 9,999,999 in size.
pub parse_decimal_target-IsExact :
    (value : Text) (units : ℤ)
    → parse_decimal_target value ≡ some units
    → (m : ℕ) × (units ≡ (if is_negative value then neg (pos m) else pos m))
      × (m * ten_to (length (fraction_text (split_dot (unsigned value)).1))
          ≡ 10_000
            * digits_value 0
                ((split_dot (unsigned value)).0 ++ fraction_text (split_dot (unsigned value)).1))
      × (m ≤ 9_999_999)
unfolding parse_decimal_target is_target
parse_decimal_target-IsExact value units e =
    let w = (split_dot (unsigned value)).0 in
    let f = (split_dot (unsigned value)).1 in
    let ok_w : is_whole w ≡ true = ground arith in
    let ok_f : is_fraction f ≡ true = ground arith in
    let (exact, small) = fraction_units-eq f ok_f in
    (
      digits_value 0 w * 10_000 + fraction_units f,
      ground arith,
      omega (
        arith,
        digits_value-append 0 w (fraction_text f),
        digits_value-add (digits_value 0 w) (fraction_text f),
      ),
      omega (arith, is_whole-lt w ok_w),
    )
