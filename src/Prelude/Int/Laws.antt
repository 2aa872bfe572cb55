-- ===== src/Prelude/Int/Laws.antt =====
-- Signs, products and floor division of the integers.
use Prim.Native.Nat.{ℕ, ◌-◌, suc, ◌+◌, ◌*◌, ◌/◌, ◌≤◌, ◌<◌}
use mathlib.Core.Path.{◌≡◌, refl, ap}
use native.Mathlib.Omega.{arith}
use native.Mathlib.Nat.{
  div-mul-le_self, lt-div-mul-add, div-lt_iff_lt-mul, mul-le-mul_right, le_of_mul-le-mul_right,
}
use wagmi_bench.Prelude.Int.{
  ℤ, pos, negsuc, pos_part, neg_part, ◌-ℤ◌, ◌+ℤ◌, ◌*ℤ◌, ◌//◌, ◌≤ℤ◌, ◌<ℤ◌, neg, neg_parts, +ℤ_parts,
  int_laws,
}

-- An integer from zero up is a natural number.
pub pos_of_nonneg : (a : ℤ) → pos 0 ≤ℤ a → a ≡ pos (pos_part a)
pos_of_nonneg a h = ground arith

pub +ℤ-pos : (a b : ℕ) → pos a +ℤ pos b ≡ pos (a + b)
unfolding ◌+ℤ◌
+ℤ-pos a b = ground arith

pub *ℤ-pos : (a b : ℕ) → pos a *ℤ pos b ≡ pos (a * b)
unfolding ◌*ℤ◌
*ℤ-pos a b = ground arith

pub //-pos : (a b : ℕ) → pos a // pos b ≡ pos (a / b)
unfolding ◌//◌
//-pos a b = refl

pub *ℤ_parts :
    (a b : ℤ)
    → pos_part (a *ℤ b) + (pos_part a * neg_part b + neg_part a * pos_part b)
      ≡ neg_part (a *ℤ b) + (pos_part a * pos_part b + neg_part a * neg_part b)
unfolding ◌*ℤ◌
*ℤ_parts a b = ground arith

pub mul_nonneg : (a b : ℤ) → pos 0 ≤ℤ a → pos 0 ≤ℤ b → pos 0 ≤ℤ a *ℤ b
unfolding ◌*ℤ◌
mul_nonneg a b h k = ground arith

pub mul_pos : (a b : ℤ) → pos 0 <ℤ a → pos 0 <ℤ b → pos 0 <ℤ a *ℤ b
mul_pos (pos a) (pos b) h k = grind (arith, *ℤ-pos a b)
mul_pos (pos a) (negsuc b) h k = absurd (omega arith)
mul_pos (negsuc a) b h k = absurd (omega arith)

div_mul-le : (n d : ℕ) → n / d * d ≤ n
div_mul-le n d = div-mul-le_self n d

lt-div_mul-add : (n d : ℕ) → 0 < d → n < n / d * d + d
lt-div_mul-add n d h = lt-div-mul-add h

-- Floor division by a positive divisor: the quotient is the last integer that fits.
pub //_bounds : (a d : ℤ) → pos 0 <ℤ d → ((a // d) *ℤ d ≤ℤ a) × (a <ℤ (a // d) *ℤ d +ℤ d)
unfolding ◌//◌
//_bounds (pos a) (pos d) h = grind (arith, *ℤ_parts, int_laws)
//_bounds (negsuc a) (pos d) h =
    omega (arith, *ℤ_parts, int_laws, div_mul-le a d, lt-div_mul-add a d (omega arith))
//_bounds a (negsuc d) h = absurd (omega arith)

pub //_nonneg : (a d : ℤ) → pos 0 ≤ℤ a → pos 0 ≤ℤ d → pos 0 ≤ℤ a // d
unfolding ◌//◌
//_nonneg (pos a) (pos d) h k = omega arith
//_nonneg (pos a) (negsuc d) h k = absurd (omega arith)
//_nonneg (negsuc a) d h k = absurd (omega arith)

pub mul_mono : (a b c : ℤ) → a ≤ℤ b → pos 0 ≤ℤ c → a *ℤ c ≤ℤ b *ℤ c
mul_mono a b (pos c) h k =
    omega (arith, *ℤ_parts, mul-le-mul_right {m = pos_part a + neg_part b} c h)
mul_mono a b (negsuc c) h k = absurd (omega arith)

pub *ℤ_comm : (a b : ℤ) → a *ℤ b ≡ b *ℤ a
*ℤ_comm a b = omega (arith, *ℤ_parts, int_laws)

pub *ℤ_assoc : (a b c : ℤ) → a *ℤ b *ℤ c ≡ a *ℤ (b *ℤ c)
*ℤ_assoc a b c = omega (
  int_laws,
  *ℤ_parts,
  ap (λ (t : ℕ). t * pos_part c) (*ℤ_parts a b),
  ap (λ (t : ℕ). t * neg_part c) (*ℤ_parts a b),
  ap (λ (t : ℕ). pos_part a * t) (*ℤ_parts b c),
  ap (λ (t : ℕ). neg_part a * t) (*ℤ_parts b c),
)

pub *ℤ-+ℤ : (a b c : ℤ) → a *ℤ (b +ℤ c) ≡ a *ℤ b +ℤ a *ℤ c
*ℤ-+ℤ a b c = omega (
  int_laws,
  *ℤ_parts,
  ap (λ (t : ℕ). pos_part a * t) (+ℤ_parts b c),
  ap (λ (t : ℕ). neg_part a * t) (+ℤ_parts b c),
)

-- Cancelling a positive factor.
pub le_of_mul-le : (a b c : ℤ) → pos 0 <ℤ c → a *ℤ c ≤ℤ b *ℤ c → a ≤ℤ b
le_of_mul-le a b (pos c) k h =
    le_of_mul-le-mul_right {m = pos_part a + neg_part b} {k = c} (omega (arith, *ℤ_parts, h))
      (omega arith)
le_of_mul-le a b (negsuc c) k h = absurd (omega arith)

-- An equation of integers as one that `omega` reads.
pub parts_of_eq : (a b : ℤ) → a ≡ b → pos_part a + neg_part b ≡ pos_part b + neg_part a
parts_of_eq a b e = omega (arith, ap pos_part e, ap neg_part e)

pub neg-*ℤ_parts :
    (a b : ℤ)
    → pos_part (neg a *ℤ b) + pos_part (a *ℤ b) ≡ neg_part (neg a *ℤ b) + neg_part (a *ℤ b)
neg-*ℤ_parts a b = omega (
  int_laws,
  *ℤ_parts,
  ap (λ (t : ℕ). t * pos_part b) (neg_parts a),
  ap (λ (t : ℕ). t * neg_part b) (neg_parts a),
)

pub neg-*ℤ : (a b : ℤ) → neg a *ℤ b ≡ neg (a *ℤ b)
neg-*ℤ a b = omega (int_laws, neg-*ℤ_parts)

pub negsuc-zero-mul :
    (d : ℤ) → pos_part (negsuc 0 *ℤ d) + pos_part d ≡ neg_part (negsuc 0 *ℤ d) + neg_part d
negsuc-zero-mul d = omega (arith, *ℤ_parts)

pub -ℤ-pos : (a b : ℕ) → b ≤ a → pos a -ℤ pos b ≡ pos (a - b)
unfolding ◌-ℤ◌
-ℤ-pos a b h = ground arith

pub +ℤ-one-mul : (x d : ℤ) → (x +ℤ pos 1) *ℤ d ≡ x *ℤ d +ℤ d
+ℤ-one-mul x d = omega (
  int_laws,
  *ℤ_parts,
  ap (λ (t : ℕ). t * pos_part d) (+ℤ_parts x (pos 1)),
  ap (λ (t : ℕ). t * neg_part d) (+ℤ_parts x (pos 1)),
)

pub zero_mul : (a : ℤ) → pos 0 *ℤ a ≡ pos 0
zero_mul a = omega (int_laws, *ℤ_parts)

pub zero-// : (a : ℤ) → pos 0 // a ≡ pos 0
unfolding ◌//◌
zero-// (pos a) = ground arith
zero-// (negsuc a) = ground (arith, small_quotient)
  where
    small_quotient : (0 + a) / suc a < 1
    small_quotient = (div-lt_iff_lt-mul (omega arith)).1 (omega arith)
