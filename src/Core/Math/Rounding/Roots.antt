-- ===== src/Core/Math/Rounding/Roots.antt =====
-- Integer square roots, of a number and of a ratio.
use wagmi_bench.Prelude.{
  ℕ, zero, suc, ◌+◌, ◌*◌, ◌/◌, ◌≤◌, ◌<◌, ◌≡◌, ◌≢◌, ◌∙◌, ==_iff, inl, inr, arith, leb, ◌==◌,
  Bool-cases, leb→le, not_leb→lt, ok, if◌then◌else◌,
}
use wagmi_bench.Prelude.Int.{pos}
use wagmi_bench.Prelude.Int.Laws.{//-pos, *ℤ-pos, +ℤ-pos}
use native.Mathlib.Nat.{mul-le-mul, mul-le-mul_right, le-div_iff_mul-le, div-lt_iff_lt-mul}
use wagmi_bench.Core.Math.Rounding.{fraction, isqrt, isqrt_from, ceil_sqrt_fraction}

-- `r` is the floor of the square root of `n`.
abbrev pub IsSqrt : ℕ → ℕ → Type 0
IsSqrt n r = (r * r ≤ n) × (n < (r + 1) * (r + 1))

IsSqrt-step :
    (n q : ℕ)
    → IsSqrt (n / 4) q
    → IsSqrt n (if leb ((2 * q + 1) * (2 * q + 1)) n then 2 * q + 1 else 2 * q)
IsSqrt-step n q h = elim (Bool-cases (leb ((2 * q + 1) * (2 * q + 1)) n)) [
  | inl fits ↦ rw fits (leb→le _ _ fits, omega (arith, h.1))
  | inr over ↦ rw over (omega (arith, h.0), not_leb→lt _ _ over)
]

isqrt_from-IsSqrt : (fuel n : ℕ) → n ≤ fuel → IsSqrt n (isqrt_from fuel n)
unfolding isqrt_from
isqrt_from-IsSqrt zero n h = omega arith
isqrt_from-IsSqrt (suc fuel) n h = elim (Bool-cases (n == 0)) [
  | inl z ↦ rw (z, isqrt_from) (ground arith)
  | inr p ↦
      rw (p, isqrt_from)
        (IsSqrt-step n (isqrt_from fuel (n / 4)) (isqrt_from-IsSqrt fuel (n / 4) (ground arith)))
]

-- The fuel of the integer square root is enough: the result is the floor of the exact root.
pub isqrt-IsSqrt : (n : ℕ) → IsSqrt n (isqrt n)
unfolding isqrt
isqrt-IsSqrt n = isqrt_from-IsSqrt n n (omega arith)

square_mono : (j k d : ℕ) → j ≤ k → j * j * d ≤ k * k * d
square_mono j k d h = mul-le-mul_right d (mul-le-mul h h)

square_lt : (j k d : ℕ) → j < k → 0 < d → j * j * d < k * k * d
square_lt j k d h p = omega (arith, mul-le-mul_right d (mul-le-mul h h))

-- `k` is the first natural number with n / d ≤ k * k.
pub record IsCeilSqrt (n d k : ℕ) : Type 0 where
  pub reaches : n ≤ k * k * d
  pub first : (j : ℕ) → j < k → j * j * d < n

module _ (n d : ℕ) (h : 0 < d) where
  abbrev pub root : ℕ
  root = isqrt (n / d)

  pub root_bounds : (root * root * d ≤ n) × (n < (root + 1) * (root + 1) * d)
  root_bounds =
      let (low, high) = isqrt-IsSqrt (n / d) in
      ((le-div_iff_mul-le h).0 low, (div-lt_iff_lt-mul h).0 high)

  pub exact-IsCeilSqrt : root * root * d ≡ n → IsCeilSqrt n d root
  exact-IsCeilSqrt e = record {
    reaches = omega arith;
    first = λ j k. omega (arith, square_lt j root d k h);
  }

  pub inexact-IsCeilSqrt : root * root * d ≢ n → IsCeilSqrt n d (root + 1)
  inexact-IsCeilSqrt e = record {
    reaches = omega (arith, root_bounds);
    first = λ j k. omega (arith, root_bounds, square_mono j root d (omega arith));
  }

  ceil_sqrt_fraction_lem :
      ceil_sqrt_fraction (fraction (pos n) (pos d))
      ≡ ok (if root * root * d == n then pos root else pos (root + 1))
  unfolding ceil_sqrt_fraction
  ceil_sqrt_fraction_lem = simp (//-pos, *ℤ-pos, +ℤ-pos) (ground arith)

  -- For n from zero up and a positive d, `ceil_sqrt_fraction` returns the least natural number
  -- whose square reaches n / d.
  pub ceil_sqrt_fraction-IsCeilSqrt :
      (k : ℕ) × (ceil_sqrt_fraction (fraction (pos n) (pos d)) ≡ ok (pos k)) × IsCeilSqrt n d k
  ceil_sqrt_fraction-IsCeilSqrt = elim (Bool-cases (root * root * d == n)) [
    | inl e ↦ (root, ceil_sqrt_fraction_lem ∙ (rw e), exact-IsCeilSqrt ((==_iff _ _).0 e))
    | inr e ↦ (root + 1, ceil_sqrt_fraction_lem ∙ (rw e), inexact-IsCeilSqrt (ground arith))
  ]
