-- ===== src/Core/Metrics/Ratio.antt =====
-- The exact floor of a ratio over a square root, on both signs.
use wagmi_bench.Prelude.{
  ℕ, suc, ◌+◌, ◌*◌, ◌≤◌, ◌<◌, ◌≡◌, ◌∙◌, arith, Bool-cases, inl, inr, ◌==◌, ==_iff, if◌then◌else◌,
  ok,
}
use wagmi_bench.Prelude.Int.{pos, negsuc, ◌*ℤ◌, neg}
use wagmi_bench.Prelude.Int.Laws.{*ℤ-pos, //-pos, +ℤ-pos}
use wagmi_bench.Core.Math.Rounding.{fraction, fraction_mul, fraction_div, floor_fraction}
use wagmi_bench.Core.Math.Rounding.Roots.{
  IsCeilSqrt, root, root_bounds, exact-IsCeilSqrt, inexact-IsCeilSqrt,
}
use wagmi_bench.Core.Metrics.{floor_ratio_over_sqrt}

negsuc_square : (k : ℕ) → negsuc k *ℤ negsuc k ≡ pos (suc k * suc k)
unfolding ◌*ℤ◌
negsuc_square k = ground arith

-- The square of the ratio is (n * n * r) / (p * p * m), for a numerator of size n / p over the root
-- of m / r.
abbrev pub square_num : ℕ → ℕ → ℕ
square_num n r = n * n * r

abbrev pub square_den : ℕ → ℕ → ℕ
square_den p m = p * p * m

module _ (p m r : ℕ) (p_pos : 0 < p) (m_pos : 0 < m) where
  den_pos : 0 < square_den p m
  den_pos = grind arith

  ratio-pos :
      (n : ℕ)
      → floor_ratio_over_sqrt (fraction (pos n) (pos p)) (fraction (pos m) (pos r))
        ≡ ok (pos (root (square_num n r) (square_den p m) den_pos))
  unfolding floor_ratio_over_sqrt fraction_mul fraction_div floor_fraction
  ratio-pos n = simp (*ℤ-pos, //-pos) (ground arith)

  ratio-negsuc :
      (k : ℕ)
      → floor_ratio_over_sqrt (fraction (negsuc k) (pos p)) (fraction (pos m) (pos r))
        ≡ ok (
            let q = root (square_num (suc k) r) (square_den p m) den_pos in
            if q * q * square_den p m == square_num (suc k) r
            then neg (pos q)
            else neg (pos (q + 1)))
  unfolding floor_ratio_over_sqrt fraction_mul fraction_div floor_fraction
  ratio-negsuc k = simp (negsuc_square, *ℤ-pos, //-pos, +ℤ-pos) (ground arith)

  -- For positive p, m and r from zero up, `floor_ratio_over_sqrt` of n / p and m / r returns the
  -- floor of the exact quotient by the square root: of n / p the greatest natural number whose
  -- square is at most the square of the quotient, of a negative numerator minus the least whose
  -- square reaches it.
  pub floor_ratio_over_sqrt-IsExact :
      (n : ℕ)
      → ((q : ℕ) × (floor_ratio_over_sqrt (fraction (pos n) (pos p)) (fraction (pos m) (pos r))
            ≡ ok (pos q))
          × (q * q * square_den p m ≤ square_num n r)
          × (square_num n r < (q + 1) * (q + 1) * square_den p m))
        × ((q : ℕ) × (floor_ratio_over_sqrt (fraction (negsuc n) (pos p)) (fraction (pos m) (pos r))
              ≡ ok (neg (pos q)))
            × IsCeilSqrt (square_num (suc n) r) (square_den p m) q)
  floor_ratio_over_sqrt-IsExact n =
      let d = square_den p m in
      let s = square_num (suc n) r in
      let q = root s d den_pos in
      let (low, high) = root_bounds (square_num n r) d den_pos in
      (
        (root (square_num n r) d den_pos, ratio-pos n, low, high),
        (elim (Bool-cases (q * q * d == s)) [
          | inl e ↦ (q, ratio-negsuc n ∙ (rw e), exact-IsCeilSqrt s d den_pos ((==_iff _ _).0 e))
          | inr e ↦ (q + 1, ratio-negsuc n ∙ (rw e), inexact-IsCeilSqrt s d den_pos (ground arith))
        ]),
      )
