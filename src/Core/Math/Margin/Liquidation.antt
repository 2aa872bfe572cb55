-- ===== src/Core/Math/Margin/Liquidation.antt =====
-- The liquidation price, against the maintenance margin at a price.
use wagmi_bench.Prelude.{
  ℕ, ◌+◌, ◌-◌, ◌*◌, ◌≤◌, ◌<◌, ◌≡◌, ◌↔◌, inl, inr, arith, false, Bool-cases, leb, leb→le, not_leb→lt,
  ok, Returns,
}
use wagmi_bench.Prelude.Int.{ℤ, pos, negsuc, ◌+ℤ◌, ◌-ℤ◌, ◌*ℤ◌, leb_ℤ, ◌≤ℤ◌, ◌<ℤ◌, int_laws}
use wagmi_bench.Prelude.Int.Laws.{
  *ℤ_parts, mul_mono, *ℤ-pos, +ℤ-pos, parts_of_eq, *ℤ_comm, +ℤ-one-mul,
}
use mathlib.Core.Path.{subst₂}
use native.Mathlib.Nat.{mul-le-mul_left, mul-le-mul_right}
use wagmi_bench.Core.Math.Rounding.{
  fraction, fraction_mul, fraction_div, floor_fraction, ceil_fraction,
}
use wagmi_bench.Core.Math.Rounding.Bounds.{
  IsFloor, IsCeil, floor_fraction-IsFloor, ceil_fraction-IsCeil,
}
use wagmi_bench.Core.Math.Margin.{long_liquidation, short_liquidation, liquidation_price_ticks}

module _ (n d q x : ℤ) (h : pos 0 <ℤ d) where
  next_multiple : (a b : ℤ) → leb_ℤ a b ≡ false → b *ℤ d +ℤ d ≤ℤ a *ℤ d
  next_multiple a b over = omega (
    int_laws,
    mul_mono (b +ℤ pos 1) a d (omega (int_laws, not_leb→lt _ _ over)) (omega arith),
    parts_of_eq _ _ (+ℤ-one-mul b d),
  )

  -- A ceiling is the threshold of the multiples that reach the numerator.
  ceil-le_iff : IsCeil n d q → (q ≤ℤ x) ↔ (n ≤ℤ x *ℤ d)
  ceil-le_iff c = (
    λ k. omega (arith, c.0, mul_mono q x d k (omega arith)),
    λ k. elim (Bool-cases (leb_ℤ q x)) [
      | inl fits ↦ leb→le _ _ fits
      | inr over ↦ absurd (omega (int_laws, c.1, next_multiple q x over))
    ],
  )

  -- A floor is the threshold of the multiples that stay within the numerator.
  le-floor_iff : IsFloor n d q → (x ≤ℤ q) ↔ (x *ℤ d ≤ℤ n)
  le-floor_iff c = (
    λ k. omega (arith, c.0, mul_mono x q d k (omega arith)),
    λ k. elim (Bool-cases (leb_ℤ x q)) [
      | inl fits ↦ leb→le _ _ fits
      | inr over ↦ absurd (omega (int_laws, c.1, next_multiple x q over))
    ],
  )

-- At price `x` a long position, entered at `e` with leverage `lev / s`, still covers its maintenance
-- margin at the rate `m / r`: e / (lev / s) + (x - e) ≥ x * m / r, multiplied out.
abbrev pub LongCovered : ℕ → ℕ → ℕ → ℕ → ℕ → ℕ → Type 0
LongCovered e lev m s r x = e * lev * r + x * m * lev ≤ e * s * r + x * lev * r

-- The same for a short position: e / (lev / s) + (e - x) ≥ x * m / r.
abbrev pub ShortCovered : ℕ → ℕ → ℕ → ℕ → ℕ → ℕ → Type 0
ShortCovered e lev m s r x = x * lev * r + x * m * lev ≤ e * s * r + e * lev * r

add-sub : (a b : ℕ) → pos (a + b) -ℤ pos a ≡ pos b
add-sub a b = omega int_laws

unlevered_nonpos : (e lev s : ℕ) → lev ≤ s → pos e *ℤ (pos lev -ℤ pos s) ≤ℤ pos 0
unlevered_nonpos e lev s h = omega (
  int_laws,
  mul_mono (pos lev -ℤ pos s) (pos 0) (pos e) (omega int_laws) (omega arith),
  parts_of_eq _ _ (*ℤ_comm (pos lev -ℤ pos s) (pos e)),
  *ℤ_parts (pos 0) (pos e),
)

long_unlevered :
    (e lev m s r : ℕ) → lev ≤ s → long_liquidation (pos e) (pos lev) (pos m) (pos s) (pos r) ≡ pos 0
unfolding long_liquidation fraction_mul
long_unlevered e lev m s r h = ground (arith, unlevered_nonpos e lev s h)

long_levered :
    (e k m s j : ℕ)
    → 0 < e
    → 0 < k
    → long_liquidation (pos e) (pos (s + k)) (pos m) (pos s) (pos (m + j))
      ≡ ceil_fraction (fraction (pos (e * k * (m + j))) (pos (1 * (s + k) * j)))
unfolding long_liquidation fraction_mul fraction_div
long_levered e k m s j h h' =
    let up : 0 < e * k = grind arith in simp (add-sub, *ℤ-pos) (ground arith)

LongCovered-iff :
    (e k m s j x : ℕ)
    → 0 < e
    → 0 < k
    → 0 < j
    → (long_liquidation (pos e) (pos (s + k)) (pos m) (pos s) (pos (m + j)) ≤ℤ pos x)
      ↔ LongCovered e (s + k) m s (m + j) x
LongCovered-iff e k m s j x he hk hj =
    let n = e * k * (m + j) in
    let d = 1 * (s + k) * j in
    let d_pos : 0 < d = grind arith in
    let (to, from) =
      ceil-le_iff (pos n) (pos d) (ceil_fraction (fraction (pos n) (pos d))) (pos x) (omega arith)
        (ceil_fraction-IsCeil (pos n) (pos d) (omega arith)) in
    rw (long_levered e k m s j he hk) (
      λ c. omega (arith, to c, parts_of_eq _ _ (*ℤ-pos x d)),
      λ c. from (rw (*ℤ-pos x d) (omega (arith, c))),
    )

unlevered_covered : (e lev m s r x : ℕ) → lev ≤ s → m ≤ r → LongCovered e lev m s r x
unlevered_covered e lev m s r x h k =
    omega
      (arith, mul-le-mul_right r (mul-le-mul_left e h), mul-le-mul_right lev (mul-le-mul_left x k))

-- A long position's liquidation price is the lowest price that covers the maintenance margin, zero
-- for a position that every price covers.
pub long_liquidation_threshold :
    (e lev m s r x : ℕ)
    → 0 < e
    → m < r
    → (long_liquidation (pos e) (pos lev) (pos m) (pos s) (pos r) ≤ℤ pos x)
      ↔ LongCovered e lev m s r x
long_liquidation_threshold e lev m s r x he hm = elim (Bool-cases (leb lev s)) [
  | inl unlevered ↦ rw (long_unlevered e lev m s r (leb→le _ _ unlevered)) (
    (λ _. unlevered_covered e lev m s r x (leb→le _ _ unlevered) (omega arith)),
    (λ _. omega arith),
  )
  | inr levered ↦
      let lev_eq : s + (lev - s) ≡ lev = omega (arith, not_leb→lt _ _ levered) in
      let r_eq : m + (r - m) ≡ r = omega arith in
      subst₂
        (λ a b.
          (long_liquidation (pos e) (pos a) (pos m) (pos s) (pos b) ≤ℤ pos x)
          ↔ LongCovered e a m s b x)
        lev_eq r_eq
        (LongCovered-iff e (lev - s) m s (r - m) x he (omega (arith, not_leb→lt _ _ levered))
          (omega arith))
]

short_lem :
    (e lev m s r : ℕ)
    → short_liquidation (pos e) (pos lev) (pos m) (pos s) (pos r)
      ≡ floor_fraction (fraction (pos (e * (lev + s) * r)) (pos (1 * lev * (r + m))))
unfolding short_liquidation fraction_mul fraction_div
short_lem e lev m s r = simp (+ℤ-pos, *ℤ-pos)

-- A short position's liquidation price is the highest price that covers the maintenance margin.
pub short_liquidation_threshold :
    (e lev m s r x : ℕ)
    → 0 < lev
    → m < r
    → (pos x ≤ℤ short_liquidation (pos e) (pos lev) (pos m) (pos s) (pos r))
      ↔ ShortCovered e lev m s r x
short_liquidation_threshold e lev m s r x hl hm =
    let n = e * (lev + s) * r in
    let d = 1 * lev * (r + m) in
    let d_pos : 0 < d = grind arith in
    let (to, from) =
      le-floor_iff (pos n) (pos d) (floor_fraction (fraction (pos n) (pos d))) (pos x) (omega arith)
        (floor_fraction-IsFloor (pos n) (pos d) (omega arith)) in
    rw (short_lem e lev m s r) (
      λ c. omega (arith, to c, parts_of_eq _ _ (*ℤ-pos x d)),
      λ c. from (rw (*ℤ-pos x d) (omega (arith, c))),
    )

module _ (e lev m s r : ℕ) (he : 0 < e) (hl : 0 < lev) (hm : m < r) where
  price_long :
      liquidation_price_ticks (pos e) (pos 1) (pos lev) (pos m) (pos s) (pos r)
      ≡ ok (long_liquidation (pos e) (pos lev) (pos m) (pos s) (pos r))
  unfolding liquidation_price_ticks
  price_long = ground arith

  price_short :
      liquidation_price_ticks (pos e) (negsuc 0) (pos lev) (pos m) (pos s) (pos r)
      ≡ ok (short_liquidation (pos e) (pos lev) (pos m) (pos s) (pos r))
  unfolding liquidation_price_ticks
  price_short = ground arith

-- For a positive entry price and leverage and a maintenance rate below the scale,
-- `liquidation_price_ticks` returns on both sides. On the long side the price is at most x exactly
-- if the isolated margin covers the maintenance margin at x; on the short side x is at most the
-- price exactly if it does.
pub liquidation_price-threshold :
    (e lev m s r : ℕ)
    → 0 < e
    → 0 < lev
    → m < r
    → Returns
        (λ p. (x : ℕ) → (p ≤ℤ pos x) ↔ LongCovered e lev m s r x)
        (liquidation_price_ticks (pos e) (pos 1) (pos lev) (pos m) (pos s) (pos r))
      × Returns
          (λ p. (x : ℕ) → (pos x ≤ℤ p) ↔ ShortCovered e lev m s r x)
          (liquidation_price_ticks (pos e) (negsuc 0) (pos lev) (pos m) (pos s) (pos r))
liquidation_price-threshold e lev m s r he hl hm = (
  rw (price_long e lev m s r he hl hm) (λ x. long_liquidation_threshold e lev m s r x he hm),
  rw (price_short e lev m s r he hl hm) (λ x. short_liquidation_threshold e lev m s r x hl hm),
)
