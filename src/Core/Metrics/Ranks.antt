-- ===== src/Core/Metrics/Ranks.antt =====
-- The nearest-rank percentile against the counts of the values around it.
use mathlib.Core.List.{Permᴰ}
use mathlib.Core.Option.{some-injective}
use wagmi_bench.Prelude.{
  length-perm, subst, ℕ, zero, suc, ◌-◌, ◌≤◌, ◌<◌, ◌≡◌, refl, ◌∙◌, ◌⊎◌, inl, inr, Bool, true,
  Bool-cases, some, List, [], ◌∷◌, length, get_elem?, get_elem?-lt, count_by, All, All-get_elem?,
  sort_by, sort_by-perm, sort_by-IsSorted, IsPreorder, IsSorted, Returns, Returns-eq-ok, arith,
  leb→le, not_leb→lt,
}
use wagmi_bench.Prelude.Int.{ℤ, pos, negsuc, ◌+ℤ◌, ◌*ℤ◌, ◌≤ℤ◌, ◌<ℤ◌, leb_ℤ, ltb_ℤ, max_ℤ, int_laws}
use wagmi_bench.Prelude.Int.Laws.{mul_mono, *ℤ_comm, parts_of_eq, +ℤ-one-mul}
use wagmi_bench.Core.Math.Rounding.{ceil_div}
use wagmi_bench.Core.Math.Rounding.Bounds.{IsCeil, ceil_div-IsCeil}
use wagmi_bench.Core.Metrics.{nearest_rank}

leb_ℤ-IsPreorder : IsPreorder leb_ℤ
leb_ℤ-IsPreorder = record { total = λ a b h. ground arith; trans = λ a b c h k. ground arith }

module _ {ℓ} {A : Type ℓ} where
  count_by-perm : (p : A → Bool) {xs ys : List A} → Permᴰ xs ys → count_by p xs ≡ count_by p ys
  count_by-perm p Permᴰ.nil = refl
  count_by-perm p (Permᴰ.cons e d) = rw (e, count_by-perm p d)
  count_by-perm p (Permᴰ.swap e e') = rw (e, e') (omega arith)
  count_by-perm p (Permᴰ.trans d d') = count_by-perm p d ∙ count_by-perm p d'

-- How many values are at most `v`, and how many are below it.
abbrev pub count_le : ℤ → List ℤ → ℕ
count_le v = count_by (λ x. leb_ℤ x v)

abbrev pub count_lt : ℤ → List ℤ → ℕ
count_lt v = count_by (λ x. ltb_ℤ x v)

nothing_below : (v : ℤ) (xs : List ℤ) → All (λ x. leb_ℤ v x ≡ true) xs → count_lt v xs ≡ 0
nothing_below v [] h = refl
nothing_below v (x ∷ xs) h = let rest = nothing_below v xs h.1 in let first = h.0 in ground arith

head_counts :
    (x : ℤ) (xs : List ℤ)
    → All (λ y. leb_ℤ x y ≡ true) xs
    → (0 < count_le x (x ∷ xs)) × (count_lt x (x ∷ xs) ≤ 0)
head_counts x xs s = let none_below = nothing_below x xs s in (ground arith, ground arith)

sorted_counts :
    (xs : List ℤ) (i : ℕ) (v : ℤ)
    → IsSorted leb_ℤ xs
    → get_elem? xs i ≡ some v
    → (i < count_le v xs) × (count_lt v xs ≤ i)
sorted_counts [] i v s e = cc
sorted_counts (x ∷ xs) zero v s e =
    subst (λ u. (0 < count_le u (x ∷ xs)) × (count_lt u (x ∷ xs) ≤ 0)) (some-injective x v e)
      (head_counts x xs s.0)
sorted_counts (x ∷ xs) (suc i) v s e =
    let (above, below) = sorted_counts xs i v s.1 e in
    let first = All-get_elem? (λ a. leb_ℤ x a ≡ true) xs i v s.0 e in (ground arith, ground arith)

-- `v` is the percentile num / den of the values: at least `rank` of them are at most `v`, fewer are
-- below it, and `rank` is the first from one up that covers the share.
pub record IsPercentile (values : List ℤ) (num den : ℕ) (v : ℤ) : Type 0 where
  pub rank : ℕ
  pub first : 1 ≤ rank
  pub covers : pos num *ℤ pos (length values) ≤ℤ pos rank *ℤ pos den
  pub least : (rank ≡ 1) ⊎ (pos rank *ℤ pos den <ℤ pos num *ℤ pos (length values) +ℤ pos den)
  pub reached : rank ≤ count_le v values
  pub not_before : count_lt v values < rank

module _ (num den n : ℕ) (within : num ≤ den) (den_pos : 0 < den) (n_pos : 0 < n) where
  rank-le : (rank : ℤ) → IsCeil (pos num *ℤ pos n) (pos den) rank → rank ≤ℤ pos n
  rank-le rank c = elim (Bool-cases (leb_ℤ rank (pos n))) [
    | inl fits ↦ leb→le _ _ fits
    | inr over ↦
        let past = not_leb→lt _ _ over in
        absurd (
          omega (
            int_laws,
            c.1,
            mul_mono (pos num) (pos den) (pos n) (omega arith) (omega arith),
            mul_mono (pos n +ℤ pos 1) rank (pos den) (omega (int_laws, past)) (omega arith),
            parts_of_eq _ _ (*ℤ_comm (pos den) (pos n)),
            parts_of_eq _ _ (+ℤ-one-mul (pos n) (pos den)),
          ))
  ]

  chosen_rank :
      (rank : ℤ)
      → IsCeil (pos num *ℤ pos n) (pos den) rank
      → (r : ℕ) × (max_ℤ (pos 1) rank ≡ pos r)
        × (1 ≤ r)
        × (r ≤ n)
        × (pos num *ℤ pos n ≤ℤ pos r *ℤ pos den)
        × ((r ≡ 1) ⊎ (pos r *ℤ pos den <ℤ pos num *ℤ pos n +ℤ pos den))
  chosen_rank (pos zero) c = (
    1,
    refl,
    omega arith,
    omega arith,
    omega (arith, c.0, mul_mono (pos 0) (pos 1) (pos den) (omega arith) (omega arith)),
    inl refl,
  )
  chosen_rank (pos (suc r)) c =
      (suc r, ground arith, omega arith, omega (arith, rank-le (pos (suc r)) c), c.0, inr c.1)
  chosen_rank (negsuc r) c = (
    1,
    ground arith,
    omega arith,
    omega arith,
    omega (arith, c.0, mul_mono (negsuc r) (pos 1) (pos den) (omega arith) (omega arith)),
    inl refl,
  )

-- For a percentile num / den between zero and one and a sequence that is not empty, `nearest_rank`
-- returns an element with a rank of at least 1 that is the ceiling of num / den times the length,
-- or 1: at least that many elements are at most the result, and fewer are below it.
pub nearest_rank-IsPercentile :
    (value : ℤ) (values : List ℤ) (num den : ℕ)
    → num ≤ den
    → 0 < den
    → Returns
        (IsPercentile (value ∷ values) num den)
        (nearest_rank (value ∷ values) (pos num) (pos den))
unfolding nearest_rank
nearest_rank-IsPercentile value values num den within den_pos =
    let all = value ∷ values in
    let (rank, e, c) =
      Returns-eq-ok (IsCeil (pos num *ℤ pos (length all)) (pos den))
        (ceil_div (pos num *ℤ pos (length all)) (pos den))
        (ceil_div-IsCeil (pos num *ℤ pos (length all)) (pos den) (omega arith)) in
    let (r, e', one, fits, covers, least) =
      chosen_rank num den (length all) within den_pos (omega arith) rank c in
    let same = length-perm (sort_by-perm leb_ℤ all) in
    let (v, found) = get_elem?-lt (sort_by leb_ℤ all) (r - 1) (omega arith) in
    let (above, below) =
      sorted_counts (sort_by leb_ℤ all) (r - 1) v (sort_by-IsSorted leb_ℤ leb_ℤ-IsPreorder all)
        found in
    let p : IsPercentile all num den v = record {
      rank = r;
      first = one;
      covers = covers;
      least = least;
      reached = omega (arith, count_by-perm (λ x. leb_ℤ x v) (sort_by-perm leb_ℤ all));
      not_before = omega (arith, count_by-perm (λ x. ltb_ℤ x v) (sort_by-perm leb_ℤ all));
    } in
    ground (arith, e, e', found, p)
