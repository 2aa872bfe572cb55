-- ===== src/Prelude/Sort.antt =====
-- Python's stable `sorted` as an insertion sort by a Boolean order, and pairs of a list.
use mathlib.Core.List.{Permᴰ}
use mathlib.Core.List.Permᴰ
use mathlib.Core.Path.{◌≡◌, refl, ap, subst, ◌∙◌}
use mathlib.Core.Logic.{inl, inr}
use mathlib.Core.Bool.{Bool, true, false, not}
use mathlib.Core.List.{List, [], ◌∷◌, map}
use native.Mathlib.Omega.{arith}
use wagmi_bench.Prelude.Tests.{if◌then◌else◌, Bool-cases}
use wagmi_bench.Prelude.Lists.{All, length}

-- A relation between each element and each later one.
abbrev pub AllPairs {ℓ κ} : {A : Type ℓ} → (A → A → Type κ) → List A → Type κ
AllPairs R [] = Unit
AllPairs R (x ∷ xs) = All (R x) xs × AllPairs R xs

module _ {ℓ} {A : Type ℓ} where
  pub All-perm {κ} : (P : A → Type κ) {xs ys : List A} → Permᴰ xs ys → All P xs → All P ys
  All-perm P Permᴰ.nil h = h
  All-perm P (Permᴰ.cons e p) (h, k) = (subst P e h, All-perm P p k)
  All-perm P (Permᴰ.swap e e') (h, (k, m)) = (subst P e' k, (subst P e h, m))
  All-perm P (Permᴰ.trans p q) h = All-perm P q (All-perm P p h)

  pub length-perm : {xs ys : List A} → Permᴰ xs ys → length xs ≡ length ys
  length-perm Permᴰ.nil = refl
  length-perm (Permᴰ.cons e p) = omega (arith, length-perm p)
  length-perm (Permᴰ.swap e e') = refl
  length-perm (Permᴰ.trans p q) = length-perm p ∙ length-perm q

  pub perm-map {κ} :
      {B : Type κ} (f : A → B) {xs ys : List A} → Permᴰ xs ys → Permᴰ (map f xs) (map f ys)
  perm-map f Permᴰ.nil = Permᴰ.nil
  perm-map f (Permᴰ.cons e p) = Permᴰ.cons (ap f e) (perm-map f p)
  perm-map f (Permᴰ.swap e e') = Permᴰ.swap (ap f e) (ap f e')
  perm-map f (Permᴰ.trans p q) = Permᴰ.trans (perm-map f p) (perm-map f q)

  pub All-map_pred {κ} :
      (P Q : A → Type κ) (xs : List A) → ((a : A) → P a → Q a) → All P xs → All Q xs
  All-map_pred P Q [] f h = tt
  All-map_pred P Q (x ∷ xs) f h = (f x h.0, All-map_pred P Q xs f h.1)

  pub All-zip {κ μ} :
      (P : A → Type κ) (Q : A → Type μ) (xs : List A)
      → All P xs
      → All Q xs
      → All (λ a. P a × Q a) xs
  All-zip P Q [] h k = tt
  All-zip P Q (x ∷ xs) h k = ((h.0, k.0), All-zip P Q xs h.1 k.1)

  pub AllPairs-perm {κ} :
      (R : A → A → Type κ) {xs ys : List A}
      → ((a b : A) → R a b → R b a)
      → Permᴰ xs ys
      → AllPairs R xs
      → AllPairs R ys
  AllPairs-perm R s Permᴰ.nil h = h
  AllPairs-perm R s (Permᴰ.cons {l₂ = l₂} e p) (h, k) =
      (subst (λ a. All (R a) l₂) e (All-perm (R _) p h), AllPairs-perm R s p k)
  AllPairs-perm R s (Permᴰ.swap {a = a} {b = b} {b' = b'} {l = l} e e') (h, (k, m)) = (
    (subst (λ x. R x b') e' (subst (R b) e (s a b h.0)), subst (λ x. All (R x) l) e' k),
    (subst (λ x. All (R x) l) e h.1, m),
  )
  AllPairs-perm R s (Permᴰ.trans p q) h = AllPairs-perm R s q (AllPairs-perm R s p h)

module _ {ℓ} {A : Type ℓ} (le : A → A → Bool) where
  insert_by : A → List A → List A
  insert_by x [] = x ∷ []
  insert_by x (y ∷ ys) = if le x y then x ∷ y ∷ ys else y ∷ insert_by x ys

  -- `sorted(xs, key=...)`, with the order of the keys.
  unfoldable pub sort_by : List A → List A
  unfolding insert_by
  sort_by [] = []
  sort_by (x ∷ xs) = insert_by x (sort_by xs)

  -- What an order of keys has.
  pub record IsPreorder : Type ℓ where
    pub total : (a b : A) → le a b ≡ false → le b a ≡ true
    pub trans : (a b c : A) → le a b ≡ true → le b c ≡ true → le a c ≡ true

  -- The order tells the two elements apart.
  abbrev pub Apart : A → A → Type 0
  Apart a b = le a b ≡ not (le b a)

  abbrev pub IsSorted : List A → Type 0
  IsSorted = AllPairs (λ a b. le a b ≡ true)

  insert_by-perm : (x : A) (xs : List A) → Permᴰ (insert_by x xs) (x ∷ xs)
  unfolding insert_by
  insert_by-perm x [] = Permᴰ.refl _
  insert_by-perm x (y ∷ ys) = elim (Bool-cases (le x y)) [
    | inl e ↦ rw e (Permᴰ.refl _)
    | inr e ↦ rw e (Permᴰ.trans (Permᴰ.cons refl (insert_by-perm x ys)) (Permᴰ.swap refl refl))
  ]

  pub sort_by-perm : (xs : List A) → Permᴰ (sort_by xs) xs
  unfolding sort_by
  sort_by-perm [] = Permᴰ.nil
  sort_by-perm (x ∷ xs) =
      Permᴰ.trans (insert_by-perm x (sort_by xs)) (Permᴰ.cons refl (sort_by-perm xs))

  module _ (o : IsPreorder) where
    insert_by-IsSorted : (x : A) (xs : List A) → IsSorted xs → IsSorted (insert_by x xs)
    unfolding insert_by
    insert_by-IsSorted x [] h = (tt, tt)
    insert_by-IsSorted x (y ∷ ys) h = elim (Bool-cases (le x y)) [
      | inl e ↦ rw e ((e, All-map_pred _ _ ys (λ a k. o.trans x y a e k) h.0), h)
      | inr e ↦ rw e (
        All-perm (λ a. le y a ≡ true) (Permᴰ.symm (insert_by-perm x ys)) (o.total x y e, h.0),
        insert_by-IsSorted x ys h.1,
      )
    ]

    pub sort_by-IsSorted : (xs : List A) → IsSorted (sort_by xs)
    unfolding sort_by
    sort_by-IsSorted [] = tt
    sort_by-IsSorted (x ∷ xs) = insert_by-IsSorted x (sort_by xs) (sort_by-IsSorted xs)

    insert_by-swap :
        (x y : A) (xs : List A)
        → Apart x y
        → insert_by x (insert_by y xs) ≡ insert_by y (insert_by x xs)
    unfolding insert_by
    insert_by-swap x y [] h = ground arith
    insert_by-swap x y (z ∷ zs) h =
        ground (arith, insert_by-swap x y zs h, o.trans x y z, o.trans y x z, o.total x y)

    -- A sort by keys that tell the elements apart does not see the order of its input.
    pub sort_by-eq_of_perm :
        {xs ys : List A} → Permᴰ xs ys → AllPairs Apart xs → sort_by xs ≡ sort_by ys
    unfolding sort_by
    sort_by-eq_of_perm Permᴰ.nil h = refl
    sort_by-eq_of_perm (Permᴰ.cons e p) h = rw (e, sort_by-eq_of_perm p h.1)
    sort_by-eq_of_perm (Permᴰ.swap {a = a} {b = b} {l = l} e e') h =
        rw (← e, ← e') (insert_by-swap a b (sort_by l) h.0.0)
    sort_by-eq_of_perm (Permᴰ.trans p q) h =
        sort_by-eq_of_perm p h
        ∙ sort_by-eq_of_perm q (AllPairs-perm Apart (λ a b k. ground arith) p h)
