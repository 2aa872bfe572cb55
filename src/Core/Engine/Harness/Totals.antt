-- ===== src/Core/Engine/Harness/Totals.antt =====
-- Coalesced block facts: the totals of each key, their order, and the count that is too large.
use mathlib.Core.List.{Permᴰ}
use mathlib.Core.List.Permᴰ
use wagmi_bench.Prelude.{
  ℕ, ◌+◌, ◌≤◌, ◌≡◌, refl, ◌∙◌, subst, true, false, Bool-cases, inl, inr, ltb, if◌then◌else◌, List,
  [], ◌∷◌, All, AllPairs, AllPairs-perm, All-perm, IsSorted, text_eqb_iff, sort_by, sort_by-perm,
  sort_by-IsSorted, ok, ok-injective, Result-cases, >>=-ok, ◌>>=◌, arith,
}
use wagmi_bench.Core.Engine.Harness.Order.{block_leb-IsPreorder}
use wagmi_bench.Core.Engine.Harness.{
  max_ijson_int, BlockKey, Blocked, port_rank, same_key, block_leb, add_count, add_counts,
  coalesce_harness_events,
}

-- How often a fact was blocked.
abbrev pub total : BlockKey → List Blocked → ℕ
total key [] = 0
total key (event ∷ events) = (if same_key event.key key then event.count else 0) + total key events

total-perm : (key : BlockKey) {l m : List Blocked} → Permᴰ l m → total key l ≡ total key m
total-perm key Permᴰ.nil = refl
total-perm key (Permᴰ.cons e p) = rw (e, total-perm key p)
total-perm key (Permᴰ.swap {a = a} {b = b} {l = l} e e') = rw (← e, ← e') (omega arith)
total-perm key (Permᴰ.trans p q) = total-perm key p ∙ total-perm key q

same_key_trans : (a b c : BlockKey) → same_key a b ≡ true → same_key a c ≡ same_key b c
same_key_trans a b c h =
    let d = (text_eqb_iff a.destination b.destination).0 (ground arith) in
    let p : port_rank a.port ≡ port_rank b.port = ground arith in
    let q = (text_eqb_iff a.protocol b.protocol).0 (ground arith) in rw (d, p, q)

same_total :
    (k : BlockKey) (x : Blocked) (key : BlockKey) (count : ℕ) (counts : List Blocked)
    → same_key x.key key ≡ true
    → total k (record x { count = x.count + count } ∷ counts)
      ≡ (if same_key x.key k then x.count else 0)
        + total k counts
        + (if same_key key k then count else 0)
same_total k x key count counts h = rw (same_key_trans x.key key k h) (ground arith)

add_count-total :
    (k key : BlockKey) (count : ℕ) (counts result : List Blocked)
    → add_count key count counts ≡ ok result
    → total k result ≡ total k counts + (if same_key key k then count else 0)
unfolding add_count ◌>>=◌
add_count-total k key count [] result e = elim (Bool-cases (ltb max_ijson_int count)) [
  | inl b ↦ absurd (ground arith)
  | inr b ↦
      let made : record { key = key; count = count } ∷ [] ≡ result = ok-injective (ground arith) in
      subst (λ r. total k r ≡ 0 + (if same_key key k then count else 0)) made (omega arith)
]
add_count-total k key count (x ∷ counts) result e =
    let head = (if same_key x.key k then x.count else 0) in
    let added = (if same_key key k then count else 0) in
    elim (Bool-cases (same_key x.key key)) [
      | inl h ↦ elim (Bool-cases (ltb max_ijson_int (x.count + count))) [
        | inl b ↦ absurd (ground arith)
        | inr b ↦
            let made : record x { count = x.count + count } ∷ counts ≡ result =
              ok-injective (ground arith) in
            subst (λ r. total k r ≡ head + total k counts + added) made
              (same_total k x key count counts h)
      ]
      | inr h ↦ elim (Result-cases (add_count key count counts)) [
        | inr (raised, m) ↦ absurd (ground arith)
        | inl (others, m) ↦
            let made : x ∷ others ≡ result = ok-injective (ground arith) in
            subst (λ r. total k r ≡ head + total k counts + added) made
              (omega (arith, add_count-total k key count counts others m))
      ]
    ]

-- The keys of the entries are told apart, and their counts are safe integers.
abbrev pub Differ : Blocked → Blocked → Type 0
Differ a b = same_key a.key b.key ≡ false

abbrev pub IsSafe : Blocked → Type 0
IsSafe entry = entry.count ≤ max_ijson_int

-- An entry of another key stays apart from the counts.
add_count-apart :
    (z : Blocked) (key : BlockKey) (count : ℕ) (counts result : List Blocked)
    → add_count key count counts ≡ ok result
    → same_key z.key key ≡ false
    → All (Differ z) counts
    → All (Differ z) result
unfolding add_count ◌>>=◌
add_count-apart z key count [] result e h d = elim (Bool-cases (ltb max_ijson_int count)) [
  | inl b ↦ absurd (ground arith)
  | inr b ↦
      let made : record { key = key; count = count } ∷ [] ≡ result = ok-injective (ground arith) in
      subst (All (Differ z)) made (h, tt)
]
add_count-apart z key count (x ∷ counts) result e h d = elim (Bool-cases (same_key x.key key)) [
  | inl same ↦ elim (Bool-cases (ltb max_ijson_int (x.count + count))) [
    | inl b ↦ absurd (ground arith)
    | inr b ↦
        let made : record x { count = x.count + count } ∷ counts ≡ result =
          ok-injective (ground arith) in
        subst (All (Differ z)) made d
  ]
  | inr other ↦ elim (Result-cases (add_count key count counts)) [
    | inr (raised, m) ↦ absurd (ground arith)
    | inl (others, m) ↦
        let made : x ∷ others ≡ result = ok-injective (ground arith) in
        subst (All (Differ z)) made (d.0, add_count-apart z key count counts others m h d.1)
  ]
]

abbrev pub WellFormed : List Blocked → Type 0
WellFormed counts = AllPairs Differ counts × All IsSafe counts

add_count-WellFormed :
    (key : BlockKey) (count : ℕ) (counts result : List Blocked)
    → add_count key count counts ≡ ok result
    → WellFormed counts
    → WellFormed result
unfolding add_count ◌>>=◌
add_count-WellFormed key count [] result e w = elim (Bool-cases (ltb max_ijson_int count)) [
  | inl b ↦ absurd (ground arith)
  | inr b ↦
      let made : record { key = key; count = count } ∷ [] ≡ result = ok-injective (ground arith) in
      subst WellFormed made ((tt, tt), (ground arith, tt))
]
add_count-WellFormed key count (x ∷ counts) result e (d, s) =
    elim (Bool-cases (same_key x.key key)) [
      | inl same ↦ elim (Bool-cases (ltb max_ijson_int (x.count + count))) [
        | inl b ↦ absurd (ground arith)
        | inr b ↦
            let made : record x { count = x.count + count } ∷ counts ≡ result =
              ok-injective (ground arith) in
            subst WellFormed made (d, (ground arith, s.1))
      ]
      | inr other ↦ elim (Result-cases (add_count key count counts)) [
        | inr (raised, m) ↦ absurd (ground arith)
        | inl (others, m) ↦
            let made : x ∷ others ≡ result = ok-injective (ground arith) in
            let (ds, ss) = add_count-WellFormed key count counts others m (d.1, s.1) in
            subst WellFormed made
              ((add_count-apart x key count counts others m other d.0, ds), (s.0, ss))
      ]
    ]

-- The loop over the events.
add_counts-keeps :
    (events counts result : List Blocked)
    → add_counts events counts ≡ ok result
    → WellFormed counts
    → WellFormed result × ((k : BlockKey) → total k result ≡ total k counts + total k events)
unfolding add_counts
add_counts-keeps [] counts result e w =
    subst (λ r. WellFormed r × ((k : BlockKey) → total k r ≡ total k counts + 0)) (ok-injective e)
      (w, λ k. omega arith)
add_counts-keeps (event ∷ events) counts result e w =
    let (next, a, e) =
      >>=-ok (add_count event.key event.count counts) (add_counts events) result e in
    let (w', t) =
      add_counts-keeps events next result e
        (add_count-WellFormed event.key event.count counts next a w) in
    (w', λ k. omega (arith, t k, add_count-total k event.key event.count counts next a))

-- If coalescing returns, every key has the total of its events, no two entries have one key, every
-- count is a safe integer, and the entries are sorted by destination, port and protocol.
pub coalesce_harness_events-totals :
    (events result : List Blocked)
    → coalesce_harness_events events ≡ ok result
    → ((key : BlockKey) → total key result ≡ total key events)
      × AllPairs (λ (a b : Blocked). same_key a.key b.key ≡ false) result
      × All IsSafe result
      × IsSorted block_leb result
unfolding coalesce_harness_events
coalesce_harness_events-totals events result e =
    let (counts, a, e) =
      >>=-ok (add_counts events []) (λ counts. ok (sort_by block_leb counts)) result e in
    let ((d, s), t) = add_counts-keeps events [] counts a (tt, tt) in
    let p = Permᴰ.symm (sort_by-perm block_leb counts) in
    subst
      (λ r.
        ((key : BlockKey) → total key r ≡ total key events)
        × AllPairs Differ r
        × All IsSafe r
        × IsSorted block_leb r)
      (ok-injective e)
      (
        (λ k. omega (arith, total-perm k p, t k)),
        AllPairs-perm Differ (λ a b h. same_key-symm a b h) p d,
        All-perm IsSafe p s,
        sort_by-IsSorted block_leb block_leb-IsPreorder counts,
      )
  where
    same_key-symm : (a b : Blocked) → Differ a b → Differ b a
    same_key-symm a b h = ground (
      arith,
      text_eqb_iff a.key.destination b.key.destination,
      text_eqb_iff b.key.destination a.key.destination,
      text_eqb_iff a.key.protocol b.key.protocol,
      text_eqb_iff b.key.protocol a.key.protocol,
    )
