-- ===== src/Core/Action/KeyOrder.antt =====
-- core/action.py, the order of the keys in an agent's reply.
use mathlib.Core.List.{Permᴰ}
use wagmi_bench.Prelude.{
  length-perm, ℕ, ◌≡◌, refl, ◌∙◌, sym, Bool, Bool-cases, inl, inr, some, List, [], ◌∷◌, All,
  AllPairs, AllPairs-perm, Apart, Text, codes, text_eqb, text_eqb_iff, by_key, by_key-IsPreorder,
  by_key-Apart, sort_by-eq_of_perm, arith,
}
use wagmi_bench.Prelude.Objects.{KeysDiffer, Value, object, dict, members_list-dict, find_member}
use wagmi_bench.Core.Action.Grammar.{is_market}
use wagmi_bench.Core.Action.{
  is_known_field, all_keys, target_is_valid, v4_shape_is_valid, sorted_target, parse_values,
  parse_document,
}

find_member-swap :
    (key : Text) (a b : Text × Value) (l : List (Text × Value))
    → KeysDiffer a b
    → find_member key (dict (a ∷ b ∷ l)) ≡ find_member key (dict (b ∷ a ∷ l))
unfolding find_member
find_member-swap key a b l d = elim (Bool-cases (text_eqb a.0 key)) [
  | inr e ↦ rw e
  | inl e ↦ elim (Bool-cases (text_eqb b.0 key)) [
    | inr e' ↦ rw (e, e')
    | inl e' ↦ absurd (d ((text_eqb_iff a.0 key).0 e ∙ sym ((text_eqb_iff b.0 key).0 e')))
  ]
]

find_member-perm :
    (key : Text) {l m : List (Text × Value)}
    → Permᴰ l m
    → AllPairs KeysDiffer l
    → find_member key (dict l) ≡ find_member key (dict m)
unfolding find_member
find_member-perm key Permᴰ.nil d = refl
find_member-perm key (Permᴰ.cons e p) d = rw (e, find_member-perm key p d.1)
find_member-perm key (Permᴰ.swap {a = a} {b = b} {l = l} e e') d =
    rw (← e, ← e') (find_member-swap key a b l d.0.0)
find_member-perm key (Permᴰ.trans p q) d =
    find_member-perm key p d
    ∙ find_member-perm key q (AllPairs-perm KeysDiffer (λ a b h k. h (sym k)) p d)

all_keys-perm :
    (test : Text → Bool) {l m : List (Text × Value)}
    → Permᴰ l m
    → all_keys test (dict l) ≡ all_keys test (dict m)
unfolding all_keys
all_keys-perm test Permᴰ.nil = refl
all_keys-perm test (Permᴰ.cons e p) = rw (e, all_keys-perm test p)
all_keys-perm test (Permᴰ.swap e e') = rw (e, e') (ground arith)
all_keys-perm test (Permᴰ.trans p q) = all_keys-perm test p ∙ all_keys-perm test q

target_is_valid-perm :
    {l m : List (Text × Value)}
    → Permᴰ l m
    → target_is_valid (some (object (dict l))) ≡ target_is_valid (some (object (dict m)))
unfolding target_is_valid
target_is_valid-perm {l} {m} p =
    rw (members_list-dict l, members_list-dict m, length-perm p, all_keys-perm is_market p)

members-Apart :
    (l : List (Text × Value))
    → AllPairs KeysDiffer l
    → AllPairs (Apart (by_key (λ (m : Text × Value). m.0))) l
members-Apart [] d = tt
members-Apart (a ∷ l) d = (later l d.0, members-Apart l d.1)
  where
    later :
        (l : List (Text × Value))
        → All (KeysDiffer a) l
        → All (Apart (by_key (λ (m : Text × Value). m.0)) a) l
    later [] d = tt
    later (b ∷ l) d = (by_key-Apart (λ (m : Text × Value). m.0) a b d.0, later l d.1)

sorted_target-perm :
    {l m : List (Text × Value)}
    → Permᴰ l m
    → AllPairs KeysDiffer l
    → sorted_target (some (object (dict l))) ≡ sorted_target (some (object (dict m)))
unfolding sorted_target
sorted_target-perm {l} {m} p d =
    rw (members_list-dict l, members_list-dict m)
      (sort_by-eq_of_perm (by_key (λ (m : Text × Value). m.0))
        (by_key-IsPreorder (λ (m : Text × Value). m.0)) p (members-Apart l d))

-- The keys of the document in another order.
document-perm :
    (declared : List Text) (n : ℕ) {l m : List (Text × Value)}
    → Permᴰ l m
    → AllPairs KeysDiffer l
    → parse_document declared n (object (dict l)) ≡ parse_document declared n (object (dict m))
unfolding parse_document v4_shape_is_valid parse_values
document-perm declared n {l} {m} p d = rw (
  all_keys-perm is_known_field p,
  find_member-perm (codes "schema") p d,
  find_member-perm (codes "target") p d,
  find_member-perm (codes "intent_kind") p d,
  find_member-perm (codes "comment") p d,
  find_member-perm (codes "usage") p d,
  find_member-perm (codes "ext") p d,
  find_member-perm (codes "max_slippage_bps") p d,
)

-- The keys of the target in another order.
target-perm :
    (declared : List Text) (n : ℕ) (rest : List (Text × Value)) {l m : List (Text × Value)}
    → Permᴰ l m
    → AllPairs KeysDiffer l
    → parse_document declared n (object (dict ((codes "target", object (dict l)) ∷ rest)))
      ≡ parse_document declared n (object (dict ((codes "target", object (dict m)) ∷ rest)))
unfolding parse_document v4_shape_is_valid parse_values find_member all_keys
target-perm declared n rest {l} {m} p d = rw (target_is_valid-perm p, sorted_target-perm p d)

-- If the keys of the target differ and the keys of the document differ, then neither the order of
-- the markets in the target nor the order of the members of the document changes the result of
-- stages V3 to V8.
pub parse_document-perm :
    (declared : List Text) (from_attempt : ℕ) (l m rest document : List (Text × Value))
    → Permᴰ l m
    → AllPairs KeysDiffer l
    → Permᴰ ((codes "target", object (dict m)) ∷ rest) document
    → AllPairs KeysDiffer ((codes "target", object (dict m)) ∷ rest)
    → parse_document declared from_attempt
        (object (dict ((codes "target", object (dict l)) ∷ rest)))
      ≡ parse_document declared from_attempt (object (dict document))
parse_document-perm declared n l m rest document p d q k =
    target-perm declared n rest p d ∙ document-perm declared n q k
