-- ===== src/Spec/Canonical/Order.antt =====
-- The canonical form of an object, under another order of insertion.
use mathlib.Core.List.{Permᴰ}
use wagmi_bench.Prelude.{
  ◌≡◌, ◌≢◌, refl, ◌∙◌, true, Bool-cases, inl, inr, List, [], ◌∷◌, map, All, AllPairs, Apart,
  perm-map, sort_by-eq_of_perm, Text, by_key, by_key-IsPreorder, by_key-Apart, Result, ◌>>=◌, arith,
}
use wagmi_bench.Prelude.Objects.{KeysDiffer, Value, object, dict}
use wagmi_bench.Spec.Canonical.{
  is_unicode, utf16, Encoded, keys_are_unicode, sort_key, encode_object, encode, encode_members,
  canonical_bytes,
}

-- Different keys have different code units.
utf16-injective :
    (s t : Text) → is_unicode s ≡ true → is_unicode t ≡ true → utf16 s ≡ utf16 t → s ≡ t
unfolding is_unicode utf16
utf16-injective [] [] h k e = refl
utf16-injective [] (y ∷ ys) h k e = ground arith
utf16-injective (x ∷ xs) [] h k e = ground arith
utf16-injective (x ∷ xs) (y ∷ ys) h k e = ground (arith, utf16-injective xs ys)

-- The members of a `dict`, encoded.
abbrev encoded : Text × Value → Text × Result Text
encoded (key, v) = (key, encode v)

encode_members-dict : (l : List (Text × Value)) → encode_members (dict l) ≡ map encoded l
unfolding encode
encode_members-dict [] = refl
encode_members-dict ((key, v) ∷ rest) = rw (encode_members-dict rest)

keys-perm : {l m : Encoded} → Permᴰ l m → keys_are_unicode l ≡ keys_are_unicode m
unfolding keys_are_unicode
keys-perm Permᴰ.nil = refl
keys-perm (Permᴰ.cons e p) = rw (e, keys-perm p)
keys-perm (Permᴰ.swap e e') = rw (e, e') (ground arith)
keys-perm (Permᴰ.trans p q) = keys-perm p ∙ keys-perm q

keys-Apart :
    (key : Text) (v : Value) (l : List (Text × Value))
    → is_unicode key ≡ true
    → keys_are_unicode (map encoded l) ≡ true
    → All (KeysDiffer (key, v)) l
    → All (Apart (by_key sort_key) (encoded (key, v))) (map encoded l)
unfolding keys_are_unicode
keys-Apart key v [] h k d = tt
keys-Apart key v ((key', v') ∷ rest) h k d = (
  by_key-Apart sort_key (encoded (key, v)) (encoded (key', v'))
      (λ e. d.0 (utf16-injective key key' h (ground arith) e)),
  keys-Apart key v rest h (ground arith) d.1,
)

members-Apart :
    (l : List (Text × Value))
    → keys_are_unicode (map encoded l) ≡ true
    → AllPairs KeysDiffer l
    → AllPairs (Apart (by_key sort_key)) (map encoded l)
unfolding keys_are_unicode
members-Apart [] k d = tt
members-Apart ((key, v) ∷ rest) k d =
    (keys-Apart key v rest (ground arith) (ground arith) d.0, members-Apart rest (ground arith) d.1)

encode_object-perm :
    {l m : List (Text × Value)}
    → Permᴰ l m
    → AllPairs KeysDiffer l
    → encode_object (map encoded l) ≡ encode_object (map encoded m)
unfolding encode_object ◌>>=◌
encode_object-perm {l} {m} p d = elim (Bool-cases (keys_are_unicode (map encoded l))) [
  | inl u ↦ rw (
    ← keys-perm (perm-map encoded p),
    u,
    sort_by-eq_of_perm (by_key sort_key) (by_key-IsPreorder sort_key) (perm-map encoded p)
        (members-Apart l u d),
  )
  | inr u ↦ rw (← keys-perm (perm-map encoded p), u)
]

-- The canonical bytes of an object whose keys differ do not depend on the order in which its
-- members were inserted, errors included.
pub canonical_bytes-perm :
    (l m : List (Text × Value))
    → Permᴰ l m
    → AllPairs (λ (a b : Text × Value). a.0 ≢ b.0) l
    → canonical_bytes (object (dict l)) ≡ canonical_bytes (object (dict m))
unfolding canonical_bytes encode
canonical_bytes-perm l m p d =
    rw (encode_members-dict l, encode_members-dict m, encode_object-perm p d)
