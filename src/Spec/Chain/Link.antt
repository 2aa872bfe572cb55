-- ===== src/Spec/Chain/Link.antt =====
-- The canonical bytes of a link of a chain, written out.
use wagmi_bench.Prelude.{
  ℕ, zero, suc, ◌+◌, ◌/◌, ◌%◌, ◌≡◌, refl, ◌∙◌, sym, ap, subst, Bool, true, false, Bool-cases,
  Option-cases, inl, inr, ◌&&◌, ltb, leb, some, [], ◌∷◌, ◌++◌, length, append_assoc, append-inj,
  Text, codes, text_leb, sort_by, ok, err, ok-injective, canonical_error, ◌>>=◌, arith,
}
use wagmi_bench.Prelude.Int.{pos}
use wagmi_bench.Prelude.Objects.{object, dict}
use wagmi_bench.Spec.Canonical.{
  max_safe_int, escape, escape_all, encode_string, is_unicode, digits_from, digits, encode,
  encode_object, join_members, keys_are_unicode, utf16, encode_int, utf8, canonical_bytes,
}
use wagmi_bench.Spec.Chain.{
  Bytes, StreamName, events, decisions, stream_text, all_lower_hex, hash_prefix, strip_prefix,
  is_digest, is_hash, require_hash, link_members, sha256_prefixed, content_hash, chain_link_value,
}

unfoldable pub is_ascii : Text → Bool
is_ascii [] = true
is_ascii (c ∷ rest) = ltb c 128 && is_ascii rest

is_ascii-append : (s t : Text) → is_ascii (s ++ t) ≡ (is_ascii s && is_ascii t)
unfolding is_ascii
is_ascii-append [] t = refl
is_ascii-append (c ∷ s) t = ground (arith, is_ascii-append s t)

is_ascii-utf8 : (t : Text) → is_ascii t ≡ true → utf8 t ≡ t
unfolding is_ascii utf8
is_ascii-utf8 [] h = refl
is_ascii-utf8 (c ∷ t) h = ground (arith, is_ascii-utf8 t)

is_ascii-is_unicode : (t : Text) → is_ascii t ≡ true → is_unicode t ≡ true
unfolding is_ascii is_unicode
is_ascii-is_unicode [] h = refl
is_ascii-is_unicode (c ∷ t) h = ground (arith, is_ascii-is_unicode t)

digits_from-is_ascii :
    (fuel n : ℕ) (out : Text) → is_ascii out ≡ true → is_ascii (digits_from fuel n out) ≡ true
unfolding is_ascii digits_from
digits_from-is_ascii zero n out h = h
digits_from-is_ascii (suc fuel) n out h =
    ground (arith, digits_from-is_ascii fuel (n / 10) ((48 + n % 10) ∷ out))

all_lower_hex-is_ascii : (t : Text) → all_lower_hex t ≡ true → is_ascii t ≡ true
unfolding is_ascii all_lower_hex
all_lower_hex-is_ascii [] h = refl
all_lower_hex-is_ascii (c ∷ t) h = ground (arith, all_lower_hex-is_ascii t)

all_lower_hex-escape_all : (t : Text) → all_lower_hex t ≡ true → escape_all t ≡ t
unfolding escape_all escape all_lower_hex
all_lower_hex-escape_all [] h = refl
all_lower_hex-escape_all (c ∷ t) h = ground (arith, all_lower_hex-escape_all t)

strip_prefix-eq : (p v d : Text) → strip_prefix p v ≡ some d → v ≡ p ++ d
unfolding strip_prefix
strip_prefix-eq [] v d h = cc
strip_prefix-eq (x ∷ p) [] d h = cc
strip_prefix-eq (x ∷ p) (c ∷ v) d h = ground (arith, strip_prefix-eq p v d)

-- What `_require_hash` lets pass.
pub record IsHash (value : Text) : Type 0 where
  pub length_eq : length value ≡ 71
  pub ascii : is_ascii value ≡ true
  pub plain : escape_all value ≡ value

digest-IsHash : (d : Text) → length d ≡ 64 → all_lower_hex d ≡ true → IsHash (hash_prefix ++ d)
unfolding is_ascii escape_all escape
digest-IsHash d h k = record {
  length_eq = omega arith;
  ascii = all_lower_hex-is_ascii d k;
  plain = rw (all_lower_hex-escape_all d k);
}

pub is_hash-IsHash : (value : Text) → is_hash value ≡ true → IsHash value
unfolding strip_prefix
is_hash-IsHash value h = elim (Option-cases (strip_prefix hash_prefix value)) [
  | inl e ↦ absurd cc
  | inr (d, e) ↦
      let k : is_digest (some d) ≡ true = ap is_digest (sym e) ∙ h in
      subst IsHash (sym (strip_prefix-eq hash_prefix value d e))
        (digest-IsHash d (ground arith) (ground arith))
]

abbrev prev_head : Text
prev_head = codes "{\"prev\":\""

abbrev record_head : Text
record_head = codes "\",\"record_sha256\":\""

abbrev after_hashes : StreamName → ℕ → Text
after_hashes stream seq =
    codes "\",\"schema\":\"chain_link/v1\",\"seq\":"
    ++ (digits seq ++ (codes ",\"stream\":\"" ++ (stream_text stream ++ codes "\"}")))

-- The text of the canonical form.
abbrev pub link_text : StreamName → ℕ → Text → Text → Text
link_text stream seq record_hash prev =
    prev_head ++ (prev ++ (record_head ++ (record_hash ++ after_hashes stream seq)))

encode-link :
    (stream : StreamName) (seq : ℕ) (record_hash prev : Text)
    → leb seq max_safe_int ≡ true
    → IsHash record_hash
    → IsHash prev
    → encode (object (dict (link_members stream (pos seq) record_hash prev)))
      ≡ ok (link_text stream seq record_hash prev)
unfolding encode encode_object join_members keys_are_unicode is_unicode sort_by text_leb utf16
    encode_string escape_all escape encode_int ◌>>=◌
encode-link events seq record_hash prev s h k = simp (s, h.plain, k.plain, append_assoc)
encode-link decisions seq record_hash prev s h k = simp (s, h.plain, k.plain, append_assoc)

link_text-is_ascii :
    (stream : StreamName) (seq : ℕ) (record_hash prev : Text)
    → IsHash record_hash
    → IsHash prev
    → is_ascii (link_text stream seq record_hash prev) ≡ true
unfolding is_ascii digits
link_text-is_ascii events seq record_hash prev h k =
    simp (is_ascii-append, h.ascii, k.ascii, digits_from-is_ascii)
link_text-is_ascii decisions seq record_hash prev h k =
    simp (is_ascii-append, h.ascii, k.ascii, digits_from-is_ascii)

encode-link_err :
    (stream : StreamName) (seq : ℕ) (record_hash prev : Text)
    → leb seq max_safe_int ≡ false
    → encode (object (dict (link_members stream (pos seq) record_hash prev))) ≡ err canonical_error
unfolding encode encode_object join_members keys_are_unicode is_unicode sort_by text_leb utf16
    encode_string escape_all escape encode_int ◌>>=◌
encode-link_err events seq record_hash prev s = rw s
encode-link_err decisions seq record_hash prev s = rw s

-- A link's value is the hash of its text.
pub chain_link_value-text :
    (hexdigest : Bytes → Text) (stream : StreamName) (seq : ℕ) (record_hash prev : Text)
    → leb seq max_safe_int ≡ true
    → is_hash record_hash ≡ true
    → is_hash prev ≡ true
    → chain_link_value hexdigest stream (pos seq) record_hash prev
      ≡ ok (sha256_prefixed hexdigest (link_text stream seq record_hash prev))
unfolding chain_link_value content_hash require_hash canonical_bytes ◌>>=◌
chain_link_value-text hexdigest stream seq record_hash prev s h k =
    let h' = is_hash-IsHash record_hash h in
    let k' = is_hash-IsHash prev k in
    let a = link_text-is_ascii stream seq record_hash prev h' k' in
    rw (
      h,
      k,
      encode-link stream seq record_hash prev s h' k',
      is_ascii-is_unicode _ a,
      is_ascii-utf8 _ a,
    )

-- A link that has a value has well-formed hashes.
pub chain_link_value-ok :
    (hexdigest : Bytes → Text) (stream : StreamName) (seq : ℕ) (record_hash prev link : Text)
    → chain_link_value hexdigest stream (pos seq) record_hash prev ≡ ok link
    → (is_hash record_hash ≡ true)
      × (is_hash prev ≡ true)
      × (sha256_prefixed hexdigest (link_text stream seq record_hash prev) ≡ link)
unfolding chain_link_value content_hash require_hash canonical_bytes ◌>>=◌
chain_link_value-ok hexdigest stream seq record_hash prev link e =
    elim (Bool-cases (is_hash record_hash)) [
      | inr h ↦ absurd (ground arith)
      | inl h ↦ elim (Bool-cases (is_hash prev)) [
        | inr k ↦ absurd (ground arith)
        | inl k ↦ elim (Bool-cases (leb seq max_safe_int)) [
          | inr s ↦ absurd (ground (arith, encode-link_err stream seq record_hash prev s))
          | inl s ↦ (
            h,
            k,
            ok-injective
                (sym (chain_link_value-text hexdigest stream seq record_hash prev s h k) ∙ e),
          )
        ]
      ]
    ]

-- The text determines both hashes.
pub link_text-inj :
    (stream : StreamName) (seq : ℕ) (r r' p p' : Text)
    → is_hash r ≡ true
    → is_hash r' ≡ true
    → is_hash p ≡ true
    → is_hash p' ≡ true
    → link_text stream seq r p ≡ link_text stream seq r' p'
    → (r ≡ r') × (p ≡ p')
link_text-inj stream seq r r' p p' h h' k k' e =
    let rest = after_hashes stream seq in
    let e =
      (append-inj prev_head prev_head (p ++ (record_head ++ (r ++ rest)))
        (p' ++ (record_head ++ (r' ++ rest))) refl e).1 in
    let (prevs, e) =
      append-inj p p' (record_head ++ (r ++ rest)) (record_head ++ (r' ++ rest)) (lengths p p' k k')
        e in
    let e = (append-inj record_head record_head (r ++ rest) (r' ++ rest) refl e).1 in
    let (records, e) = append-inj r r' rest rest (lengths r r' h h') e in (records, prevs)
  where
    lengths : (s t : Text) → is_hash s ≡ true → is_hash t ≡ true → length s ≡ length t
    lengths s t h k = (is_hash-IsHash s h).length_eq ∙ sym (is_hash-IsHash t k).length_eq
