-- ===== src/Tests/Chains.antt =====
-- A chain of two records under a toy digest, and canonical documents.
use mathlib.Core.List.{Permᴰ}
use wagmi_bench.Prelude.{
  ℕ, zero, suc, ◌+◌, ◌%◌, ◌≡◌, refl, true, ◌⊎◌, some, List, [], ◌∷◌, ◌++◌, length, Text, codes, ok,
  err, ◌>>=◌, chain_error, arith,
}
use wagmi_bench.Prelude.Int.{pos}
use wagmi_bench.Prelude.Objects.{bool, int, str, object, dict}
use wagmi_bench.Spec.Canonical.{encode, encode_string, is_unicode, utf8, canonical_bytes}
use wagmi_bench.Spec.Canonical.Order.{canonical_bytes-perm}
use wagmi_bench.Spec.Chain.{
  Bytes, events, new_builder, append_all, stream_head, ChainBuilder, ChainLink, verify_chain,
  strip_prefix, all_lower_hex,
}
use wagmi_bench.Spec.Chain.Roundtrip.{append_all-verify_chain}
use wagmi_bench.Spec.Chain.Binding.{Collision, verify_chain-binds}
use wagmi_bench.Spec.Chain.Tamper.{verify_chain-tampered}
use wagmi_bench.Core.Action.Utf8.{utf8_decode}
use wagmi_bench.Core.Action.Utf8.Roundtrip.{canonical_bytes-utf8_decode}

abbrev filler : ℕ → Text
filler zero = []
filler (suc n) = 97 ∷ filler n

abbrev sum : List ℕ → ℕ
sum [] = 0
sum (b ∷ bytes) = b + sum bytes

-- Sixty-four hexadecimal digits, the first from the sum of the bytes.
abbrev toy_digest : Bytes → Text
toy_digest bytes = (48 + sum bytes % 10) ∷ filler 63

toy_digest-digits :
    (bytes : Bytes) → (length (toy_digest bytes) ≡ 64) × (all_lower_hex (toy_digest bytes) ≡ true)
unfolding all_lower_hex
toy_digest-digits bytes = (refl, ground arith)

abbrev genesis : Text
genesis = codes "sha256:" ++ filler 64

abbrev two_records : List Bytes
two_records = (123 ∷ 125 ∷ []) ∷ (1 ∷ 2 ∷ []) ∷ []

append_all-verify_chain_example :
    (b : ChainBuilder) × (links : List ChainLink) × ((new_builder events genesis >>= λ start.
    append_all toy_digest start two_records)
      ≡ ok (b, links))
    × (verify_chain toy_digest events genesis two_records links
          (some (stream_head b).head)
          (some (stream_head b).count)
        ≡ ok (stream_head b).head)
unfolding strip_prefix all_lower_hex
append_all-verify_chain_example =
    append_all-verify_chain toy_digest toy_digest-digits events genesis two_records refl
      (omega arith)

written :
    (b : ChainBuilder) × (links : List ChainLink) × (verify_chain toy_digest events genesis
        two_records links
        (some b.head)
        (some b.count)
      ≡ ok b.head)
unfolding strip_prefix all_lower_hex
written =
    let (b, links, wrote, verified) =
      append_all-verify_chain toy_digest toy_digest-digits events genesis two_records refl
        (omega arith) in
    (b, links, verified)

verify_chain-binds_example :
    ((genesis ≡ genesis) × (two_records ≡ two_records)) ⊎ Collision toy_digest
verify_chain-binds_example =
    verify_chain-binds toy_digest events genesis genesis two_records two_records written.1 written.1
      written.0.head written.0.count written.0.head written.0.head written.2 written.2

verify_chain-tampered_example :
    (verify_chain toy_digest events genesis
        ((123 ∷ 125 ∷ []) ∷ (1 ∷ 3 ∷ []) ∷ [])
        written.1
        (some written.0.head)
        (some written.0.count)
      ≡ err (chain_error 1))
    ⊎ Collision toy_digest
verify_chain-tampered_example =
    verify_chain-tampered toy_digest events genesis ((123 ∷ 125 ∷ []) ∷ []) (1 ∷ 2 ∷ [])
      (1 ∷ 3 ∷ []) [] [] written.1 (some written.0.head) (some written.0.count) written.0.head
      written.2 (λ e. ground arith) refl

canonical_bytes-perm_example :
    canonical_bytes (object (dict ((codes "b", int (pos 1)) ∷ (codes "a", bool true) ∷ [])))
    ≡ canonical_bytes (object (dict ((codes "a", bool true) ∷ (codes "b", int (pos 1)) ∷ [])))
canonical_bytes-perm_example =
    canonical_bytes-perm ((codes "b", int (pos 1)) ∷ (codes "a", bool true) ∷ [])
      ((codes "a", bool true) ∷ (codes "b", int (pos 1)) ∷ []) (Permᴰ.swap refl refl)
      (((λ e. ground arith), tt), (tt, tt))

canonical_bytes-utf8_decode_example :
    (t : Text) × (encode (str (233 ∷ 8364 ∷ [])) ≡ ok t)
    × (utf8_decode (34 ∷ 195 ∷ 169 ∷ 226 ∷ 130 ∷ 172 ∷ 34 ∷ []) ≡ some t)
unfolding canonical_bytes encode is_unicode encode_string utf8
canonical_bytes-utf8_decode_example =
    canonical_bytes-utf8_decode (str (233 ∷ 8364 ∷ [])) (34 ∷ 195 ∷ 169 ∷ 226 ∷ 130 ∷ 172 ∷ 34 ∷ [])
      refl
