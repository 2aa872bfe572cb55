-- ===== src/Core/Action/Utf8/Roundtrip.antt =====
-- The decoder of core/action.py on what the encoder of spec/canonical.py writes.
use wagmi_bench.Prelude.{
  ℕ, suc, ◌+◌, ◌*◌, ◌/◌, ◌%◌, ◌≤◌, ◌<◌, ◌≡◌, refl, true, Bool-cases, inl, inr, not, ◌&&◌, ltb, leb,
  some, List, [], ◌∷◌, ◌++◌, Text, ok, Result-cases, ◌>>=◌, arith,
}
use wagmi_bench.Prelude.Objects.{Value}
use wagmi_bench.Spec.Canonical.{is_surrogate, is_unicode, utf8_char, utf8, encode, canonical_bytes}
use wagmi_bench.Core.Action.Utf8.{Pending, idle, utf8_step, then_decode, decode_from, utf8_decode}

abbrev awaiting : ℕ → ℕ → ℕ → Pending
awaiting due bits least = record { due = due; bits = bits; least = least }

first_of_two : (q : ℕ) → q < 0x20 → utf8_step idle (0xC0 + q) ≡ some (awaiting 1 q 0x80, [])
unfolding utf8_step
first_of_two q h = ground arith

first_of_three : (q : ℕ) → q < 0x10 → utf8_step idle (0xE0 + q) ≡ some (awaiting 2 q 0x800, [])
unfolding utf8_step
first_of_three q h = ground arith

first_of_four : (q : ℕ) → q < 0x8 → utf8_step idle (0xF0 + q) ≡ some (awaiting 3 q 0x10000, [])
unfolding utf8_step
first_of_four q h = ground arith

continuation :
    (due bits least r : ℕ)
    → r < 0x40
    → utf8_step (awaiting (suc (suc due)) bits least) (0x80 + r)
      ≡ some (awaiting (suc due) (bits * 0x40 + r) least, [])
unfolding utf8_step
continuation due bits least r h = ground arith

last_byte :
    (bits least r ch : ℕ)
    → r < 0x40
    → bits * 0x40 + r ≡ ch
    → least ≤ ch
    → (leb ch 0x10FFFF && not (is_surrogate ch)) ≡ true
    → utf8_step (awaiting 1 bits least) (0x80 + r) ≡ some (idle, ch ∷ [])
unfolding utf8_step
last_byte bits least r ch h e k s = ground arith

-- One code point, in each of the four forms.
decode_from-utf8_char :
    (ch : ℕ) (rest : List ℕ) (t : Text)
    → (leb ch 0x10FFFF && not (is_surrogate ch)) ≡ true
    → decode_from rest idle ≡ some t
    → decode_from (utf8_char ch ++ rest) idle ≡ some (ch ∷ t)
unfolding decode_from then_decode utf8_char
decode_from-utf8_char ch rest t h e = elim (Bool-cases (ltb ch 0x80)) [
  | inl a ↦ ground arith
  | inr a ↦ elim (Bool-cases (ltb ch 0x800)) [
    | inl b ↦ rw (
      a,
      b,
      first_of_two (ch / 0x40) (ground arith),
      last_byte (ch / 0x40) 0x80 (ch % 0x40) ch (ground arith) (ground arith) (ground arith) h,
      e,
    )
    | inr b ↦ elim (Bool-cases (ltb ch 0x10000)) [
      | inl c ↦ rw (
        a,
        b,
        c,
        first_of_three (ch / 0x1000) (ground arith),
        continuation 0 (ch / 0x1000) 0x800 (ch / 0x40 % 0x40) (ground arith),
        last_byte (ch / 0x1000 * 0x40 + ch / 0x40 % 0x40) 0x800 (ch % 0x40) ch (ground arith)
            (ground arith) (ground arith) h,
        e,
      )
      | inr c ↦ rw (
        a,
        b,
        c,
        first_of_four (ch / 0x40000) (ground arith),
        continuation 1 (ch / 0x40000) 0x10000 (ch / 0x1000 % 0x40) (ground arith),
        continuation 0 (ch / 0x40000 * 0x40 + ch / 0x1000 % 0x40) 0x10000 (ch / 0x40 % 0x40)
            (ground arith),
        last_byte ((ch / 0x40000 * 0x40 + ch / 0x1000 % 0x40) * 0x40 + ch / 0x40 % 0x40) 0x10000
            (ch % 0x40) ch (ground arith) (ground arith) (ground arith) h,
        e,
      )
    ]
  ]
]

utf8_decode-utf8 : (t : Text) → is_unicode t ≡ true → utf8_decode (utf8 t) ≡ some t
unfolding utf8_decode decode_from utf8 is_unicode
utf8_decode-utf8 [] h = refl
utf8_decode-utf8 (ch ∷ t) h =
    decode_from-utf8_char ch (utf8 t) t (ground arith) (utf8_decode-utf8 t (ground arith))

-- If `canonical_bytes` returns, the strict UTF-8 decoder of the action parser reads the encoded
-- text back from the bytes.
pub canonical_bytes-utf8_decode :
    (value : Value) (b : List ℕ)
    → canonical_bytes value ≡ ok b
    → (t : Text) × (encode value ≡ ok t) × (utf8_decode b ≡ some t)
unfolding canonical_bytes ◌>>=◌
canonical_bytes-utf8_decode value b e = elim (Result-cases (encode value)) [
  | inl (t, m) ↦ (t, m, ground (arith, utf8_decode-utf8 t))
  | inr (raised, m) ↦ absurd (ground arith)
]
