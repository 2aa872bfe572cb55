-- ===== src/Spec/Canonical.antt =====
-- spec/canonical.py, `canonical_bytes`: RFC 8785 with the float ban. Text is its code points, so that
-- lone surrogates are inputs too; the paths of the messages are left out.
pub mod Order
use wagmi_bench.Prelude.{
  ℕ, zero, suc, ◌+◌, ◌-◌, ◌*◌, ◌/◌, ◌%◌, Bool, true, false, not, ◌&&◌, ◌||◌, ltb, leb, ◌==◌,
  if◌then◌else◌, List, [], ◌∷◌, ◌++◌, Text, codes, by_key, sort_by, Result, ok, err, raise_if,
  ◌>>=◌, ◌>>◌, canonical_error, float_error,
}
use wagmi_bench.Prelude.Int.{ℤ, pos, negsuc, leb_ℤ}
use wagmi_bench.Prelude.Objects.{
  Value, null, bool, int, float, str, array, object, Values, nil, item, Members, empty, member,
}

-- `_MAX_SAFE_INT`
abbrev pub max_safe_int : ℕ
max_safe_int = 9_007_199_254_740_991

-- A lower-case hexadecimal digit, and the last four of `04x`.
abbrev pub hex_digit : ℕ → ℕ
hex_digit d = if ltb d 10 then 48 + d else 87 + d

-- `_ESCAPES`, and the `\u00xx` form of the other control characters.
unfoldable pub escape : ℕ → Text
escape ch =
    if ch == 34
    then codes "\\\""
    else if ch == 92
    then codes "\\\\"
    else if ch == 8
    then codes "\\b"
    else if ch == 9
    then codes "\\t"
    else if ch == 10
    then codes "\\n"
    else if ch == 12
    then codes "\\f"
    else if ch == 13
    then codes "\\r"
    else if ltb ch 32
    then codes "\\u00" ++ hex_digit (ch / 16) ∷ hex_digit (ch % 16) ∷ []
    else ch ∷ []

unfoldable pub escape_all : Text → Text
unfolding escape
escape_all [] = []
escape_all (ch ∷ rest) = escape ch ++ escape_all rest

-- `_encode_string`
unfoldable pub encode_string : Text → Text
unfolding escape_all
encode_string value = 34 ∷ (escape_all value ++ 34 ∷ [])

abbrev pub is_surrogate : ℕ → Bool
is_surrogate ch = leb 0xD800 ch && leb ch 0xDFFF

-- Text that has a UTF-8 and a UTF-16 form; no `str` has a code point above the last.
unfoldable pub is_unicode : Text → Bool
is_unicode [] = true
is_unicode (ch ∷ rest) = leb ch 0x10FFFF && not (is_surrogate ch) && is_unicode rest

-- `key.encode("utf-16-be")`, as code units.
unfoldable pub utf16 : Text → Text
utf16 [] = []
utf16 (ch ∷ rest) =
    if ltb ch 0x10000
    then ch ∷ utf16 rest
    else (0xD800 + (ch - 0x10000) / 0x400) ∷ (0xDC00 + (ch - 0x10000) % 0x400) ∷ utf16 rest

-- `int.__repr__`, of fuel many digits at most.
unfoldable pub digits_from : ℕ → ℕ → Text → Text
digits_from zero n out = out
digits_from (suc fuel) n out =
    let rest = digits_from fuel (n / 10) ((48 + n % 10) ∷ out) in
    if ltb n 10 then (48 + n) ∷ out else rest

unfoldable pub digits : ℕ → Text
unfolding digits_from
digits n = digits_from (suc n) n []

unfoldable pub encode_int : ℤ → Text
encode_int (pos n) = digits n
encode_int (negsuc n) = 45 ∷ digits (suc n)

-- The encoded members, after their keys.
abbrev pub Encoded : Type 0
Encoded = List (Text × Result Text)

-- `,` between the parts, each `"key":value`.
unfoldable pub join_members : Encoded → Result Text
unfolding ◌>>=◌
join_members [] = ok []
join_members ((key, r) ∷ []) = do value ← r; ok (encode_string key ++ 58 ∷ value)
join_members ((key, r) ∷ next ∷ rest) = do
  value ← r
  others ← join_members (next ∷ rest)
  ok (encode_string key ++ 58 ∷ (value ++ 44 ∷ others))

unfoldable pub keys_are_unicode : Encoded → Bool
keys_are_unicode [] = true
keys_are_unicode ((key, r) ∷ rest) = is_unicode key && keys_are_unicode rest

-- `sorted(value.keys(), key=_sort_key)`: every key is encoded before the first value.
abbrev pub sort_key : Text × Result Text → Text
sort_key (key, r) = utf16 key

unfoldable pub encode_object : Encoded → Result Text
unfolding ◌>>=◌
encode_object members = do
  raise_if (not (keys_are_unicode members)) canonical_error
  inner ← join_members (sort_by (by_key sort_key) members)
  ok (123 ∷ (inner ++ 125 ∷ []))

unfoldable mutual
  unfolding ◌>>=◌

  -- `_encode`
  pub encode : Value → Result Text
  encode null = ok (codes "null")
  encode (bool true) = ok (codes "true")
  encode (bool false) = ok (codes "false")
  encode (float lexeme) = err float_error
  encode (int (pos n)) = if leb n max_safe_int then ok (encode_int (pos n)) else err canonical_error
  encode (int (negsuc n)) =
      if leb (suc n) max_safe_int then ok (encode_int (negsuc n)) else err canonical_error
  encode (str value) = ok (encode_string value)
  encode (array values) = do inner ← encode_values values; ok (91 ∷ (inner ++ 93 ∷ []))
  encode (object members) = encode_object (encode_members members)

  pub encode_values : Values → Result Text
  encode_values nil = ok []
  encode_values (item v nil) = encode v
  encode_values (item v (item w vs)) = do
    first ← encode v
    others ← encode_values (item w vs)
    ok (first ++ 44 ∷ others)

  pub encode_members : Members → Encoded
  encode_members empty = []
  encode_members (member key v rest) = (key, encode v) ∷ encode_members rest

-- UTF-8 of one code point.
unfoldable pub utf8_char : ℕ → Text
utf8_char ch =
    if ltb ch 0x80
    then ch ∷ []
    else if ltb ch 0x800
    then (0xC0 + ch / 0x40) ∷ (0x80 + ch % 0x40) ∷ []
    else if ltb ch 0x10000
    then (0xE0 + ch / 0x1000) ∷ (0x80 + ch / 0x40 % 0x40) ∷ (0x80 + ch % 0x40) ∷ []
    else (0xF0 + ch / 0x40000)
      ∷ (0x80 + ch / 0x1000 % 0x40)
      ∷ (0x80 + ch / 0x40 % 0x40)
      ∷ (0x80 + ch % 0x40)
      ∷ []

unfoldable pub utf8 : Text → Text
unfolding utf8_char
utf8 [] = []
utf8 (ch ∷ rest) = utf8_char ch ++ utf8 rest

-- `canonical_bytes`
unfoldable pub canonical_bytes : Value → Result (List ℕ)
unfolding ◌>>=◌
canonical_bytes value = do
  text ← encode value
  raise_if (not (is_unicode text)) canonical_error
  ok (utf8 text)
