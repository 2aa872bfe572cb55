-- ===== src/Core/Action/Grammar.antt =====
-- core/action.py, the two patterns and the decimal targets. A pattern is matched in full.
pub mod Units
pub mod Digits
use wagmi_bench.Prelude.{
  ℕ, zero, suc, ◌+◌, ◌-◌, ◌*◌, Bool, true, false, not, ◌&&◌, ◌||◌, ltb, leb, ◌==◌, if◌then◌else◌,
  Option, none, some, List, [], ◌∷◌, ◌++◌, length, Text, codes,
}
use wagmi_bench.Prelude.Int.{ℤ, pos, neg}

unfoldable pub all_chars : (ℕ → Bool) → Text → Bool
all_chars test [] = true
all_chars test (c ∷ rest) = test c && all_chars test rest

abbrev pub is_digit : ℕ → Bool
is_digit c = leb 48 c && leb c 57

-- `MARKET_PATTERN`: `[A-Z0-9]{1,12}`
unfoldable pub is_market : Text → Bool
unfolding all_chars
is_market alias =
    leb 1 (length alias)
    && leb (length alias) 12
    && all_chars (λ c. leb 65 c && leb c 90 || is_digit c) alias

-- The part before the first `.`, and the part after it.
unfoldable pub split_dot : Text → Text × Option Text
split_dot [] = ([], none)
split_dot (c ∷ rest) =
    let (whole, fraction) = split_dot rest in
    if c == 46 then ([], some rest) else (c ∷ whole, fraction)

-- `value[1:] if value.startswith("-")`
abbrev pub is_negative : Text → Bool
is_negative [] = false
is_negative (c ∷ rest) = c == 45

abbrev pub unsigned : Text → Text
unsigned [] = []
unsigned (c ∷ rest) = if c == 45 then rest else c ∷ rest

-- `0|[1-9][0-9]{0,2}`
abbrev pub is_whole : Text → Bool
is_whole [] = false
is_whole (c ∷ rest) =
    leb (length rest) 2
    && is_digit c
    && all_chars is_digit rest
    && (length rest == 0 || not (c == 48))

-- `(\.[0-9]{1,4})?`
abbrev pub is_fraction : Option Text → Bool
is_fraction none = true
is_fraction (some fraction) =
    leb 1 (length fraction) && leb (length fraction) 4 && all_chars is_digit fraction

-- `TARGET_PATTERN`
unfoldable pub is_target : Text → Bool
unfolding split_dot all_chars
is_target value =
    is_whole (split_dot (unsigned value)).0 && is_fraction (split_dot (unsigned value)).1

-- `int(text)` of digits, after `n`.
unfoldable pub digits_value : ℕ → Text → ℕ
digits_value n [] = n
digits_value n (c ∷ rest) = digits_value (n * 10 + (c - 48)) rest

-- `int(fraction_text.ljust(4, "0"))`
unfoldable pub padded_value : ℕ → ℕ → Text → ℕ
padded_value zero n text = digits_value n text
padded_value (suc width) n [] = padded_value width (n * 10) []
padded_value (suc width) n (c ∷ rest) = padded_value width (n * 10 + (c - 48)) rest

abbrev pub fraction_units : Option Text → ℕ
fraction_units none = 0
fraction_units (some fraction) = padded_value 4 0 fraction

-- `_parse_decimal_target`
unfoldable pub parse_decimal_target : Text → Option ℤ
unfolding is_target padded_value digits_value neg
parse_decimal_target value =
    if not (is_target value)
    then none
    else let (whole, fraction) = split_dot (unsigned value) in
      let units = digits_value 0 whole * 10_000 + fraction_units fraction in
      some (if is_negative value then neg (pos units) else pos units)
