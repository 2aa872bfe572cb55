-- ===== src/Report/Format.antt =====
-- report/generator.py, the fixed-point numbers and the text of a report.
use wagmi_bench.Prelude.{
  ℕ, zero, suc, ◌-◌, ◌*◌, ◌/◌, ◌%◌, ◌^◌, Bool, false, ◌&&◌, ◌||◌, ltb, leb, ◌==◌, if◌then◌else◌,
  Option, none, some, List, [], ◌∷◌, ◌++◌, length, take, Text, codes, Result, ok, err, report_error,
}
use wagmi_bench.Prelude.Int.{ℤ, pos, ◌+ℤ◌, ◌-ℤ◌, ◌*ℤ◌, ◌//◌, abs, max_ℤ, ltb_ℤ, leb_ℤ, pos_part}
use wagmi_bench.Spec.Canonical.{digits, encode_int, hex_digit}

-- `n` zeros.
unfoldable pub zeros : ℕ → Text
zeros zero = []
zeros (suc n) = 48 ∷ zeros n

-- `f"{n:0{width}d}"`, of a number from zero up.
unfoldable pub zero_padded : ℕ → ℕ → Text
unfolding zeros
zero_padded width n = let shown = digits n in zeros (width - length shown) ++ shown

-- `_fixed`
unfoldable pub fixed : ℤ → ℕ → ℕ → Text
unfolding zero_padded
fixed value scale places =
    let sign = if ltb_ℤ value (pos 0) then codes "-" else [] in
    let magnitude = pos_part (abs value) in
    let whole = digits (magnitude / scale) in
    let fraction = magnitude % scale * 10 ^ places / scale in
    if places == 0
    then sign ++ whole
    else sign ++ (whole ++ codes "." ++ zero_padded places fraction)

-- `"+" if signed and value > 0 else ""`
abbrev pub plus_sign : Bool → ℤ → Text
plus_sign signed value = if signed && ltb_ℤ (pos 0) value then codes "+" else []

-- `_money`
unfoldable pub money : ℤ → Bool → Text
money value signed = plus_sign signed value ++ (fixed value 1_000_000 6 ++ codes " quote")

-- `_percent`
unfoldable pub percent : Option ℤ → Bool → Text
percent none signed = codes "n/a"
percent (some value) signed =
    plus_sign signed value ++ (fixed (value *ℤ pos 100) 100_000_000 4 ++ codes "%")

-- `_ratio`
unfoldable pub ratio : ℤ → Text
ratio value = fixed value 100_000_000 4

-- `_leverage`
unfoldable pub leverage : ℤ → Text
leverage value = fixed value 10_000 4 ++ codes "x"

-- `value.replace("\r\n", "\n").replace("\r", "\n")`: a line feed after a carriage return is dropped,
-- and each carriage return is a line feed.
unfoldable pub newlines : Bool → Text → Text
newlines after_return [] = []
newlines after_return (c ∷ rest) =
    let others = newlines (c == 13) rest in
    if after_return && c == 10 then others else (if c == 13 then 10 else c) ∷ others

-- The loop's body in `_sanitize_text`.
unfoldable pub safe_character : ℕ → Text
safe_character c =
    if c == 10
    then codes "\\n"
    else if c == 9
    then codes "\\t"
    else if ltb c 32 || c == 127
    then codes "\\x" ++ hex_digit (c / 16) ∷ hex_digit (c % 16) ∷ []
    else c ∷ []

unfoldable pub safe_text : Text → Text
unfolding safe_character
safe_text [] = []
safe_text (c ∷ rest) = safe_character c ++ safe_text rest

-- `_sanitize_text`
unfoldable pub sanitize_text : Text → Text
unfolding newlines safe_text
sanitize_text value = safe_text (newlines false value)

-- `_preview`
unfoldable pub preview : Text → ℕ → Text
preview value limit =
    let sanitized = sanitize_text value in
    if leb (length sanitized) limit then sanitized else take (limit - 3) sanitized ++ codes "..."

-- `_normalized_series`
unfoldable pub normalized : ℤ → List ℤ → List ℤ
normalized opening [] = []
normalized opening (value ∷ values) = (value *ℤ pos 10_000) // opening ∷ normalized opening values

unfoldable pub normalized_series : List ℤ → Result (List ℤ)
unfolding normalized
normalized_series [] = err report_error
normalized_series (opening ∷ values) =
    if leb_ℤ opening (pos 0) then err report_error else ok (normalized opening (opening ∷ values))

-- The frame of a chart.
pub record Frame : Type 0 where
  pub minimum : ℤ
  pub maximum : ℤ
  pub left : ℤ
  pub top : ℤ
  pub width : ℤ
  pub height : ℤ

-- `f"{x},{y}"` of the point at an index, of as many points as `count`.
unfoldable pub chart_point : Frame → ℕ → ℕ → ℤ → Text
chart_point frame count index value =
    let span = max_ℤ (pos 1) (frame.maximum -ℤ frame.minimum) in
    let x =
      if count == 1
      then frame.left
      else frame.left +ℤ (pos index *ℤ frame.width) // pos (count - 1) in
    let y = frame.top +ℤ ((frame.maximum -ℤ value) *ℤ frame.height) // span in
    encode_int x ++ codes "," ++ encode_int y

unfoldable pub chart_points : Frame → ℕ → ℕ → List ℤ → List Text
unfolding chart_point
chart_points frame count index [] = []
chart_points frame count index (value ∷ values) =
    chart_point frame count index value ∷ chart_points frame count (suc index) values

-- `" ".join(points)`, for any separator.
unfoldable pub join : Text → List Text → Text
join separator [] = []
join separator (part ∷ []) = part
join separator (part ∷ next ∷ parts) = part ++ separator ++ join separator (next ∷ parts)

-- `_polyline_points`
unfoldable pub polyline_points : Frame → List ℤ → Text
unfolding chart_points join
polyline_points frame values = join (codes " ") (chart_points frame (length values) 0 values)
