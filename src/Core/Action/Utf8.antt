-- ===== src/Core/Action/Utf8.antt =====
-- `raw.decode("utf-8")` of core/action.py: the strict decoder, byte by byte.
pub mod Roundtrip
use wagmi_bench.Prelude.{
  ℕ, zero, suc, ◌+◌, ◌-◌, ◌*◌, Bool, true, false, not, ◌&&◌, ltb, leb, ◌==◌, if◌then◌else◌, Option,
  none, some, List, [], ◌∷◌, ◌++◌, Text,
}
use wagmi_bench.Spec.Canonical.{is_surrogate}

-- The continuation bytes still due, the bits read and the least code point of the form.
pub record Pending : Type 0 where
  pub due : ℕ
  pub bits : ℕ
  pub least : ℕ

abbrev pub idle : Pending
idle = record { due = 0; bits = 0; least = 0 }

-- A first byte. Its text is what it completes.
abbrev first_byte : ℕ → Option (Pending × Text)
first_byte b =
    if ltb b 0x80
    then some (idle, b ∷ [])
    else if ltb b 0xC0
    then none
    else if ltb b 0xE0
    then some (record { due = 1; bits = b - 0xC0; least = 0x80 }, [])
    else if ltb b 0xF0
    then some (record { due = 2; bits = b - 0xE0; least = 0x800 }, [])
    else if ltb b 0xF8
    then some (record { due = 3; bits = b - 0xF0; least = 0x10000 }, [])
    else none

-- A code point in its shortest form.
abbrev is_scalar : ℕ → ℕ → Bool
is_scalar least ch = leb least ch && leb ch 0x10FFFF && not (is_surrogate ch)

unfoldable pub utf8_step : Pending → ℕ → Option (Pending × Text)
utf8_step p b =
    if p.due == 0
    then first_byte b
    else if not (leb 0x80 b && ltb b 0xC0)
    then none
    else if ltb 1 p.due
    then some (record { due = p.due - 1; bits = p.bits * 0x40 + (b - 0x80); least = p.least }, [])
    else if is_scalar p.least (p.bits * 0x40 + (b - 0x80))
    then some (idle, (p.bits * 0x40 + (b - 0x80)) ∷ [])
    else none

abbrev pub prepend : Text → Option Text → Option Text
prepend out none = none
prepend out (some decoded) = some (out ++ decoded)

unfoldable pub then_decode : Option (Pending × Text) → (Pending → Option Text) → Option Text
then_decode none rest = none
then_decode (some (p, out)) rest = prepend out (rest p)

unfoldable pub decode_from : List ℕ → Pending → Option Text
unfolding utf8_step then_decode
decode_from [] p = if p.due == 0 then some [] else none
decode_from (b ∷ rest) p = then_decode (utf8_step p b) (decode_from rest)

unfoldable pub utf8_decode : List ℕ → Option Text
unfolding decode_from
utf8_decode data_bytes = decode_from data_bytes idle
