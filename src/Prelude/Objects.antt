-- ===== src/Prelude/Objects.antt =====
-- The Python objects that a JSON document decodes to. A fractional number is kept as its lexeme, as
-- the decoders of the repository do.
use mathlib.Core.Path.{◌≡◌, refl}
use mathlib.Core.Logic.{◌≢◌}
use mathlib.Core.Bool.{Bool}
use mathlib.Core.List.{List, [], ◌∷◌}
use mathlib.Core.Option.{Option, none, some}
use wagmi_bench.Prelude.Tests.{if◌then◌else◌}
use wagmi_bench.Prelude.Int.{ℤ}
use wagmi_bench.Prelude.Codes.{Text, text_eqb}

mutual
  pub data Value : Type 0 where
    null : Value
    bool : Bool → Value
    int : ℤ → Value
    float : Text → Value
    str : Text → Value
    array : Values → Value
    object : Members → Value

  pub data Values : Type 0 where
    nil : Values
    item : Value → Values → Values

  -- A `dict`, in the order of insertion; the keys of a decoded one differ.
  pub data Members : Type 0 where
    empty : Members
    member : Text → Value → Members → Members

unfoldable pub values_list : Values → List Value
values_list nil = []
values_list (item v vs) = v ∷ values_list vs

unfoldable pub members_list : Members → List (Text × Value)
members_list empty = []
members_list (member key v rest) = (key, v) ∷ members_list rest

-- A `dict` with the members of a list.
abbrev pub dict : List (Text × Value) → Members
dict [] = empty
dict ((key, v) ∷ rest) = member key v (dict rest)

-- Members with different keys.
abbrev pub KeysDiffer : Text × Value → Text × Value → Type 0
KeysDiffer a b = a.0 ≢ b.0

-- `document.get(key)`
unfoldable pub find_member : Text → Members → Option Value
unfolding text_eqb
find_member key empty = none
find_member key (member k v rest) = if text_eqb k key then some v else find_member key rest

-- `members_list` of a `dict`.
pub members_list-dict : (l : List (Text × Value)) → members_list (dict l) ≡ l
unfolding members_list
members_list-dict [] = refl
members_list-dict ((key, v) ∷ rest) = rw (members_list-dict rest)
