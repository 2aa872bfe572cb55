-- ===== src/Core/Action.antt =====
-- core/action.py: the parser of an agent's reply, stages V1 to V8. `loads` is `json.loads` with the
-- hooks of the source: `none` where it raises, so also on a repeated key or a non-finite number.
pub mod Utf8
pub mod Grammar
pub mod Targets
pub mod Bounds
pub mod KeyOrder
use wagmi_bench.Prelude.{
  ℕ, ◌+◌, ◌*◌, ◌≤◌, Bool, true, false, not, ◌&&◌, ◌||◌, ltb, leb, ◌==◌, if◌then◌else◌, Option, none,
  some, List, [], ◌∷◌, ◌++◌, length, ◌⊎◌, inl, inr, Text, codes, text_eqb, text_leb, by_key,
  sort_by, Result, ok, err, value_error,
}
use wagmi_bench.Prelude.Int.{ℤ, pos, negsuc, ◌*ℤ◌, abs, leb_ℤ, ltb_ℤ}
use wagmi_bench.Prelude.Objects.{
  Value, null, bool, int, float, str, array, object, Values, nil, item, Members, empty, member,
  members_list, find_member,
}
use wagmi_bench.Core.Action.Utf8.{utf8_decode}
use wagmi_bench.Core.Action.Grammar.{is_market, parse_decimal_target}
use wagmi_bench.Core.Pack.{Mapping}
use wagmi_bench.Core.Engine.State.{
  ParsedAction, Reason, oversize, invalid_json, unknown_schema, schema_invalid, unknown_field,
  unknown_market, invalid_target_format, float_target, target_out_of_range, invalid_slippage,
}
use wagmi_bench.Core.Engine.Decision.{ActionParseResult, accepted, refused}
use wagmi_bench.Spec.Canonical.{is_unicode, utf8}

-- `MAX_ACTION_BYTES`, `LEV_SCALE_1E4`, `MAX_TARGET_LEV_1E4` and `MAX_EXACT_JSON_INT`
abbrev pub max_action_bytes : ℕ
max_action_bytes = 65_536

abbrev pub lev_scale_1e4 : ℤ
lev_scale_1e4 = pos 10_000

abbrev pub max_target_lev_1e4 : ℤ
max_target_lev_1e4 = pos 9_999_999

abbrev pub max_exact_json_int : ℤ
max_exact_json_int = pos 9_007_199_254_740_991

-- What an agent's transport hands over: `bytes`, `bytearray` or `memoryview`; `str`; another object.
pub data Body : Type 0 where
  raw : List ℕ → Body
  text : Text → Body
  other : Body

-- `_wire_bytes`
unfoldable pub wire_bytes : Body → Option (List ℕ)
wire_bytes (raw body) = some body
wire_bytes (text body) = if is_unicode body then some (utf8 body) else none
wire_bytes other = none

-- `KNOWN_TOP_LEVEL_FIELDS`
abbrev pub is_known_field : Text → Bool
is_known_field key =
    text_eqb key (codes "schema")
    || text_eqb key (codes "intent_kind")
    || text_eqb key (codes "target")
    || text_eqb key (codes "max_slippage_bps")
    || text_eqb key (codes "comment")
    || text_eqb key (codes "usage")
    || text_eqb key (codes "ext")

-- Whether every key of a `dict` passes a test.
unfoldable pub all_keys : (Text → Bool) → Members → Bool
all_keys test empty = true
all_keys test (member key v rest) = test key && all_keys test rest

abbrev is_text : Text → Value → Bool
is_text expected (str s) = text_eqb s expected
is_text expected v = false

-- Booleans are not numbers here.
abbrev is_natural : Value → Bool
is_natural (int (pos n)) = true
is_natural v = false

unfoldable mutual
  -- `_valid_extension`: the stack of pending values, depth first.
  pub valid_extension : Value → Bool
  valid_extension null = true
  valid_extension (bool b) = true
  valid_extension (str s) = true
  valid_extension (int n) = leb_ℤ (abs n) max_exact_json_int
  valid_extension (float lexeme) = false
  valid_extension (array values) = valid_items values
  valid_extension (object members) = valid_members members

  valid_items : Values → Bool
  valid_items nil = true
  valid_items (item v vs) = valid_extension v && valid_items vs

  valid_members : Members → Bool
  valid_members empty = true
  valid_members (member key v rest) = valid_extension v && valid_members rest

abbrev is_usage_key : Text → Bool
is_usage_key key = text_eqb key (codes "input_tokens") || text_eqb key (codes "output_tokens")

unfoldable pub usage_is_valid : Members → Bool
usage_is_valid empty = true
usage_is_valid (member key v rest) = is_usage_key key && is_natural v && usage_is_valid rest

abbrev intent_is_valid : Option Value → Bool
intent_is_valid none = true
intent_is_valid (some intent) = is_text (codes "leverage_target") intent

unfoldable pub target_is_valid : Option Value → Bool
unfolding members_list all_keys is_market
target_is_valid (some (object target)) =
    leb 1 (length (members_list target))
    && leb (length (members_list target)) 16
    && all_keys is_market target
target_is_valid found = false

abbrev comment_is_valid : Option Value → Bool
comment_is_valid none = true
comment_is_valid (some (str comment)) = leb (length comment) 2_000
comment_is_valid (some v) = false

abbrev usage_field_is_valid : Option Value → Bool
usage_field_is_valid none = true
usage_field_is_valid (some (object usage)) = usage_is_valid usage
usage_field_is_valid (some v) = false

abbrev ext_is_valid : Option Value → Bool
ext_is_valid none = true
ext_is_valid (some (object ext)) = valid_extension (object ext)
ext_is_valid (some v) = false

-- `_v4_shape_is_valid`
unfoldable pub v4_shape_is_valid : Members → Bool
unfolding find_member target_is_valid usage_is_valid valid_extension
v4_shape_is_valid document =
    intent_is_valid (find_member (codes "intent_kind") document)
    && target_is_valid (find_member (codes "target") document)
    && comment_is_valid (find_member (codes "comment") document)
    && usage_field_is_valid (find_member (codes "usage") document)
    && ext_is_valid (find_member (codes "ext") document)

-- `aliases`: the target's members in the order of their names.
unfoldable pub sorted_target : Option Value → List (Text × Value)
unfolding members_list sort_by text_leb
sorted_target (some (object target)) =
    sort_by (by_key (λ (m : Text × Value). m.0)) (members_list target)
sorted_target found = []

-- V5: `alias in declared`
unfoldable pub is_declared : List Text → Text → Bool
unfolding text_eqb
is_declared [] alias = false
is_declared (d ∷ declared) alias = text_eqb d alias || is_declared declared alias

unfoldable pub all_declared : List Text → List (Text × Value) → Bool
unfolding is_declared
all_declared declared [] = true
all_declared declared ((alias, v) ∷ rest) = is_declared declared alias && all_declared declared rest

-- V6, one value: the units, or the reason.
unfoldable pub target_units : Value → ℤ ⊎ Reason
unfolding parse_decimal_target ◌*ℤ◌
target_units (float lexeme) = inr float_target
target_units (int n) = inl (n *ℤ lev_scale_1e4)
target_units (str s) = elim (parse_decimal_target s) [
  | none ↦ inr invalid_target_format
  | some units ↦ inl units
]
target_units v = inr invalid_target_format

-- V6: the first reason in the order of the names wins.
unfoldable pub parse_targets : List (Text × Value) → Mapping ℤ ⊎ Reason
unfolding target_units
parse_targets [] = inl []
parse_targets ((alias, v) ∷ rest) = elim (target_units v) [
  | inr reason ↦ inr reason
  | inl units ↦ elim (parse_targets rest) [
    | inr reason ↦ inr reason
    | inl parsed ↦ inl ((alias, units) ∷ parsed)
  ]
]

-- V7
unfoldable pub all_in_range : Mapping ℤ → Bool
all_in_range [] = true
all_in_range ((alias, units) ∷ rest) = leb_ℤ (abs units) max_target_lev_1e4 && all_in_range rest

-- V8
unfoldable pub parse_slippage : Option Value → Option ℤ ⊎ Reason
parse_slippage none = inl none
parse_slippage (some (int n)) =
    if leb_ℤ (pos 0) n && leb_ℤ n (pos 10_000) then inl (some n) else inr invalid_slippage
parse_slippage (some v) = inr invalid_slippage

-- V6 to V8, on the declared aliases; `slippage_value` is what the document has, if anything.
unfoldable pub parse_values : Option Value → ℕ → List (Text × Value) → ActionParseResult
unfolding parse_targets all_in_range parse_slippage
parse_values slippage_value from_attempt target = elim (parse_targets target) [
  | inr reason ↦ refused reason
  | inl parsed ↦
      if not (all_in_range parsed)
      then refused target_out_of_range
      else elim (parse_slippage slippage_value) [
        | inr reason ↦ refused reason
        | inl slippage ↦ accepted (record {
          target_lev_1e4 = parsed;
          max_slippage_bps = slippage;
          from_attempt = from_attempt;
        })
      ]
]

abbrev pub schema_is_known : Option Value → Bool
schema_is_known none = false
schema_is_known (some schema) = is_text (codes "action/v1") schema

-- V3 to V8.
unfoldable pub parse_document : List Text → ℕ → Value → ActionParseResult
unfolding find_member all_keys v4_shape_is_valid sorted_target all_declared parse_values
parse_document declared from_attempt (object document) =
    if not (schema_is_known (find_member (codes "schema") document))
    then refused unknown_schema
    else if not (all_keys is_known_field document)
    then refused unknown_field
    else if not (v4_shape_is_valid document)
    then refused schema_invalid
    else let target = sorted_target (find_member (codes "target") document) in
      if not (all_declared declared target)
      then refused unknown_market
      else parse_values (find_member (codes "max_slippage_bps") document) from_attempt target
parse_document declared from_attempt decoded = refused unknown_schema

module _ (loads : Text → Option Value) where
  -- V2, and the rest of the stages.
  unfoldable pub parse_text : List Text → ℕ → Option Text → ActionParseResult
  unfolding parse_document
  parse_text declared from_attempt none = refused oversize
  parse_text declared from_attempt (some decoded) = elim (loads decoded) [
    | none ↦ refused invalid_json
    | some document ↦ parse_document declared from_attempt document
  ]

  -- V1 to V8, for an attempt that is a positive integer.
  unfoldable pub parse_body : List Text → Body → ℕ → ActionParseResult
  unfolding wire_bytes utf8_decode parse_text
  parse_body declared body from_attempt = elim (wire_bytes body) [
    | none ↦ refused oversize
    | some bytes ↦
        if ltb max_action_bytes (length bytes)
        then refused oversize
        else parse_text declared from_attempt (utf8_decode bytes)
  ]

  -- `parse_action`: the attempt is looked at last.
  unfoldable pub parse_action : List Text → Body → ℕ → Result ActionParseResult
  unfolding parse_body
  parse_action declared body from_attempt = elim (parse_body declared body from_attempt) [
    | refused reason ↦ ok (refused reason)
    | accepted action ↦ if leb 1 from_attempt then ok (accepted action) else err value_error
  ]
