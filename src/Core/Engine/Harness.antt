-- ===== src/Core/Engine/Harness.antt =====
-- core/engine.py, the harness's side channel: `_drain_harness_events` and `_coalesce_harness_events`.
pub mod Order
pub mod Totals
use wagmi_bench.Prelude.{
  ℕ, ◌+◌, Bool, true, false, not, ◌&&◌, ◌||◌, ltb, leb, ◌==◌, if◌then◌else◌, Option, none, some,
  List, [], ◌∷◌, Text, codes, text_eqb, text_leb, sort_by, Result, ok, err, raise_if, or_raise,
  ◌>>=◌, ◌>>◌, engine_error, type_error,
}
use wagmi_bench.Prelude.Int.{pos, negsuc}
use wagmi_bench.Prelude.Objects.{
  Value, null, int, str, array, object, Members, empty, member, find_member,
}

-- `MAX_IJSON_INT`
abbrev pub max_ijson_int : ℕ
max_ijson_int = 9_007_199_254_740_991

-- What an adapter's drain gives: an object that is no event, or an event.
pub data Drained : Type 0 where
  stray : Drained
  harness_event : Text → Members → Drained

-- One call of `drain_harness_events`, of an agent that may have none.
pub data Drain : Type 0 where
  absent : Drain
  raised : Drain
  not_a_tuple : Drain
  drained : List Drained → Drain

-- What identical block facts share.
pub record BlockKey : Type 0 where
  pub destination : Text
  pub port : Option ℕ
  pub protocol : Text

-- A validated `EgressBlocked`.
pub record Blocked : Type 0 where
  pub key : BlockKey
  pub count : ℕ

abbrev is_payload_key : Text → Bool
is_payload_key key =
    text_eqb key (codes "destination")
    || text_eqb key (codes "port")
    || text_eqb key (codes "protocol")
    || text_eqb key (codes "count")

unfoldable no_other_key : Members → Bool
no_other_key empty = true
no_other_key (member key v rest) = is_payload_key key && no_other_key rest

abbrev text_of : Option Value → Option Text
text_of (some (str s)) = some s
text_of found = none

-- The port, when it is allowed.
abbrev port_of : Option Value → Option (Option ℕ)
port_of (some null) = some none
port_of (some (int (pos port))) = if leb port 65_535 then some (some port) else none
port_of found = none

abbrev is_protocol : Text → Bool
is_protocol p =
    text_eqb p (codes "https")
    || text_eqb p (codes "dns")
    || text_eqb p (codes "tcp")
    || text_eqb p (codes "udp")
    || text_eqb p (codes "other")

-- `protocol not in {...}`: an unhashable value is a `TypeError`.
abbrev protocol_of : Option Value → Result Text
protocol_of (some (str p)) = if is_protocol p then ok p else err engine_error
protocol_of (some (array values)) = err type_error
protocol_of (some (object members)) = err type_error
protocol_of found = err engine_error

abbrev count_of : Option Value → Option ℕ
count_of (some (int (pos count))) =
    if leb 1 count && leb count max_ijson_int then some count else none
count_of found = none

-- One pass of the loop of `_drain_harness_events`.
unfoldable pub validate_event : Drained → Result Blocked
unfolding ◌>>=◌ no_other_key find_member text_eqb
validate_event stray = err engine_error
validate_event (harness_event event_type payload) = do
  raise_if (not (text_eqb event_type (codes "EgressBlocked"))) engine_error
  raise_if (not (no_other_key payload)) engine_error
  destination ← or_raise (text_of (find_member (codes "destination") payload)) engine_error
  port ← or_raise (port_of (find_member (codes "port") payload)) engine_error
  protocol ← protocol_of (find_member (codes "protocol") payload)
  count ← or_raise (count_of (find_member (codes "count") payload)) engine_error
  ok (record {
    key = record { destination = destination; port = port; protocol = protocol };
    count = count;
  })

unfoldable pub validate_events : List Drained → Result (List Blocked)
unfolding ◌>>=◌ validate_event
validate_events [] = ok []
validate_events (e ∷ rest) = do
  event ← validate_event e
  events ← validate_events rest
  ok (event ∷ events)

-- `_drain_harness_events`
unfoldable pub drain_harness_events : Drain → Result (List Blocked)
unfolding validate_events
drain_harness_events absent = ok []
drain_harness_events raised = err engine_error
drain_harness_events not_a_tuple = err engine_error
drain_harness_events (drained events) = validate_events events

-- The port in the key of the order, one more than in the source, where no port is -1.
abbrev pub port_rank : Option ℕ → ℕ
port_rank none = 0
port_rank (some port) = port + 1

abbrev pub same_key : BlockKey → BlockKey → Bool
same_key a b =
    text_eqb a.destination b.destination
    && port_rank a.port == port_rank b.port
    && text_eqb a.protocol b.protocol

-- The order of the tuples.
unfoldable pub block_leb : Blocked → Blocked → Bool
unfolding text_eqb text_leb
block_leb a b =
    if not (text_eqb a.key.destination b.key.destination)
    then text_leb a.key.destination b.key.destination
    else if not (port_rank a.key.port == port_rank b.key.port)
    then ltb (port_rank a.key.port) (port_rank b.key.port)
    else text_leb a.key.protocol b.key.protocol

-- One pass of the loop: `counts`, in the order of insertion.
unfoldable pub add_count : BlockKey → ℕ → List Blocked → Result (List Blocked)
unfolding ◌>>=◌ text_eqb
add_count key count [] = do
  raise_if (ltb max_ijson_int count) engine_error
  ok (record { key = key; count = count } ∷ [])
add_count key count (entry ∷ counts) =
    let rest = add_count key count counts in
    if same_key entry.key key
    then raise_if (ltb max_ijson_int (entry.count + count)) engine_error
      >> ok (record entry { count = entry.count + count } ∷ counts)
    else rest >>= λ others. ok (entry ∷ others)

unfoldable pub add_counts : List Blocked → List Blocked → Result (List Blocked)
unfolding ◌>>=◌ add_count
add_counts [] counts = ok counts
add_counts (event ∷ events) counts = do
  counts ← add_count event.key event.count counts
  add_counts events counts

-- `_coalesce_harness_events`
unfoldable pub coalesce_harness_events : List Blocked → Result (List Blocked)
unfolding ◌>>=◌ add_counts sort_by block_leb
coalesce_harness_events events = do counts ← add_counts events []; ok (sort_by block_leb counts)
