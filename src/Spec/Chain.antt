-- ===== src/Spec/Chain.antt =====
-- spec/canonical.py, the content hashes and the chain of a stream. SHA-256 is a parameter: `hexdigest`
-- takes bytes to hexadecimal digits. `chain_error seq` is `ChainVerificationError` at that entry.
pub mod Link
pub mod Roundtrip
pub mod Binding
pub mod Tamper
use wagmi_bench.Prelude.{
  ℕ, zero, suc, ◌+◌, ◌-◌, Bool, true, false, not, ◌&&◌, ◌||◌, ltb, leb, ◌==◌, if◌then◌else◌, Option,
  none, some, List, [], ◌∷◌, ◌++◌, length, Text, codes, text_eqb, Result, ok, err, raise_if, ◌>>=◌,
  ◌>>◌, canonical_error, chain_error,
}
use wagmi_bench.Prelude.Int.{ℤ, pos, negsuc}
use wagmi_bench.Prelude.Objects.{Value, int, str, object, Members, empty, member, dict}
use wagmi_bench.Spec.Canonical.{canonical_bytes}

abbrev pub Bytes : Type 0
Bytes = List ℕ

-- `StreamName`
pub data StreamName : Type 0 where
  events decisions : StreamName

abbrev pub stream_text : StreamName → Text
stream_text events = codes "events"
stream_text decisions = codes "decisions"

-- `c in "0123456789abcdef"`
abbrev pub is_lower_hex : ℕ → Bool
is_lower_hex c = leb 48 c && leb c 57 || leb 97 c && leb c 102

unfoldable pub all_lower_hex : Text → Bool
all_lower_hex [] = true
all_lower_hex (c ∷ rest) = is_lower_hex c && all_lower_hex rest

-- `_HASH_PREFIX`
abbrev pub hash_prefix : Text
hash_prefix = codes "sha256:"

-- `value[len(_HASH_PREFIX):]`, when the value has the prefix.
unfoldable pub strip_prefix : Text → Text → Option Text
strip_prefix [] value = some value
strip_prefix (p ∷ prefix) [] = none
strip_prefix (p ∷ prefix) (c ∷ value) = if p == c then strip_prefix prefix value else none

abbrev pub is_digest : Option Text → Bool
is_digest none = false
is_digest (some digest) = length digest == 64 && all_lower_hex digest

abbrev pub is_hash : Text → Bool
is_hash value = is_digest (strip_prefix hash_prefix value)

-- `_require_hash`
unfoldable pub require_hash : Text → Result Text
unfolding strip_prefix all_lower_hex
require_hash value = if is_hash value then ok value else err canonical_error

-- `ChainLink`, a line of `chain.jsonl`
pub record ChainLink : Type 0 where
  pub schema : Text
  pub stream : Text
  pub seq : ℤ
  pub record_sha256 : Text
  pub link_sha256 : Text

-- `ChainBuilder`
pub record ChainBuilder : Type 0 where
  pub stream : StreamName
  pub genesis : Text
  pub head : Text
  pub count : ℕ

-- `stream_head`
pub record StreamHead : Type 0 where
  pub genesis : Text
  pub head : Text
  pub count : ℕ

-- `__post_init__`
unfoldable pub new_builder : StreamName → Text → Result ChainBuilder
unfolding ◌>>=◌ require_hash
new_builder stream genesis = do
  genesis ← require_hash genesis
  ok (record { stream = stream; genesis = genesis; head = genesis; count = 0 })

abbrev pub stream_head : ChainBuilder → StreamHead
stream_head b = record { genesis = b.genesis; head = b.head; count = b.count }

-- The members that `chain_link_value` hashes.
abbrev pub link_members : StreamName → ℤ → Text → Text → List (Text × Value)
link_members stream seq record_hash prev =
    (codes "schema", str (codes "chain_link/v1"))
    ∷ (codes "stream", str (stream_text stream))
    ∷ (codes "seq", int seq)
    ∷ (codes "record_sha256", str record_hash)
    ∷ (codes "prev", str prev)
    ∷ []

abbrev pub is_seq : ℤ → ℕ → Bool
is_seq (pos n) m = n == m
is_seq (negsuc n) m = false

-- `min`
abbrev lesser : ℕ → ℕ → ℕ
lesser a b = if ltb b a then b else a

abbrev from_option : Option ℕ → ℕ
from_option none = 0
from_option (some n) = n

-- An optional test of a caller.
abbrev pub checks {ℓ} : {A : Type ℓ} → (A → Bool) → Option A → Bool
checks test none = true
checks test (some expected) = test expected

-- `{k: v for k, v in seal.items() if k != "root"}`
unfoldable pub unrooted : Members → Members
unfolding text_eqb
unrooted empty = empty
unrooted (member k v rest) =
    let others = unrooted rest in if text_eqb k (codes "root") then others else member k v others

module _ (hexdigest : Bytes → Text) where
  unfoldable pub sha256_prefixed : Bytes → Text
  sha256_prefixed data_bytes = hash_prefix ++ hexdigest data_bytes

  unfoldable pub content_hash : Value → Result Text
  unfolding ◌>>=◌ sha256_prefixed
  content_hash value = do data_bytes ← canonical_bytes value; ok (sha256_prefixed data_bytes)

  -- `run_config_sha256`
  abbrev pub run_config_sha256 : Members → Result Text
  run_config_sha256 run_config = content_hash (object run_config)

  unfoldable pub chain_genesis : StreamName → Text → Text → Text → Text → Result Text
  unfolding ◌>>=◌ content_hash require_hash
  chain_genesis stream run_id pack_content_hash agent_manifest_sha256 config_sha256 = do
    pack ← require_hash pack_content_hash
    agent ← require_hash agent_manifest_sha256
    config ← require_hash config_sha256
    content_hash (
        object (
          dict (
            (codes "schema", str (codes "chain_genesis/v1"))
            ∷ (codes "stream", str (stream_text stream))
            ∷ (codes "run_id", str run_id)
            ∷ (codes "pack_content_hash", str pack)
            ∷ (codes "agent_manifest_sha256", str agent)
            ∷ (codes "run_config_sha256", str config)
            ∷ [])))

  -- `chain_link_value`
  unfoldable pub chain_link_value : StreamName → ℤ → Text → Text → Result Text
  unfolding ◌>>=◌ content_hash require_hash
  chain_link_value stream (negsuc n) record_hash prev = err canonical_error
  chain_link_value stream (pos n) record_hash prev = do
    record_hash ← require_hash record_hash
    prev ← require_hash prev
    content_hash (object (dict (link_members stream (pos n) record_hash prev)))

  -- `append`
  unfoldable pub append : ChainBuilder → Bytes → Result (ChainBuilder × ChainLink)
  unfolding ◌>>=◌ chain_link_value
  append b record_bytes = do
    let record_hash = sha256_prefixed record_bytes
    link ← chain_link_value b.stream (pos b.count) record_hash b.head
    ok (
      record b { head = link; count = b.count + 1 },
      record {
        schema = codes "chain_link/v1";
        stream = stream_text b.stream;
        seq = pos b.count;
        record_sha256 = record_hash;
        link_sha256 = link;
      },
    )

  -- The writer of a stream: each record is appended as it is stored.
  unfoldable pub append_all : ChainBuilder → List Bytes → Result (ChainBuilder × List ChainLink)
  unfolding ◌>>=◌ append
  append_all b [] = ok (b, [])
  append_all b (r ∷ records) = do
    (b, link) ← append b r
    (b, links) ← append_all b records
    ok (b, link ∷ links)

  -- One pass of the loop of `verify_chain`: the link that the next entry follows.
  unfoldable pub check_link : StreamName → ℕ → Text → Bytes → ChainLink → Result Text
  unfolding ◌>>=◌ chain_link_value text_eqb
  check_link stream seq prev record_bytes link = do
    raise_if (not (text_eqb link.schema (codes "chain_link/v1"))) (chain_error seq)
    raise_if (not (text_eqb link.stream (stream_text stream))) (chain_error seq)
    raise_if (not (is_seq link.seq seq)) (chain_error seq)
    let expected_record = sha256_prefixed record_bytes
    raise_if (not (text_eqb link.record_sha256 expected_record)) (chain_error seq)
    expected_link ← chain_link_value stream (pos seq) expected_record prev
    raise_if (not (text_eqb link.link_sha256 expected_link)) (chain_error seq)
    ok expected_link

  -- The loop, which has as many links as records.
  unfoldable pub verify_links : StreamName → ℕ → Text → List Bytes → List ChainLink → Result Text
  unfolding ◌>>=◌ check_link
  verify_links stream seq prev (r ∷ records) (link ∷ links) = do
    prev ← check_link stream seq prev r link
    verify_links stream (seq + 1) prev records links
  verify_links stream seq prev records links = ok prev

  unfoldable pub verify_chain :
      StreamName → Text → List Bytes → List ChainLink → Option Text → Option ℕ → Result Text
  unfolding ◌>>=◌ verify_links require_hash
  verify_chain stream genesis records links expected_head expected_count = do
    raise_if (not (is_hash genesis)) canonical_error
    raise_if (not (checks is_hash expected_head)) canonical_error
    raise_if (not (checks (λ count. count == length records) expected_count))
        (chain_error (lesser (from_option expected_count) (length records)))
    raise_if (not (length links == length records))
        (chain_error (lesser (length links) (length records)))
    head ← verify_links stream 0 genesis records links
    raise_if (not (checks (text_eqb head) expected_head)) (chain_error (length records - 1))
    ok head

  unfoldable pub seal_root : Members → Result Text
  unfolding content_hash unrooted
  seal_root seal = content_hash (object (unrooted seal))
