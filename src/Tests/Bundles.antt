-- ===== src/Tests/Bundles.antt =====
-- recorder/verify.py: a sealed bundle of an episode without a turn.
use wagmi_bench.Prelude.{
  ℕ, suc, ◌+◌, ◌%◌, ◌++◌, zero, ◌≡◌, refl, ◌⊎◌, Bool, true, Option, none, some, List, [], ◌∷◌, map,
  Text, codes, Result, ok, err, if◌then◌else◌, ◌>>=◌, text_eqb, text_leb, sort_by, take,
}
use wagmi_bench.Prelude.Int.{pos, ◌+ℤ◌, ◌-ℤ◌, ◌*ℤ◌, neg, ◌//◌}
use wagmi_bench.Prelude.Objects.{
  Value, null, bool, int, str, object, Members, dict, values_list, members_list, find_member,
}
use wagmi_bench.Spec.Canonical.{
  escape, escape_all, encode_string, is_unicode, utf16, digits_from, digits, encode_int,
  join_members, keys_are_unicode, encode_object, utf8_char, utf8, canonical_bytes, encode,
  encode_values, encode_members,
}
use wagmi_bench.Spec.Chain.{
  Bytes, events, decisions, all_lower_hex, strip_prefix, require_hash, new_builder, unrooted,
  sha256_prefixed, content_hash, chain_genesis, chain_link_value, append, append_all, check_link,
  verify_links, verify_chain, seal_root,
}
use wagmi_bench.Core.Action.Utf8.{utf8_step, then_decode, decode_from, utf8_decode}
use wagmi_bench.Recorder.Decisions.{
  integer, natural, payload_of, is_type, typed_payloads, one, zero_or_one, copy_fields,
  account_after, is_run_id, add_event, at_turn, turn_of, is_str, event_turn, keep_event,
  events_by_turn, is_range, is_given, rows_by_turn, covers_turns,
}
use wagmi_bench.Recorder.Decisions.Records.{
  object_array, last_of, meant_of, field_numbers, turn_range, view_turn, decision_record,
  view_turns, lay_out, decision_views, generate_decision_records,
}
use wagmi_bench.Recorder.Bundle.{
  Bundle, or_failure, strip_newline, ends_with_newline, logical_bytes, split_lines, decode_object,
  read_object, read_document, read_lines, read_jsonl,
}
use wagmi_bench.Recorder.Streams.{
  equals_number, text_value, count_value, equals_text, numbered_name, visible, link_fields, link_of,
  read_decisions_from, read_decisions, stream_links, row_int, check_ledger_row, check_ledger,
  ledger_file, place_error, verify_stream,
}
use wagmi_bench.Recorder.Blobs.{
  find_blob, turn_digits, last_part, is_raw_name, starts_with, observation_ref, raw_ref, event_refs,
  refs_from, referenced_blobs, removals_from, has_name, names_covered, paths_of, undisclosed, under,
  redactions, check_observations, check_raw, verify_blobs,
}
use wagmi_bench.Recorder.Verify.{
  complete, Streams, all_named, verify_layout, text_member, object_member, sealed_stream_head,
  sealed_head, check_seqs, compare_decisions, verify_decision_projection,
}
use wagmi_bench.Recorder.Phases.{
  read_identity, read_seal, read_streams, verify_streams, read_metrics, read_accounts,
}
use wagmi_bench.Recorder.Verdict.{
  last_good, failed_result, check_files, verify_seal_files, verify_sealed, verify_end,
  verify_contents, verify_from_streams, verify_from_seal, verify_from_identity, verify_bundle,
}
use wagmi_bench.Spec.Chain.{StreamName, run_config_sha256}
use wagmi_bench.Spec.Chain.Binding.{Collision}
use wagmi_bench.Recorder.Binding.{SameEvidence, verify_bundle-binds}

abbrev filler : ℕ → Text
filler zero = []
filler (suc n) = 97 ∷ filler n

abbrev sum : List ℕ → ℕ
sum [] = 0
sum (b ∷ bytes) = b + sum bytes

-- Sixty-four hexadecimal digits, the first from the sum of the bytes.
abbrev toy_digest : Bytes → Text
toy_digest bytes = (48 + sum bytes % 10) ∷ filler 63

abbrev result_or {ℓ} : {A : Type ℓ} → A → Result A → A
result_or fallback (ok a) = a
result_or fallback (err e) = fallback

abbrev stored : Members → Bytes
stored members = result_or [] (canonical_bytes (object members))

abbrev digest : Bytes → Value
digest bytes = str (sha256_prefixed toy_digest bytes)

abbrev run_id : Text
run_id = codes "run_0123456789abcdef"

abbrev agent : Members
agent = dict []

abbrev pack_hash : Text
pack_hash = codes "sha256:" ++ filler 64

abbrev manifest : Members
manifest = dict (
    (codes "agent_manifest_sha256", digest (stored agent))
    ∷ (codes "pack", object (dict ((codes "content_hash", str pack_hash) ∷ [])))
    ∷ (codes "run_config", object (dict []))
    ∷ (codes "run_id", str run_id)
    ∷ [])

abbrev metrics : Members
metrics = dict ((codes "run_id", str run_id) ∷ [])

abbrev metrics_bytes : Bytes
metrics_bytes = stored metrics ++ 10 ∷ []

abbrev last_line : Members
last_line = dict (
    (codes "payload", object (dict ((codes "metrics_sha256", digest metrics_bytes) ∷ [])))
    ∷ (codes "seq", int (pos 0))
    ∷ (codes "turn", null)
    ∷ (codes "type", str (codes "EpisodeEnd"))
    ∷ [])

abbrev genesis : StreamName → Text
genesis stream = result_or [] (
    run_config_sha256 toy_digest (dict []) >>= λ config.
    chain_genesis toy_digest stream run_id pack_hash (sha256_prefixed toy_digest (stored agent))
      config)

abbrev link : Text
link = result_or [] (
    chain_link_value toy_digest events (pos 0) (sha256_prefixed toy_digest (stored last_line))
      (genesis events))

abbrev link_line : Members
link_line = dict (
    (codes "link_sha256", str link)
    ∷ (codes "record_sha256", digest (stored last_line))
    ∷ (codes "schema", str (codes "chain_link/v1"))
    ∷ (codes "seq", int (pos 0))
    ∷ (codes "stream", str (codes "events"))
    ∷ [])

abbrev head : Text → Text → ℕ → Value
head start end count = object (
    dict (
      (codes "count", int (pos count))
      ∷ (codes "genesis", str start)
      ∷ (codes "head", str end)
      ∷ []))

abbrev empty_block : Value
empty_block = object (dict ((codes "count", int (pos 0)) ∷ []))

abbrev seal_members : List (Text × Value)
seal_members =
    (
      codes "blobs",
      object (dict ((codes "observations", empty_block) ∷ (codes "raw", empty_block) ∷ [])),
    )
    ∷ (codes "complete", bool true)
    ∷ (
      codes "files",
      object (
          dict (
            (codes "agent_manifest.json", digest (stored agent))
            ∷ (codes "chain.jsonl", digest (stored link_line ++ 10 ∷ []))
            ∷ (codes "ledger.jsonl", digest [])
            ∷ (codes "ledger_stress_2x.jsonl", digest [])
            ∷ (codes "manifest.json", digest (stored manifest))
            ∷ (codes "metrics.json", digest metrics_bytes)
            ∷ [])),
    )
    ∷ (codes "run_id", str run_id)
    ∷ (
      codes "streams",
      object (
          dict (
            (codes "decisions", head (genesis decisions) (genesis decisions) 0)
            ∷ (codes "events", head (genesis events) link 1)
            ∷ [])),
    )
    ∷ []

abbrev seal : Members
seal =
    dict
      ((codes "root", str (result_or [] (seal_root toy_digest (dict seal_members)))) ∷ seal_members)

-- The documents that are in the bundle, by their text.
abbrev known : List Members → Text → Option Value
known [] text = none
known (d ∷ ds) text =
    let other = known ds text in if text_eqb (stored d) text then some (object d) else other

abbrev toy_loads : Text → Option Value
toy_loads = known (agent ∷ manifest ∷ metrics ∷ last_line ∷ link_line ∷ seal ∷ [])

abbrev any_schema : Text → Members → Bool
any_schema name value = true

abbrev files : List (Text × Bytes)
files =
    (codes "manifest.json", stored manifest)
    ∷ (codes "agent_manifest.json", stored agent)
    ∷ (codes "metrics.json", metrics_bytes)
    ∷ (codes "events.jsonl", stored last_line ++ 10 ∷ [])
    ∷ (codes "chain.jsonl", stored link_line ++ 10 ∷ [])
    ∷ (codes "chain.json", stored seal)
    ∷ (codes "ledger.jsonl", [])
    ∷ (codes "ledger_stress_2x.jsonl", [])
    ∷ []

abbrev lookup : List (Text × Bytes) → Text → Option Bytes
lookup [] name = none
lookup ((n, bytes) ∷ rest) name =
    let other = lookup rest name in if text_eqb n name then some bytes else other

abbrev top_level : Text → List Text
top_level [] = codes "observations" ∷ codes "raw" ∷ codes "decisions" ∷ map (λ f. f.0) files
top_level (c ∷ directory) = []

abbrev bundle : Bundle
bundle = record {
  is_directory = true;
  is_safe = λ path. true;
  has_directory = λ path. true;
  names = top_level;
  file = lookup files;
}

abbrev no_streams : Streams
no_streams = record {
  event_lines = record { objects = []; records = []; partial_tail = [] };
  stored_decisions = [];
  links = record { of_events = []; of_decisions = [] };
}

abbrev read : Streams
read = result_or no_streams (read_streams toy_digest toy_loads any_schema bundle true)

bundle-streams : read_streams toy_digest toy_loads any_schema bundle true ≡ ok read
unfolding ◌>>=◌ text_eqb text_leb sort_by take ◌+ℤ◌ ◌-ℤ◌ ◌*ℤ◌ neg ◌//◌ values_list members_list
    find_member escape escape_all encode_string is_unicode utf16 digits_from digits encode_int
    join_members keys_are_unicode encode_object utf8_char utf8 canonical_bytes encode encode_values
    encode_members all_lower_hex strip_prefix require_hash new_builder unrooted sha256_prefixed
    content_hash chain_genesis chain_link_value append append_all check_link verify_links
    verify_chain seal_root utf8_step then_decode decode_from utf8_decode integer natural payload_of
    is_type typed_payloads one zero_or_one copy_fields account_after is_run_id add_event at_turn
    turn_of is_str event_turn keep_event events_by_turn is_range is_given rows_by_turn covers_turns
    object_array last_of meant_of field_numbers turn_range view_turn decision_record view_turns
    lay_out decision_views generate_decision_records or_failure strip_newline ends_with_newline
    logical_bytes split_lines decode_object read_object read_document read_lines read_jsonl
    equals_number text_value count_value equals_text numbered_name visible link_fields link_of
    read_decisions_from read_decisions stream_links row_int check_ledger_row check_ledger
    ledger_file place_error verify_stream find_blob turn_digits last_part is_raw_name starts_with
    observation_ref raw_ref event_refs refs_from referenced_blobs removals_from has_name
    names_covered paths_of undisclosed under redactions check_observations check_raw verify_blobs
    all_named verify_layout text_member object_member sealed_stream_head sealed_head check_seqs
    compare_decisions verify_decision_projection read_identity read_seal read_streams verify_streams
    read_metrics read_accounts last_good failed_result check_files verify_seal_files verify_sealed
    verify_end verify_contents verify_from_streams verify_from_seal verify_from_identity
    verify_bundle
bundle-streams = refl

bundle-is_complete : (verify_bundle toy_digest toy_loads any_schema bundle).verdict ≡ complete
unfolding ◌>>=◌ text_eqb text_leb sort_by take ◌+ℤ◌ ◌-ℤ◌ ◌*ℤ◌ neg ◌//◌ values_list members_list
    find_member escape escape_all encode_string is_unicode utf16 digits_from digits encode_int
    join_members keys_are_unicode encode_object utf8_char utf8 canonical_bytes encode encode_values
    encode_members all_lower_hex strip_prefix require_hash new_builder unrooted sha256_prefixed
    content_hash chain_genesis chain_link_value append append_all check_link verify_links
    verify_chain seal_root utf8_step then_decode decode_from utf8_decode integer natural payload_of
    is_type typed_payloads one zero_or_one copy_fields account_after is_run_id add_event at_turn
    turn_of is_str event_turn keep_event events_by_turn is_range is_given rows_by_turn covers_turns
    object_array last_of meant_of field_numbers turn_range view_turn decision_record view_turns
    lay_out decision_views generate_decision_records or_failure strip_newline ends_with_newline
    logical_bytes split_lines decode_object read_object read_document read_lines read_jsonl
    equals_number text_value count_value equals_text numbered_name visible link_fields link_of
    read_decisions_from read_decisions stream_links row_int check_ledger_row check_ledger
    ledger_file place_error verify_stream find_blob turn_digits last_part is_raw_name starts_with
    observation_ref raw_ref event_refs refs_from referenced_blobs removals_from has_name
    names_covered paths_of undisclosed under redactions check_observations check_raw verify_blobs
    all_named verify_layout text_member object_member sealed_stream_head sealed_head check_seqs
    compare_decisions verify_decision_projection read_identity read_seal read_streams verify_streams
    read_metrics read_accounts last_good failed_result check_files verify_seal_files verify_sealed
    verify_end verify_contents verify_from_streams verify_from_seal verify_from_identity
    verify_bundle
bundle-is_complete = refl

verify_bundle-binds_example :
    SameEvidence toy_digest toy_loads any_schema bundle bundle read read ⊎ Collision toy_digest
unfolding ◌>>=◌ text_eqb text_leb sort_by take ◌+ℤ◌ ◌-ℤ◌ ◌*ℤ◌ neg ◌//◌ values_list members_list
    find_member escape escape_all encode_string is_unicode utf16 digits_from digits encode_int
    join_members keys_are_unicode encode_object utf8_char utf8 canonical_bytes encode encode_values
    encode_members all_lower_hex strip_prefix require_hash new_builder unrooted sha256_prefixed
    content_hash chain_genesis chain_link_value append append_all check_link verify_links
    verify_chain seal_root utf8_step then_decode decode_from utf8_decode integer natural payload_of
    is_type typed_payloads one zero_or_one copy_fields account_after is_run_id add_event at_turn
    turn_of is_str event_turn keep_event events_by_turn is_range is_given rows_by_turn covers_turns
    object_array last_of meant_of field_numbers turn_range view_turn decision_record view_turns
    lay_out decision_views generate_decision_records or_failure strip_newline ends_with_newline
    logical_bytes split_lines decode_object read_object read_document read_lines read_jsonl
    equals_number text_value count_value equals_text numbered_name visible link_fields link_of
    read_decisions_from read_decisions stream_links row_int check_ledger_row check_ledger
    ledger_file place_error verify_stream find_blob turn_digits last_part is_raw_name starts_with
    observation_ref raw_ref event_refs refs_from referenced_blobs removals_from has_name
    names_covered paths_of undisclosed under redactions check_observations check_raw verify_blobs
    all_named verify_layout text_member object_member sealed_stream_head sealed_head check_seqs
    compare_decisions verify_decision_projection read_identity read_seal read_streams verify_streams
    read_metrics read_accounts last_good failed_result check_files verify_seal_files verify_sealed
    verify_end verify_contents verify_from_streams verify_from_seal verify_from_identity
    verify_bundle
verify_bundle-binds_example =
    verify_bundle-binds toy_digest toy_loads any_schema bundle bundle read read bundle-is_complete
      bundle-is_complete refl bundle-streams bundle-streams
