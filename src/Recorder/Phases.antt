-- ===== src/Recorder/Phases.antt =====
-- recorder/verify.py: the parts of `verify_bundle` in their order: identity, seal, streams, accounts.
use wagmi_bench.Prelude.{
  Bool, true, false, not, if◌then◌else◌, Option, none, some, map, Text, codes, Result, ok, err,
  raise_if, ◌>>=◌, ◌>>◌,
}
use wagmi_bench.Prelude.Objects.{Value, bool, Members, find_member}
use wagmi_bench.Spec.Chain.{
  Bytes, events, decisions, sha256_prefixed, run_config_sha256, chain_genesis, seal_root,
}
use wagmi_bench.Recorder.Bundle.{
  Bundle, unplaced, or_failure, forbid, require, exists, read_document, read_jsonl,
}
use wagmi_bench.Recorder.Streams.{
  equals_text, read_decisions, stream_links, ledger_file, verify_stream,
}
use wagmi_bench.Recorder.Verify.{
  Identity, Streams, BundleAccounts, verify_layout, text_member, object_member, sealed_head,
  check_seqs, same_rows,
}

module _ (hexdigest : Bytes → Text) (loads : Text → Option Value)
    (valid : Text → Members → Bool) where
  unfoldable pub read_identity : Bundle → Result Identity
  read_identity bundle = do
    (manifest, stored) ←
        read_document loads valid bundle (codes "manifest.json") (codes "bundle_manifest") forbid
    (agent, agent_bytes) ←
        read_document loads valid bundle (codes "agent_manifest.json") (codes "agent_manifest")
          forbid
    let agent_hash = sha256_prefixed hexdigest agent_bytes
    raise_if (not (equals_text (find_member (codes "agent_manifest_sha256") manifest) agent_hash))
        unplaced
    run_id ← text_member manifest (codes "run_id")
    pack ← object_member manifest (codes "pack") unplaced
    run_config ← object_member manifest (codes "run_config") unplaced
    pack_hash ← text_member pack (codes "content_hash")
    config_hash ← or_failure (run_config_sha256 hexdigest run_config) unplaced
    event_genesis ←
        or_failure (chain_genesis hexdigest events run_id pack_hash agent_hash config_hash) unplaced
    decision_genesis ←
        or_failure (chain_genesis hexdigest decisions run_id pack_hash agent_hash config_hash)
          unplaced
    ok (record {
      run_id = run_id;
      event_genesis = event_genesis;
      decision_genesis = decision_genesis;
    })

  -- The seal, if any, with its root.
  unfoldable pub read_seal : Bundle → Text → Result (Option (Members × Text))
  read_seal bundle run_id = if not (exists bundle (codes "chain.json")) then ok none else (do
    (seal, stored) ← read_document loads valid bundle (codes "chain.json") (codes "chain") forbid
    raise_if (not (equals_text (find_member (codes "run_id") seal) run_id)) unplaced
    raise_if (elim (find_member (codes "complete") seal) [ some (bool true) ↦ false | _ ↦ true ])
        unplaced
    root ← or_failure (seal_root hexdigest seal) unplaced
    raise_if (not (equals_text (find_member (codes "root") seal) root)) unplaced
    ok (some (seal, root)))

  unfoldable pub read_streams : Bundle → Bool → Result Streams
  read_streams bundle sealed = do
    verify_layout bundle sealed
    event_lines ←
        read_jsonl loads valid bundle (codes "events.jsonl") (some (codes "event")) sealed
          (some (codes "events"))
    check_seqs 0 event_lines.objects
    stored_decisions ← read_decisions loads valid bundle sealed
    chain_lines ← read_jsonl loads valid bundle (codes "chain.jsonl") none sealed none
    links ← stream_links loads valid 0 chain_lines.objects
    ok (record { event_lines = event_lines; stored_decisions = stored_decisions; links = links })

  -- Both chains, against the seal if there is one.
  unfoldable pub verify_streams : Option Members → Identity → Streams → Result (Unit {0})
  verify_streams seal identity streams = do
    event_head ← sealed_head seal (codes "events")
    decision_head ← sealed_head seal (codes "decisions")
    events_end ←
        verify_stream hexdigest events identity.event_genesis streams.event_lines.records
          streams.links.of_events event_head
    decisions_end ←
        verify_stream hexdigest decisions identity.decision_genesis
          (map (λ d. d.1) streams.stored_decisions) streams.links.of_decisions decision_head
    ok tt

  unfoldable pub read_metrics : Bundle → Bool → Text → Result (Option Bytes)
  read_metrics bundle sealed run_id =
      if not (exists bundle (codes "metrics.json"))
      then (if sealed then err unplaced else ok none)
      else (do
        (metrics, stored) ←
            read_document loads valid bundle (codes "metrics.json") (codes "metrics") require
        raise_if (not (equals_text (find_member (codes "run_id") metrics) run_id)) unplaced
        ok (some stored))

  -- The ledgers and the metrics.
  unfoldable pub read_accounts : Bundle → Bool → Text → Result BundleAccounts
  read_accounts bundle sealed run_id = do
    primary ← ledger_file loads valid bundle (codes "ledger.jsonl") (codes "primary") sealed
    stress ←
        ledger_file loads valid bundle (codes "ledger_stress_2x.jsonl") (codes "stress_2x") sealed
    raise_if (not (same_rows primary stress)) unplaced
    metrics ← read_metrics bundle sealed run_id
    ok (record { primary = primary; stress = stress; metrics = metrics })
