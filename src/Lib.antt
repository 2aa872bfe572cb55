-- ===== src/Lib.antt =====
-- WAGMI Bench: the exchange arithmetic, the episode engine, the action parser, the evidence chain with
-- its verifier, and the score board.
--
-- An episode plays one market of a scenario pack against an agent. On each bar the engine
-- (core/engine.py) asks the agent for a leverage target, settles funding, sizes an order, checks it
-- against the risk gates, fills it with the arithmetic of core/math.py, marks the account at the
-- close, and liquidates it or fires the kill switch. The decisions are replayed under doubled costs,
-- and the snapshots of a run become the rows of a ledger. An agent answers with bytes, which the
-- parser of core/action.py turns into an action or a reason. What a run leaves behind is written in
-- canonical JSON and chained by hashes (spec/canonical.py). The recorder seals it in a bundle, whose
-- verifier (recorder/verify.py) reads the stored bytes back and makes the decisions again from the
-- events (recorder/decisions.py). The score board (report/score.py) ranks agents by verified bundles,
-- each against the baselines of its pack (report/compare.py).
--
-- Files:
--   Prelude            shared names, Boolean tests, lists, sorting, results with their rules,
--                      integers, text as code points, JSON documents
--   Core/Models        core/models.py
--   Core/Math          core/math.py: Rounding, Sizing, Fill, Pnl, Margin, each with its laws
--   Core/Metrics       core/metrics.py: Ranks, Ratio
--   Core/Config        core/config.py: the run configuration, its round trip, Accepted; Clock
--   Core/Pack          core/pack.py: rows, market parameters, the clock of the turns
--   Core/Action        core/action.py: Grammar of the targets, Utf8; what an accepted action has
--                      (Targets, Bounds), the order of the keys (KeyOrder)
--   Core/Observation   core/observation.py: Build; the rows it uses (Blind, Sources),
--                      its final tests (Proof)
--   Core/Engine        core/engine.py:
--     State            _Account, _Snapshot, _Counters, _ProfileRun, events
--     Valuation        _upnl, _snapshot, _maintenance_rate, _drawdown_1e8
--     Position         _applied_funding, _apply_position_fill, liquidation, flattening close
--     Gates, Order     the checks of an order, and what is done with it: Effects, Evidence (the
--                      flag collect_evidence)
--     Close            funding inside the bar, liquidation, snapshot, kill switch
--     Decision         _request_decision
--     Harness          _drain_harness_events, _coalesce_harness_events
--     Turn, Episode    the loop of _run_profile, replay, run_episode; Trace (the decisions a run
--                      keeps), Replay, Quiet and KillSwitch (the turns after the kill switch)
--     Ledger           _ledger_rows
--   Spec/Canonical     spec/canonical.py: canonical JSON, the order of the members
--   Spec/Chain         spec/canonical.py: hashes, links, the builder, verify_chain: Link, Roundtrip,
--                      Binding, Tamper
--   Recorder           recorder/verify.py: Bundle (stored bytes), Streams, Blobs, Verify, Phases,
--                      Verdict (verify_bundle); what a complete bundle has passed (Complete) and
--                      what its seal fixes (Steps, Binding)
--   Recorder/Decisions recorder/decisions.py: Records; the events of each record (Places, Ranges)
--   Report/Format, Report/Evidence
--                      report/generator.py: numbers and text, what is read of a bundle
--   Report/Compare     report/compare.py: rows, tiers; the bar of a pack (Bar)
--   Report/Score       report/score.py: rungs (Ladder), the board (Agents, Board), Outrank
--   Tests              a small pack, and each property at a concrete input
--
-- State is passed explicitly, and an operation that may raise returns a Result. A Python integer is
-- the pair of constructors pos and negsuc over the native numbers, with floor division. A function
-- of the source that changes an account returns the changed account. The loop over the turns is
-- recursion on the number of turns left, which bars_total gives before the first turn. math.isqrt
-- and the decimal digits of an integer belong to the language: they run on the number (plus one for
-- the digits) as fuel, which is enough (Core/Math/Rounding/Roots, Core/Action/Grammar/Digits).
--
-- The agent is any function from the attempt to an outcome. The action parser is a parameter of the
-- decision; Core/Action/Bounds puts parse_body in its place. json.loads is a parameter from text to a
-- document, SHA-256 one from bytes to digits. The canonical encoder runs by recursion on the document,
-- the verification of a chain by recursion on the records.
--
-- play_turn asks for the decision before it computes the drawdown; both can only raise the same error
-- in a replay. Not modelled: raw bodies, prose of events, observation, response and harness events
-- in the trace, so event numbers count the modelled events; loading of packs; the writer, replay and
-- redaction of bundles; the rendering of reports; command line, data building, agents, sandbox, tools.
--
-- A bundle directory is a record of what the file system answers. Its JSON decoder and its schemas
-- are parameters; a failure keeps the stream and sequence number that it names, not its message or
-- path. The mean of a score is kept in hundredths.
pub mod Prelude
pub mod Spec
pub mod Core
pub mod Report
pub mod Recorder
pub mod Tests
