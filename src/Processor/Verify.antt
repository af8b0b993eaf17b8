-- ===== src/Processor/Verify.antt =====
-- core/processor.ts: verifyProcessingCommit and verifyProcessingTransition. The checks that the
-- schemas have made before (required strings and objects, safe ordinals) always pass, and are left
-- out here.
pub mod Facts
pub mod Scanned
pub mod Checkpoint
use peas_engine.Prelude.{
  ℕ, ◌+◌, String, Bool, true, false, not, ◌&&◌, ◌||◌, List, [], ◌∷◌, Option, none, some, Result, ok,
  err, ◌>>=◌, ◌>>◌, guard, fail_if, leb, ltb, ◌==◌, str_eq, get_elem?, set, if◌then◌else◌,
}
use peas_engine.Json.{Json, arr, obj, canonical_json}
use peas_engine.Digest.{Platform, Part, hash_parts}
use peas_engine.Events.{StoredEvent}
use peas_engine.Events.Digests.{verify_stored_event}
use peas_engine.Processor.{
  RunRegistration, OutputCategory, OutputBody, decision, job, outbox_message, category_of,
  ImmutableOutput, CursorCore, RunCursor, AggregateCheckpoint, ProcessingCommit,
}
use peas_engine.Processor.Schemas.{persisted_limits}
use peas_engine.Processor.Hashes.{
  body_json, cursor_json, semantic_outputs, compute_run_cursor_hash,
  compute_aggregate_checkpoint_hash, compute_state_hash, compute_body_hash, compute_output_id,
  compute_output_dedupe_identity, step_state_head, create_genesis_run_cursor,
}
use peas_engine.Processor.Validate.{
  is_number, has, category_rank, within, validate_run_cursor, validate_stored_output_body,
  validate_processing_commit,
}

-- What the loop over the outputs keeps. `previousCategoryRank` starts at -1, and here at 0: no
-- rank is below either.
pub record Scan : Type 0 where
  pub previous_rank : ℕ
  pub next_ordinals : List ℕ
  pub output_ids : List String
  pub dedupe_identities : List String

abbrev pub empty_scan : Scan
empty_scan = record {
  previous_rank = 0;
  next_ordinals = 0 ∷ 0 ∷ 0 ∷ [];
  output_ids = [];
  dedupe_identities = [];
}

-- The cursor is that of a run.
unfoldable pub is_of_run : CursorCore → RunRegistration → Bool
is_of_run c r =
    str_eq c.run_id r.manifest.run_id
    && str_eq c.manifest_hash r.manifest_hash
    && str_eq c.behavior_hash r.behavior_hash

-- The cursor is at an event.
unfoldable pub is_at_event : CursorCore → StoredEvent → Bool
is_at_event c e =
    c.processed_position == e.position
    && c.logical_at_ms == e.captured.logical_at_ms
    && str_eq c.last_event_hash e.event_hash

module _ (p : Platform) where
  -- The end of the loop's body: the dedupe identities of a job or a message.
  unfoldable pub scan_dedupe : Scan → String → OutputCategory → String → Result Scan
  unfolding has
  scan_dedupe s run category key = do
    identity ← compute_output_dedupe_identity p run category key
    fail_if (has identity s.dedupe_identities) "Duplicate dedupe key in commit"
    ok (record {
      previous_rank = s.previous_rank;
      next_ordinals = s.next_ordinals;
      output_ids = s.output_ids;
      dedupe_identities = identity ∷ s.dedupe_identities;
    })

  unfoldable pub scan_body : Scan → String → OutputBody → Result Scan
  unfolding scan_dedupe
  scan_body s run (decision d) = ok s
  scan_body s run (job j) = scan_dedupe s run (category_of (job j)) j.dedupe_key
  scan_body s run (outbox_message m) =
      scan_dedupe s run (category_of (outbox_message m)) m.dedupe_key

  -- The body of the loop.
  unfoldable pub scan_output :
      ProcessingCommit → RunRegistration → Scan → ImmutableOutput → Result Scan
  unfolding scan_body has
  scan_output v r s o = do
    let rank = category_rank (category_of o.body)
    fail_if (ltb rank s.previous_rank) "Outputs are not in canonical category order"
    fail_if (has o.output_id s.output_ids) "Duplicate output ID in commit"
    guard (is_number (get_elem? s.next_ordinals rank) o.ordinal) "Non-contiguous output ordinal"
    guard
        (str_eq o.run_id v.cursor.core.run_id
          && str_eq o.input_event_id v.event.captured.event_id
          && o.input_position == v.event.position
          && str_eq o.aggregate_id v.aggregate.core.aggregate_id)
        "Output metadata does not match its input event, aggregate, or run"
    within p persisted_limits (body_json o.body)
    body_hash ← compute_body_hash p o.body
    guard (str_eq o.body_hash body_hash) "Output body hash mismatch"
    id ←
        compute_output_id p o.run_id r.manifest_hash v.event.event_hash o.aggregate_id
          (category_of o.body) o.ordinal o.body_hash
    guard (str_eq o.output_id id) "Output ID integrity mismatch"
    validate_stored_output_body p o.body o.run_id o.dedupe_key o.not_before_logical_ms
    scan_body
        (record {
          previous_rank = rank;
          next_ordinals = set s.next_ordinals rank (o.ordinal + 1);
          output_ids = o.output_id ∷ s.output_ids;
          dedupe_identities = s.dedupe_identities;
        })
        o.run_id o.body

  unfoldable pub scan_outputs :
      ProcessingCommit → RunRegistration → Scan → List ImmutableOutput → Result Scan
  unfolding scan_output
  scan_outputs v r s [] = ok s
  scan_outputs v r s (o ∷ os) = scan_output v r s o >>= λ s'. scan_outputs v r s' os

  -- verifyProcessingCommit
  unfoldable pub verify_processing_commit : ProcessingCommit → RunRegistration → Result (Unit {0})
  unfolding scan_outputs is_of_run is_at_event
  verify_processing_commit v r = do
    validate_processing_commit p v
    verify_stored_event p v.event none
    cursor_hash ← compute_run_cursor_hash p v.cursor.core
    guard (str_eq v.cursor.cursor_hash cursor_hash) "Run cursor hash mismatch in commit"
    guard (is_of_run v.cursor.core r) "Commit cursor does not match its immutable run manifest"
    guard (is_at_event v.cursor.core v.event) "Commit cursor does not match its input event"
    checkpoint_hash ← compute_aggregate_checkpoint_hash p v.aggregate.core
    guard (str_eq v.aggregate.checkpoint_hash checkpoint_hash)
        "Aggregate checkpoint hash mismatch in commit"
    guard
        (str_eq v.aggregate.core.run_id v.cursor.core.run_id
          && v.aggregate.core.last_input_position == v.event.position)
        "Aggregate checkpoint does not match its input event or run"
    guard (leb 1 v.aggregate.core.version) "Aggregate version must be positive"
    within p persisted_limits (obj v.aggregate.core.state)
    state_hash ←
        compute_state_hash p r.manifest.behavior.reducer_name r.manifest.behavior.reducer_version
          v.aggregate.core.state
    guard (str_eq v.aggregate.core.state_hash state_hash) "Aggregate state hash mismatch in commit"
    scan ← scan_outputs v r empty_scan v.outputs
    ok tt

  -- A cursor at position 0 is the genesis of its run.
  unfoldable pub verify_genesis : RunCursor → RunRegistration → Result (Unit {0})
  verify_genesis previous r = do
    genesis ← create_genesis_run_cursor p r
    text ← canonical_json p.stringify (cursor_json p previous)
    genesis_text ← canonical_json p.stringify (cursor_json p genesis)
    guard (str_eq text genesis_text) "Prior cursor is not the canonical run genesis"

  -- `hashParts("peas/decision-head/step/v2", …)`
  unfoldable pub step_decision_head : String → String → List ImmutableOutput → Result String
  step_decision_head head event_hash outputs = do
    text ← canonical_json p.stringify (arr (semantic_outputs p outputs))
    ok (
        hash_parts p "peas/decision-head/step/v2"
          (Part.string head ∷ Part.string event_hash ∷ Part.string text ∷ []))

  -- verifyProcessingTransition
  unfoldable pub verify_processing_transition :
      ProcessingCommit → RunRegistration → RunCursor → Result (Unit {0})
  unfolding verify_processing_commit verify_genesis step_decision_head is_of_run
  verify_processing_transition v r previous = do
    verify_processing_commit v r
    validate_run_cursor p previous
    cursor_hash ← compute_run_cursor_hash p previous.core
    guard (str_eq previous.cursor_hash cursor_hash) "Prior run cursor hash mismatch in commit"
    guard (is_of_run previous.core r) "Prior cursor does not match its immutable run manifest"
    if previous.core.processed_position == 0 then verify_genesis previous r else ok tt
    guard (v.expected_position == previous.core.processed_position)
        "Commit expected position does not match the prior cursor"
    guard (v.event.position == previous.core.processed_position + 1)
        "Non-contiguous processing position"
    guard (str_eq v.event.previous_event_hash previous.core.last_event_hash) "Event chain mismatch"
    fail_if (ltb v.event.captured.logical_at_ms previous.core.logical_at_ms)
        "Logical clock regression"
    guard
        (str_eq v.cursor.core.state_head (
          step_state_head p previous.core.state_head v.event.event_hash
            v.aggregate.core.aggregate_id v.aggregate.core.state_hash))
        "Run state head is not derived from the prior cursor"
    decision_head ← step_decision_head previous.core.decision_head v.event.event_hash v.outputs
    guard (str_eq v.cursor.core.decision_head decision_head)
        "Run decision head is not derived from the prior cursor"
