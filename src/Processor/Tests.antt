-- ===== src/Processor/Tests.antt =====
-- The theorems on runs, commits and stores at the data of `Samples`.
use peas_engine.Prelude.{
  map, ◌+◌, ◌≤◌, ◌<◌, ◌≡◌, ◌⊎◌, refl, String, true, false, [], ◌∷◌, All, some, ok, is_ok, ◌>>=◌,
  ◌>>◌, length, drop, str_eq, is_hash, arith,
}
use peas_engine.Json.{code_units, canonical_json}
use peas_engine.Json.Limits.{
  assert_json_within_limits, assert_json_limits, visit, count_items, count_fields, check_keys,
  add_key_bytes,
}
use peas_engine.Fixtures.{hash, platform, codes-IsUtf8}
use peas_engine.Digest.{canonical_hash, hash_parts}
use peas_engine.Events.{is_event_draft, is_identifier}
use peas_engine.Events.Digests.{
  validate_stored_event, verify_stored_event, derive_event_id, compute_content_hash,
  compute_event_hash,
}
use peas_engine.Events.Log.{check_captured, genesis_hash, read_after, lookup, last_event, get}
use peas_engine.Processor.{RunRegistration, job, job_category, outbox_category, RunCursor}
use peas_engine.Processor.Validate.{
  has, validate_processing_commit, validate_run_cursor, validate_aggregate_checkpoint,
  validate_run_registration, validate_aggregate_id, validate_outputs,
}
use peas_engine.Processor.Hashes.{
  commit_json, semantic_outputs, create_genesis_run_cursor, compute_run_cursor_hash,
  compute_aggregate_checkpoint_hash, compute_state_hash, compute_body_hash, compute_output_id,
  compute_output_dedupe_identity, step_state_head, derive_job_id,
}
use peas_engine.Processor.Verify.{
  scan_outputs, verify_processing_commit, step_decision_head, verify_processing_transition,
  is_of_run, is_at_event,
}
use peas_engine.Processor.Store.{
  MemoryStore, version_or_zero, find_aggregate, put, put_all, add_jobs, add_outbox, ensure_run,
  verify_persisted, cursor_or_genesis, pend_outputs, write_commit, commit,
}
use peas_engine.Processor.Schemas.{is_processing_commit}
use peas_engine.Processor.Verify.Scanned.{
  IsCanonicalAfter, verify_processing_commit-IsCanonicalAfter,
}
use peas_engine.Processor.Store.Adapter.{memory_store, memory_store-KeepsCursor}
use peas_engine.Processor.Store.Concurrency.{here, commit-once, commit-advances}
use peas_engine.Processor.Store.Sequences.{IsSequenced, Reaches-IsSequenced}
use peas_engine.Processor.Store.Snapshot.{collect_outputs-snapshot}
use peas_engine.Processor.Store.Aggregates.{commit-load_aggregate}
use peas_engine.Processor.Store.Dedupe.{Reaches-dedupe}
use peas_engine.Processor.Store.Dispatch.{IsLiveOutput, Reaches-dispatchable}
use peas_engine.Processor.Process.Facts.{KeepsCursor}
use peas_engine.Processor.Process.Redelivery.{process-again}
use peas_engine.Processor.Process.Available.{process_available-all}
use peas_engine.Processor.Store.Reads.{outputs_after, audit_outputs, load_cursor, load_aggregate}
use peas_engine.Processor.Materialize.{materialize}
use peas_engine.Processor.Materialize.Outputs.{IsOutputOf, count_up, materialize-outputs}
use peas_engine.Processor.Process.{
  Session, or_genesis, verify_cursor, verify_exact_persisted_event, aggregate_genesis,
  or_aggregate_genesis, verify_aggregate, build_commit,
}
use peas_engine.Processor.Process.Run.{
  initialize, current_cursor, collect_outputs, process_event, process, process_all,
  process_available,
}
use peas_engine.Processor.Samples.{
  event, registration, fetch, processor, cursor, checkpoint, asked, with_run, value, written, fresh,
  value_committed, written-Reaches, changed,
}

run_once :
    process_available platform (memory_store platform (event ∷ [])) processor (event ∷ []) fresh 10
    ≡ ok (cursor, record { store = written; initialized = true })
unfolding process_available memory_store ensure_run commit validate_processing_commit
    validate_stored_event assert_json_within_limits assert_json_limits visit count_items
    count_fields check_keys add_key_bytes code_units canonical_json canonical_hash hash_parts
    is_event_draft is_hash derive_event_id compute_content_hash compute_event_hash lookup get
    last_event verify_persisted verify_processing_transition verify_processing_commit scan_outputs
    has put put_all add_jobs add_outbox pend_outputs write_commit cursor_or_genesis
    create_genesis_run_cursor compute_run_cursor_hash compute_aggregate_checkpoint_hash
    compute_state_hash compute_body_hash compute_output_id compute_output_dedupe_identity
    step_state_head derive_job_id step_decision_head commit_json validate_run_cursor
    validate_aggregate_checkpoint verify_stored_event semantic_outputs validate_run_registration
    is_identifier load_cursor load_aggregate or_genesis read_after process_all process_event
    verify_cursor verify_exact_persisted_event validate_aggregate_id aggregate_genesis
    or_aggregate_genesis verify_aggregate build_commit materialize
run_once = refl

process_available-all_example :
    process_available platform (memory_store platform (event ∷ [])) processor (event ∷ []) fresh 10
    ≡ (initialize platform (memory_store platform (event ∷ [])) processor fresh >>= λ ready.
        current_cursor platform (memory_store platform (event ∷ [])) processor ready.store >>= λ c.
        process_all platform
          (memory_store platform (event ∷ []))
          processor
          (event ∷ [])
          c
          ready
          (drop c.core.processed_position (event ∷ [])))
process_available-all_example =
    process_available-all platform (memory_store platform (event ∷ [])) processor
      (memory_store-KeepsCursor platform (event ∷ [])) (event ∷ []) fresh 10 (refl, tt)
      (omega arith) (omega arith)

memory_store-KeepsCursor_example : KeepsCursor (memory_store platform (event ∷ []))
memory_store-KeepsCursor_example = memory_store-KeepsCursor platform (event ∷ [])

commit-once_example : is_ok (commit platform (event ∷ []) written value) ≡ false
commit-once_example =
    commit-once platform (event ∷ []) (event ∷ []) with_run written written value value
      value_committed here refl refl

commit-advances_example :
    (verify_persisted platform event (get (event ∷ []) event.position) ≡ ok tt)
    × ((r : RunRegistration) × (previous : RunCursor) × (lookup "run" with_run.runs ≡ some r)
        × (cursor_or_genesis platform (lookup "run" with_run.cursors) r ≡ ok previous)
        × (1 ≡ previous.core.processed_position + 1)
        × (genesis_hash ≡ previous.core.last_event_hash)
        × (previous.core.logical_at_ms ≤ 500))
    × (lookup "run" written.cursors ≡ some cursor)
    × ((run : String)
        → str_eq run "run" ≡ false
        → lookup run written.cursors ≡ lookup run with_run.cursors)
commit-advances_example =
    commit-advances platform (event ∷ []) with_run written value value_committed

Reaches-IsSequenced_example : IsSequenced 1 written.outputs
Reaches-IsSequenced_example = Reaches-IsSequenced platform written written-Reaches

one_output : length (outputs_after "run" 0 written.outputs) < 2
unfolding outputs_after
one_output = omega arith

collect_outputs-snapshot_example :
    collect_outputs platform (memory_store platform (event ∷ [])) processor 2 written 10 0 ≡ (
      audit_outputs platform (outputs_after "run" 0 written.outputs)
      >> ok (outputs_after "run" 0 written.outputs))
collect_outputs-snapshot_example =
    collect_outputs-snapshot platform (event ∷ []) processor written 10 2 written-Reaches
      (omega arith) (omega arith) one_output

Reaches-dedupe_example : hash ≡ hash
Reaches-dedupe_example =
    Reaches-dedupe platform written 0 0 (record { output = asked; sequence = 1 })
      (record { output = asked; sequence = 1 }) "k" written-Reaches refl refl refl refl refl refl

Reaches-dispatchable_example :
    All (IsLiveOutput written job_category) (hash ∷ [])
    × All (IsLiveOutput written outbox_category) []
Reaches-dispatchable_example = Reaches-dispatchable platform written written-Reaches

value_verified : verify_processing_commit platform value registration ≡ ok tt
unfolding validate_processing_commit validate_stored_event assert_json_within_limits
    assert_json_limits visit count_items count_fields check_keys add_key_bytes code_units
    canonical_json canonical_hash hash_parts is_event_draft is_hash derive_event_id
    compute_content_hash compute_event_hash verify_processing_commit scan_outputs has
    compute_run_cursor_hash compute_aggregate_checkpoint_hash compute_state_hash compute_body_hash
    compute_output_id compute_output_dedupe_identity derive_job_id commit_json validate_run_cursor
    validate_aggregate_checkpoint verify_stored_event is_of_run is_at_event is_processing_commit
    validate_outputs
value_verified = refl

verify_processing_commit-IsCanonicalAfter_example : IsCanonicalAfter [] (asked ∷ [])
verify_processing_commit-IsCanonicalAfter_example =
    verify_processing_commit-IsCanonicalAfter platform value registration value_verified

-- The session after the run has processed the event.
abbrev session : Session MemoryStore
session = record { store = written; initialized = true }

log_opens : check_captured platform 1 genesis_hash (event ∷ []) ≡ ok tt
unfolding check_captured verify_stored_event assert_json_within_limits count_fields check_keys
    add_key_bytes code_units is_hash derive_event_id canonical_hash canonical_json
    compute_content_hash compute_event_hash
log_opens = refl

written_loads :
    current_cursor platform (memory_store platform (event ∷ [])) processor written ≡ ok cursor
unfolding current_cursor memory_store load_cursor or_genesis assert_json_within_limits count_fields
    check_keys add_key_bytes code_units is_hash canonical_hash canonical_json lookup
    validate_run_cursor compute_run_cursor_hash is_identifier
written_loads = refl

cursor_valid : verify_cursor platform processor cursor ≡ ok tt
unfolding verify_cursor assert_json_within_limits count_fields check_keys add_key_bytes code_units
    is_hash canonical_hash canonical_json validate_run_cursor compute_run_cursor_hash is_identifier
cursor_valid = refl

process-again_example :
    (process platform (memory_store platform (event ∷ [])) processor (event ∷ []) session event
      ≡ ok (cursor, session))
    × ((session ≡ session) ⊎ (session.initialized ≡ false))
unfolding get initialize
process-again_example =
    process-again platform (memory_store platform (event ∷ [])) processor (event ∷ []) session
      session event event cursor codes-IsUtf8 log_opens refl (omega arith) refl refl refl
      written_loads cursor_valid

commit-load_aggregate_example :
    (load_aggregate platform written "run" "all" ≡ ok (some checkpoint))
    × (1 ≡ version_or_zero (find_aggregate with_run "run" "all") + 1)
    × ((run' id' : String)
        → (str_eq run' "run" ≡ false) ⊎ (str_eq id' "all" ≡ false)
        → find_aggregate written run' id' ≡ find_aggregate with_run run' id')
commit-load_aggregate_example =
    commit-load_aggregate platform (event ∷ []) with_run written value value_committed

fetch_materialized : materialize platform registration event "all" changed ≡ ok (asked ∷ [])
unfolding materialize assert_json_within_limits count_fields check_keys add_key_bytes code_units
    is_hash canonical_hash canonical_json has compute_body_hash compute_output_id
    compute_output_dedupe_identity derive_job_id
fetch_materialized = refl

materialize-outputs_example :
    (map (λ o. o.body) (asked ∷ []) ≡ job fetch ∷ [])
    × (map (λ o. o.ordinal) (asked ∷ []) ≡ count_up 0 1)
    × All (IsOutputOf platform registration event "all") (asked ∷ [])
materialize-outputs_example =
    materialize-outputs platform registration event "all" changed (asked ∷ []) fetch_materialized
