-- ===== src/Processor/Samples.antt =====
-- The data of the tests: a run of a reducer over a log of one event, and the stores before and after.
use peas_engine.Prelude.{◌≡◌, refl, true, false, [], ◌∷◌, none, some, ok, is_hash}
use peas_engine.Json.{Fields, end, field, bool, code_units, canonical_json}
use peas_engine.Json.Limits.{
  assert_json_within_limits, assert_json_limits, visit, count_items, count_fields, check_keys,
  add_key_bytes,
}
use peas_engine.Fixtures.{hash, platform}
use peas_engine.Digest.{canonical_hash, hash_parts}
use peas_engine.Events.{EventDraft, StoredEvent, is_event_draft, is_identifier}
use peas_engine.Events.Digests.{
  validate_stored_event, verify_stored_event, derive_event_id, compute_content_hash,
  compute_event_hash,
}
use peas_engine.Events.Log.{genesis_hash, lookup, last_event, get}
use peas_engine.Processor.{
  live, RunManifest, RunRegistration, JobDraft, Transition, Reducer, job, ImmutableOutput,
  RunCursor, AggregateCheckpoint, ProcessingCommit,
}
use peas_engine.Processor.Validate.{
  has, validate_processing_commit, validate_run_cursor, validate_aggregate_checkpoint,
  validate_run_registration,
}
use peas_engine.Processor.Hashes.{
  commit_json, semantic_outputs, create_genesis_run_cursor, compute_run_cursor_hash,
  compute_aggregate_checkpoint_hash, compute_state_hash, compute_body_hash, compute_output_id,
  compute_output_dedupe_identity, step_state_head, derive_job_id,
}
use peas_engine.Processor.Verify.{
  scan_outputs, verify_processing_commit, step_decision_head, verify_processing_transition,
}
use peas_engine.Processor.Store.{
  MemoryStore, empty_store, put, put_all, add_jobs, add_outbox, ensure_run, verify_persisted,
  cursor_or_genesis, pend_outputs, write_commit, commit,
}
use peas_engine.Processor.Store.Concurrency.{Reaches, here, committed, registered}
use peas_engine.Processor.Process.{Processor, Session}

abbrev draft : EventDraft
draft = record {
  event_type = "filing";
  schema_version = 1;
  source = "sec";
  subject = "NVDA";
  occurred_at_ms = none;
  correlation_id = "c";
  causation_id = none;
  provider = record { provider = "sec"; record_id = "1"; revision_id = "1"; artifact_hash = hash };
  payload = end;
}

abbrev pub event : StoredEvent
event = record {
  captured = record {
    draft = draft;
    event_id = hash;
    stream_version = 1;
    received_at_ms = 500;
    logical_at_ms = 500;
  };
  position = 1;
  content_hash = hash;
  previous_event_hash = genesis_hash;
  event_hash = hash;
}

abbrev manifest : RunManifest
manifest = record {
  run_id = "run";
  kind = live;
  effects_allowed = true;
  behavior = record {
    reducer_name = "counter";
    reducer_version = "1";
    build_digest = hash;
    schema_registry_digest = hash;
    configuration = end;
    identities = record {
      extractor_version = "1";
      feature_set_id = none;
      model_id = none;
      prompt_id = none;
      dataset_id = none;
    };
  };
}

abbrev pub registration : RunRegistration
registration = record { manifest = manifest; manifest_hash = hash; behavior_hash = hash }

abbrev pub fetch : JobDraft
fetch = record {
  job_id = hash;
  job_type = "fetch";
  dedupe_key = "k";
  not_before_logical_ms = 600;
  input_bundle_hash = hash;
  payload = end;
}

abbrev seen : Fields
seen = field "seen" (bool true) end

-- A reducer of one aggregate that asks for a job at each event.
abbrev reducer : Reducer
reducer = record {
  name = "counter";
  version = "1";
  route = λ e. ok "all";
  parse_state = λ s. ok s;
  initial_state = λ id config. ok end;
  apply =
      λ s e context. ok (record { state = seen; decisions = []; jobs = fetch ∷ []; outbox = [] });
}

abbrev pub processor : Processor
processor = record { reducer = reducer; registration = registration; config_hash = hash }

abbrev pub cursor : RunCursor
cursor = record {
  core = record {
    run_id = "run";
    manifest_hash = hash;
    behavior_hash = hash;
    processed_position = 1;
    logical_at_ms = 500;
    last_event_hash = hash;
    state_head = hash;
    decision_head = hash;
  };
  cursor_hash = hash;
}

abbrev pub checkpoint : AggregateCheckpoint
checkpoint = record {
  core = record {
    run_id = "run";
    aggregate_id = "all";
    version = 1;
    last_input_position = 1;
    state = seen;
    state_hash = hash;
  };
  checkpoint_hash = hash;
}

abbrev pub asked : ImmutableOutput
asked = record {
  output_id = hash;
  run_id = "run";
  input_event_id = hash;
  input_position = 1;
  aggregate_id = "all";
  ordinal = 0;
  dedupe_key = some "k";
  not_before_logical_ms = some 600;
  body = job fetch;
  body_hash = hash;
}

abbrev pub with_run : MemoryStore
with_run = record empty_store { runs = ("run", registration) ∷ [] }

abbrev pub value : ProcessingCommit
value = record {
  expected_position = 0;
  event = event;
  cursor = cursor;
  aggregate = checkpoint;
  outputs = asked ∷ [];
}

abbrev pub written : MemoryStore
written = record {
  runs = ("run", registration) ∷ [];
  cursors = ("run", cursor) ∷ [];
  aggregates = ("run", ("all", checkpoint) ∷ []) ∷ [];
  outputs = record { output = asked; sequence = 1 } ∷ [];
  dedupe_keys = (hash, hash) ∷ [];
  dispatchable_jobs = hash ∷ [];
  dispatchable_outbox = [];
}

abbrev pub fresh : Session MemoryStore
fresh = record { store = empty_store; initialized = false }

pub value_committed : commit platform (event ∷ []) with_run value ≡ ok written
unfolding commit validate_processing_commit validate_stored_event assert_json_within_limits
    assert_json_limits visit count_items count_fields check_keys add_key_bytes code_units
    canonical_json canonical_hash hash_parts is_event_draft is_hash derive_event_id
    compute_content_hash compute_event_hash lookup get last_event verify_persisted
    verify_processing_transition verify_processing_commit scan_outputs has put put_all add_jobs
    add_outbox pend_outputs write_commit cursor_or_genesis create_genesis_run_cursor
    compute_run_cursor_hash compute_aggregate_checkpoint_hash compute_state_hash compute_body_hash
    compute_output_id compute_output_dedupe_identity step_state_head derive_job_id
    step_decision_head commit_json validate_run_cursor validate_aggregate_checkpoint
    verify_stored_event semantic_outputs
value_committed = refl

run_registered : ensure_run platform registration empty_store ≡ ok with_run
unfolding ensure_run assert_json_within_limits assert_json_limits visit count_items count_fields
    check_keys add_key_bytes code_units canonical_json canonical_hash hash_parts lookup is_hash put
    validate_run_registration is_identifier
run_registered = refl

pub written-Reaches : Reaches platform empty_store written
written-Reaches =
    committed (event ∷ []) value with_run written
      (registered registration empty_store with_run here run_registered) value_committed

abbrev pub changed : Transition
changed = record { state = seen; decisions = []; jobs = fetch ∷ []; outbox = [] }
