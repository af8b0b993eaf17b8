-- ===== src/Processor/Process.antt =====
-- core/processor.ts: DeterministicProcessor over a processing store, and the store's interface. The
-- event log is the list of its events, and what the processor was built with does not change.

pub mod Run
pub mod Facts
pub mod Available
pub mod Verified
pub mod Again
pub mod Redelivery
use peas_engine.Prelude.{
  ℕ, zero, suc, ◌+◌, ◌-◌, String, Bool, true, false, not, ◌&&◌, List, [], ◌∷◌, ◌++◌, Option, none,
  some, Result, ok, err, ◌>>=◌, ◌>>◌, guard, fail_if, leb, ltb, ◌==◌, min, str_eq, is_empty,
  is_hash, if◌then◌else◌,
}
use peas_engine.Json.{Fields, arr, obj, canonical_json}
use peas_engine.Digest.{Platform, canonical_hash}
use peas_engine.Events.{StoredEvent, assert_page_limit}
use peas_engine.Events.Digests.{stored_json, validate_stored_event, verify_stored_event}
use peas_engine.Events.Log.{genesis_hash, get, EventPage, read_after}
use peas_engine.Processor.{
  RunIdentities, RunManifest, RunRegistration, Transition, ReducerContext, Reducer, ImmutableOutput,
  StoredOutput, CursorCore, RunCursor, CheckpointCore, AggregateCheckpoint, ProcessingCommit,
  OutputPage, AggregatePage,
}
use peas_engine.Processor.Schemas.{persisted_limits}
use peas_engine.Processor.Hashes.{
  compute_run_cursor_hash, compute_aggregate_checkpoint_hash, compute_state_hash, step_state_head,
  create_genesis_run_cursor,
}
use peas_engine.Processor.Validate.{
  within, derive_run_registration, validate_run_cursor, validate_aggregate_id,
  validate_aggregate_checkpoint,
}
use peas_engine.Processor.Verify.{step_decision_head}
use peas_engine.Processor.Materialize.{materialize}

-- ProcessingStore: each operation may throw, and those that write return the store after the call.
pub record ProcessingStore (S : Type 0) : Type 0 where
  pub ensure_run : S → RunRegistration → Result S
  pub load_cursor : S → String → Result (Option RunCursor)
  pub load_aggregate : S → String → String → Result (Option AggregateCheckpoint)
  pub commit : S → ProcessingCommit → Result S
  pub read_outputs_after : S → String → ℕ → ℕ → Result OutputPage
  pub read_aggregates_after : S → String → String → ℕ → Result AggregatePage

-- The fields of DeterministicProcessor that its constructor fills.
pub record Processor : Type 0 where
  pub reducer : Reducer
  pub registration : RunRegistration
  pub config_hash : String

-- The store, and `#initialized`.
pub record Session (S : Type 0) : Type 0 where
  pub store : S
  pub initialized : Bool

abbrev pub is_filled : Option String → Bool
is_filled none = true
is_filled (some s) = not (is_empty s)

abbrev pub are_filled : RunIdentities → Bool
are_filled i =
    not (is_empty i.extractor_version)
    && is_filled i.feature_set_id
    && is_filled i.model_id
    && is_filled i.prompt_id
    && is_filled i.dataset_id

module _ (p : Platform) where
  -- The constructor.
  unfoldable pub create_processor : Reducer → RunManifest → Result Processor
  create_processor reducer manifest = do
    registration ← derive_run_registration p manifest
    guard (str_eq manifest.behavior.reducer_name reducer.name)
        "Manifest reducer name does not match the reducer"
    guard (str_eq manifest.behavior.reducer_version reducer.version)
        "Manifest reducer version does not match the reducer"
    fail_if (is_empty manifest.run_id) "Run ID cannot be empty"
    guard (are_filled manifest.behavior.identities) "Run identity cannot be empty"
    guard (is_hash manifest.behavior.build_digest) "Build digest must be a SHA-256 hex digest"
    guard (is_hash manifest.behavior.schema_registry_digest)
        "Schema registry digest must be a SHA-256 hex digest"
    config_hash ← canonical_hash p "peas/reducer-config/v2" (obj manifest.behavior.configuration)
    ok (record { reducer = reducer; registration = registration; config_hash = config_hash })

  -- `loaded ?? this.#genesis()`
  unfoldable pub or_genesis : Processor → Option RunCursor → Result RunCursor
  or_genesis d none = create_genesis_run_cursor p d.registration
  or_genesis d (some c) = ok c

  -- #verifyCursor
  unfoldable pub verify_cursor : Processor → RunCursor → Result (Unit {0})
  verify_cursor d c = do
    validate_run_cursor p c
    guard (str_eq c.core.run_id d.registration.manifest.run_id) "Run cursor ID mismatch"
    guard (str_eq c.core.manifest_hash d.registration.manifest_hash)
        "Run manifest does not match the stored cursor"
    guard (str_eq c.core.behavior_hash d.registration.behavior_hash)
        "Run behavior does not match the stored cursor"
    hash ← compute_run_cursor_hash p c.core
    guard (str_eq c.cursor_hash hash) "Run cursor hash mismatch"

  -- #aggregateGenesis
  unfoldable pub aggregate_genesis : Processor → String → Result AggregateCheckpoint
  aggregate_genesis d id = do
    initial ← d.reducer.initial_state id d.registration.manifest.behavior.configuration
    within p persisted_limits (obj initial)
    state ← d.reducer.parse_state initial
    within p persisted_limits (obj state)
    state_hash ← compute_state_hash p d.reducer.name d.reducer.version state
    let core : CheckpointCore = record {
      run_id = d.registration.manifest.run_id;
      aggregate_id = id;
      version = 0;
      last_input_position = 0;
      state = state;
      state_hash = state_hash;
    }
    hash ← compute_aggregate_checkpoint_hash p core
    ok (record { core = core; checkpoint_hash = hash })

  unfoldable pub or_aggregate_genesis :
      Processor → String → Option AggregateCheckpoint → Result AggregateCheckpoint
  unfolding aggregate_genesis
  or_aggregate_genesis d id none = aggregate_genesis d id
  or_aggregate_genesis d id (some a) = ok a

  -- #verifyAggregate: the state that the reducer reads from the checkpoint.
  unfoldable pub verify_aggregate : Processor → AggregateCheckpoint → Result Fields
  verify_aggregate d a = do
    validate_aggregate_checkpoint p a
    within p persisted_limits (obj a.core.state)
    state ← d.reducer.parse_state a.core.state
    within p persisted_limits (obj state)
    state_hash ← compute_state_hash p d.reducer.name d.reducer.version state
    guard (str_eq a.core.state_hash state_hash) "Aggregate state hash mismatch"
    hash ← compute_aggregate_checkpoint_hash p a.core
    guard (str_eq a.checkpoint_hash hash) "Aggregate checkpoint hash mismatch"
    ok state

  unfoldable pub predecessor_hash : ℕ → Option StoredEvent → Result String
  predecessor_hash position none = err "Persisted event predecessor does not exist"
  predecessor_hash position (some e) = do
    guard (e.position == position) "Event log returned the wrong predecessor"
    verify_stored_event p e none
    ok e.event_hash

  -- #persistedPredecessorHash
  unfoldable pub persisted_predecessor_hash : List StoredEvent → ℕ → Result String
  unfolding predecessor_hash
  persisted_predecessor_hash events position =
      if position == 1
      then ok genesis_hash
      else predecessor_hash (position - 1) (get events (position - 1))

  unfoldable pub verify_same_event : StoredEvent → String → Option StoredEvent → Result (Unit {0})
  verify_same_event event previous none = err "Event is not persisted"
  verify_same_event event previous (some persisted) = do
    verify_stored_event p persisted (some previous)
    known ← canonical_json p.stringify (stored_json p persisted)
    text ← canonical_json p.stringify (stored_json p event)
    guard (str_eq known text) "Event is not the exact persisted event"

  -- #verifyExactPersistedEvent
  unfoldable pub verify_exact_persisted_event :
      List StoredEvent → StoredEvent → String → Result (Unit {0})
  unfolding verify_same_event
  verify_exact_persisted_event events event previous = do
    verify_stored_event p event (some previous)
    verify_same_event event previous (get events event.position)

  -- The loop over a page in #verifyProcessedSuffix.
  unfoldable pub verify_suffix_page : List StoredEvent → ℕ → String → Result (ℕ × String)
  verify_suffix_page [] position hash = ok (position, hash)
  verify_suffix_page (e ∷ es) position hash = do
    guard (e.position == position + 1) "Persisted event chain position mismatch"
    verify_stored_event p e (some hash)
    verify_suffix_page es (position + 1) e.event_hash

  abbrev is_none_left : List StoredEvent → Bool
  is_none_left [] = true
  is_none_left (e ∷ es) = false

  -- The while loop of #verifyProcessedSuffix, on fuel: each page moves the position on.
  unfoldable pub verify_suffix_loop :
      ℕ → List StoredEvent → RunCursor → ℕ → String → Result (ℕ × String)
  unfolding verify_suffix_page
  verify_suffix_loop zero events cursor position hash = ok (position, hash)
  verify_suffix_loop (suc fuel) events cursor position hash =
      let remaining = cursor.core.processed_position - position in
      let next : Result (ℕ × String) =
        (read_after events position (min remaining 1000) >>= λ page.
        fail_if (is_none_left page.events) "Persisted event chain ends before cursor" >>= λ _.
        verify_suffix_page page.events position hash >>= λ (position', hash').
        guard (page.next_position == position') "Persisted event page cursor mismatch" >>= λ _.
        verify_suffix_loop fuel events cursor position' hash') in
      if ltb position cursor.core.processed_position then next else ok (position, hash)

  -- #verifyProcessedSuffix
  unfoldable pub verify_processed_suffix :
      List StoredEvent → ℕ → String → RunCursor → Result (Unit {0})
  unfolding verify_suffix_loop
  verify_processed_suffix events start start_hash cursor =
      verify_suffix_loop cursor.core.processed_position events cursor start start_hash
      >>= λ (position, hash).
          guard
            (position == cursor.core.processed_position && str_eq hash cursor.core.last_event_hash)
            "Persisted event chain does not match cursor head"

  -- The commit that `process` builds for an event and the transition of its aggregate.
  unfoldable pub build_commit :
      Processor
      → RunCursor
      → StoredEvent
      → String
      → AggregateCheckpoint
      → Transition
      → Result ProcessingCommit
  build_commit d previous event id prior t = do
    within p persisted_limits (obj t.state)
    state ← d.reducer.parse_state t.state
    within p persisted_limits (obj state)
    text ← canonical_json p.stringify (obj state)
    state_hash ← compute_state_hash p d.reducer.name d.reducer.version state
    let checkpoint : CheckpointCore = record {
      run_id = d.registration.manifest.run_id;
      aggregate_id = id;
      version = prior.core.version + 1;
      last_input_position = event.position;
      state = state;
      state_hash = state_hash;
    }
    checkpoint_hash ← compute_aggregate_checkpoint_hash p checkpoint
    outputs ← materialize p d.registration event id t
    decision_head ← step_decision_head p previous.core.decision_head event.event_hash outputs
    let core : CursorCore = record {
      run_id = d.registration.manifest.run_id;
      manifest_hash = d.registration.manifest_hash;
      behavior_hash = d.registration.behavior_hash;
      processed_position = event.position;
      logical_at_ms = event.captured.logical_at_ms;
      last_event_hash = event.event_hash;
      state_head = step_state_head p previous.core.state_head event.event_hash id state_hash;
      decision_head = decision_head;
    }
    cursor_hash ← compute_run_cursor_hash p core
    ok (record {
      expected_position = previous.core.processed_position;
      event = event;
      cursor = record { core = core; cursor_hash = cursor_hash };
      aggregate = record { core = checkpoint; checkpoint_hash = checkpoint_hash };
      outputs = outputs;
    })
