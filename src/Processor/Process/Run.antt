-- ===== src/Processor/Process/Run.antt =====
-- core/processor.ts: `process`, `processAvailable` and `snapshot` of DeterministicProcessor.
use peas_engine.Prelude.{
  ℕ, zero, suc, ◌+◌, String, true, List, [], ◌∷◌, ◌++◌, none, Result, ok, err, ◌>>=◌, ◌>>◌, guard,
  fail_if, leb, ltb, ◌==◌, length, if◌then◌else◌,
}
use peas_engine.Digest.{Platform}
use peas_engine.Events.{StoredEvent, assert_page_limit}
use peas_engine.Events.Digests.{validate_stored_event, verify_stored_event}
use peas_engine.Events.Log.{read_after}
use peas_engine.Processor.{ReducerContext, StoredOutput, RunCursor, AggregateCheckpoint}
use peas_engine.Processor.Validate.{validate_aggregate_id}
use peas_engine.Processor.Process.{
  ProcessingStore, Processor, Session, or_genesis, verify_cursor, or_aggregate_genesis,
  verify_aggregate, persisted_predecessor_hash, verify_exact_persisted_event,
  verify_processed_suffix, build_commit,
}

-- What `snapshot` returns.
pub record RunSnapshot : Type 0 where
  pub cursor : RunCursor
  pub outputs : List StoredOutput
  pub aggregates : List AggregateCheckpoint

module _ {S : Type 0} (p : Platform) (api : ProcessingStore S) (d : Processor) where
  -- #initialize
  unfoldable pub initialize : Session S → Result (Session S)
  initialize session =
      if session.initialized
      then ok session
      else (api.ensure_run session.store d.registration >>= λ s.
          ok (record { store = s; initialized = true }))

  -- `loadCursor(runId) ?? this.#genesis()`
  unfoldable pub current_cursor : S → Result RunCursor
  current_cursor s = do
    loaded ← api.load_cursor s d.registration.manifest.run_id
    or_genesis p d loaded

  -- The context of the reducer for an event.
  unfoldable pub context_of : StoredEvent → ReducerContext
  context_of event = record {
    now_ms = event.captured.logical_at_ms;
    run_id = d.registration.manifest.run_id;
    behavior_hash = d.registration.behavior_hash;
    identities = d.registration.manifest.behavior.identities;
    config = d.registration.manifest.behavior.configuration;
    config_hash = d.config_hash;
  }

  -- The part of `process` for an event at or before the cursor.
  unfoldable pub process_again :
      List StoredEvent → S → StoredEvent → RunCursor → Result (RunCursor × S)
  process_again events s event previous = do
    hash ← persisted_predecessor_hash p events event.position
    verify_exact_persisted_event p events event hash
    verify_processed_suffix p events event.position event.event_hash previous
    ok (previous, s)

  -- The part of `process` for an event after the cursor.
  unfoldable pub process_next :
      List StoredEvent → S → StoredEvent → RunCursor → Result (RunCursor × S)
  unfolding context_of
  process_next events s event previous = do
    guard (event.position == previous.core.processed_position + 1)
        "Non-contiguous processing position"
    verify_exact_persisted_event p events event previous.core.last_event_hash
    fail_if (ltb event.captured.logical_at_ms previous.core.logical_at_ms)
        "Logical clock regression"
    id ← d.reducer.route event
    validate_aggregate_id p id
    loaded ← api.load_aggregate s d.registration.manifest.run_id id
    prior ← or_aggregate_genesis p d id loaded
    state ← verify_aggregate p d prior
    transition ← d.reducer.apply state event (context_of event)
    value ← build_commit p d previous event id prior transition
    s' ← api.commit s value
    ok (value.cursor, s')

  -- `process` after #initialize.
  unfoldable pub process_event : List StoredEvent → S → StoredEvent → Result (RunCursor × S)
  unfolding current_cursor process_again process_next
  process_event events s event = do
    valid ← validate_stored_event p event
    verify_stored_event p event none
    previous ← current_cursor s
    verify_cursor p d previous
    if leb event.position previous.core.processed_position
        then process_again events s event previous
        else process_next events s event previous

  -- process
  unfoldable pub process :
      List StoredEvent → Session S → StoredEvent → Result (RunCursor × Session S)
  unfolding initialize process_event
  process events session event = initialize session >>= λ ready.
      process_event events ready.store event >>= λ (cursor, s).
      ok (cursor, record { store = s; initialized = ready.initialized })

  -- `for (const event of page.events) cursor = await this.process(event)`
  unfoldable pub process_all :
      List StoredEvent → RunCursor → Session S → List StoredEvent → Result (RunCursor × Session S)
  unfolding process
  process_all events cursor session [] = ok (cursor, session)
  process_all events cursor session (e ∷ es) =
      process events session e >>= λ (cursor', session'). process_all events cursor' session' es

  -- The while loop of processAvailable, on fuel.
  unfoldable pub drain :
      ℕ → List StoredEvent → ℕ → RunCursor → Session S → Result (RunCursor × Session S)
  unfolding process_all
  drain zero events page_size cursor session = err "out of fuel"
  drain (suc fuel) events page_size cursor session =
      read_after events cursor.core.processed_position page_size >>= λ page.
      process_all events cursor session page.events >>= λ (cursor', session').
      let rest = drain fuel events page_size cursor' session' in
      if page.has_more then rest else ok (cursor', session')

  -- processAvailable; each page but the last moves the cursor on.
  unfoldable pub process_available :
      List StoredEvent → Session S → ℕ → Result (RunCursor × Session S)
  unfolding drain
  process_available events session page_size = do
    assert_page_limit page_size
    ready ← initialize session
    cursor ← current_cursor ready.store
    drain (suc (length events)) events page_size cursor ready

  -- The first loop of `snapshot`, on fuel.
  unfoldable pub collect_outputs : ℕ → S → ℕ → ℕ → Result (List StoredOutput)
  collect_outputs zero s page_size sequence = err "out of fuel"
  collect_outputs (suc fuel) s page_size sequence =
      api.read_outputs_after s d.registration.manifest.run_id sequence page_size >>= λ page.
      let rest = collect_outputs fuel s page_size page.next_sequence in
      if page.has_more then (rest >>= λ os. ok (page.outputs ++ os)) else ok page.outputs

  -- The second loop of `snapshot`, on fuel.
  unfoldable pub collect_aggregates : ℕ → S → ℕ → String → Result (List AggregateCheckpoint)
  collect_aggregates zero s page_size id = err "out of fuel"
  collect_aggregates (suc fuel) s page_size id =
      api.read_aggregates_after s d.registration.manifest.run_id id page_size >>= λ page.
      let rest = collect_aggregates fuel s page_size page.next_aggregate_id in
      if page.has_more then (rest >>= λ as'. ok (page.aggregates ++ as')) else ok page.aggregates

  -- snapshot, with the session after #initialize.
  unfoldable pub snapshot : ℕ → Session S → ℕ → Result (RunSnapshot × Session S)
  unfolding initialize current_cursor collect_outputs collect_aggregates
  snapshot fuel session page_size = do
    assert_page_limit page_size
    ready ← initialize session
    cursor ← current_cursor ready.store
    outputs ← collect_outputs fuel ready.store page_size 0
    aggregates ← collect_aggregates fuel ready.store page_size ""
    ok (record { cursor = cursor; outputs = outputs; aggregates = aggregates }, ready)
