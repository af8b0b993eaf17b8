-- ===== src/Processor/Store.antt =====
-- adapters/memory/processing-store.ts: InMemoryProcessingStore. A Map is an association list, and
-- a `set` of a known key keeps its place; a Set is a list. The event log that the store
-- holds is an argument.
pub mod Reads
pub mod Accepted
pub mod Registered
pub mod Lookup
pub mod Adapter
pub mod Concurrency
pub mod Sequences
pub mod Pages
pub mod Snapshot
pub mod Dedupe
pub mod Pending
pub mod Effects
pub mod Sets
pub mod Dispatch
pub mod Aggregates
use peas_engine.Prelude.{
  ℕ, ◌+◌, suc, String, Bool, true, false, not, ◌&&◌, ◌||◌, List, [], ◌∷◌, ◌++◌, Option, none, some,
  Result, ok, err, ◌>>=◌, ◌>>◌, guard, fail_if, leb, ltb, ◌==◌, str_eq, is_empty, length, take,
  if◌then◌else◌,
}
use peas_engine.Json.{key_lt, canonical_json}
use peas_engine.Digest.{Platform}
use peas_engine.Events.{StoredEvent}
use peas_engine.Events.Digests.{stored_json, validate_stored_event, verify_stored_event}
use peas_engine.Events.Log.{lookup, get}
use peas_engine.Processor.{
  RunRegistration, OutputBody, decision, job, outbox_message, category_of, ImmutableOutput,
  StoredOutput, RunCursor, AggregateCheckpoint, ProcessingCommit, OutputPage, AggregatePage,
}
use peas_engine.Processor.Hashes.{
  registration_json, compute_run_cursor_hash, compute_aggregate_checkpoint_hash, compute_state_hash,
  compute_body_hash, compute_output_dedupe_identity, create_genesis_run_cursor,
}
use peas_engine.Processor.Validate.{
  has, validate_run_registration, validate_run_cursor, validate_aggregate_id,
  validate_committed_checkpoint, validate_stored_output, validate_processing_commit,
}
use peas_engine.Processor.Verify.{verify_processing_transition}

-- `map.set(key, value)`
unfoldable pub put {ℓ} : {A : Type ℓ} → String → A → List (String × A) → List (String × A)
put key a [] = (key, a) ∷ []
put key a ((k, b) ∷ es) =
    let rest = put key a es in if str_eq key k then (k, a) ∷ es else (k, b) ∷ rest

-- `for (…) map.set(key, value)`
unfoldable pub put_all : List (String × String) → List (String × String) → List (String × String)
unfolding put
put_all [] m = m
put_all ((k, a) ∷ es) m = put_all es (put k a m)

-- `map.get(key) ?? []`
abbrev pub list_or_empty {ℓ} : {A : Type ℓ} → Option (List A) → List A
list_or_empty none = []
list_or_empty (some xs) = xs

-- `set.add(value)`
abbrev add : String → List String → List String
add s ss = if has s ss then ss else ss ++ s ∷ []

-- The fields of InMemoryProcessingStore.
pub record MemoryStore : Type 0 where
  pub runs : List (String × RunRegistration)
  pub cursors : List (String × RunCursor)
  pub aggregates : List (String × List (String × AggregateCheckpoint))
  pub outputs : List StoredOutput
  pub dedupe_keys : List (String × String)
  pub dispatchable_jobs : List String
  pub dispatchable_outbox : List String

abbrev pub empty_store : MemoryStore
empty_store = record {
  runs = [];
  cursors = [];
  aggregates = [];
  outputs = [];
  dedupe_keys = [];
  dispatchable_jobs = [];
  dispatchable_outbox = [];
}

abbrev pub require {ℓ} : {A : Type ℓ} → Option A → String → Result A
require none message = err message
require (some a) message = ok a

-- What a commit's loop does to the set of a category for one output.
abbrev add_job : OutputBody → String → List String → List String
add_job (decision d) id jobs = jobs
add_job (job j) id jobs = add id jobs
add_job (outbox_message m) id jobs = jobs

abbrev add_message : OutputBody → String → List String → List String
add_message (decision d) id messages = messages
add_message (job j) id messages = messages
add_message (outbox_message m) id messages = add id messages

-- The job IDs that a commit's loop adds.
unfoldable pub add_jobs : List ImmutableOutput → List String → List String
unfolding has
add_jobs [] jobs = jobs
add_jobs (o ∷ os) jobs = add_jobs os (add_job o.body o.output_id jobs)

-- The message IDs that it adds.
unfoldable pub add_outbox : List ImmutableOutput → List String → List String
unfolding has
add_outbox [] messages = messages
add_outbox (o ∷ os) messages = add_outbox os (add_message o.body o.output_id messages)

abbrev pub first_of : Option String → Option String → Option String
first_of none o = o
first_of (some s) o = some s

abbrev pub conflicts : Option String → String → Bool
conflicts none id = false
conflicts (some known) id = not (str_eq known id)

-- `priorAggregate?.version ?? "0"`
abbrev pub version_or_zero : Option AggregateCheckpoint → ℕ
version_or_zero none = 0
version_or_zero (some a) = a.core.version

-- `this.#aggregates.get(runId)?.get(aggregateId)`
abbrev pub find_aggregate : MemoryStore → String → String → Option AggregateCheckpoint
find_aggregate s run id = lookup id (list_or_empty (lookup run s.aggregates))

module _ (p : Platform) where
  -- ensureRun, for what the store has under the run.
  unfoldable pub ensure_verified :
      RunRegistration → MemoryStore → Option RunRegistration → Result MemoryStore
  unfolding put registration_json
  ensure_verified verified s none =
      ok (record s { runs = put verified.manifest.run_id verified s.runs })
  ensure_verified verified s (some existing) = do
    known ← canonical_json p.stringify (registration_json existing)
    text ← canonical_json p.stringify (registration_json verified)
    guard (str_eq known text) "Run is already registered differently"
    ok s

  -- ensureRun
  unfoldable pub ensure_run : RunRegistration → MemoryStore → Result MemoryStore
  unfolding lookup ensure_verified
  ensure_run registration s = do
    verified ← validate_run_registration p registration
    ensure_verified verified s (lookup verified.manifest.run_id s.runs)

  -- The event of a commit is the one that the event log has. The texts are compared last in
  -- the source; validated events have one.
  unfoldable pub verify_persisted : StoredEvent → Option StoredEvent → Result (Unit {0})
  unfolding stored_json
  verify_persisted event none = err "Event is not the exact persisted event"
  verify_persisted event (some stored) = do
    persisted ← validate_stored_event p stored
    verify_stored_event p persisted none
    before ← canonical_json p.stringify (stored_json p persisted)
    after ← canonical_json p.stringify (stored_json p event)
    guard
        (str_eq persisted.captured.event_id event.captured.event_id
          && str_eq persisted.event_hash event.event_hash
          && str_eq before after)
        "Event is not the exact persisted event"

  -- `this.#cursors.get(runId) ?? createGenesisRunCursor(registration)`
  unfoldable pub cursor_or_genesis : Option RunCursor → RunRegistration → Result RunCursor
  cursor_or_genesis none r = create_genesis_run_cursor p r
  cursor_or_genesis (some c) r = ok c

  -- The dedupe test of commit's loop, with the pending identities after it.
  unfoldable pub pend_dedupe :
      List (String × String)
      → ImmutableOutput
      → Option String
      → List (String × String)
      → Result (List (String × String))
  unfolding lookup
  pend_dedupe known o none pending = ok pending
  pend_dedupe known o (some key) pending = do
    identity ← compute_output_dedupe_identity p o.run_id (category_of o.body) key
    fail_if (conflicts (first_of (lookup identity known) (lookup identity pending)) o.output_id)
        "Run-scoped output dedupe conflict"
    ok (pending ++ (identity, o.output_id) ∷ [])

  -- commit's loop: the outputs as stored from a sequence on, and the pending identities.
  unfoldable pub pend_outputs :
      List (String × String)
      → String
      → List ImmutableOutput
      → ℕ
      → List (String × String)
      → Result (List StoredOutput × List (String × String))
  unfolding pend_dedupe
  pend_outputs known run [] sequence pending = ok ([], pending)
  pend_outputs known run (o ∷ os) sequence pending =
      guard (str_eq o.run_id run) "Output run ID mismatch" >>= λ _.
      compute_body_hash p o.body >>= λ body_hash.
      guard (str_eq o.body_hash body_hash) "Output body hash mismatch" >>= λ _.
      pend_dedupe known o o.dedupe_key pending >>= λ pending'.
      pend_outputs known run os (suc sequence) pending' >>= λ (rest, pending'').
      ok (record { output = o; sequence = sequence } ∷ rest, pending'')

  -- The writes of commit.
  unfoldable pub write_commit :
      MemoryStore
      → ProcessingCommit
      → RunRegistration
      → List StoredOutput
      → List (String × String)
      → MemoryStore
  unfolding put put_all add_jobs add_outbox lookup
  write_commit s v r outputs pending =
      let run = v.cursor.core.run_id in
      let effects = r.manifest.effects_allowed in
      record {
        runs = s.runs;
        cursors = put run v.cursor s.cursors;
        aggregates =
            put run
              (put v.aggregate.core.aggregate_id v.aggregate
                (list_or_empty (lookup run s.aggregates)))
              s.aggregates;
        outputs = s.outputs ++ outputs;
        dedupe_keys = put_all pending s.dedupe_keys;
        dispatchable_jobs =
            if effects then add_jobs v.outputs s.dispatchable_jobs else s.dispatchable_jobs;
        dispatchable_outbox =
            if effects then add_outbox v.outputs s.dispatchable_outbox else s.dispatchable_outbox;
      }

  -- commit
  unfoldable pub commit : List StoredEvent → MemoryStore → ProcessingCommit → Result MemoryStore
  unfolding lookup get verify_persisted cursor_or_genesis pend_outputs write_commit
  commit events s v = do
    validate_processing_commit p v
    verify_persisted v.event (get events v.event.position)
    r ← require (lookup v.cursor.core.run_id s.runs) "Run is not registered"
    previous ← cursor_or_genesis (lookup v.cursor.core.run_id s.cursors) r
    guard (previous.core.processed_position == v.expected_position) "Cursor concurrency conflict"
    verify_processing_transition p v r previous
    guard
        (v.aggregate.core.version
          == version_or_zero (find_aggregate s v.cursor.core.run_id v.aggregate.core.aggregate_id)
            + 1)
        "Aggregate version concurrency conflict"
    pending ← pend_outputs s.dedupe_keys v.cursor.core.run_id v.outputs (length s.outputs + 1) []
    ok (write_commit s v r pending.0 pending.1)
