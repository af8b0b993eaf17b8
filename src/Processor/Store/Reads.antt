-- ===== src/Processor/Store/Reads.antt =====
-- adapters/memory/processing-store.ts: the reads of InMemoryProcessingStore.
use peas_engine.Prelude.{
  ℕ, suc, String, Bool, ◌&&◌, List, [], ◌∷◌, Option, none, some, Result, ok, ◌>>=◌, ◌>>◌, guard,
  leb, ltb, str_eq, is_empty, length, take, if◌then◌else◌,
}
use peas_engine.Json.{key_lt}
use peas_engine.Digest.{Platform}
use peas_engine.Events.Log.{lookup}
use peas_engine.Processor.{StoredOutput, RunCursor, AggregateCheckpoint, OutputPage, AggregatePage}
use peas_engine.Processor.Hashes.{
  compute_run_cursor_hash, compute_aggregate_checkpoint_hash, compute_state_hash, compute_body_hash,
}
use peas_engine.Processor.Validate.{
  has, validate_run_cursor, validate_aggregate_id, validate_committed_checkpoint,
  validate_stored_output,
}
use peas_engine.Processor.Store.{MemoryStore, require, find_aggregate, list_or_empty}

-- `outputs.filter((output) => output.runId === runId && output.sequence > sequence)`
unfoldable pub outputs_after : String → ℕ → List StoredOutput → List StoredOutput
outputs_after run n [] = []
outputs_after run n (o ∷ os) =
    let rest = outputs_after run n os in
    if str_eq o.output.run_id run && ltb n o.sequence then o ∷ rest else rest

-- `selected.at(-1)?.sequence ?? sequence`
unfoldable pub last_sequence : ℕ → List StoredOutput → ℕ
last_sequence n [] = n
last_sequence n (o ∷ os) = last_sequence o.sequence os

abbrev pub is_inhabited {ℓ} : {A : Type ℓ} → List A → Bool
is_inhabited [] = Bool.false
is_inhabited (x ∷ xs) = Bool.true

unfoldable pub last_aggregate_id : String → List AggregateCheckpoint → String
last_aggregate_id id [] = id
last_aggregate_id id (a ∷ as') = last_aggregate_id a.core.aggregate_id as'

unfoldable pub insert_aggregate :
    AggregateCheckpoint → List AggregateCheckpoint → List AggregateCheckpoint
unfolding key_lt
insert_aggregate a [] = a ∷ []
insert_aggregate a (b ∷ bs) =
    let rest = insert_aggregate a bs in
    if key_lt b.core.aggregate_id a.core.aggregate_id then b ∷ rest else a ∷ b ∷ bs

-- The aggregates after an ID, sorted by their IDs, which are distinct in the source's Map.
unfoldable pub aggregates_after :
    String → List (String × AggregateCheckpoint) → List AggregateCheckpoint
unfolding insert_aggregate key_lt
aggregates_after id [] = []
aggregates_after id ((k, a) ∷ es) =
    let rest = aggregates_after id es in
    if key_lt id a.core.aggregate_id then insert_aggregate a rest else rest

abbrev pub assert_limit : ℕ → String → Result (Unit {0})
assert_limit limit message = guard (leb 1 limit && leb limit 10000) message

unfoldable pub run_output_ids : String → List StoredOutput → List String
run_output_ids run [] = []
run_output_ids run (o ∷ os) =
    let rest = run_output_ids run os in
    if str_eq o.output.run_id run then o.output.output_id ∷ rest else rest

-- How many of the IDs are of outputs of a run.
unfoldable pub count_for_run : List String → List String → ℕ
unfolding has
count_for_run known [] = 0
count_for_run known (id ∷ ids) =
    let rest = count_for_run known ids in if has id known then suc rest else rest

pub record DispatchableCounts : Type 0 where
  pub jobs : ℕ
  pub outbox : ℕ

-- dispatchableCounts
unfoldable pub dispatchable_counts : MemoryStore → String → DispatchableCounts
unfolding run_output_ids count_for_run
dispatchable_counts s run =
    let known = run_output_ids run s.outputs in
    record {
      jobs = count_for_run known s.dispatchable_jobs;
      outbox = count_for_run known s.dispatchable_outbox;
    }

module _ (p : Platform) where
  unfoldable pub load_stored_cursor : Option RunCursor → Result (Option RunCursor)
  unfolding validate_run_cursor compute_run_cursor_hash
  load_stored_cursor none = ok none
  load_stored_cursor (some c) = do
    validate_run_cursor p c
    hash ← compute_run_cursor_hash p c.core
    guard (str_eq c.cursor_hash hash) "Run cursor hash mismatch on audit read"
    ok (some c)

  -- loadCursor
  unfoldable pub load_cursor : MemoryStore → String → Result (Option RunCursor)
  unfolding lookup load_stored_cursor
  load_cursor s run = load_stored_cursor (lookup run s.cursors)

  -- #verifyAggregate
  unfoldable pub verify_stored_aggregate : MemoryStore → AggregateCheckpoint → Result (Unit {0})
  unfolding lookup
  verify_stored_aggregate s a = do
    validate_committed_checkpoint p a
    r ← require (lookup a.core.run_id s.runs) "Run is not registered"
    state_hash ←
        compute_state_hash p r.manifest.behavior.reducer_name r.manifest.behavior.reducer_version
          a.core.state
    guard (str_eq a.core.state_hash state_hash) "Aggregate state hash mismatch"
    hash ← compute_aggregate_checkpoint_hash p a.core
    guard (str_eq a.checkpoint_hash hash) "Aggregate checkpoint hash mismatch"

  unfoldable pub load_stored_aggregate :
      MemoryStore → Option AggregateCheckpoint → Result (Option AggregateCheckpoint)
  unfolding verify_stored_aggregate
  load_stored_aggregate s none = ok none
  load_stored_aggregate s (some a) = do
    validate_committed_checkpoint p a
    verify_stored_aggregate s a
    ok (some a)

  -- loadAggregate
  unfoldable pub load_aggregate :
      MemoryStore → String → String → Result (Option AggregateCheckpoint)
  unfolding load_stored_aggregate lookup
  load_aggregate s run id = do
    validate_aggregate_id p id
    load_stored_aggregate s (find_aggregate s run id)

  unfoldable pub audit_output : StoredOutput → Result (Unit {0})
  audit_output o = do
    validate_stored_output p o
    hash ← compute_body_hash p o.output.body
    guard (str_eq o.output.body_hash hash) "Output body hash mismatch on audit read"

  unfoldable pub audit_outputs : List StoredOutput → Result (Unit {0})
  unfolding audit_output
  audit_outputs [] = ok tt
  audit_outputs (o ∷ os) = audit_output o >> audit_outputs os

  -- readOutputsAfter
  unfoldable pub read_outputs_after : MemoryStore → String → ℕ → ℕ → Result OutputPage
  unfolding outputs_after audit_outputs last_sequence
  read_outputs_after s run sequence limit = do
    assert_limit limit "Output page limit is invalid"
    let selected = take limit (outputs_after run sequence s.outputs)
    audit_outputs selected
    let next = last_sequence sequence selected
    ok (record {
      outputs = selected;
      next_sequence = next;
      has_more = is_inhabited (outputs_after run next s.outputs);
    })

  unfoldable pub audit_aggregates : MemoryStore → List AggregateCheckpoint → Result (Unit {0})
  unfolding verify_stored_aggregate
  audit_aggregates s [] = ok tt
  audit_aggregates s (a ∷ as') = verify_stored_aggregate s a >> audit_aggregates s as'

  -- readAggregatesAfter
  unfoldable pub read_aggregates_after : MemoryStore → String → String → ℕ → Result AggregatePage
  unfolding aggregates_after audit_aggregates last_aggregate_id lookup
  read_aggregates_after s run id limit = do
    assert_limit limit "Aggregate page limit is invalid"
    if is_empty id then ok tt else validate_aggregate_id p id
    let values = aggregates_after id (list_or_empty (lookup run s.aggregates))
    let selected = take limit values
    audit_aggregates s selected
    ok (record {
      aggregates = selected;
      next_aggregate_id = last_aggregate_id id selected;
      has_more = ltb (length selected) (length values);
    })
