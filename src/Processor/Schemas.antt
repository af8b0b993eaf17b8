-- ===== src/Processor/Schemas.antt =====
-- core/processor.ts: the tests of its schemas, and its limits on JSON values.
use peas_engine.Prelude.{
  ℕ, String, Bool, true, ◌&&◌, ◌||◌, List, [], ◌∷◌, Option, none, some, leb, ◌==◌, is_hash, codes,
  all_codes, length,
}
use peas_engine.Json.{max_safe}
use peas_engine.Json.Limits.{JsonLimits}
use peas_engine.Events.{is_identifier, is_optional_identifier}
use peas_engine.Processor.{
  RunIdentities, RunBehavior, RunManifest, DecisionDraft, JobDraft, OutboxDraft, OutputBody,
  decision, job, outbox_message, ImmutableOutput, StoredOutput, RunCursor, AggregateCheckpoint,
  ProcessingCommit,
}

-- RUN_CONFIGURATION_LIMITS
abbrev pub run_configuration_limits : JsonLimits
run_configuration_limits = record {
  max_depth = 32;
  max_nodes = 50000;
  max_array_length = 10000;
  max_object_keys = 10000;
  max_string_bytes = 1048576;
  max_canonical_bytes = 1048576;
}

-- RUN_MANIFEST_LIMITS
abbrev pub run_manifest_limits : JsonLimits
run_manifest_limits = record {
  max_depth = 34;
  max_nodes = 50064;
  max_array_length = 10000;
  max_object_keys = 10000;
  max_string_bytes = 1048576;
  max_canonical_bytes = 1064960;
}

-- RUN_REGISTRATION_LIMITS
abbrev pub run_registration_limits : JsonLimits
run_registration_limits = record {
  max_depth = 35;
  max_nodes = 50072;
  max_array_length = 10000;
  max_object_keys = 10000;
  max_string_bytes = 1048576;
  max_canonical_bytes = 1065984;
}

-- PERSISTED_PROCESSING_JSON_LIMITS
abbrev pub persisted_limits : JsonLimits
persisted_limits = record {
  max_depth = 64;
  max_nodes = 500000;
  max_array_length = 100000;
  max_object_keys = 100000;
  max_string_bytes = 4194304;
  max_canonical_bytes = 16777216;
}

-- PERSISTED_PROCESSING_COMMIT_LIMITS
abbrev pub commit_limits : JsonLimits
commit_limits = record {
  max_depth = 67;
  max_nodes = 1000000;
  max_array_length = 100000;
  max_object_keys = 100000;
  max_string_bytes = 4194304;
  max_canonical_bytes = 67108864;
}

-- runIdentitiesSchema
unfoldable pub is_run_identities : RunIdentities → Bool
is_run_identities i =
    is_identifier i.extractor_version
    && is_optional_identifier i.feature_set_id
    && is_optional_identifier i.model_id
    && is_optional_identifier i.prompt_id
    && is_optional_identifier i.dataset_id

-- runBehaviorSchema
unfoldable pub is_run_behavior : RunBehavior → Bool
unfolding is_run_identities
is_run_behavior b =
    is_identifier b.reducer_name
    && is_identifier b.reducer_version
    && is_hash b.build_digest
    && is_hash b.schema_registry_digest
    && is_run_identities b.identities

-- runManifestV2Schema
unfoldable pub is_run_manifest : RunManifest → Bool
unfolding is_run_behavior
is_run_manifest m = is_identifier m.run_id && is_run_behavior m.behavior

-- `[A-Za-z0-9._:-]`
abbrev is_portable : ℕ → Bool
is_portable c =
    (leb b'A' c && leb c b'Z')
    || (leb b'a' c && leb c b'z')
    || (leb b'0' c && leb c b'9')
    || c == b'.'
    || c == b'_'
    || c == b':'
    || c == b'-'

-- aggregateIdSchema
unfoldable pub is_aggregate_id : String → Bool
is_aggregate_id s = is_identifier s && all_codes is_portable (codes s)

-- decisionBodySchema
unfoldable pub is_decision_body : DecisionDraft → Bool
is_decision_body d = is_identifier d.decision_type

-- jobBodySchema
unfoldable pub is_job_body : JobDraft → Bool
is_job_body j =
    is_hash j.job_id
    && is_identifier j.job_type
    && is_identifier j.dedupe_key
    && leb j.not_before_logical_ms max_safe
    && is_hash j.input_bundle_hash

-- outboxBodySchema
unfoldable pub is_outbox_body : OutboxDraft → Bool
is_outbox_body m = is_hash m.message_id && is_identifier m.topic && is_identifier m.dedupe_key

abbrev is_null {ℓ} : {A : Type ℓ} → Option A → Bool
is_null none = true
is_null (some a) = Bool.false

abbrev is_key : Option String → Bool
is_key none = Bool.false
is_key (some k) = is_identifier k

abbrev is_time : Option ℕ → Bool
is_time none = Bool.false
is_time (some n) = leb n max_safe

-- What a category asks of the keys and the body, in the three schemas of an output.
abbrev is_delivery : OutputBody → Option String → Option ℕ → Bool
is_delivery (decision d) key time = is_null key && is_null time && is_decision_body d
is_delivery (job j) key time = is_key key && is_time time && is_job_body j
is_delivery (outbox_message m) key time = is_key key && is_null time && is_outbox_body m

-- immutableOutputSchema
unfoldable pub is_immutable_output : ImmutableOutput → Bool
unfolding is_aggregate_id is_decision_body is_job_body is_outbox_body
is_immutable_output o =
    is_hash o.output_id
    && is_identifier o.run_id
    && is_hash o.input_event_id
    && leb 1 o.input_position
    && is_aggregate_id o.aggregate_id
    && leb o.ordinal max_safe
    && is_hash o.body_hash
    && is_delivery o.body o.dedupe_key o.not_before_logical_ms

-- storedOutputSchema
unfoldable pub is_stored_output : StoredOutput → Bool
unfolding is_immutable_output
is_stored_output o = is_immutable_output o.output && leb 1 o.sequence

-- runCursorSchema
unfoldable pub is_run_cursor : RunCursor → Bool
is_run_cursor c =
    is_identifier c.core.run_id
    && is_hash c.core.manifest_hash
    && is_hash c.core.behavior_hash
    && leb c.core.logical_at_ms max_safe
    && is_hash c.core.last_event_hash
    && is_hash c.core.state_head
    && is_hash c.core.decision_head
    && is_hash c.cursor_hash

-- aggregateCheckpointSchema: the version is 0 just when the last input is.
unfoldable pub is_aggregate_checkpoint : AggregateCheckpoint → Bool
unfolding is_aggregate_id
is_aggregate_checkpoint a =
    is_identifier a.core.run_id
    && is_aggregate_id a.core.aggregate_id
    && is_hash a.core.state_hash
    && is_hash a.checkpoint_hash
    && ((a.core.version == 0 && a.core.last_input_position == 0)
        || (leb 1 a.core.version && leb 1 a.core.last_input_position))

-- committedAggregateCheckpointSchema
unfoldable pub is_committed_checkpoint : AggregateCheckpoint → Bool
unfolding is_aggregate_checkpoint
is_committed_checkpoint a =
    is_aggregate_checkpoint a && leb 1 a.core.version && leb 1 a.core.last_input_position

abbrev all_outputs : List ImmutableOutput → Bool
all_outputs [] = true
all_outputs (o ∷ os) = is_immutable_output o && all_outputs os

-- processingCommitSchema
unfoldable pub is_processing_commit : ProcessingCommit → Bool
unfolding is_run_cursor is_committed_checkpoint is_immutable_output
is_processing_commit v =
    is_run_cursor v.cursor
    && is_committed_checkpoint v.aggregate
    && leb (length v.outputs) 100000
    && all_outputs v.outputs
