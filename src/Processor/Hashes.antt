-- ===== src/Processor/Hashes.antt =====
-- core/processor.ts: the JSON of its records, their hashes and the identities it derives.
use peas_engine.Prelude.{ℕ, String, List, [], ◌∷◌, Result, ok, ◌>>=◌, str_append}
use peas_engine.Json.{
  Json, Fields, Items, bool, str, arr, obj, nat, nil, cons, end, field, nullable,
}
use peas_engine.Digest.{Platform, Part, canonical_hash, hash_parts}
use peas_engine.Events.Digests.{decimal_text, stored_json, epoch_json}
use peas_engine.Events.Log.{genesis_hash}
use peas_engine.Processor.{
  RunKind, live, replay, shadow, research, paper, RunIdentities, RunBehavior, RunManifest,
  RunRegistration, OutputCategory, decision_category, job_category, outbox_category, OutputBody,
  decision, job, outbox_message, category_of, ImmutableOutput, StoredOutput, CursorCore, RunCursor,
  CheckpointCore, AggregateCheckpoint, ProcessingCommit,
}

abbrev pub kind_text : RunKind → String
kind_text live = "live"
kind_text replay = "replay"
kind_text shadow = "shadow"
kind_text research = "research"
kind_text paper = "paper"

abbrev pub category_text : OutputCategory → String
category_text decision_category = "decision"
category_text job_category = "job"
category_text outbox_category = "outbox"

unfoldable pub identities_json : RunIdentities → Json
identities_json i = obj (
    field "extractorVersion" (str i.extractor_version) (
      field "featureSetId" (nullable i.feature_set_id) (
        field "modelId" (nullable i.model_id) (
          field "promptId" (nullable i.prompt_id)
            (field "datasetId" (nullable i.dataset_id) end)))))

unfoldable pub behavior_json : RunBehavior → Json
unfolding identities_json
behavior_json b = obj (
    field "reducerName" (str b.reducer_name) (
      field "reducerVersion" (str b.reducer_version) (
        field "buildDigest" (str b.build_digest) (
          field "schemaRegistryDigest" (str b.schema_registry_digest) (
            field "configuration" (obj b.configuration)
              (field "identities" (identities_json b.identities) end))))))

unfoldable pub manifest_json : RunManifest → Json
unfolding behavior_json
manifest_json m = obj (
    field "manifestVersion" (nat 2) (
      field "runId" (str m.run_id) (
        field "kind" (str (kind_text m.kind)) (
          field "effectsAllowed" (bool m.effects_allowed) (
            field "canonicalizationVersion" (str "peas-json-v1")
              (field "behavior" (behavior_json m.behavior) end))))))

unfoldable pub registration_json : RunRegistration → Json
unfolding manifest_json
registration_json r = obj (
    field "manifest" (manifest_json r.manifest)
      (field "manifestHash" (str r.manifest_hash) (field "behaviorHash" (str r.behavior_hash) end)))

unfoldable pub body_json : OutputBody → Json
body_json (decision d) =
    obj (field "type" (str d.decision_type) (field "payload" (obj d.payload) end))
body_json (job j) = obj (
    field "jobId" (str j.job_id) (
      field "type" (str j.job_type) (
        field "dedupeKey" (str j.dedupe_key) (
          field "notBeforeLogicalMs" (nat j.not_before_logical_ms) (
            field "inputBundleHash" (str j.input_bundle_hash)
              (field "payload" (obj j.payload) end))))))
body_json (outbox_message m) = obj (
    field "messageId" (str m.message_id) (
      field "topic" (str m.topic)
        (field "dedupeKey" (str m.dedupe_key) (field "payload" (obj m.payload) end))))

module _ (p : Platform) where
  unfoldable pub output_fields : ImmutableOutput → Fields → Fields
  unfolding body_json
  output_fields o fs = field "outputId" (str o.output_id) (
      field "runId" (str o.run_id) (
        field "inputEventId" (str o.input_event_id) (
          field "inputPosition" (str (decimal_text p o.input_position)) (
            field "aggregateId" (str o.aggregate_id) (
              field "category" (str (category_text (category_of o.body))) (
                field "ordinal" (nat o.ordinal) (
                  field "dedupeKey" (nullable o.dedupe_key) (
                    field "notBeforeLogicalMs" (epoch_json o.not_before_logical_ms) (
                      field "body" (body_json o.body)
                        (field "bodyHash" (str o.body_hash) fs))))))))))

  unfoldable pub output_json : ImmutableOutput → Json
  unfolding output_fields
  output_json o = obj (output_fields o end)

  unfoldable pub stored_output_json : StoredOutput → Json
  unfolding output_fields
  stored_output_json o =
      obj (output_fields o.output (field "sequence" (str (decimal_text p o.sequence)) end))

  unfoldable pub cursor_fields : CursorCore → Fields → Fields
  cursor_fields c fs = field "runId" (str c.run_id) (
      field "manifestHash" (str c.manifest_hash) (
        field "behaviorHash" (str c.behavior_hash) (
          field "processedPosition" (str (decimal_text p c.processed_position)) (
            field "logicalAtMs" (nat c.logical_at_ms) (
              field "lastEventHash" (str c.last_event_hash) (
                field "stateHead" (str c.state_head)
                  (field "decisionHead" (str c.decision_head) fs)))))))

  unfoldable pub cursor_json : RunCursor → Json
  unfolding cursor_fields
  cursor_json c = obj (cursor_fields c.core (field "cursorHash" (str c.cursor_hash) end))

  unfoldable pub checkpoint_json : AggregateCheckpoint → Json
  checkpoint_json a = obj (
      field "runId" (str a.core.run_id) (
        field "aggregateId" (str a.core.aggregate_id) (
          field "version" (str (decimal_text p a.core.version)) (
            field "lastInputPosition" (str (decimal_text p a.core.last_input_position)) (
              field "state" (obj a.core.state) (
                field "stateHash" (str a.core.state_hash)
                  (field "checkpointHash" (str a.checkpoint_hash) end)))))))

  unfoldable pub output_items : List ImmutableOutput → Items
  unfolding output_json
  output_items [] = nil
  output_items (o ∷ os) = cons (output_json o) (output_items os)

  unfoldable pub commit_json : ProcessingCommit → Json
  unfolding cursor_json checkpoint_json output_items stored_json
  commit_json v = obj (
      field "expectedPosition" (str (decimal_text p v.expected_position)) (
        field "event" (stored_json p v.event) (
          field "cursor" (cursor_json v.cursor) (
            field "aggregate" (checkpoint_json v.aggregate)
              (field "outputs" (arr (output_items v.outputs)) end)))))

  -- `semanticOutputs`
  unfoldable pub semantic_outputs : List ImmutableOutput → Items
  unfolding body_json
  semantic_outputs [] = nil
  semantic_outputs (o ∷ os) =
      cons
        (obj (
          field "category" (str (category_text (category_of o.body))) (
            field "ordinal" (nat o.ordinal)
              (field "body" (body_json o.body) (field "bodyHash" (str o.body_hash) end)))))
        (semantic_outputs os)

  -- computeOutputDedupeIdentity
  unfoldable pub compute_output_dedupe_identity : String → OutputCategory → String → Result String
  compute_output_dedupe_identity run category key =
      canonical_hash p "peas/output-dedupe-identity/v2" (
        obj (
          field "runId" (str run)
            (field "category" (str (category_text category)) (field "dedupeKey" (str key) end))))

  abbrev derive_id : String → String → String → String → Fields → Result String
  derive_id domain payload_domain run key payload =
      canonical_hash p payload_domain (obj payload) >>= λ hash. canonical_hash p domain (
        obj (
          field "runId" (str run)
            (field "dedupeKey" (str key) (field "payloadHash" (str hash) end))))

  -- deriveJobId
  unfoldable pub derive_job_id : String → String → Fields → Result String
  derive_job_id run key payload = derive_id "peas/job-id/v2" "peas/job-payload/v2" run key payload

  -- deriveMessageId
  unfoldable pub derive_message_id : String → String → Fields → Result String
  derive_message_id run key payload =
      derive_id "peas/message-id/v2" "peas/outbox-payload/v2" run key payload

  -- computeRunCursorHash
  unfoldable pub compute_run_cursor_hash : CursorCore → Result String
  unfolding cursor_fields
  compute_run_cursor_hash c = canonical_hash p "peas/run-cursor/v2" (obj (cursor_fields c end))

  -- computeAggregateCheckpointHash
  unfoldable pub compute_aggregate_checkpoint_hash : CheckpointCore → Result String
  compute_aggregate_checkpoint_hash c = canonical_hash p "peas/aggregate-checkpoint/v2" (
      obj (
        field "runId" (str c.run_id) (
          field "aggregateId" (str c.aggregate_id) (
            field "version" (str (decimal_text p c.version)) (
              field "lastInputPosition" (str (decimal_text p c.last_input_position))
                (field "stateHash" (str c.state_hash) end))))))

  -- The hash of a state under the domain of its reducer.
  unfoldable pub compute_state_hash : String → String → Fields → Result String
  compute_state_hash name version state =
      canonical_hash p (str_append "peas/state/" (str_append name (str_append "/" version)))
        (obj state)

  -- The hash of an output's body under the domain of its category.
  unfoldable pub compute_body_hash : OutputBody → Result String
  unfolding body_json
  compute_body_hash body =
      canonical_hash p
        (str_append "peas/output-body/" (str_append (category_text (category_of body)) "/v2"))
        (body_json body)

  -- The output ID that `#materialize` and verifyProcessingCommit compute.
  unfoldable pub compute_output_id :
      String → String → String → String → OutputCategory → ℕ → String → Result String
  compute_output_id run manifest_hash event_hash aggregate category ordinal body_hash =
      canonical_hash p "peas/output-id/v2" (
        obj (
          field "runId" (str run) (
            field "manifestHash" (str manifest_hash) (
              field "inputEventHash" (str event_hash) (
                field "aggregateId" (str aggregate) (
                  field "category" (str (category_text category))
                    (field "ordinal" (nat ordinal) (field "bodyHash" (str body_hash) end))))))))

  -- The state head after a step.
  unfoldable pub step_state_head : String → String → String → String → String
  step_state_head head event_hash aggregate state_hash = hash_parts p "peas/state-head/step/v2" (
      Part.string head
      ∷ Part.string event_hash
      ∷ Part.string aggregate
      ∷ Part.string state_hash
      ∷ [])

  -- The cursor before the first event, less its hash.
  unfoldable pub genesis_core : RunRegistration → CursorCore
  genesis_core r = record {
    run_id = r.manifest.run_id;
    manifest_hash = r.manifest_hash;
    behavior_hash = r.behavior_hash;
    processed_position = 0;
    logical_at_ms = 0;
    last_event_hash = genesis_hash;
    state_head = hash_parts p "peas/state-head/genesis/v2" (Part.string r.behavior_hash ∷ []);
    decision_head = hash_parts p "peas/decision-head/genesis/v2" (Part.string r.behavior_hash ∷ []);
  }

  -- createGenesisRunCursor
  unfoldable pub create_genesis_run_cursor : RunRegistration → Result RunCursor
  unfolding genesis_core compute_run_cursor_hash
  create_genesis_run_cursor r = do
    hash ← compute_run_cursor_hash (genesis_core r)
    ok (record { core = genesis_core r; cursor_hash = hash })
