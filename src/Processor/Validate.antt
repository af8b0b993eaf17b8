-- ===== src/Processor/Validate.antt =====
-- core/processor.ts: the validations and the verification of a commit.
use peas_engine.Prelude.{
  ℕ, String, Bool, true, false, not, ◌&&◌, ◌||◌, List, [], ◌∷◌, Option, none, some, Result, ok,
  ◌>>=◌, ◌>>◌, guard, fail_if, ◌==◌, str_eq, is_hash,
}
use peas_engine.Json.{Json, obj, canonical_json}
use peas_engine.Json.Limits.{JsonLimits, assert_json_within_limits}
use peas_engine.Digest.{Platform, canonical_hash}
use peas_engine.Events.{is_identifier}
use peas_engine.Events.Digests.{validate_stored_event}
use peas_engine.Processor.{
  RunKind, live, replay, shadow, research, paper, RunManifest, RunRegistration, OutputCategory,
  decision_category, job_category, outbox_category, OutputBody, decision, job, outbox_message,
  ImmutableOutput, StoredOutput, RunCursor, AggregateCheckpoint, ProcessingCommit,
}
use peas_engine.Processor.Schemas.{
  run_configuration_limits, run_manifest_limits, run_registration_limits, persisted_limits,
  commit_limits, is_run_manifest, is_decision_body, is_job_body, is_outbox_body,
  is_immutable_output, is_stored_output, is_run_cursor, is_aggregate_checkpoint,
  is_committed_checkpoint, is_processing_commit, is_aggregate_id,
}
use peas_engine.Processor.Hashes.{
  manifest_json, behavior_json, registration_json, body_json, output_json, stored_output_json,
  cursor_json, checkpoint_json, commit_json, derive_job_id, derive_message_id,
}

-- `left !== right` against an optional text.
abbrev pub is_text : Option String → String → Bool
is_text none s = false
is_text (some t) s = str_eq t s

abbrev pub is_number : Option ℕ → ℕ → Bool
is_number none n = false
is_number (some m) n = m == n

abbrev pub is_absent {ℓ} : {A : Type ℓ} → Option A → Bool
is_absent none = true
is_absent (some a) = false

-- `set.has(value)`
unfoldable pub has : String → List String → Bool
has s [] = false
has s (t ∷ ts) = str_eq s t || has s ts

abbrev pub is_live : RunKind → Bool
is_live live = true
is_live replay = false
is_live shadow = false
is_live research = false
is_live paper = false

-- assertRunEffectPolicy
unfoldable pub assert_run_effect_policy : RunManifest → Result (Unit {0})
assert_run_effect_policy m =
    fail_if (m.effects_allowed && not (is_live m.kind)) "cannot dispatch external effects"

-- categoryRanks
abbrev pub category_rank : OutputCategory → ℕ
category_rank decision_category = 0
category_rank job_category = 1
category_rank outbox_category = 2

module _ (p : Platform) where
  -- assertJsonWithinLimits, for what it throws.
  abbrev pub within : JsonLimits → Json → Result (Unit {0})
  within limits json = assert_json_within_limits p.stringify p.utf8 json limits >>= λ _. ok tt

  -- validateRunManifest
  unfoldable pub validate_run_manifest : RunManifest → Result (Unit {0})
  unfolding manifest_json is_run_manifest
  validate_run_manifest m = do
    within run_manifest_limits (manifest_json m)
    within run_configuration_limits (obj m.behavior.configuration)
    guard (is_run_manifest m) "the manifest is not of the schema"
    within run_configuration_limits (obj m.behavior.configuration)
    text ← canonical_json p.stringify (manifest_json m)
    ok tt

  -- deriveRunRegistration
  unfoldable pub derive_run_registration : RunManifest → Result RunRegistration
  unfolding validate_run_manifest assert_run_effect_policy
  derive_run_registration m = do
    validate_run_manifest m
    assert_run_effect_policy m
    manifest_hash ← canonical_hash p "peas/run-manifest/v2" (manifest_json m)
    behavior_hash ← canonical_hash p "peas/run-behavior/v2" (behavior_json m.behavior)
    ok (record { manifest = m; manifest_hash = manifest_hash; behavior_hash = behavior_hash })

  -- validateRunRegistration
  unfoldable pub validate_run_registration : RunRegistration → Result RunRegistration
  unfolding derive_run_registration
  validate_run_registration r = do
    within run_registration_limits (registration_json r)
    guard (is_hash r.manifest_hash && is_hash r.behavior_hash) "not of the schema"
    derived ← derive_run_registration r.manifest
    guard (str_eq r.manifest_hash derived.manifest_hash) "Run manifest hash mismatch"
    guard (str_eq r.behavior_hash derived.behavior_hash) "Run behavior hash mismatch"
    ok derived

  -- validateRunCursor
  unfoldable pub validate_run_cursor : RunCursor → Result (Unit {0})
  unfolding cursor_json is_run_cursor
  validate_run_cursor c = do
    within persisted_limits (cursor_json p c)
    guard (is_run_cursor c) "the cursor is not of the schema"

  -- validateAggregateId
  unfoldable pub validate_aggregate_id : String → Result (Unit {0})
  unfolding is_aggregate_id
  validate_aggregate_id s = guard (is_aggregate_id s) "Aggregate ID must be portable"

  -- validateAggregateCheckpoint
  unfoldable pub validate_aggregate_checkpoint : AggregateCheckpoint → Result (Unit {0})
  unfolding checkpoint_json is_aggregate_checkpoint
  validate_aggregate_checkpoint a = do
    within persisted_limits (checkpoint_json p a)
    guard (is_aggregate_checkpoint a) "the checkpoint is not of the schema"

  -- validateCommittedAggregateCheckpoint
  unfoldable pub validate_committed_checkpoint : AggregateCheckpoint → Result (Unit {0})
  unfolding checkpoint_json is_committed_checkpoint
  validate_committed_checkpoint a = do
    within persisted_limits (checkpoint_json p a)
    guard (is_committed_checkpoint a) "the checkpoint is not of the schema"

  -- validateStoredOutputBody after the tests that its categories share.
  unfoldable pub validate_delivery :
      OutputBody → String → Option String → Option ℕ → Result (Unit {0})
  unfolding is_decision_body is_job_body is_outbox_body derive_job_id derive_message_id
  validate_delivery (decision d) run key time = do
    guard (is_absent key && is_absent time) "Decision output has operational delivery metadata"
    guard (is_decision_body d) "the body is not of the schema"
  validate_delivery (job j) run key time = do
    fail_if (is_absent key || is_absent time) "Job output requires dedupe and scheduling metadata"
    guard (is_job_body j) "the body is not of the schema"
    guard (is_text key j.dedupe_key) "Output dedupe metadata mismatch"
    guard (is_number time j.not_before_logical_ms) "Job not-before metadata mismatch"
    id ← derive_job_id p run j.dedupe_key j.payload
    guard (str_eq j.job_id id) "Job ID integrity mismatch"
  validate_delivery (outbox_message m) run key time = do
    fail_if (is_absent key || not (is_absent time)) "Outbox output delivery metadata mismatch"
    guard (is_outbox_body m) "the body is not of the schema"
    guard (is_text key m.dedupe_key) "Output dedupe metadata mismatch"
    id ← derive_message_id p run m.dedupe_key m.payload
    guard (str_eq m.message_id id) "Message ID integrity mismatch"

  -- validateStoredOutputBody
  unfoldable pub validate_stored_output_body :
      OutputBody → String → Option String → Option ℕ → Result (Unit {0})
  unfolding validate_delivery
  validate_stored_output_body body run key time = do
    within persisted_limits (body_json body)
    guard (is_identifier run) "the run is not of the schema"
    validate_delivery body run key time

  -- validateImmutableOutput
  unfoldable pub validate_immutable_output : ImmutableOutput → Result (Unit {0})
  unfolding output_json validate_stored_output_body is_immutable_output
  validate_immutable_output o = do
    within persisted_limits (output_json p o)
    guard (is_immutable_output o) "the output is not of the schema"
    validate_stored_output_body o.body o.run_id o.dedupe_key o.not_before_logical_ms

  -- validateStoredOutput
  unfoldable pub validate_stored_output : StoredOutput → Result (Unit {0})
  unfolding stored_output_json validate_stored_output_body is_stored_output
  validate_stored_output o = do
    within persisted_limits (stored_output_json p o)
    guard (is_stored_output o) "the output is not of the schema"
    validate_stored_output_body o.output.body o.output.run_id o.output.dedupe_key
        o.output.not_before_logical_ms

  unfoldable pub validate_outputs : List ImmutableOutput → Result (Unit {0})
  unfolding validate_immutable_output
  validate_outputs [] = ok tt
  validate_outputs (o ∷ os) = validate_immutable_output o >> validate_outputs os

  -- validateProcessingCommit
  unfoldable pub validate_processing_commit : ProcessingCommit → Result (Unit {0})
  unfolding commit_json is_processing_commit validate_outputs validate_stored_event
  validate_processing_commit v = do
    within commit_limits (commit_json p v)
    guard (is_processing_commit v) "the commit is not of the schema"
    event ← validate_stored_event p v.event
    validate_run_cursor v.cursor
    validate_aggregate_checkpoint v.aggregate
    validate_outputs v.outputs
