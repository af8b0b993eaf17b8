-- ===== src/Processor/Materialize.antt =====
-- core/processor.ts: `outputBody` and `#materialize` of DeterministicProcessor.
pub mod Outputs
use peas_engine.Prelude.{
  ℕ, suc, String, List, [], ◌∷◌, ◌++◌, Option, none, some, Result, ok, ◌>>=◌, ◌>>◌, guard, fail_if,
  leb, str_eq, is_hash, is_empty, map,
}
use peas_engine.Json.{obj, max_safe, canonical_json}
use peas_engine.Digest.{Platform}
use peas_engine.Events.{StoredEvent}
use peas_engine.Processor.{
  RunRegistration, Transition, OutputBody, decision, job, outbox_message, category_of,
  ImmutableOutput,
}
use peas_engine.Processor.Schemas.{persisted_limits}
use peas_engine.Processor.Hashes.{
  body_json, derive_job_id, derive_message_id, compute_body_hash, compute_output_id,
  compute_output_dedupe_identity,
}
use peas_engine.Processor.Validate.{has, within}

abbrev pub dedupe_key_of : OutputBody → Option String
dedupe_key_of (decision d) = none
dedupe_key_of (job j) = some j.dedupe_key
dedupe_key_of (outbox_message m) = some m.dedupe_key

abbrev pub not_before_of : OutputBody → Option ℕ
not_before_of (decision d) = none
not_before_of (job j) = some j.not_before_logical_ms
not_before_of (outbox_message m) = none

module _ (p : Platform) where
  -- The tests of outputBody; the body that it returns is the draft's.
  unfoldable pub output_body : OutputBody → String → Result (Unit {0})
  output_body (decision d) run = do
    fail_if (is_empty d.decision_type) "Decision type cannot be empty"
    within p persisted_limits (obj d.payload)
  output_body (job j) run = do
    fail_if (is_empty j.job_type) "Job type cannot be empty"
    fail_if (is_empty j.dedupe_key) "Job dedupe key cannot be empty"
    guard (is_hash j.input_bundle_hash) "Job input bundle hash must be a SHA-256 hex digest"
    guard (leb j.not_before_logical_ms max_safe) "Job not-before time must be a safe integer"
    within p persisted_limits (obj j.payload)
    id ← derive_job_id p run j.dedupe_key j.payload
    guard (str_eq j.job_id id) "Invalid deterministic job ID"
  output_body (outbox_message m) run = do
    fail_if (is_empty m.topic) "Outbox topic cannot be empty"
    fail_if (is_empty m.dedupe_key) "Outbox dedupe key cannot be empty"
    within p persisted_limits (obj m.payload)
    id ← derive_message_id p run m.dedupe_key m.payload
    guard (str_eq m.message_id id) "Invalid deterministic message ID"

  -- The test of `dedupe` in `#materialize`, with the set after it.
  unfoldable pub add_dedupe :
      String → OutputBody → Option String → List String → Result (List String)
  unfolding has
  add_dedupe run body none dedupe = ok dedupe
  add_dedupe run body (some key) dedupe = do
    identity ← compute_output_dedupe_identity p run (category_of body) key
    fail_if (has identity dedupe) "Duplicate dedupe key in transition"
    ok (identity ∷ dedupe)

  -- The body of the inner loop: the output of a draft, with `dedupe` after it.
  unfoldable pub materialize_one :
      RunRegistration
      → StoredEvent
      → String
      → ℕ
      → OutputBody
      → List String
      → Result (ImmutableOutput × List String)
  unfolding output_body add_dedupe
  materialize_one r event aggregate ordinal body dedupe = do
    output_body body r.manifest.run_id
    within p persisted_limits (body_json body)
    text ← canonical_json p.stringify (body_json body)
    dedupe' ← add_dedupe r.manifest.run_id body (dedupe_key_of body) dedupe
    body_hash ← compute_body_hash p body
    id ←
        compute_output_id p r.manifest.run_id r.manifest_hash event.event_hash aggregate
          (category_of body) ordinal body_hash
    ok (
      record {
        output_id = id;
        run_id = r.manifest.run_id;
        input_event_id = event.captured.event_id;
        input_position = event.position;
        aggregate_id = aggregate;
        ordinal = ordinal;
        dedupe_key = dedupe_key_of body;
        not_before_logical_ms = not_before_of body;
        body = body;
        body_hash = body_hash;
      },
      dedupe',
    )

  -- The inner loop, from an ordinal on.
  unfoldable pub materialize_group :
      RunRegistration
      → StoredEvent
      → String
      → ℕ
      → List OutputBody
      → List String
      → Result (List ImmutableOutput × List String)
  unfolding materialize_one
  materialize_group r event aggregate ordinal [] dedupe = ok ([], dedupe)
  materialize_group r event aggregate ordinal (body ∷ bodies) dedupe =
      materialize_one r event aggregate ordinal body dedupe >>= λ (o, dedupe').
      materialize_group r event aggregate (suc ordinal) bodies dedupe' >>= λ (os, dedupe'').
      ok (o ∷ os, dedupe'')

  -- #materialize
  unfoldable pub materialize :
      RunRegistration → StoredEvent → String → Transition → Result (List ImmutableOutput)
  unfolding materialize_group
  materialize r event aggregate t =
      materialize_group r event aggregate 0 (map decision t.decisions) [] >>= λ (ds, dedupe).
      materialize_group r event aggregate 0 (map job t.jobs) dedupe >>= λ (js, dedupe').
      materialize_group r event aggregate 0 (map outbox_message t.outbox) dedupe' >>= λ (ms, _).
      ok (ds ++ (js ++ ms))
