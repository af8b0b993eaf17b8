-- ===== src/Processor/Verify/Facts.antt =====
-- What a commit that verifies says of its cursor.
use peas_engine.Prelude.{
  ◌+◌, ◌≤◌, ◌≡◌, sym, ap, ◌∙◌, true, ==_iff, str_eq, str_eq_iff, none, ok, guard, fail_if, ltb,
  ◌==◌, >>=-eq-ok, guard-eq-ok, fail_if-eq-ok, if◌then◌else◌, arith, not_ltb→le,
}
use peas_engine.Digest.{Platform}
use peas_engine.Events.Digests.{verify_stored_event}
use peas_engine.Processor.{RunRegistration, CursorCore, RunCursor, ProcessingCommit}
use peas_engine.Processor.Hashes.{compute_run_cursor_hash, step_state_head}
use peas_engine.Processor.Validate.{validate_run_cursor, validate_processing_commit}
use peas_engine.Processor.Verify.{
  is_of_run, is_at_event, verify_processing_commit, verify_genesis, step_decision_head,
  verify_processing_transition,
}

-- A validated commit has a validated cursor.
pub validate_processing_commit-cursor :
    (p : Platform) (v : ProcessingCommit)
    → validate_processing_commit p v ≡ ok tt
    → validate_run_cursor p v.cursor ≡ ok tt
unfolding validate_processing_commit
validate_processing_commit-cursor p v h = ground arith

-- A verified commit is for its run and its event, and its hash is that of its cursor.
pub record IsBound (p : Platform) (v : ProcessingCommit) (r : RunRegistration) : Type 0 where
  pub hashed : compute_run_cursor_hash p v.cursor.core ≡ ok v.cursor.cursor_hash
  pub of_run : v.cursor.core.run_id ≡ r.manifest.run_id
  pub at_position : v.cursor.core.processed_position ≡ v.event.position
  pub at_time : v.cursor.core.logical_at_ms ≡ v.event.captured.logical_at_ms
  pub at_hash : v.cursor.core.last_event_hash ≡ v.event.event_hash

is_at_event-position :
    (v : ProcessingCommit)
    → is_at_event v.cursor.core v.event ≡ true
    → (v.cursor.core.processed_position ≡ v.event.position)
      × (v.cursor.core.logical_at_ms ≡ v.event.captured.logical_at_ms)
      × (str_eq v.cursor.core.last_event_hash v.event.event_hash ≡ true)
unfolding is_at_event
is_at_event-position v h = ground arith

is_of_run-run :
    (c : CursorCore) (r : RunRegistration)
    → is_of_run c r ≡ true
    → str_eq c.run_id r.manifest.run_id ≡ true
unfolding is_of_run
is_of_run-run c r h = ground arith

pub verify_processing_commit-IsBound :
    (p : Platform) (v : ProcessingCommit) (r : RunRegistration)
    → verify_processing_commit p v r ≡ ok tt
    → IsBound p v r
unfolding verify_processing_commit
verify_processing_commit-IsBound p v r h =
    let (_, _, h₁) = >>=-eq-ok (validate_processing_commit p v) _ h in
    let (_, _, h₂) = >>=-eq-ok (verify_stored_event p v.event none) _ h₁ in
    let (hash, hashed, h₃) = >>=-eq-ok (compute_run_cursor_hash p v.cursor.core) _ h₂ in
    let (_, same, h₄) =
      >>=-eq-ok (guard (str_eq v.cursor.cursor_hash hash) "Run cursor hash mismatch in commit") _
        h₃ in
    let (_, run, h₅) =
      >>=-eq-ok
        (guard (is_of_run v.cursor.core r)
          "Commit cursor does not match its immutable run manifest")
        _ h₄ in
    let (_, event, h₆) =
      >>=-eq-ok
        (guard (is_at_event v.cursor.core v.event) "Commit cursor does not match its input event") _
        h₅ in
    let (position, time, last) = is_at_event-position v (guard-eq-ok _ _ event) in
    record {
      hashed =
          hashed
          ∙ ap (λ x. ok x) (sym ((str_eq_iff v.cursor.cursor_hash hash).0 (guard-eq-ok _ _ same)));
      of_run =
          (str_eq_iff v.cursor.core.run_id r.manifest.run_id).0
            (is_of_run-run v.cursor.core r (guard-eq-ok _ _ run));
      at_position = position;
      at_time = time;
      at_hash = (str_eq_iff v.cursor.core.last_event_hash v.event.event_hash).0 last;
    }

-- What a commit that verifies against the cursor before it is to that cursor.
pub record IsStep (p : Platform) (v : ProcessingCommit) (r : RunRegistration) (previous : RunCursor)
    : Type 0 where
  pub verified : verify_processing_commit p v r ≡ ok tt
  pub bound : IsBound p v r
  pub next : v.event.position ≡ previous.core.processed_position + 1
  pub chained : v.event.previous_event_hash ≡ previous.core.last_event_hash
  pub ordered : previous.core.logical_at_ms ≤ v.event.captured.logical_at_ms
  pub same_run : previous.core.run_id ≡ r.manifest.run_id
  pub state_head :
      v.cursor.core.state_head
      ≡ step_state_head p previous.core.state_head v.event.event_hash v.aggregate.core.aggregate_id
          v.aggregate.core.state_hash
  pub decision_head :
      step_decision_head p previous.core.decision_head v.event.event_hash v.outputs
      ≡ ok v.cursor.core.decision_head

pub verify_processing_transition-IsStep :
    (p : Platform) (v : ProcessingCommit) (r : RunRegistration) (previous : RunCursor)
    → verify_processing_transition p v r previous ≡ ok tt
    → IsStep p v r previous
unfolding verify_processing_transition
verify_processing_transition-IsStep p v r previous h =
    let (_, verified, h₁) = >>=-eq-ok (verify_processing_commit p v r) _ h in
    let (_, _, h₂) = >>=-eq-ok (validate_run_cursor p previous) _ h₁ in
    let (hash, _, h₃) = >>=-eq-ok (compute_run_cursor_hash p previous.core) _ h₂ in
    let (_, _, h₄) =
      >>=-eq-ok
        (guard (str_eq previous.cursor_hash hash) "Prior run cursor hash mismatch in commit") _
        h₃ in
    let (_, run, h₅) =
      >>=-eq-ok
        (guard (is_of_run previous.core r) "Prior cursor does not match its immutable run manifest")
        _ h₄ in
    let (_, _, h₆) =
      >>=-eq-ok
        (if previous.core.processed_position == 0 then verify_genesis p previous r else ok tt) _
        h₅ in
    let (_, _, h₇) =
      >>=-eq-ok
        (guard (v.expected_position == previous.core.processed_position)
          "Commit expected position does not match the prior cursor")
        _ h₆ in
    let (_, next, h₈) =
      >>=-eq-ok
        (guard (v.event.position == previous.core.processed_position + 1)
          "Non-contiguous processing position")
        _ h₇ in
    let (_, chained, h₉) =
      >>=-eq-ok
        (guard (str_eq v.event.previous_event_hash previous.core.last_event_hash)
          "Event chain mismatch")
        _ h₈ in
    let (_, ordered, ha) =
      >>=-eq-ok
        (fail_if (ltb v.event.captured.logical_at_ms previous.core.logical_at_ms)
          "Logical clock regression")
        _ h₉ in
    let head =
      step_state_head p previous.core.state_head v.event.event_hash v.aggregate.core.aggregate_id
        v.aggregate.core.state_hash in
    let (_, state, hb) =
      >>=-eq-ok
        (guard (str_eq v.cursor.core.state_head head)
          "Run state head is not derived from the prior cursor")
        _ ha in
    let (decision, decided, hc) =
      >>=-eq-ok (step_decision_head p previous.core.decision_head v.event.event_hash v.outputs) _
        hb in
    record {
      verified = verified;
      bound = verify_processing_commit-IsBound p v r verified;
      next =
          (==_iff v.event.position (previous.core.processed_position + 1)).0
            (guard-eq-ok (v.event.position == previous.core.processed_position + 1) _ next);
      chained =
          (str_eq_iff v.event.previous_event_hash previous.core.last_event_hash).0
            (guard-eq-ok _ _ chained);
      ordered =
          not_ltb→le v.event.captured.logical_at_ms previous.core.logical_at_ms
            (fail_if-eq-ok _ _ ordered);
      same_run =
          (str_eq_iff previous.core.run_id r.manifest.run_id).0
            (is_of_run-run previous.core r (guard-eq-ok _ _ run));
      state_head = (str_eq_iff v.cursor.core.state_head head).0 (guard-eq-ok _ _ state);
      decision_head =
          decided
          ∙ ap (λ x. ok x)
              (sym ((str_eq_iff v.cursor.core.decision_head decision).0 (guard-eq-ok _ _ hc)));
    }
