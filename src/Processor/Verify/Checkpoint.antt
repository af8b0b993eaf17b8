-- ===== src/Processor/Verify/Checkpoint.antt =====
-- What a commit that verifies says of its aggregate checkpoint.
use peas_engine.Prelude.{
  ◌≡◌, refl, sym, ap, ◌∙◌, Bool, true, ◌&&◌, none, ok, ◌>>=◌, leb, ◌==◌, str_eq, str_eq_iff, guard,
  guard-eq-ok, >>=-eq-ok, arith,
}
use peas_engine.Json.{obj}
use peas_engine.Digest.{Platform}
use peas_engine.Events.Digests.{validate_stored_event, verify_stored_event}
use peas_engine.Processor.{RunRegistration, AggregateCheckpoint, ProcessingCommit}
use peas_engine.Processor.Schemas.{
  commit_limits, persisted_limits, is_aggregate_id, is_aggregate_checkpoint,
  is_committed_checkpoint, is_processing_commit,
}
use peas_engine.Processor.Hashes.{
  commit_json, checkpoint_json, compute_run_cursor_hash, compute_aggregate_checkpoint_hash,
  compute_state_hash,
}
use peas_engine.Processor.Validate.{
  within, validate_run_cursor, validate_aggregate_id, validate_aggregate_checkpoint,
  validate_committed_checkpoint, validate_processing_commit,
}
use peas_engine.Processor.Verify.{is_of_run, is_at_event, verify_processing_commit}

-- Its hashes are those of its content, and it is of the commit's run.
pub record IsCheckpointed (p : Platform) (v : ProcessingCommit) (r : RunRegistration) : Type 0 where
  pub hashed : compute_aggregate_checkpoint_hash p v.aggregate.core ≡ ok v.aggregate.checkpoint_hash
  pub of_run : v.aggregate.core.run_id ≡ v.cursor.core.run_id
  pub state :
      compute_state_hash p r.manifest.behavior.reducer_name r.manifest.behavior.reducer_version
        v.aggregate.core.state
      ≡ ok v.aggregate.core.state_hash

both_true : (a b : Bool) → (a && b) ≡ true → a ≡ true
both_true true b h = refl
both_true Bool.false b h = cc

pub verify_processing_commit-IsCheckpointed :
    (p : Platform) (v : ProcessingCommit) (r : RunRegistration)
    → verify_processing_commit p v r ≡ ok tt
    → IsCheckpointed p v r
unfolding verify_processing_commit
verify_processing_commit-IsCheckpointed p v r h =
    let (_, _, h₁) = >>=-eq-ok (validate_processing_commit p v) _ h in
    let (_, _, h₂) = >>=-eq-ok (verify_stored_event p v.event none) _ h₁ in
    let (cursor_hash, _, h₃) = >>=-eq-ok (compute_run_cursor_hash p v.cursor.core) _ h₂ in
    let (_, _, h₄) =
      >>=-eq-ok
        (guard (str_eq v.cursor.cursor_hash cursor_hash) "Run cursor hash mismatch in commit") _
        h₃ in
    let (_, _, h₅) =
      >>=-eq-ok
        (guard (is_of_run v.cursor.core r)
          "Commit cursor does not match its immutable run manifest")
        _ h₄ in
    let (_, _, h₆) =
      >>=-eq-ok
        (guard (is_at_event v.cursor.core v.event) "Commit cursor does not match its input event") _
        h₅ in
    let (hash, hashed, h₇) =
      >>=-eq-ok (compute_aggregate_checkpoint_hash p v.aggregate.core) _ h₆ in
    let (_, same, h₈) =
      >>=-eq-ok
        (guard (str_eq v.aggregate.checkpoint_hash hash)
          "Aggregate checkpoint hash mismatch in commit")
        _ h₇ in
    let (_, run, h₉) =
      >>=-eq-ok
        (guard
          (str_eq v.aggregate.core.run_id v.cursor.core.run_id
            && v.aggregate.core.last_input_position == v.event.position)
          "Aggregate checkpoint does not match its input event or run")
        _ h₈ in
    let (_, _, ha) =
      >>=-eq-ok (guard (leb 1 v.aggregate.core.version) "Aggregate version must be positive") _
        h₉ in
    let (_, _, hb) = >>=-eq-ok (within p persisted_limits (obj v.aggregate.core.state)) _ ha in
    let (state_hash, stated, hc) =
      >>=-eq-ok
        (compute_state_hash p r.manifest.behavior.reducer_name r.manifest.behavior.reducer_version
          v.aggregate.core.state)
        _ hb in
    let (_, same', _) =
      >>=-eq-ok
        (guard (str_eq v.aggregate.core.state_hash state_hash)
          "Aggregate state hash mismatch in commit")
        _ hc in
    record {
      hashed =
          hashed
          ∙ ap (λ x. ok x)
              (sym ((str_eq_iff v.aggregate.checkpoint_hash hash).0 (guard-eq-ok _ _ same)));
      of_run =
          (str_eq_iff v.aggregate.core.run_id v.cursor.core.run_id).0
            (both_true _ _ (guard-eq-ok _ _ run));
      state =
          stated
          ∙ ap (λ x. ok x)
              (sym ((str_eq_iff v.aggregate.core.state_hash state_hash).0 (guard-eq-ok _ _ same')));
    }

-- The schema of a commit asks for a committed checkpoint.
committed-parts :
    (a : AggregateCheckpoint)
    → is_committed_checkpoint a ≡ true
    → is_aggregate_id a.core.aggregate_id ≡ true
unfolding is_committed_checkpoint is_aggregate_checkpoint
committed-parts a h = ground arith

commit-committed :
    (v : ProcessingCommit)
    → is_processing_commit v ≡ true
    → is_committed_checkpoint v.aggregate ≡ true
unfolding is_processing_commit
commit-committed v h = ground arith

validate_aggregate-within :
    (p : Platform) (a : AggregateCheckpoint)
    → validate_aggregate_checkpoint p a ≡ ok tt
    → is_committed_checkpoint a ≡ true
    → validate_committed_checkpoint p a ≡ ok tt
unfolding validate_aggregate_checkpoint validate_committed_checkpoint
validate_aggregate-within p a h committed =
    let (_, fits, _) = >>=-eq-ok (within p persisted_limits (checkpoint_json p a)) _ h in
    ap (λ r. r >>= λ _. guard (is_committed_checkpoint a) "the checkpoint is not of the schema")
      fits
    ∙ ap (λ b. guard b "the checkpoint is not of the schema") committed

-- The checkpoint of a validated commit passes the validation of committed checkpoints, and its ID
-- that of IDs.
pub validate_processing_commit-aggregate :
    (p : Platform) (v : ProcessingCommit)
    → validate_processing_commit p v ≡ ok tt
    → (validate_committed_checkpoint p v.aggregate ≡ ok tt)
      × (validate_aggregate_id p v.aggregate.core.aggregate_id ≡ ok tt)
unfolding validate_processing_commit validate_aggregate_id
validate_processing_commit-aggregate p v h =
    let (_, _, h₁) = >>=-eq-ok (within p commit_limits (commit_json p v)) _ h in
    let (_, shaped, h₂) =
      >>=-eq-ok (guard (is_processing_commit v) "the commit is not of the schema") _ h₁ in
    let (_, _, h₃) = >>=-eq-ok (validate_stored_event p v.event) _ h₂ in
    let (_, _, h₄) = >>=-eq-ok (validate_run_cursor p v.cursor) _ h₃ in
    let (_, valid, _) = >>=-eq-ok (validate_aggregate_checkpoint p v.aggregate) _ h₄ in
    let committed = commit-committed v (guard-eq-ok _ _ shaped) in
    (
      validate_aggregate-within p v.aggregate valid committed,
      ap (λ b. guard b "Aggregate ID must be portable") (committed-parts v.aggregate committed),
    )
