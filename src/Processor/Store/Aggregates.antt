-- ===== src/Processor/Store/Aggregates.antt =====
-- The aggregates of the in-memory store after an accepted commit.
use peas_engine.Prelude.{
  ◌+◌, ◌≡◌, sym, ap, ◌∙◌, ◌⊎◌, inl, inr, String, false, Bool-cases, List, some, ok, ◌>>=◌, guard,
  str_eq, str_eq_iff, str_eq_refl,
}
use peas_engine.Digest.{Platform}
use peas_engine.Events.{StoredEvent}
use peas_engine.Events.Log.{lookup}
use peas_engine.Processor.{ProcessingCommit}
use peas_engine.Processor.Hashes.{compute_aggregate_checkpoint_hash, compute_state_hash}
use peas_engine.Processor.Verify.Checkpoint.{
  verify_processing_commit-IsCheckpointed, validate_processing_commit-aggregate,
}
use peas_engine.Processor.Store.{
  MemoryStore, put, list_or_empty, require, version_or_zero, find_aggregate, write_commit, commit,
}
use peas_engine.Processor.Store.Accepted.{IsAccepted, commit-IsAccepted}
use peas_engine.Processor.Store.Effects.{commit-runs}
use peas_engine.Processor.Store.Lookup.{lookup-put_self, lookup-put_ne}
use peas_engine.Processor.Store.Reads.{
  verify_stored_aggregate, load_stored_aggregate, load_aggregate,
}

module _ (p : Platform) (events : List StoredEvent) (s s' : MemoryStore) (v : ProcessingCommit)
    (accepted : IsAccepted p events s v s') where
  abbrev run : String
  run = v.cursor.core.run_id

  abbrev id : String
  id = v.aggregate.core.aggregate_id

  commit-aggregates :
      s'.aggregates
      ≡ put run (put id v.aggregate (list_or_empty (lookup run s.aggregates))) s.aggregates
  unfolding write_commit
  commit-aggregates = ap (λ t. t.aggregates) accepted.written

  -- The aggregates of the commit's run.
  of_run :
      list_or_empty (lookup run s'.aggregates)
      ≡ put id v.aggregate (list_or_empty (lookup run s.aggregates))
  of_run =
      ap (λ m. list_or_empty (lookup run m)) commit-aggregates
      ∙ ap list_or_empty (
          lookup-put_self run (put id v.aggregate (list_or_empty (lookup run s.aggregates)))
            s.aggregates)

  found : find_aggregate s' run id ≡ some v.aggregate
  found =
      ap (λ m. lookup id m) of_run
      ∙ lookup-put_self id v.aggregate (list_or_empty (lookup run s.aggregates))

  other_run :
      (run' id' : String)
      → str_eq run' run ≡ false
      → find_aggregate s' run' id' ≡ find_aggregate s run' id'
  other_run run' id' other =
      ap (λ m. lookup id' (list_or_empty (lookup run' m))) commit-aggregates
      ∙ ap (λ m. lookup id' (list_or_empty m))
          (lookup-put_ne run run' (put id v.aggregate (list_or_empty (lookup run s.aggregates)))
            s.aggregates other)

  others :
      (run' id' : String)
      → (str_eq run' run ≡ false) ⊎ (str_eq id' id ≡ false)
      → find_aggregate s' run' id' ≡ find_aggregate s run' id'
  others run' id' (inl other) = other_run run' id' other
  others run' id' (inr other) = elim (Bool-cases (str_eq run' run)) [
    | inl same ↦
        (let run'-run = (str_eq_iff run' run).0 same in
          ap (λ k. find_aggregate s' k id') run'-run
          ∙ ap (λ m. lookup id' m) of_run
          ∙ lookup-put_ne id id' v.aggregate (list_or_empty (lookup run s.aggregates)) other
          ∙ ap (λ k. find_aggregate s k id') (sym run'-run))
    | inr different ↦ other_run run' id' different
  ]

  -- The checkpoint passes the checks of a read.
  verified : verify_stored_aggregate p s' v.aggregate ≡ ok tt
  unfolding verify_stored_aggregate
  verified =
      let r = accepted.registration in
      let checkpoint = verify_processing_commit-IsCheckpointed p v r accepted.step.verified in
      let registered : lookup v.aggregate.core.run_id s'.runs ≡ some r =
        ap (λ k. lookup k s'.runs) checkpoint.of_run
        ∙ ap (λ m. lookup run m) (commit-runs p events s s' v accepted)
        ∙ accepted.registered in
      let hash =
        (compute_aggregate_checkpoint_hash p v.aggregate.core >>= λ h.
        guard (str_eq v.aggregate.checkpoint_hash h) "Aggregate checkpoint hash mismatch") in
      ap
        (λ x. x >>= λ _.
          require (lookup v.aggregate.core.run_id s'.runs) "Run is not registered" >>= λ k.
          compute_state_hash p k.manifest.behavior.reducer_name k.manifest.behavior.reducer_version
            v.aggregate.core.state
          >>= λ h.
              guard (str_eq v.aggregate.core.state_hash h) "Aggregate state hash mismatch" >>= λ _.
              hash)
        (validate_processing_commit-aggregate p v accepted.validated).0
      ∙ ap
          (λ o. require o "Run is not registered" >>= λ k.
            compute_state_hash p k.manifest.behavior.reducer_name
              k.manifest.behavior.reducer_version v.aggregate.core.state
            >>= λ h.
                guard (str_eq v.aggregate.core.state_hash h) "Aggregate state hash mismatch"
                >>= λ _. hash)
          registered
      ∙ ap
          (λ x. x >>= λ h.
            guard (str_eq v.aggregate.core.state_hash h) "Aggregate state hash mismatch" >>= λ _.
            hash)
          checkpoint.state
      ∙ ap (λ b. guard b "Aggregate state hash mismatch" >>= λ _. hash)
          (str_eq_refl v.aggregate.core.state_hash)
      ∙ ap
          (λ x. x >>= λ h.
            guard (str_eq v.aggregate.checkpoint_hash h) "Aggregate checkpoint hash mismatch")
          checkpoint.hashed
      ∙ ap (λ b. guard b "Aggregate checkpoint hash mismatch")
          (str_eq_refl v.aggregate.checkpoint_hash)

  loaded : load_aggregate p s' run id ≡ ok (some v.aggregate)
  unfolding load_aggregate load_stored_aggregate
  loaded =
      let (valid, named) = validate_processing_commit-aggregate p v accepted.validated in
      ap (λ x. x >>= λ _. load_stored_aggregate p s' (find_aggregate s' run id)) named
      ∙ ap (λ o. load_stored_aggregate p s' o) found
      ∙ ap (λ x. x >>= λ _. verify_stored_aggregate p s' v.aggregate >>= λ _. ok (some v.aggregate))
          valid
      ∙ ap (λ x. x >>= λ _. ok (some v.aggregate)) verified

-- After an accepted commit of the in-memory store, loadAggregate reads back the commit's checkpoint: it passes
-- the checks of the read. Its version is one more than that of the aggregate's checkpoint before, or
-- 1 when there was none, and every other aggregate, of this run and of others, is as it was.
pub commit-load_aggregate :
    (p : Platform) (events : List StoredEvent) (s s' : MemoryStore) (v : ProcessingCommit)
    → commit p events s v ≡ ok s'
    → (load_aggregate p s' v.cursor.core.run_id v.aggregate.core.aggregate_id
        ≡ ok (some v.aggregate))
      × (v.aggregate.core.version
          ≡ version_or_zero (find_aggregate s v.cursor.core.run_id v.aggregate.core.aggregate_id)
            + 1)
      × ((run' id' : String)
          → (str_eq run' v.cursor.core.run_id ≡ false)
            ⊎ (str_eq id' v.aggregate.core.aggregate_id ≡ false)
          → find_aggregate s' run' id' ≡ find_aggregate s run' id')
commit-load_aggregate p events s s' v h =
    let accepted = commit-IsAccepted p events s s' v h in
    (loaded p events s s' v accepted, accepted.version, others p events s s' v accepted)
