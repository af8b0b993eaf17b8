-- ===== src/Processor/Process/Facts.antt =====
-- What `process` does to the cursor, over any processing store that keeps what it accepts.
use peas_engine.Prelude.{
  ◌+◌, ◌≡◌, String, false, List, some, ok, ◌>>=◌, >>=-eq-ok, guard-eq-ok, ap, sym, ◌∙◌, ==_iff,
  guard, fail_if, ltb, if◌then◌else◌, leb, ◌==◌, arith, ok_injective,
}
use peas_engine.Digest.{Platform}
use peas_engine.Events.{StoredEvent}
use peas_engine.Processor.{Transition, RunCursor, AggregateCheckpoint, ProcessingCommit}
use peas_engine.Processor.Validate.{validate_aggregate_id}
use peas_engine.Processor.Process.{
  ProcessingStore, Processor, build_commit, or_genesis, verify_exact_persisted_event,
  or_aggregate_genesis, verify_aggregate,
}
use peas_engine.Processor.Process.Run.{
  context_of, current_cursor, process_next, process_again, process_event,
}

-- What `process` builds is a commit of its run for the event, after the cursor before it.
pub record IsCommitFor (d : Processor) (previous : RunCursor) (event : StoredEvent)
    (v : ProcessingCommit) : Type 0 where
  pub of_run : v.cursor.core.run_id ≡ d.registration.manifest.run_id
  pub at_position : v.cursor.core.processed_position ≡ event.position
  pub expected : v.expected_position ≡ previous.core.processed_position
  pub of_event : v.event ≡ event

pub build_commit-IsCommitFor :
    (p : Platform) (d : Processor) (previous : RunCursor) (event : StoredEvent) (id : String)
    (prior : AggregateCheckpoint) (t : Transition) (v : ProcessingCommit)
    → build_commit p d previous event id prior t ≡ ok v
    → IsCommitFor d previous event v
unfolding build_commit
build_commit-IsCommitFor p d previous event id prior t v h = ground arith

-- A store that reads back the cursor of a commit that it accepted.
pub record KeepsCursor {S : Type 0} (api : ProcessingStore S) : Type 0 where
  pub commit_then_load :
      (s s' : S) (v : ProcessingCommit)
      → api.commit s v ≡ ok s'
      → api.load_cursor s' v.cursor.core.run_id ≡ ok (some v.cursor)

module _ {S : Type 0} (p : Platform) (api : ProcessingStore S) (d : Processor) where
  -- An accepted event is committed on the cursor before it.
  pub process_next-commit :
      (events : List StoredEvent) (s s' : S) (event : StoredEvent) (previous cursor : RunCursor)
      → process_next p api d events s event previous ≡ ok (cursor, s')
      → (v : ProcessingCommit) × (api.commit s v ≡ ok s')
        × (cursor ≡ v.cursor)
        × IsCommitFor d previous event v
        × (event.position ≡ previous.core.processed_position + 1)
  unfolding process_next
  process_next-commit events s s' event previous cursor h =
      let (_, at, h₁) =
        >>=-eq-ok
          (guard (event.position == previous.core.processed_position + 1)
            "Non-contiguous processing position")
          _ h in
      let (_, _, h₂) =
        >>=-eq-ok (verify_exact_persisted_event p events event previous.core.last_event_hash) _
          h₁ in
      let (_, _, h₃) =
        >>=-eq-ok
          (fail_if (ltb event.captured.logical_at_ms previous.core.logical_at_ms)
            "Logical clock regression")
          _ h₂ in
      let (id, _, h₄) = >>=-eq-ok (d.reducer.route event) _ h₃ in
      let (_, _, h₅) = >>=-eq-ok (validate_aggregate_id p id) _ h₄ in
      let (loaded, _, h₆) =
        >>=-eq-ok (api.load_aggregate s d.registration.manifest.run_id id) _ h₅ in
      let (prior, _, h₇) = >>=-eq-ok (or_aggregate_genesis p d id loaded) _ h₆ in
      let (state, _, h₈) = >>=-eq-ok (verify_aggregate p d prior) _ h₇ in
      let (t, _, h₉) = >>=-eq-ok (d.reducer.apply state event (context_of p api d event)) _ h₈ in
      let (v, built, ha) = >>=-eq-ok (build_commit p d previous event id prior t) _ h₉ in
      let (s₁, committed, hb) = >>=-eq-ok (api.commit s v) _ ha in
      let same = ok_injective hb in
      (
        v,
        committed ∙ ap (λ x. ok x.1) (sym same),
        ap (λ x. x.0) same,
        build_commit-IsCommitFor p d previous event id prior t v built,
        (==_iff event.position (previous.core.processed_position + 1)).0 (
            guard-eq-ok (event.position == previous.core.processed_position + 1)
              "Non-contiguous processing position" at),
      )

  process_event-calls :
      (events : List StoredEvent) (s s' : S) (event : StoredEvent) (previous cursor : RunCursor)
      → current_cursor p api d s ≡ ok previous
      → process_event p api d events s event ≡ ok (cursor, s')
      → (if leb event.position previous.core.processed_position
          then process_again p api d events s event previous
          else process_next p api d events s event previous)
        ≡ ok (cursor, s')
  unfolding process_event
  process_event-calls events s s' event previous cursor now h = ground arith

  -- A processor at its cursor processes the next event to a store whose cursor is the one returned, at
  -- the event's position.
  pub process_event_step :
      KeepsCursor api
      → (events : List StoredEvent) (s s' : S) (event : StoredEvent) (previous cursor : RunCursor)
      → current_cursor p api d s ≡ ok previous
      → event.position ≡ previous.core.processed_position + 1
      → process_event p api d events s event ≡ ok (cursor, s')
      → (cursor.core.processed_position ≡ previous.core.processed_position + 1)
        × (current_cursor p api d s' ≡ ok cursor)
  unfolding current_cursor or_genesis
  process_event_step keeps events s s' event previous cursor now next h =
      let later : leb event.position previous.core.processed_position ≡ false =
        ground (arith, next) in
      let stepped : process_next p api d events s event previous ≡ ok (cursor, s') =
        sym (
          ap
            (λ b.
              if b
              then process_again p api d events s event previous
              else process_next p api d events s event previous)
            later)
        ∙ process_event-calls events s s' event previous cursor now h in
      let (v, committed, same, built, position) =
        process_next-commit events s s' event previous cursor stepped in
      let loaded : api.load_cursor s' d.registration.manifest.run_id ≡ ok (some cursor) =
        ap (λ run. api.load_cursor s' run) (sym built.of_run)
        ∙ keeps.commit_then_load s s' v committed
        ∙ ap (λ c. ok (some c)) (sym same) in
      (
        ap (λ c. c.core.processed_position) same ∙ built.at_position ∙ next,
        ap (λ r. r >>= λ c. or_genesis p d c) loaded,
      )
