-- ===== src/Processor/Store/Adapter.antt =====
-- InMemoryProcessingStore as a ProcessingStore, and what it keeps of an accepted commit.
use peas_engine.Prelude.{◌≡◌, ap, ◌∙◌, List, some, ok, ◌>>=◌, guard, str_eq, str_eq_refl}
use peas_engine.Digest.{Platform}
use peas_engine.Events.{StoredEvent}
use peas_engine.Events.Log.{lookup}
use peas_engine.Processor.{ProcessingCommit}
use peas_engine.Processor.Hashes.{compute_run_cursor_hash}
use peas_engine.Processor.Verify.Facts.{validate_processing_commit-cursor}
use peas_engine.Processor.Process.{ProcessingStore}
use peas_engine.Processor.Process.Facts.{KeepsCursor}
use peas_engine.Processor.Store.{MemoryStore, put, ensure_run, write_commit, commit}
use peas_engine.Processor.Store.Lookup.{lookup-put_self}
use peas_engine.Processor.Store.Accepted.{IsAccepted, commit-IsAccepted}
use peas_engine.Processor.Store.Reads.{
  load_stored_cursor, load_cursor, load_aggregate, read_outputs_after, read_aggregates_after,
}

-- `new InMemoryProcessingStore(eventLog)`, as the interface that the processor calls.
unfoldable pub memory_store : Platform → List StoredEvent → ProcessingStore MemoryStore
memory_store p events = record {
  ensure_run = λ s r. ensure_run p r s;
  load_cursor = λ s run. load_cursor p s run;
  load_aggregate = λ s run id. load_aggregate p s run id;
  commit = λ s v. commit p events s v;
  read_outputs_after = λ s run n limit. read_outputs_after p s run n limit;
  read_aggregates_after = λ s run id limit. read_aggregates_after p s run id limit;
}

-- The cursors after an accepted commit.
pub commit-cursors :
    (p : Platform) (events : List StoredEvent) (s s' : MemoryStore) (v : ProcessingCommit)
    → IsAccepted p events s v s'
    → s'.cursors ≡ put v.cursor.core.run_id v.cursor s.cursors
unfolding write_commit
commit-cursors p events s s' v accepted = ap (λ t. t.cursors) accepted.written

-- The in-memory store reads back the cursor of a commit that it accepted: it passes the checks of the
-- read.
pub memory_store-KeepsCursor :
    (p : Platform) (events : List StoredEvent) → KeepsCursor (memory_store p events)
unfolding memory_store load_cursor
memory_store-KeepsCursor p events = record {
  commit_then_load = λ s s' v h.
      let accepted = commit-IsAccepted p events s s' v h in
      let run = v.cursor.core.run_id in
      let found : lookup run s'.cursors ≡ some v.cursor =
        ap (λ m. lookup run m) (commit-cursors p events s s' v accepted)
        ∙ lookup-put_self run v.cursor s.cursors in
      let valid = validate_processing_commit-cursor p v accepted.validated in
      let hashed = accepted.step.bound.hashed in
      ap (load_stored_cursor p) found
      ∙ ap
          (λ r. r >>= λ _. compute_run_cursor_hash p v.cursor.core >>= λ hash.
            guard (str_eq v.cursor.cursor_hash hash) "Run cursor hash mismatch on audit read"
            >>= λ _. ok (some v.cursor))
          valid
      ∙ ap
          (λ r. r >>= λ hash.
            guard (str_eq v.cursor.cursor_hash hash) "Run cursor hash mismatch on audit read"
            >>= λ _. ok (some v.cursor))
          hashed
      ∙ ap (λ b. guard b "Run cursor hash mismatch on audit read" >>= λ _. ok (some v.cursor))
          (str_eq_refl v.cursor.cursor_hash);
}
