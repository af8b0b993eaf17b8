-- ===== src/Processor/Store/Accepted.antt =====
-- What an accepted commit of the in-memory store is, and what it writes.
use peas_engine.Prelude.{
  ◌+◌, ◌≡◌, String, List, [], Option, none, some, ok, guard, ◌==◌, ==_iff, length, >>=-eq-ok,
  guard-eq-ok, ok_injective,
}
use peas_engine.Digest.{Platform}
use peas_engine.Events.{StoredEvent}
use peas_engine.Events.Log.{lookup, get}
use peas_engine.Processor.{RunRegistration, StoredOutput, RunCursor, ProcessingCommit}
use peas_engine.Processor.Validate.{validate_processing_commit}
use peas_engine.Processor.Verify.{verify_processing_transition}
use peas_engine.Processor.Verify.Facts.{IsStep, verify_processing_transition-IsStep}
use peas_engine.Processor.Store.{
  MemoryStore, require, version_or_zero, find_aggregate, verify_persisted, cursor_or_genesis,
  pend_outputs, write_commit, commit,
}

pub record IsAccepted (p : Platform) (events : List StoredEvent) (s : MemoryStore)
    (v : ProcessingCommit) (s' : MemoryStore) : Type 0 where
  pub registration : RunRegistration
  pub previous : RunCursor
  pub outputs : List StoredOutput
  pub identities : List (String × String)
  pub validated : validate_processing_commit p v ≡ ok tt
  pub persisted : verify_persisted p v.event (get events v.event.position) ≡ ok tt
  pub registered : lookup v.cursor.core.run_id s.runs ≡ some registration
  pub before :
      cursor_or_genesis p (lookup v.cursor.core.run_id s.cursors) registration ≡ ok previous
  pub expected : previous.core.processed_position ≡ v.expected_position
  pub step : IsStep p v registration previous
  pub version :
      v.aggregate.core.version
      ≡ version_or_zero (find_aggregate s v.cursor.core.run_id v.aggregate.core.aggregate_id) + 1
  pub pended :
      pend_outputs p s.dedupe_keys v.cursor.core.run_id v.outputs (length s.outputs + 1) []
      ≡ ok (outputs, identities)
  pub written : s' ≡ write_commit p s v registration outputs identities

require-eq-ok :
    {A : Type 0} (o : Option A) (message : String) {a : A} → require o message ≡ ok a → o ≡ some a
require-eq-ok none message h = cc
require-eq-ok (some a) message h = cc

pub commit-IsAccepted :
    (p : Platform) (events : List StoredEvent) (s s' : MemoryStore) (v : ProcessingCommit)
    → commit p events s v ≡ ok s'
    → IsAccepted p events s v s'
unfolding commit
commit-IsAccepted p events s s' v h =
    let run = v.cursor.core.run_id in
    let prior = version_or_zero (find_aggregate s run v.aggregate.core.aggregate_id) in
    let (_, validated, h₁) = >>=-eq-ok (validate_processing_commit p v) _ h in
    let (_, persisted, h₂) =
      >>=-eq-ok (verify_persisted p v.event (get events v.event.position)) _ h₁ in
    let (r, registered, h₃) =
      >>=-eq-ok (require (lookup run s.runs) "Run is not registered") _ h₂ in
    let (previous, before, h₄) = >>=-eq-ok (cursor_or_genesis p (lookup run s.cursors) r) _ h₃ in
    let (_, expected, h₅) =
      >>=-eq-ok
        (guard (previous.core.processed_position == v.expected_position)
          "Cursor concurrency conflict")
        _ h₄ in
    let (_, verified, h₆) = >>=-eq-ok (verify_processing_transition p v r previous) _ h₅ in
    let (_, version, h₇) =
      >>=-eq-ok
        (guard (v.aggregate.core.version == prior + 1) "Aggregate version concurrency conflict") _
        h₆ in
    let (pending, pended, h₈) =
      >>=-eq-ok (pend_outputs p s.dedupe_keys run v.outputs (length s.outputs + 1) []) _ h₇ in
    record {
      registration = r;
      previous = previous;
      outputs = pending.0;
      identities = pending.1;
      validated = validated;
      persisted = persisted;
      registered = require-eq-ok (lookup run s.runs) "Run is not registered" registered;
      before = before;
      expected =
          (==_iff previous.core.processed_position v.expected_position).0
            (guard-eq-ok (previous.core.processed_position == v.expected_position) _ expected);
      step = verify_processing_transition-IsStep p v r previous verified;
      version =
          (==_iff v.aggregate.core.version (prior + 1)).0
            (guard-eq-ok (v.aggregate.core.version == prior + 1) _ version);
      pended = pended;
      written = ok_injective h₈;
    }
