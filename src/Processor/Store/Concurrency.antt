-- ===== src/Processor/Store/Concurrency.antt =====
-- The cursors of the in-memory store over its accepted operations.
use peas_engine.Prelude.{
  ℕ, ◌+◌, ◌≤◌, ◌<◌, ◌≡◌, sym, ap, ◌∙◌, String, false, Bool-cases, inl, inr, List, Option, some,
  Result-cases, ok, is_ok, ok_injective, str_eq, str_eq_iff, arith,
}
use peas_engine.Digest.{Platform}
use peas_engine.Events.{StoredEvent}
use peas_engine.Events.Log.{lookup, get}
use peas_engine.Processor.{RunRegistration, RunCursor, ProcessingCommit}
use peas_engine.Processor.Store.{
  MemoryStore, ensure_run, cursor_or_genesis, verify_persisted, commit,
}
use peas_engine.Processor.Store.Registered.{ensure_run-KeepsRest}
use peas_engine.Processor.Store.Accepted.{commit-IsAccepted}
use peas_engine.Processor.Store.Adapter.{commit-cursors}
use peas_engine.Processor.Store.Lookup.{lookup-put_self, lookup-put_ne}

-- The stores after any accepted operations; the event log may be another at each.
pub data Reaches (p : Platform) (s : MemoryStore) : MemoryStore → Type 0 where
  here : Reaches p s s
  committed :
      (events : List StoredEvent) (v : ProcessingCommit) (s₁ s₂ : MemoryStore)
      → Reaches p s s₁
      → commit p events s₁ v ≡ ok s₂
      → Reaches p s s₂
  registered :
      (r : RunRegistration) (s₁ s₂ : MemoryStore)
      → Reaches p s s₁
      → ensure_run p r s₁ ≡ ok s₂
      → Reaches p s s₂

-- The store has a cursor of the run past a position.
pub record IsPast (s : MemoryStore) (run : String) (n : ℕ) : Type 0 where
  pub cursor : RunCursor
  pub found : lookup run s.cursors ≡ some cursor
  pub past : n < cursor.core.processed_position

commit-cursor :
    (p : Platform) (events : List StoredEvent) (s s' : MemoryStore) (v : ProcessingCommit)
    → commit p events s v ≡ ok s'
    → lookup v.cursor.core.run_id s'.cursors ≡ some v.cursor
commit-cursor p events s s' v h =
    ap (λ m. lookup v.cursor.core.run_id m)
      (commit-cursors p events s s' v (commit-IsAccepted p events s s' v h))
    ∙ lookup-put_self v.cursor.core.run_id v.cursor s.cursors

-- The position of an accepted commit's cursor is one past the position that it expected.
commit-position :
    (p : Platform) (events : List StoredEvent) (s s' : MemoryStore) (v : ProcessingCommit)
    → commit p events s v ≡ ok s'
    → v.cursor.core.processed_position ≡ v.expected_position + 1
commit-position p events s s' v h =
    let accepted = commit-IsAccepted p events s s' v h in
    omega (arith, accepted.step.bound.at_position, accepted.step.next, accepted.expected)

commit-IsPast_self :
    (p : Platform) (events : List StoredEvent) (s s' : MemoryStore) (v : ProcessingCommit)
    → commit p events s v ≡ ok s'
    → IsPast s' v.cursor.core.run_id v.expected_position
commit-IsPast_self p events s s' v h = record {
  cursor = v.cursor;
  found = commit-cursor p events s s' v h;
  past = omega (arith, commit-position p events s s' v h);
}

-- The cursor that an accepted commit found, when the store has one.
previous-found :
    (p : Platform) (o : Option RunCursor) (r : RunRegistration) (c previous : RunCursor)
    → o ≡ some c
    → cursor_or_genesis p o r ≡ ok previous
    → previous ≡ c
unfolding cursor_or_genesis
previous-found p o r c previous found h =
    ok_injective (sym (ap (λ x. cursor_or_genesis p x r) found) ∙ h)

pub commit-IsPast :
    (p : Platform) (events : List StoredEvent) (s s' : MemoryStore) (v : ProcessingCommit)
    (run : String) (n : ℕ)
    → commit p events s v ≡ ok s'
    → IsPast s run n
    → IsPast s' run n
commit-IsPast p events s s' v run n h at =
    let accepted = commit-IsAccepted p events s s' v h in
    let mine = v.cursor.core.run_id in
    elim (Bool-cases (str_eq run mine)) [
      | inl same ↦
          (let run-mine : run ≡ mine = (str_eq_iff run mine).0 same in
            let found : lookup mine s.cursors ≡ some at.cursor =
              ap (λ k. lookup k s.cursors) (sym run-mine) ∙ at.found in
            let position : accepted.previous.core.processed_position
                ≡ at.cursor.core.processed_position =
              ap (λ c. c.core.processed_position)
                (previous-found p (lookup mine s.cursors) accepted.registration at.cursor
                  accepted.previous found accepted.before) in
            record {
              cursor = v.cursor;
              found = ap (λ k. lookup k s'.cursors) run-mine ∙ commit-cursor p events s s' v h;
              past =
                  omega (
                    arith,
                    at.past,
                    position,
                    accepted.expected,
                    commit-position p events s s' v h,
                  );
            })
      | inr other ↦ record {
        cursor = at.cursor;
        found =
            ap (λ m. lookup run m) (commit-cursors p events s s' v accepted)
            ∙ lookup-put_ne mine run v.cursor s.cursors other
            ∙ at.found;
        past = at.past;
      }
    ]

pub Reaches-IsPast :
    (p : Platform) (s s' : MemoryStore) (run : String) (n : ℕ)
    → Reaches p s s'
    → IsPast s run n
    → IsPast s' run n
Reaches-IsPast p s _ run n here at = at
Reaches-IsPast p s _ run n (committed events v s₁ s₂ before h) at =
    commit-IsPast p events s₁ s₂ v run n h (Reaches-IsPast p s s₁ run n before at)
Reaches-IsPast p s _ run n (registered r s₁ s₂ before h) at =
    let past = Reaches-IsPast p s s₁ run n before at in
    record {
      cursor = past.cursor;
      found = ap (λ m. lookup run m) (ensure_run-KeepsRest p r s₁ s₂ h).cursors ∙ past.found;
      past = past.past;
    }

-- Optimistic concurrency: after an accepted commit, and any further accepted commits and registrations on
-- any event logs, a commit of the same run that expects the same position is refused.
pub commit-once :
    (p : Platform) (events events' : List StoredEvent) (s s₁ s₂ : MemoryStore)
    (v v' : ProcessingCommit)
    → commit p events s v ≡ ok s₁
    → Reaches p s₁ s₂
    → v'.cursor.core.run_id ≡ v.cursor.core.run_id
    → v'.expected_position ≡ v.expected_position
    → is_ok (commit p events' s₂ v') ≡ false
commit-once p events events' s s₁ s₂ v v' h later run expected =
    elim (Result-cases (commit p events' s₂ v')) [
      | inl (s₃, h') ↦
          (let past =
              Reaches-IsPast p s₁ s₂ v.cursor.core.run_id v.expected_position later
                (commit-IsPast_self p events s s₁ v h) in
            let accepted = commit-IsAccepted p events' s₂ s₃ v' h' in
            let same =
              previous-found p (lookup v'.cursor.core.run_id s₂.cursors) accepted.registration
                past.cursor accepted.previous (ap (λ k. lookup k s₂.cursors) run ∙ past.found)
                accepted.before in
            let position : accepted.previous.core.processed_position
                ≡ past.cursor.core.processed_position =
              ap (λ c. c.core.processed_position) same in
            absurd (omega (arith, past.past, position, expected, accepted.expected)))
      | inr (e, h') ↦ ap is_ok h'
    ]

-- An accepted commit of the in-memory store: the event that it carries passes the check against the event
-- log's entry at its position; its position is one past the cursor that the store had for the run
-- (or the genesis), whose last event it follows in the chain; its logical time is not before that cursor's; and the
-- commit's cursor becomes the cursor of its run, while the cursors of other runs stay.
pub commit-advances :
    (p : Platform) (events : List StoredEvent) (s s' : MemoryStore) (v : ProcessingCommit)
    → commit p events s v ≡ ok s'
    → (verify_persisted p v.event (get events v.event.position) ≡ ok tt)
      × ((r : RunRegistration) × (previous : RunCursor) × (lookup v.cursor.core.run_id s.runs
            ≡ some r)
          × (cursor_or_genesis p (lookup v.cursor.core.run_id s.cursors) r ≡ ok previous)
          × (v.cursor.core.processed_position ≡ previous.core.processed_position + 1)
          × (v.event.previous_event_hash ≡ previous.core.last_event_hash)
          × (previous.core.logical_at_ms ≤ v.cursor.core.logical_at_ms))
      × (lookup v.cursor.core.run_id s'.cursors ≡ some v.cursor)
      × ((run : String)
          → str_eq run v.cursor.core.run_id ≡ false
          → lookup run s'.cursors ≡ lookup run s.cursors)
commit-advances p events s s' v h =
    let accepted = commit-IsAccepted p events s s' v h in
    let step = accepted.step in
    (
      accepted.persisted,
      (
        accepted.registration,
        accepted.previous,
        accepted.registered,
        accepted.before,
        omega (arith, step.bound.at_position, step.next),
        step.chained,
        omega (arith, step.bound.at_time, step.ordered),
      ),
      commit-cursor p events s s' v h,
      λ run other.
          ap (λ m. lookup run m) (commit-cursors p events s s' v accepted)
          ∙ lookup-put_ne v.cursor.core.run_id run v.cursor s.cursors other,
    )
