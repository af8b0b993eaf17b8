-- ===== src/Processor/Store/Dispatch.antt =====
-- Which outputs of the in-memory store may be dispatched.
use peas_engine.Prelude.{
  append_nil, ℕ, suc, ◌+◌, ◌≡◌, sym, ap, ◌∙◌, String, true, Bool-cases, inl, inr, List, [], ◌∷◌,
  ◌++◌, All, All-from, All-get, get_elem?, get_elem?-append, get_elem?-append_right, get_elem?-map,
  some, ok, guard, guard-eq-ok, length, >>=-eq-ok, str_eq, str_eq_iff, if◌then◌else◌,
}
use peas_engine.Digest.{Platform}
use peas_engine.Events.{StoredEvent}
use peas_engine.Events.Log.{lookup}
use peas_engine.Processor.{
  live, RunRegistration, ImmutableOutput, StoredOutput, ProcessingCommit, OutputCategory,
  job_category, outbox_category, category_of,
}
use peas_engine.Processor.Hashes.{compute_body_hash}
use peas_engine.Processor.Store.{
  MemoryStore, empty_store, add_jobs, add_outbox, pend_dedupe, pend_outputs, write_commit, commit,
  ensure_run,
}
use peas_engine.Processor.Store.Registered.{ensure_run-KeepsRest}
use peas_engine.Processor.Store.Sets.{All-mono, All-cast, add_jobs-All, add_outbox-All}
use peas_engine.Processor.Store.Accepted.{IsAccepted, commit-IsAccepted}
use peas_engine.Processor.Store.Concurrency.{Reaches, here, committed, registered}
use peas_engine.Processor.Store.Effects.{Reaches-Lawful, ensure_run-keeps, commit-runs}
use peas_engine.Processor.Store.Sequences.{pend_outputs-IsSequenced, commit-outputs}

-- An ID is that of a stored output of a category, whose run is registered as one that allows effects.
pub record IsDispatchable (s : MemoryStore) (c : OutputCategory) (id : String) : Type 0 where
  pub index : ℕ
  pub output : StoredOutput
  pub at : get_elem? s.outputs index ≡ some output
  pub identified : output.output.output_id ≡ id
  pub category : category_of output.output.body ≡ c
  pub registration : RunRegistration
  pub of_run : lookup output.output.run_id s.runs ≡ some registration
  pub allowed : registration.manifest.effects_allowed ≡ true

-- It stays so when outputs are added and registered runs stay.
IsDispatchable-mono :
    (s s' : MemoryStore) (added : List StoredOutput) (c : OutputCategory) (id : String)
    → s'.outputs ≡ s.outputs ++ added
    → ((run : String) (r : RunRegistration)
        → lookup run s.runs ≡ some r
        → lookup run s'.runs ≡ some r)
    → IsDispatchable s c id
    → IsDispatchable s' c id
IsDispatchable-mono s s' added c id outputs runs d = record {
  index = d.index;
  output = d.output;
  at =
      ap (λ os. get_elem? os d.index) outputs
      ∙ get_elem?-append s.outputs added d.index d.output d.at;
  identified = d.identified;
  category = d.category;
  registration = d.registration;
  of_run = runs d.output.output.run_id d.registration d.of_run;
  allowed = d.allowed;
}

-- The outputs that pass a commit's loop are of its run.
pend_outputs-run :
    (p : Platform) (known : List (String × String)) (run : String) (os : List ImmutableOutput)
    (n : ℕ) (pending : List (String × String)) (pended : List StoredOutput × List (String × String))
    → pend_outputs p known run os n pending ≡ ok pended
    → All (λ o. o.run_id ≡ run) os
unfolding pend_outputs
pend_outputs-run p known run [] n pending pended h = tt
pend_outputs-run p known run (o ∷ os) n pending pended h =
    let (_, of_run, h₁) = >>=-eq-ok (guard (str_eq o.run_id run) "Output run ID mismatch") _ h in
    let (hash, _, h₂) = >>=-eq-ok (compute_body_hash p o.body) _ h₁ in
    let (_, _, h₃) = >>=-eq-ok (guard (str_eq o.body_hash hash) "Output body hash mismatch") _ h₂ in
    let (pending', _, h₄) = >>=-eq-ok (pend_dedupe p known o o.dedupe_key pending) _ h₃ in
    let (rest, next, _) = >>=-eq-ok (pend_outputs p known run os (suc n) pending') _ h₄ in
    (
      (str_eq_iff o.run_id run).0 (guard-eq-ok _ _ of_run),
      pend_outputs-run p known run os (suc n) pending' rest next,
    )

-- An output of an accepted commit of a run that allows effects.
commit-IsDispatchable :
    (p : Platform) (events : List StoredEvent) (s s' : MemoryStore) (v : ProcessingCommit)
    (accepted : IsAccepted p events s v s') (c : OutputCategory)
    → accepted.registration.manifest.effects_allowed ≡ true
    → All (λ o. category_of o.body ≡ c → IsDispatchable s' c o.output_id) v.outputs
commit-IsDispatchable p events s s' v accepted c allowed =
    All-from _ v.outputs (λ i o found category.
      let run = v.cursor.core.run_id in
      let kept =
        (pend_outputs-IsSequenced p s.dedupe_keys run v.outputs (length s.outputs + 1) []
          accepted.outputs accepted.identities accepted.pended).1 in
      let (stored, at, same) =
        get_elem?-map (λ x. x.output) accepted.outputs i o
          (ap (λ xs. get_elem? xs i) kept ∙ found) in
      let of_run =
        All-get _ v.outputs i o
          (pend_outputs-run p s.dedupe_keys run v.outputs (length s.outputs + 1) []
            (accepted.outputs, accepted.identities) accepted.pended)
          found in
      record {
        index = length s.outputs + i;
        output = stored;
        at =
            ap (λ xs. get_elem? xs (length s.outputs + i)) (commit-outputs p events s s' v accepted)
            ∙ get_elem?-append_right s.outputs accepted.outputs i
            ∙ at;
        identified = ap (λ x. x.output_id) same;
        category = ap (λ x. category_of x.body) same ∙ category;
        registration = accepted.registration;
        of_run =
            ap (λ x. lookup x.run_id s'.runs) same
            ∙ ap (λ x. lookup x s'.runs) of_run
            ∙ ap (λ m. lookup run m) (commit-runs p events s s' v accepted)
            ∙ accepted.registered;
        allowed = allowed;
      })

-- The IDs in the two sets of a store.
abbrev AreDispatchable : MemoryStore → Type 0
AreDispatchable s =
    All (IsDispatchable s job_category) s.dispatchable_jobs
    × All (IsDispatchable s outbox_category) s.dispatchable_outbox

commit-sets :
    (p : Platform) (events : List StoredEvent) (s s' : MemoryStore) (v : ProcessingCommit)
    → (accepted : IsAccepted p events s v s')
    → (s'.dispatchable_jobs ≡ (
        if accepted.registration.manifest.effects_allowed
        then add_jobs v.outputs s.dispatchable_jobs
        else s.dispatchable_jobs))
      × (s'.dispatchable_outbox ≡ (
          if accepted.registration.manifest.effects_allowed
          then add_outbox v.outputs s.dispatchable_outbox
          else s.dispatchable_outbox))
unfolding write_commit
commit-sets p events s s' v accepted = (
  ap (λ t. t.dispatchable_jobs) accepted.written,
  ap (λ t. t.dispatchable_outbox) accepted.written,
)

commit-AreDispatchable :
    (p : Platform) (events : List StoredEvent) (s s' : MemoryStore) (v : ProcessingCommit)
    → AreDispatchable s
    → commit p events s v ≡ ok s'
    → AreDispatchable s'
commit-AreDispatchable p events s s' v before h =
    let accepted = commit-IsAccepted p events s s' v h in
    let runs = commit-runs p events s s' v accepted in
    let keeps : (c : OutputCategory) (id : String)
        → IsDispatchable s c id
        → IsDispatchable s' c id =
      λ c id d.
        IsDispatchable-mono s s' accepted.outputs c id (commit-outputs p events s s' v accepted)
          (λ run r found. ap (λ m. lookup run m) runs ∙ found) d in
    let jobs =
      All-mono (IsDispatchable s job_category) (IsDispatchable s' job_category) s.dispatchable_jobs
        (λ id d. keeps job_category id d) before.0 in
    let messages =
      All-mono (IsDispatchable s outbox_category) (IsDispatchable s' outbox_category)
        s.dispatchable_outbox (λ id d. keeps outbox_category id d) before.1 in
    let (set, set') = commit-sets p events s s' v accepted in
    let effects = accepted.registration.manifest.effects_allowed in
    let new = λ (c : OutputCategory). commit-IsDispatchable p events s s' v accepted c in
    elim (Bool-cases effects) [
      | inl allowed ↦ (
        All-cast (IsDispatchable s' job_category) _ _
            (set
              ∙ ap (λ b. if b then add_jobs v.outputs s.dispatchable_jobs else s.dispatchable_jobs)
                  allowed)
            (add_jobs-All (IsDispatchable s' job_category) v.outputs s.dispatchable_jobs
              (new job_category allowed) jobs),
        All-cast (IsDispatchable s' outbox_category) _ _
            (set'
              ∙ ap
                  (λ b.
                    if b then add_outbox v.outputs s.dispatchable_outbox else s.dispatchable_outbox)
                  allowed)
            (add_outbox-All (IsDispatchable s' outbox_category) v.outputs s.dispatchable_outbox
              (new outbox_category allowed) messages),
      )
      | inr denied ↦ (
        All-cast (IsDispatchable s' job_category) _ _
            (set
              ∙ ap (λ b. if b then add_jobs v.outputs s.dispatchable_jobs else s.dispatchable_jobs)
                  denied)
            jobs,
        All-cast (IsDispatchable s' outbox_category) _ _
            (set'
              ∙ ap
                  (λ b.
                    if b then add_outbox v.outputs s.dispatchable_outbox else s.dispatchable_outbox)
                  denied)
            messages,
      )
    ]

ensure_run-AreDispatchable :
    (p : Platform) (r : RunRegistration) (s s' : MemoryStore)
    → AreDispatchable s
    → ensure_run p r s ≡ ok s'
    → AreDispatchable s'
ensure_run-AreDispatchable p r s s' before h =
    let keeps : (c : OutputCategory) (id : String)
        → IsDispatchable s c id
        → IsDispatchable s' c id =
      λ c id d.
        IsDispatchable-mono s s' [] c id
          ((ensure_run-KeepsRest p r s s' h).outputs ∙ sym (append_nil s.outputs))
          (λ run known found. ensure_run-keeps p r s s' run known h found) d in
    let rest = ensure_run-KeepsRest p r s s' h in
    (
      All-cast (IsDispatchable s' job_category) _ _ rest.dispatchable_jobs (
          All-mono (IsDispatchable s job_category) (IsDispatchable s' job_category)
            s.dispatchable_jobs (λ id d. keeps job_category id d) before.0),
      All-cast (IsDispatchable s' outbox_category) _ _ rest.dispatchable_outbox (
          All-mono (IsDispatchable s outbox_category) (IsDispatchable s' outbox_category)
            s.dispatchable_outbox (λ id d. keeps outbox_category id d) before.1),
    )

Reaches-AreDispatchable :
    (p : Platform) (s : MemoryStore) → Reaches p empty_store s → AreDispatchable s
Reaches-AreDispatchable p _ here = (tt, tt)
Reaches-AreDispatchable p _ (committed events v s₁ s₂ before h) =
    commit-AreDispatchable p events s₁ s₂ v (Reaches-AreDispatchable p s₁ before) h
Reaches-AreDispatchable p _ (registered r s₁ s₂ before h) =
    ensure_run-AreDispatchable p r s₁ s₂ (Reaches-AreDispatchable p s₁ before) h

-- An ID is that of a stored output of a category, of a run that is registered as live with its effects allowed.
pub record IsLiveOutput (s : MemoryStore) (c : OutputCategory) (id : String) : Type 0 where
  pub output : StoredOutput
  pub index : ℕ
  pub stored : get_elem? s.outputs index ≡ some output
  pub identified : output.output.output_id ≡ id
  pub category : category_of output.output.body ≡ c
  pub registration : RunRegistration
  pub of_run : lookup output.output.run_id s.runs ≡ some registration
  pub allowed : registration.manifest.effects_allowed ≡ true
  pub kind_live : registration.manifest.kind ≡ live

IsDispatchable-live :
    (p : Platform) (s : MemoryStore)
    → Reaches p empty_store s
    → (c : OutputCategory) (id : String) → IsDispatchable s c id
    → IsLiveOutput s c id
IsDispatchable-live p s reached c id d = record {
  output = d.output;
  index = d.index;
  stored = d.at;
  identified = d.identified;
  category = d.category;
  registration = d.registration;
  of_run = d.of_run;
  allowed = d.allowed;
  kind_live = Reaches-Lawful p s reached d.output.output.run_id d.registration d.of_run d.allowed;
}

-- In every store that accepted operations reach from the empty store, each ID in the set of dispatchable
-- jobs is that of a stored job, and each in the set of dispatchable messages that of a
-- stored outbox message, of a run that is registered as live with its effects allowed: a replay, shadow,
-- research or paper run dispatches nothing.
pub Reaches-dispatchable :
    (p : Platform) (s : MemoryStore)
    → Reaches p empty_store s
    → All (IsLiveOutput s job_category) s.dispatchable_jobs
      × All (IsLiveOutput s outbox_category) s.dispatchable_outbox
Reaches-dispatchable p s reached =
    let (jobs, messages) = Reaches-AreDispatchable p s reached in
    (
      All-mono (IsDispatchable s job_category) (IsLiveOutput s job_category) s.dispatchable_jobs
          (λ id d. IsDispatchable-live p s reached job_category id d) jobs,
      All-mono (IsDispatchable s outbox_category) (IsLiveOutput s outbox_category)
          s.dispatchable_outbox (λ id d. IsDispatchable-live p s reached outbox_category id d)
          messages,
    )
