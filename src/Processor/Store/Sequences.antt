-- ===== src/Processor/Store/Sequences.antt =====
-- The sequence numbers of the in-memory store's outputs.
use peas_engine.Prelude.{
  ℕ, suc, ◌+◌, ◌≡◌, refl, sym, ap, ◌∙◌, String, List, [], ◌∷◌, ◌++◌, ok, map, guard, length, str_eq,
  >>=-eq-ok, ok_injective, arith,
}
use peas_engine.Digest.{Platform}
use peas_engine.Events.{StoredEvent}
use peas_engine.Processor.{ImmutableOutput, StoredOutput, ProcessingCommit}
use peas_engine.Processor.Hashes.{compute_body_hash}
use peas_engine.Processor.Store.{
  MemoryStore, empty_store, pend_dedupe, pend_outputs, write_commit, commit,
}
use peas_engine.Processor.Store.Registered.{ensure_run-KeepsRest}
use peas_engine.Processor.Store.Accepted.{IsAccepted, commit-IsAccepted}
use peas_engine.Processor.Store.Concurrency.{Reaches, here, committed, registered}

-- Sequence numbers that count up from a number.
abbrev pub IsSequenced : ℕ → List StoredOutput → Type 0
IsSequenced n [] = Unit
IsSequenced n (o ∷ os) = (o.sequence ≡ n) × IsSequenced (suc n) os

pub IsSequenced-cast :
    {n n' : ℕ} (os : List StoredOutput) → n ≡ n' → IsSequenced n os → IsSequenced n' os
IsSequenced-cast os e h = rw (sym e) h

IsSequenced-append :
    (n : ℕ) (os os' : List StoredOutput)
    → IsSequenced n os
    → IsSequenced (n + length os) os'
    → IsSequenced n (os ++ os')
IsSequenced-append n [] os' h h' = IsSequenced-cast os' (omega arith) h'
IsSequenced-append n (o ∷ os) os' h h' =
    (h.0, IsSequenced-append (suc n) os os' h.1 (IsSequenced-cast os' (omega arith) h'))

-- What the loop of a commit keeps: the outputs of the commit, in their order, with the next numbers.
pub pend_outputs-IsSequenced :
    (p : Platform) (known : List (String × String)) (run : String) (os : List ImmutableOutput)
    (n : ℕ) (pending : List (String × String)) (outputs : List StoredOutput)
    (identities : List (String × String))
    → pend_outputs p known run os n pending ≡ ok (outputs, identities)
    → IsSequenced n outputs × (map (λ o. o.output) outputs ≡ os)
unfolding pend_outputs
pend_outputs-IsSequenced p known run [] n pending outputs identities h =
    let same = ap (λ x. x.0) (ok_injective h) in
    (rw same tt, ap (λ os. map (λ o. o.output) os) same)
pend_outputs-IsSequenced p known run (o ∷ os) n pending outputs identities h =
    let (_, _, h₁) = >>=-eq-ok (guard (str_eq o.run_id run) "Output run ID mismatch") _ h in
    let (hash, _, h₂) = >>=-eq-ok (compute_body_hash p o.body) _ h₁ in
    let (_, _, h₃) = >>=-eq-ok (guard (str_eq o.body_hash hash) "Output body hash mismatch") _ h₂ in
    let (pending', _, h₄) = >>=-eq-ok (pend_dedupe p known o o.dedupe_key pending) _ h₃ in
    let (rest, pended, h₅) = >>=-eq-ok (pend_outputs p known run os (suc n) pending') _ h₄ in
    let (numbered, kept) =
      pend_outputs-IsSequenced p known run os (suc n) pending' rest.0 rest.1 pended in
    let same : outputs ≡ record { output = o; sequence = n } ∷ rest.0 =
      ap (λ x. x.0) (ok_injective h₅) in
    (rw same (refl, numbered), ap (λ os'. map (λ x. x.output) os') same ∙ ap (λ os'. o ∷ os') kept)

pub commit-outputs :
    (p : Platform) (events : List StoredEvent) (s s' : MemoryStore) (v : ProcessingCommit)
    → (accepted : IsAccepted p events s v s') → s'.outputs ≡ s.outputs ++ accepted.outputs
unfolding write_commit
commit-outputs p events s s' v accepted = ap (λ t. t.outputs) accepted.written

commit-IsSequenced :
    (p : Platform) (events : List StoredEvent) (s s' : MemoryStore) (v : ProcessingCommit)
    → IsSequenced 1 s.outputs
    → commit p events s v ≡ ok s'
    → IsSequenced 1 s'.outputs
commit-IsSequenced p events s s' v before h =
    let accepted = commit-IsAccepted p events s s' v h in
    let numbered =
      (pend_outputs-IsSequenced p s.dedupe_keys v.cursor.core.run_id v.outputs
        (length s.outputs + 1) [] accepted.outputs accepted.identities accepted.pended).0 in
    rw (commit-outputs p events s s' v accepted) (
      IsSequenced-append 1 s.outputs accepted.outputs before
        (IsSequenced-cast accepted.outputs (omega arith) numbered))

-- In every store that accepted operations reach from the empty store, on any event logs, the outputs are
-- numbered 1, 2, 3 and so on without a gap.
pub Reaches-IsSequenced :
    (p : Platform) (s : MemoryStore) → Reaches p empty_store s → IsSequenced 1 s.outputs
Reaches-IsSequenced p _ here = tt
Reaches-IsSequenced p _ (committed events v s₁ s₂ before h) =
    commit-IsSequenced p events s₁ s₂ v (Reaches-IsSequenced p s₁ before) h
Reaches-IsSequenced p _ (registered r s₁ s₂ before h) =
    rw (ensure_run-KeepsRest p r s₁ s₂ h).outputs (Reaches-IsSequenced p s₁ before)
