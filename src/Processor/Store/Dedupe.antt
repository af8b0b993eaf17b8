-- ===== src/Processor/Store/Dedupe.antt =====
-- Proofs on the dedupe keys of the in-memory store.
use peas_engine.Prelude.{
  ℕ, suc, ◌+◌, ◌≡◌, sym, ap, ◌∙◌, String, inl, inr, List, [], ◌∷◌, All, All-append, All-get,
  get_elem?, Option, none, some, Option-cases, ok, guard, length, >>=-eq-ok, ok_injective, str_eq,
}
use peas_engine.Digest.{Platform}
use peas_engine.Events.{StoredEvent}
use peas_engine.Events.Log.{lookup}
use peas_engine.Processor.{ImmutableOutput, StoredOutput, ProcessingCommit, category_of}
use peas_engine.Processor.Hashes.{compute_body_hash, compute_output_dedupe_identity}
use peas_engine.Processor.Store.{
  MemoryStore, empty_store, put_all, pend_dedupe, pend_outputs, write_commit, commit,
}
use peas_engine.Processor.Store.Registered.{ensure_run-KeepsRest}
use peas_engine.Processor.Store.Accepted.{IsAccepted, commit-IsAccepted}
use peas_engine.Processor.Store.Concurrency.{Reaches, here, committed, registered}
use peas_engine.Processor.Store.Lookup.{lookup-Agrees-none, lookup-put_all, lookup-put_all_new}
use peas_engine.Processor.Store.Pending.{
  some_injective, Keyed, IsConsistent, pend_dedupe-IsConsistent,
}
use peas_engine.Processor.Store.Sequences.{commit-outputs}

-- Every output with a dedupe key is recorded under its identity.
abbrev IsKeyed : Platform → List (String × String) → List StoredOutput → Type 0
IsKeyed p m os = All (λ o. Keyed p m o.output o.output.dedupe_key) os

Keyed-mono :
    (p : Platform) (m m' : List (String × String)) (o : ImmutableOutput) (key : Option String)
    → ((j x : String) → lookup j m ≡ some x → lookup j m' ≡ some x)
    → Keyed p m o key
    → Keyed p m' o key
Keyed-mono p m m' o none keeps k = tt
Keyed-mono p m m' o (some key) keeps k = (k.0, k.1, keeps k.0 o.output_id k.2)

IsKeyed-mono :
    (p : Platform) (m m' : List (String × String)) (os : List StoredOutput)
    → ((j x : String) → lookup j m ≡ some x → lookup j m' ≡ some x)
    → IsKeyed p m os
    → IsKeyed p m' os
IsKeyed-mono p m m' [] keeps k = tt
IsKeyed-mono p m m' (o ∷ os) keeps k =
    (Keyed-mono p m m' o.output o.output.dedupe_key keeps k.0, IsKeyed-mono p m m' os keeps k.1)

-- The loop of a commit records its outputs, and keeps what is pending.
pend_outputs-IsKeyed :
    (p : Platform) (known : List (String × String)) (run : String) (os : List ImmutableOutput)
    (n : ℕ) (pending : List (String × String)) (outputs : List StoredOutput)
    (identities : List (String × String))
    → IsConsistent known pending
    → pend_outputs p known run os n pending ≡ ok (outputs, identities)
    → IsConsistent known identities
      × ((j x : String) → lookup j pending ≡ some x → lookup j identities ≡ some x)
      × IsKeyed p identities outputs
unfolding pend_outputs
pend_outputs-IsKeyed p known run [] n pending outputs identities consistent h =
    let same = ok_injective h in
    let empty : outputs ≡ [] = ap (λ x. x.0) same in
    let last : identities ≡ pending = ap (λ x. x.1) same in
    rw last (consistent, λ j x e. e, rw empty tt)
pend_outputs-IsKeyed p known run (o ∷ os) n pending outputs identities consistent h =
    let (_, _, h₁) = >>=-eq-ok (guard (str_eq o.run_id run) "Output run ID mismatch") _ h in
    let (hash, _, h₂) = >>=-eq-ok (compute_body_hash p o.body) _ h₁ in
    let (_, _, h₃) = >>=-eq-ok (guard (str_eq o.body_hash hash) "Output body hash mismatch") _ h₂ in
    let (pending', added, h₄) = >>=-eq-ok (pend_dedupe p known o o.dedupe_key pending) _ h₃ in
    let (rest, pended, h₅) = >>=-eq-ok (pend_outputs p known run os (suc n) pending') _ h₄ in
    let (consistent', keeps, keyed) =
      pend_dedupe-IsConsistent p known o o.dedupe_key pending pending' consistent added in
    let (consistent'', keeps', keyed') =
      pend_outputs-IsKeyed p known run os (suc n) pending' rest.0 rest.1 consistent' pended in
    let outputs-eq : outputs ≡ record { output = o; sequence = n } ∷ rest.0 =
      ap (λ x. x.0) (ok_injective h₅) in
    let identities-eq : identities ≡ rest.1 = ap (λ x. x.1) (ok_injective h₅) in
    rw identities-eq (
      consistent'',
      λ j x e. keeps' j x (keeps j x e),
      rw outputs-eq (Keyed-mono p pending' rest.1 o o.dedupe_key keeps' keyed, keyed'),
    )

-- Writing the pending identities keeps those of the store, and has the pending ones.
module _ (known pending : List (String × String)) (consistent : IsConsistent known pending) where
  put_all-pending :
      (j x : String) → lookup j pending ≡ some x → lookup j (put_all pending known) ≡ some x
  put_all-pending j x h = lookup-put_all_new j x x pending known (consistent.agrees j x h) h

  put_all-known :
      (j x : String) → lookup j known ≡ some x → lookup j (put_all pending known) ≡ some x
  put_all-known j x h = elim (Option-cases (lookup j pending)) [
    | inl absent ↦ lookup-put_all j x pending known (lookup-Agrees-none j x pending absent) h
    | inr (y, present) ↦
        put_all-pending j y present
        ∙ ap (λ t. some t) (sym (consistent.known_agrees j y x present h))
  ]

commit-dedupe_keys :
    (p : Platform) (events : List StoredEvent) (s s' : MemoryStore) (v : ProcessingCommit)
    → (accepted : IsAccepted p events s v s')
    → s'.dedupe_keys ≡ put_all accepted.identities s.dedupe_keys
unfolding write_commit
commit-dedupe_keys p events s s' v accepted = ap (λ t. t.dedupe_keys) accepted.written

empty-IsConsistent : (known : List (String × String)) → IsConsistent known []
unfolding lookup
empty-IsConsistent known = record { agrees = λ j x h. tt; known_agrees = λ j x y h e. cc }

commit-IsKeyed :
    (p : Platform) (events : List StoredEvent) (s s' : MemoryStore) (v : ProcessingCommit)
    → IsKeyed p s.dedupe_keys s.outputs
    → commit p events s v ≡ ok s'
    → IsKeyed p s'.dedupe_keys s'.outputs
commit-IsKeyed p events s s' v before h =
    let accepted = commit-IsAccepted p events s s' v h in
    let (consistent, _, keyed) =
      pend_outputs-IsKeyed p s.dedupe_keys v.cursor.core.run_id v.outputs (length s.outputs + 1) []
        accepted.outputs accepted.identities (empty-IsConsistent s.dedupe_keys) accepted.pended in
    let after = put_all accepted.identities s.dedupe_keys in
    rw (commit-dedupe_keys p events s s' v accepted) (
      rw (commit-outputs p events s s' v accepted) (
        All-append _ s.outputs accepted.outputs
          (IsKeyed-mono p s.dedupe_keys after s.outputs
            (put_all-known s.dedupe_keys accepted.identities consistent) before)
          (IsKeyed-mono p accepted.identities after accepted.outputs
            (put_all-pending s.dedupe_keys accepted.identities consistent) keyed)))

Reaches-IsKeyed :
    (p : Platform) (s : MemoryStore) → Reaches p empty_store s → IsKeyed p s.dedupe_keys s.outputs
Reaches-IsKeyed p _ here = tt
Reaches-IsKeyed p _ (committed events v s₁ s₂ before h) =
    commit-IsKeyed p events s₁ s₂ v (Reaches-IsKeyed p s₁ before) h
Reaches-IsKeyed p _ (registered r s₁ s₂ before h) =
    rw (ensure_run-KeepsRest p r s₁ s₂ h).dedupe_keys
      (rw (ensure_run-KeepsRest p r s₁ s₂ h).outputs (Reaches-IsKeyed p s₁ before))

Keyed-some :
    (p : Platform) (m : List (String × String)) (o : ImmutableOutput) (k : Option String)
    (key : String)
    → k ≡ some key
    → Keyed p m o k
    → (i : String) × (compute_output_dedupe_identity p o.run_id (category_of o.body) key ≡ ok i)
      × (lookup i m ≡ some o.output_id)
Keyed-some p m o none key e h = cc
Keyed-some p m o (some k) key e h =
    let same : key ≡ k = cc in
    (
      h.0,
      ap (λ x. compute_output_dedupe_identity p o.run_id (category_of o.body) x) same ∙ h.1,
      h.2,
    )

-- In every store that accepted operations reach from the empty store, two stored outputs of one run and one
-- category that have the same dedupe key have the same output ID.
pub Reaches-dedupe :
    (p : Platform) (s : MemoryStore) (i j : ℕ) (o o' : StoredOutput) (key : String)
    → Reaches p empty_store s
    → get_elem? s.outputs i ≡ some o
    → get_elem? s.outputs j ≡ some o'
    → o.output.dedupe_key ≡ some key
    → o'.output.dedupe_key ≡ some key
    → o.output.run_id ≡ o'.output.run_id
    → category_of o.output.body ≡ category_of o'.output.body
    → o.output.output_id ≡ o'.output.output_id
Reaches-dedupe p s i j o o' key reached at at' keyed keyed' run category =
    let all = Reaches-IsKeyed p s reached in
    let (n, hashed, found) =
      Keyed-some p s.dedupe_keys o.output o.output.dedupe_key key keyed
        (All-get _ s.outputs i o all at) in
    let (n', hashed', found') =
      Keyed-some p s.dedupe_keys o'.output o'.output.dedupe_key key keyed'
        (All-get _ s.outputs j o' all at') in
    let same : n' ≡ n = ok_injective (
      sym hashed
      ∙ ap (λ r. compute_output_dedupe_identity p r (category_of o.output.body) key) run
      ∙ ap (λ c. compute_output_dedupe_identity p o'.output.run_id c key) category
      ∙ hashed') in
    some_injective (sym found ∙ ap (λ k. lookup k s.dedupe_keys) (sym same) ∙ found')
