-- ===== src/Processor/Verify/Scanned.antt =====
-- What the loop of verifyProcessingCommit asks of the outputs.
use peas_engine.Prelude.{
  ℕ, suc, ◌+◌, ◌≤◌, ◌≡◌, ◌≢◌, refl, sym, ap, ◌∙◌, String, true, false, Bool-cases, inl, inr, ◌&&◌,
  ◌||◌, List, [], ◌∷◌, map, All, ok, guard, guard-eq-ok, fail_if, fail_if-eq-ok, ltb, ◌==◌, ==_iff,
  not_ltb→le, str_eq, str_eq_refl, get_elem?, set, >>=-eq-ok, Result-cases, ok_injective,
  if◌then◌else◌, arith,
}
use peas_engine.Digest.{Platform}
use peas_engine.Processor.{
  RunRegistration, OutputBody, decision, job, outbox_message, category_of, ImmutableOutput,
  ProcessingCommit,
}
use peas_engine.Processor.Schemas.{persisted_limits}
use peas_engine.Processor.Hashes.{body_json, compute_body_hash, compute_output_id}
use peas_engine.Processor.Validate.{
  is_number, has, category_rank, within, validate_stored_output_body,
}
use peas_engine.Processor.Verify.{
  Scan, empty_scan, scan_dedupe, scan_body, scan_output, scan_outputs, verify_processing_commit,
}

abbrev pub rank_of : ImmutableOutput → ℕ
rank_of o = category_rank (category_of o.body)

-- How many outputs are of a category.
abbrev pub count_rank : ℕ → List ImmutableOutput → ℕ
count_rank n [] = 0
count_rank n (o ∷ os) = let rest = count_rank n os in if rank_of o == n then suc rest else rest

-- Outputs that may follow those seen: each is numbered by how many of its category come before it, no
-- category comes after a later one, and no two have one ID.
abbrev pub IsCanonicalAfter : List ImmutableOutput → List ImmutableOutput → Type 0
IsCanonicalAfter seen [] = Unit
IsCanonicalAfter seen (o ∷ os) =
    (o.ordinal ≡ count_rank (rank_of o) seen)
    × All (λ q. rank_of q ≤ rank_of o) seen
    × All (λ q. q.output_id ≢ o.output_id) seen
    × IsCanonicalAfter (o ∷ seen) os

-- What the loop keeps is what it has seen.
record Matches (s : Scan) (seen : List ImmutableOutput) : Type 0 where
  ordinals : s.next_ordinals ≡ count_rank 0 seen ∷ count_rank 1 seen ∷ count_rank 2 seen ∷ []
  ranks : All (λ q. rank_of q ≤ s.previous_rank) seen
  ids : s.output_ids ≡ map (λ q. q.output_id) seen

has_none :
    (id : String) (seen : List ImmutableOutput)
    → has id (map (λ q. q.output_id) seen) ≡ false
    → All (λ q. q.output_id ≢ id) seen
unfolding has
has_none id [] h = tt
has_none id (q ∷ seen) h = elim (Bool-cases (str_eq id q.output_id)) [
  | inl same ↦
      (let wrong = sym (ap (λ b. b || has id (map (λ x. x.output_id) seen)) same) ∙ h in cc)
  | inr other ↦ (
    λ e. (let wrong = sym (str_eq_refl id) ∙ ap (λ x. str_eq id x) (sym e) ∙ other in cc),
    has_none id seen (sym (ap (λ b. b || has id (map (λ x. x.output_id) seen)) other) ∙ h),
  )
]

-- The body only adds a dedupe identity.
scan_body-same :
    (p : Platform) (s s' : Scan) (run : String) (b : OutputBody)
    → scan_body p s run b ≡ ok s'
    → (s'.previous_rank ≡ s.previous_rank)
      × (s'.next_ordinals ≡ s.next_ordinals)
      × (s'.output_ids ≡ s.output_ids)
unfolding scan_body scan_dedupe
scan_body-same p s s' run (decision d) h =
    let same = ok_injective h in
    (ap (λ x. x.previous_rank) same, ap (λ x. x.next_ordinals) same, ap (λ x. x.output_ids) same)
scan_body-same p s s' run (job j) h = (ground arith, ground arith, ground arith)
scan_body-same p s s' run (outbox_message m) h = (ground arith, ground arith, ground arith)

-- An output's number, in the list of the next ordinals.
abbrev bump : ℕ → ℕ → ℕ → ℕ
bump r n k = if r == n then suc k else k

next_of_body :
    (b : OutputBody) (k : ℕ) (seen : List ImmutableOutput)
    → is_number
        (get_elem?
          (count_rank 0 seen ∷ count_rank 1 seen ∷ count_rank 2 seen ∷ [])
          (category_rank (category_of b)))
        k
      ≡ true
    → (k ≡ count_rank (category_rank (category_of b)) seen)
      × (set
            (count_rank 0 seen ∷ count_rank 1 seen ∷ count_rank 2 seen ∷ [])
            (category_rank (category_of b))
            (k + 1)
          ≡ bump (category_rank (category_of b)) 0 (count_rank 0 seen)
            ∷ bump (category_rank (category_of b)) 1 (count_rank 1 seen)
            ∷ bump (category_rank (category_of b)) 2 (count_rank 2 seen)
            ∷ [])
next_of_body (decision d) k seen h =
    let same : k ≡ count_rank 0 seen = sym ((==_iff (count_rank 0 seen) k).0 h) in
    let next : k + 1 ≡ suc (count_rank 0 seen) = omega (arith, same) in
    (same, ap (λ x. x ∷ count_rank 1 seen ∷ count_rank 2 seen ∷ []) next)
next_of_body (job j) k seen h =
    let same : k ≡ count_rank 1 seen = sym ((==_iff (count_rank 1 seen) k).0 h) in
    let next : k + 1 ≡ suc (count_rank 1 seen) = omega (arith, same) in
    (same, ap (λ x. count_rank 0 seen ∷ x ∷ count_rank 2 seen ∷ []) next)
next_of_body (outbox_message m) k seen h =
    let same : k ≡ count_rank 2 seen = sym ((==_iff (count_rank 2 seen) k).0 h) in
    let next : k + 1 ≡ suc (count_rank 2 seen) = omega (arith, same) in
    (same, ap (λ x. count_rank 0 seen ∷ count_rank 1 seen ∷ x ∷ []) next)

next_ordinal :
    (o : ImmutableOutput) (seen : List ImmutableOutput)
    → is_number
        (get_elem? (count_rank 0 seen ∷ count_rank 1 seen ∷ count_rank 2 seen ∷ []) (rank_of o))
        o.ordinal
      ≡ true
    → (o.ordinal ≡ count_rank (rank_of o) seen)
      × (set
            (count_rank 0 seen ∷ count_rank 1 seen ∷ count_rank 2 seen ∷ [])
            (rank_of o)
            (o.ordinal + 1)
          ≡ count_rank 0 (o ∷ seen) ∷ count_rank 1 (o ∷ seen) ∷ count_rank 2 (o ∷ seen) ∷ [])
next_ordinal o seen h = next_of_body o.body o.ordinal seen h

ranks-le :
    (a b : ℕ) (seen : List ImmutableOutput)
    → a ≤ b
    → All (λ q. rank_of q ≤ a) seen
    → All (λ q. rank_of q ≤ b) seen
ranks-le a b [] le h = tt
ranks-le a b (q ∷ seen) le h = (omega (arith, le, h.0), ranks-le a b seen le h.1)

scan_output-Matches :
    (p : Platform) (v : ProcessingCommit) (r : RunRegistration) (s s' : Scan)
    (seen : List ImmutableOutput) (o : ImmutableOutput)
    → Matches s seen
    → scan_output p v r s o ≡ ok s'
    → (o.ordinal ≡ count_rank (rank_of o) seen)
      × All (λ q. rank_of q ≤ rank_of o) seen
      × All (λ q. q.output_id ≢ o.output_id) seen
      × Matches s' (o ∷ seen)
unfolding scan_output
scan_output-Matches p v r s s' seen o matches h =
    let rank = rank_of o in
    let (_, ordered, h₁) =
      >>=-eq-ok (fail_if (ltb rank s.previous_rank) "Outputs are not in canonical category order") _
        h in
    let (_, new, h₂) =
      >>=-eq-ok (fail_if (has o.output_id s.output_ids) "Duplicate output ID in commit") _ h₁ in
    let (_, numbered, h₃) =
      >>=-eq-ok
        (guard (is_number (get_elem? s.next_ordinals rank) o.ordinal)
          "Non-contiguous output ordinal")
        _ h₂ in
    let (_, _, h₄) =
      >>=-eq-ok
        (guard
          (str_eq o.run_id v.cursor.core.run_id
            && str_eq o.input_event_id v.event.captured.event_id
            && o.input_position == v.event.position
            && str_eq o.aggregate_id v.aggregate.core.aggregate_id)
          "Output metadata does not match its input event, aggregate, or run")
        _ h₃ in
    let (_, _, h₅) = >>=-eq-ok (within p persisted_limits (body_json o.body)) _ h₄ in
    let (hash, _, h₆) = >>=-eq-ok (compute_body_hash p o.body) _ h₅ in
    let (_, _, h₇) = >>=-eq-ok (guard (str_eq o.body_hash hash) "Output body hash mismatch") _ h₆ in
    let (id, _, h₈) =
      >>=-eq-ok
        (compute_output_id p o.run_id r.manifest_hash v.event.event_hash o.aggregate_id
          (category_of o.body) o.ordinal o.body_hash)
        _ h₇ in
    let (_, _, h₉) =
      >>=-eq-ok (guard (str_eq o.output_id id) "Output ID integrity mismatch") _ h₈ in
    let (_, _, ha) =
      >>=-eq-ok (validate_stored_output_body p o.body o.run_id o.dedupe_key o.not_before_logical_ms)
        _ h₉ in
    let (rank', ordinals', ids') = scan_body-same p _ s' o.run_id o.body ha in
    let (ordinal, next) = next_ordinal o seen (
      ap (λ xs. is_number (get_elem? xs rank) o.ordinal) (sym matches.ordinals)
      ∙ guard-eq-ok _ _ numbered) in
    let low =
      ranks-le s.previous_rank rank seen
        (not_ltb→le rank s.previous_rank (fail_if-eq-ok _ _ ordered)) matches.ranks in
    (
      ordinal,
      low,
      has_none o.output_id seen
          (ap (λ xs. has o.output_id xs) (sym matches.ids) ∙ fail_if-eq-ok _ _ new),
      record {
        ordinals = ordinals' ∙ ap (λ xs. set xs rank (o.ordinal + 1)) matches.ordinals ∙ next;
        ranks =
            (omega (arith, rank'), ranks-le rank s'.previous_rank seen (omega (arith, rank')) low);
        ids = ids' ∙ ap (λ xs. o.output_id ∷ xs) matches.ids;
      },
    )

scan_outputs-IsCanonicalAfter :
    (p : Platform) (v : ProcessingCommit) (r : RunRegistration) (s s' : Scan)
    (seen os : List ImmutableOutput)
    → Matches s seen
    → scan_outputs p v r s os ≡ ok s'
    → IsCanonicalAfter seen os
unfolding scan_outputs
scan_outputs-IsCanonicalAfter p v r s s' seen [] matches h = tt
scan_outputs-IsCanonicalAfter p v r s s' seen (o ∷ os) matches h =
    let (s₁, scanned, h₁) = >>=-eq-ok (scan_output p v r s o) _ h in
    let (ordinal, low, new, matches') = scan_output-Matches p v r s s₁ seen o matches scanned in
    (ordinal, low, new, scan_outputs-IsCanonicalAfter p v r s₁ s' (o ∷ seen) os matches' h₁)

verify_processing_commit-scanned :
    (p : Platform) (v : ProcessingCommit) (r : RunRegistration)
    → verify_processing_commit p v r ≡ ok tt
    → (s : Scan) × (scan_outputs p v r empty_scan v.outputs ≡ ok s)
unfolding verify_processing_commit
verify_processing_commit-scanned p v r h =
    elim (Result-cases (scan_outputs p v r empty_scan v.outputs)) [
      | inl scanned ↦ scanned
      | inr (e, failed) ↦ ground (arith, failed)
    ]

-- A commit that verifies has canonical outputs: each is numbered by how many outputs of its category come
-- before it, decisions come before jobs and jobs before outbox messages, and no two have one ID.
pub verify_processing_commit-IsCanonicalAfter :
    (p : Platform) (v : ProcessingCommit) (r : RunRegistration)
    → verify_processing_commit p v r ≡ ok tt
    → IsCanonicalAfter [] v.outputs
verify_processing_commit-IsCanonicalAfter p v r h =
    let (s, scanned) = verify_processing_commit-scanned p v r h in
    scan_outputs-IsCanonicalAfter p v r empty_scan s [] v.outputs
      (record { ordinals = refl; ranks = tt; ids = refl }) scanned
