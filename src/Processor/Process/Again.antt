-- ===== src/Processor/Process/Again.antt =====
-- `process` of an event at or before the cursor.
use peas_engine.Prelude.{
  ℕ, zero, suc, ◌-◌, ◌≤◌, ◌<◌, ◌≡◌, refl, sym, ap, ◌∙◌, String, true, false, ◌&&◌, List, [], ◌∷◌,
  none, some, Result, ok, ◌>>=◌, >>=-eq-ok, guard, fail_if, leb, ltb, ◌==◌, ==_iff, str_eq,
  str_eq_refl, length, get_elem?, if◌then◌else◌, arith,
}
use peas_engine.Json.{canonical_json}
use peas_engine.Json.Bytes.{IsUtf8}
use peas_engine.Json.Limits.{assert_json_within_limits}
use peas_engine.Json.Accounting.{within_limits_exact}
use peas_engine.Digest.{Platform}
use peas_engine.Events.{StoredEvent, event_envelope_limits}
use peas_engine.Events.Digests.{
  stored_json, validate_stored_event, verify_stored_event, differs_from, derive_event_id,
  compute_content_hash, compute_event_hash,
}
use peas_engine.Events.Evidence.{validate-same}
use peas_engine.Events.Log.{genesis_hash, check_captured, get}
use peas_engine.Processor.{RunCursor}
use peas_engine.Processor.Process.{
  ProcessingStore, Processor, verify_cursor, predecessor_hash, persisted_predecessor_hash,
  verify_same_event, verify_exact_persisted_event, verify_suffix_loop, verify_processed_suffix,
}
use peas_engine.Processor.Process.Run.{current_cursor, process_again, process_next, process_event}
use peas_engine.Processor.Process.Verified.{
  IsVerified, hash_at, check_captured-IsVerified, IsVerified-get, verify_suffix_loop-passes,
}

-- An event that verifies after a digest verifies without one.
verify_any :
    (p : Platform) (e : StoredEvent) (previous : String)
    → verify_stored_event p e (some previous) ≡ ok tt
    → (verify_stored_event p e none ≡ ok tt) × (validate_stored_event p e ≡ ok e)
unfolding verify_stored_event
verify_any p e previous h =
    let (e', valid, h₁) = >>=-eq-ok (validate_stored_event p e) _ h in
    let same = validate-same p e e' valid in
    let (_, _, h₂) =
      >>=-eq-ok
        (fail_if (differs_from p (some previous) e'.previous_event_hash) "Event chain mismatch") _
        h₁ in
    let tail : StoredEvent → Result (Unit {0}) = λ x.
      derive_event_id p x.captured.draft.provider >>= λ id.
      guard (str_eq x.captured.event_id id) "Event ID mismatch" >>= λ _.
      compute_content_hash p x.captured >>= λ content.
      guard (str_eq x.content_hash content) "Content hash mismatch" >>= λ _.
      compute_event_hash p x.position x.content_hash x.previous_event_hash >>= λ chained.
      guard (str_eq x.event_hash chained) "Event hash mismatch" in
    (ap (λ r. r >>= tail) valid ∙ h₂, valid ∙ ap (λ x. ok x) same)

-- A validated event has a canonical text.
validate-text :
    (p : Platform) (e : StoredEvent)
    → IsUtf8 p.utf8
    → validate_stored_event p e ≡ ok e
    → (text : String) × (canonical_json p.stringify (stored_json p e) ≡ ok text)
unfolding validate_stored_event
validate-text p e utf8 h =
    let (metrics, within, _) =
      >>=-eq-ok
        (assert_json_within_limits p.stringify p.utf8 (stored_json p e) event_envelope_limits) _
        h in
    let (text, encoded, _) =
      within_limits_exact p.stringify p.utf8 utf8 (stored_json p e) event_envelope_limits metrics
        within in
    (text, encoded)

get-elem :
    (events : List StoredEvent) (n : ℕ) (e : StoredEvent)
    → get events n ≡ some e
    → (1 ≤ n) × (get_elem? events (n - 1) ≡ some e)
unfolding get
get-elem events n e h = ground arith

elem-get : (events : List StoredEvent) (i : ℕ) → get events (suc i) ≡ get_elem? events i
unfolding get
elem-get events i =
    let past : ltb (suc i) 1 ≡ false = ground arith in
    let same : suc i - 1 ≡ i = omega arith in
    ap (λ b. if b then none else get_elem? events (suc i - 1)) past
    ∙ ap (λ k. get_elem? events k) same

elem_inside :
    (events : List StoredEvent) (i : ℕ)
    → i < length events
    → (e : StoredEvent) × (get_elem? events i ≡ some e)
elem_inside [] i h = elim h [ ]
elem_inside (e ∷ es) zero h = (e, refl)
elem_inside (e ∷ es) (suc i) h = elem_inside es i (omega (arith, h))

module _ (p : Platform) (events : List StoredEvent) (v : IsVerified p 1 genesis_hash events) where
  -- The digest before the event at i.
  predecessor-passes :
      (i : ℕ)
      → i < length events
      → persisted_predecessor_hash p events (suc i) ≡ ok (hash_at genesis_hash events i)
  unfolding persisted_predecessor_hash predecessor_hash
  predecessor-passes zero inside = refl
  predecessor-passes (suc j) inside =
      let (e, at) = elem_inside events j (omega (arith, inside)) in
      let (position, verified, hash, _) = IsVerified-get p 1 genesis_hash events j e v at in
      let found : get events (suc j) ≡ some e = elem-get events j ∙ at in
      let later : (suc (suc j) == 1) ≡ false = ground arith in
      let same : suc (suc j) - 1 ≡ suc j = omega arith in
      let n = suc (suc j) - 1 in
      ap (λ b. if b then ok genesis_hash else predecessor_hash p n (get events n)) later
      ∙ ap (λ k. predecessor_hash p k (get events k)) same
      ∙ ap (λ o. predecessor_hash p (suc j) o) found
      ∙ ap
          (λ b. guard b "Event log returned the wrong predecessor" >>= λ _.
            verify_stored_event p e none >>= λ _. ok e.event_hash)
          ((==_iff e.position (suc j)).1 (position ∙ omega arith))
      ∙ ap (λ r. r >>= λ _. ok e.event_hash) (verify_any p e _ verified).0
      ∙ ap (λ x. ok x) (sym hash)

  exact-passes :
      (i : ℕ) (e : StoredEvent)
      → IsUtf8 p.utf8
      → get_elem? events i ≡ some e
      → verify_exact_persisted_event p events e (hash_at genesis_hash events i) ≡ ok tt
  unfolding verify_exact_persisted_event verify_same_event
  exact-passes i e utf8 at =
      let (position, verified, hash, _) = IsVerified-get p 1 genesis_hash events i e v at in
      let (text, encoded) = validate-text p e utf8 (verify_any p e _ verified).1 in
      let found : get events e.position ≡ some e =
        ap (λ n. get events n) (position ∙ (omega arith)) ∙ elem-get events i ∙ at in
      let before = hash_at genesis_hash events i in
      ap (λ r. r >>= λ _. verify_same_event p e before (get events e.position)) verified
      ∙ ap (λ o. verify_same_event p e before o) found
      ∙ ap
          (λ r. r >>= λ _. canonical_json p.stringify (stored_json p e) >>= λ known.
            canonical_json p.stringify (stored_json p e) >>= λ t.
            guard (str_eq known t) "Event is not the exact persisted event")
          verified
      ∙ ap
          (λ r. r >>= λ known.
            r >>= λ t. guard (str_eq known t) "Event is not the exact persisted event")
          encoded
      ∙ ap (λ b. guard b "Event is not the exact persisted event") (str_eq_refl text)

  -- The log from an event to the cursor's passes, when the cursor's digest is that of its last event.
  suffix-passes :
      (i : ℕ) (e last : StoredEvent) (c : RunCursor)
      → get_elem? events i ≡ some e
      → get events c.core.processed_position ≡ some last
      → c.core.last_event_hash ≡ last.event_hash
      → suc i ≤ c.core.processed_position
      → verify_processed_suffix p events (suc i) e.event_hash c ≡ ok tt
  unfolding verify_processed_suffix
  suffix-passes i e last c at ends head before =
      let n = c.core.processed_position in
      let (_, _, hash, _) = IsVerified-get p 1 genesis_hash events i e v at in
      let (one, at_last) = get-elem events n last ends in
      let (_, _, hash_last, inside) =
        IsVerified-get p 1 genesis_hash events (n - 1) last v at_last in
      let same : suc (n - 1) ≡ n = omega (arith, one) in
      let end_hash : hash_at genesis_hash events n ≡ c.core.last_event_hash =
        ap (λ k. hash_at genesis_hash events k) (sym same) ∙ hash_last ∙ sym head in
      ap
        (λ h. verify_suffix_loop p n events c (suc i) h >>= λ q.
          guard (q.0 == n && str_eq q.1 c.core.last_event_hash)
            "Persisted event chain does not match cursor head")
        (sym hash)
      ∙ ap
          (λ r. r >>= λ q.
            guard (q.0 == n && str_eq q.1 c.core.last_event_hash)
              "Persisted event chain does not match cursor head")
          (verify_suffix_loop-passes p events c genesis_hash v (omega (arith, inside, one)) n
            (suc i) before (omega arith))
      ∙ ap
          (λ b.
            guard (b && str_eq (hash_at genesis_hash events n) c.core.last_event_hash)
              "Persisted event chain does not match cursor head")
          ((==_iff n n).1 refl)
      ∙ ap
          (λ h.
            guard (str_eq h c.core.last_event_hash)
              "Persisted event chain does not match cursor head")
          end_hash
      ∙ ap (λ b. guard b "Persisted event chain does not match cursor head")
          (str_eq_refl c.core.last_event_hash)

-- The part of `process` for such an event passes.
again-passes :
    {S : Type 0} (p : Platform) (api : ProcessingStore S) (d : Processor)
    (events : List StoredEvent)
    → IsVerified p 1 genesis_hash events
    → (s : S) (i : ℕ) (e last : StoredEvent) (c : RunCursor) → IsUtf8 p.utf8
    → get_elem? events i ≡ some e
    → i < length events
    → suc i ≡ e.position
    → get events c.core.processed_position ≡ some last
    → c.core.last_event_hash ≡ last.event_hash
    → e.position ≤ c.core.processed_position
    → process_again p api d events s e c ≡ ok (c, s)
unfolding process_again
again-passes p api d events v s i e last c utf8 at inside same ends head before =
    ap
      (λ n. persisted_predecessor_hash p events n >>= λ h.
        verify_exact_persisted_event p events e h >>= λ _.
        verify_processed_suffix p events n e.event_hash c >>= λ _. ok (c, s))
      (sym same)
    ∙ ap
        (λ r. r >>= λ h. verify_exact_persisted_event p events e h >>= λ _.
          verify_processed_suffix p events (suc i) e.event_hash c >>= λ _. ok (c, s))
        (predecessor-passes p events v i inside)
    ∙ ap
        (λ r. r >>= λ _. verify_processed_suffix p events (suc i) e.event_hash c >>= λ _. ok (c, s))
        (exact-passes p events v i e utf8 at)
    ∙ ap (λ r. r >>= λ _. ok (c, s))
        (suffix-passes p events v i e last c at ends head (omega (arith, same, before)))

-- The part of `process` after #initialize, for an event of the log at or before the cursor.
pub process_event-again :
    {S : Type 0} (p : Platform) (api : ProcessingStore S) (d : Processor)
    (events : List StoredEvent) (s : S) (e last : StoredEvent) (c : RunCursor)
    → IsUtf8 p.utf8
    → check_captured p 1 genesis_hash events ≡ ok tt
    → get events e.position ≡ some e
    → e.position ≤ c.core.processed_position
    → get events c.core.processed_position ≡ some last
    → c.core.last_event_hash ≡ last.event_hash
    → current_cursor p api d s ≡ ok c
    → verify_cursor p d c ≡ ok tt
    → process_event p api d events s e ≡ ok (c, s)
unfolding process_event
process_event-again {S = S} p api d events s e last c utf8 checked at before ends head now valid =
    let v = check_captured-IsVerified p 1 genesis_hash events checked in
    let (one, at_e) = get-elem events e.position e at in
    let i = e.position - 1 in
    let same : suc i ≡ e.position = omega (arith, one) in
    let (_, verified, _, inside) = IsVerified-get p 1 genesis_hash events i e v at_e in
    let (any, validated) = verify_any p e (hash_at genesis_hash events i) verified in
    let earlier : leb e.position c.core.processed_position ≡ true = ground (arith, before) in
    let branch : RunCursor → Result (RunCursor × S) = λ previous.
      if leb e.position previous.core.processed_position
      then process_again p api d events s e previous
      else process_next p api d events s e previous in
    let rest : RunCursor → Result (RunCursor × S) =
      λ previous. verify_cursor p d previous >>= λ _. branch previous in
    ap (λ r. r >>= λ _. verify_stored_event p e none >>= λ _. current_cursor p api d s >>= rest)
      validated
    ∙ ap (λ r. r >>= λ _. current_cursor p api d s >>= rest) any
    ∙ ap (λ r. r >>= rest) now
    ∙ ap (λ r. r >>= λ _. branch c) valid
    ∙ ap (λ b. if b then process_again p api d events s e c else process_next p api d events s e c)
        earlier
    ∙ again-passes p api d events v s i e last c utf8 at_e inside same ends head before
