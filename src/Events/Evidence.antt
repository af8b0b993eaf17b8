-- ===== src/Events/Evidence.antt =====
-- Proofs on what the last digest of a verified page commits to.
mod Links
mod Tests
use peas_engine.Prelude.{
  All, ◌≡◌, ◌⊎◌, inl, inr, refl, sym, ap, ◌∙◌, String, false, List, [], ◌∷◌, some, ok, ◌>>=◌,
  >>=-eq-ok, ok_injective, guard, fail_if, fail_if-eq-ok, guard-eq-ok, str_eq, str_eq_iff, length,
  arith,
}
use peas_engine.Json.{obj}
use peas_engine.Json.Bytes.{IsUtf8}
use peas_engine.Json.Limits.{assert_json_within_limits}
use peas_engine.Digest.{Platform}
use peas_engine.Digest.Framing.{Fits}
use peas_engine.Digest.Binding.{Collision, EncodesFaithfully}
use peas_engine.Events.{StoredEvent, event_envelope_limits, event_payload_limits, is_stored_event}
use peas_engine.Events.Digests.{
  stored_json, decimal_text, differs_from, validate_stored_event, derive_event_id,
  compute_content_hash, compute_event_hash, verify_stored_event, verify_event_page,
}
use peas_engine.Events.Evidence.Links.{
  Delimits, link_json, content_json, IsShort, SameText, canonical_hash-binding, link-binding,
}

-- What an event that verifies after a digest says of its digests.
record IsLinked (p : Platform) (previous : String) (e : StoredEvent) : Type 0 where
  linked : e.previous_event_hash ≡ previous
  content : compute_content_hash p e.captured ≡ ok e.content_hash
  chained : compute_event_hash p e.position e.content_hash e.previous_event_hash ≡ ok e.event_hash

pub validate-same : (p : Platform) (e e' : StoredEvent) → validate_stored_event p e ≡ ok e' → e' ≡ e
unfolding validate_stored_event
validate-same p e e' h =
    let (_, _, h₁) =
      >>=-eq-ok
        (assert_json_within_limits p.stringify p.utf8 (stored_json p e) event_envelope_limits) _
        h in
    let (_, _, h₂) = >>=-eq-ok (guard (is_stored_event e) "the event is not of the schema") _ h₁ in
    let (_, _, h₃) =
      >>=-eq-ok
        (assert_json_within_limits p.stringify p.utf8 (obj e.captured.draft.payload)
          event_payload_limits)
        _ h₂ in
    ok_injective h₃

same_previous :
    (p : Platform) (e : StoredEvent) (previous : String)
    → differs_from p (some previous) e.previous_event_hash ≡ false
    → e.previous_event_hash ≡ previous
same_previous p e previous h = (str_eq_iff e.previous_event_hash previous).0 (ground (arith, h))

verify-IsLinked :
    (p : Platform) (e : StoredEvent) (previous : String)
    → verify_stored_event p e (some previous) ≡ ok tt
    → IsLinked p previous e
unfolding verify_stored_event
verify-IsLinked p e previous h =
    let (e', valid, h₁) = >>=-eq-ok (validate_stored_event p e) _ h in
    let (_, after_digest, h₂) =
      >>=-eq-ok
        (fail_if (differs_from p (some previous) e'.previous_event_hash) "Event chain mismatch") _
        h₁ in
    let (id, derived, h₃) = >>=-eq-ok (derive_event_id p e'.captured.draft.provider) _ h₂ in
    let (_, identified, h₄) =
      >>=-eq-ok (guard (str_eq e'.captured.event_id id) "Event ID mismatch") _ h₃ in
    let (content, contained, h₅) = >>=-eq-ok (compute_content_hash p e'.captured) _ h₄ in
    let (_, same_content, h₆) =
      >>=-eq-ok (guard (str_eq e'.content_hash content) "Content hash mismatch") _ h₅ in
    let (hash, chained, h₇) =
      >>=-eq-ok (compute_event_hash p e'.position e'.content_hash e'.previous_event_hash) _ h₆ in
    let before = fail_if-eq-ok _ _ after_digest in
    let contents = (str_eq_iff e'.content_hash content).0 (guard-eq-ok _ _ same_content) in
    let hashes = (str_eq_iff e'.event_hash hash).0 (guard-eq-ok _ _ h₇) in
    rw (sym (validate-same p e e' valid)) (record {
      linked = same_previous p e' previous before;
      content = contained ∙ ap (λ x. ok x) (sym contents);
      chained = chained ∙ ap (λ x. ok x) (sym hashes);
    })

-- Two events with the same digests, positions and canonical text of their contents.
abbrev pub SameEvent : Platform → StoredEvent → StoredEvent → Type 0
SameEvent p e e' =
    (e.event_hash ≡ e'.event_hash)
    × (e.previous_event_hash ≡ e'.previous_event_hash)
    × (decimal_text p e.position ≡ decimal_text p e'.position)
    × SameText p (content_json p e) (content_json p e')

abbrev pub SameEvents : Platform → List StoredEvent → List StoredEvent → Type 0
SameEvents p [] [] = Unit
SameEvents p [] (f ∷ fs) = ⊥
SameEvents p (e ∷ es) [] = ⊥
SameEvents p (e ∷ es) (f ∷ fs) = SameEvent p e f × SameEvents p es fs

-- The texts that the digests of events are taken of are shorter than 2^64 bytes.
abbrev pub AreShort : Platform → List StoredEvent → Type 0
AreShort p = All (λ e. IsShort p (link_json p e) × IsShort p (content_json p e))

domains-Fits :
    (p : Platform)
    → IsUtf8 p.utf8
    → Fits (p.utf8 "peas/event-chain/v2") × Fits (p.utf8 "peas/event-content/v2")
domains-Fits p utf8 = (
  omega (arith, utf8.ascii "peas/event-chain/v2" refl),
  omega (arith, utf8.ascii "peas/event-content/v2" refl),
)

module _ (p : Platform) (utf8 : IsUtf8 p.utf8) (u : EncodesFaithfully p)
    (d : Delimits p.stringify) where
  event-binding :
      (e f : StoredEvent) (previous previous' : String)
      → (IsShort p (link_json p e) × IsShort p (content_json p e))
      → (IsShort p (link_json p f) × IsShort p (content_json p f))
      → IsLinked p previous e
      → IsLinked p previous' f
      → e.event_hash ≡ f.event_hash
      → ((previous ≡ previous') × SameEvent p e f) ⊎ Collision p
  unfolding compute_content_hash
  event-binding e f previous previous' short short' is is' same =
      let (named, named') = domains-Fits p utf8 in
      elim (link-binding p e f f.event_hash u d named short.0 short'.0
        (is.chained ∙ ap (λ x. ok x) same) is'.chained) [
          | inr collision ↦ inr collision
          | inl (positions, contents, previouses) ↦
              elim (canonical_hash-binding p "peas/event-content/v2" (content_json p e)
                (content_json p f) f.content_hash u named' short.1 short'.1
                (is.content ∙ ap (λ x. ok x) contents) is'.content) [
                  | inr collision ↦ inr collision
                  | inl texts ↦ inl (
                    sym is.linked ∙ previouses ∙ is'.linked,
                    (same, previouses, positions, texts),
                  )
                ]
        ]

  page-binding :
      (es fs : List StoredEvent) (previous previous' h : String)
      → length es ≡ length fs
      → AreShort p es
      → AreShort p fs
      → verify_event_page p es previous ≡ ok h
      → verify_event_page p fs previous' ≡ ok h
      → ((previous ≡ previous') × SameEvents p es fs) ⊎ Collision p
  unfolding verify_event_page
  page-binding [] [] previous previous' h n short short' v v' = inl (ok_injective (v' ∙ sym v), tt)
  page-binding [] (f ∷ fs) previous previous' h n short short' v v' = absurd (omega (arith, n))
  page-binding (e ∷ es) [] previous previous' h n short short' v v' = absurd (omega (arith, n))
  page-binding (e ∷ es) (f ∷ fs) previous previous' h n short short' v v' =
      let (_, one, rest) = >>=-eq-ok (verify_stored_event p e (some previous)) _ v in
      let (_, one', rest') = >>=-eq-ok (verify_stored_event p f (some previous')) _ v' in
      elim (page-binding es fs e.event_hash f.event_hash h (omega (arith, n)) short.1 short'.1 rest
        rest') [
          | inr collision ↦ inr collision
          | inl (hashes, events) ↦
              elim (event-binding e f previous previous' short.0 short'.0
                (verify-IsLinked p e previous one) (verify-IsLinked p f previous' one') hashes) [
                  | inr collision ↦ inr collision
                  | inl (previouses, here) ↦ inl (previouses, (here, events))
                ]
        ]

-- Tamper evidence: if UTF-8 encoding is injective and encodes texts piece by piece and ASCII by
-- single bytes, a quoted string ends itself, and the texts that the digests are taken of are
-- shorter than 2^64 bytes, then two pages of as many events that verifyEventPage verifies, each
-- after its own digest, and that it gives one last digest, were verified after the same digest,
-- and agree event by event in their digests, in the digest of the predecessor, in the text of
-- the position and in the canonical text of the content (the event without its position and its
-- digests); or they exhibit a collision of SHA-256.
pub verify_event_page-binding :
    (p : Platform)
    → IsUtf8 p.utf8
    → EncodesFaithfully p
    → Delimits p.stringify
    → (es fs : List StoredEvent) (previous previous' h : String) → length es ≡ length fs
    → AreShort p es
    → AreShort p fs
    → verify_event_page p es previous ≡ ok h
    → verify_event_page p fs previous' ≡ ok h
    → ((previous ≡ previous') × SameEvents p es fs) ⊎ Collision p
verify_event_page-binding p utf8 u d es fs previous previous' h =
    page-binding p utf8 u d es fs previous previous' h
