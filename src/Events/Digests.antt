-- ===== src/Events/Digests.antt =====
-- core/event.ts: the identities and digests of events, and their verification.
use peas_engine.Prelude.{
  ℕ, String, Bool, false, not, List, [], ◌∷◌, Option, none, some, Result, ok, ◌>>=◌, ◌>>◌, guard,
  fail_if, str_eq,
}
use peas_engine.Json.{Json, Fields, str, obj, nat, null, end, field, pos}
use peas_engine.Json.Limits.{assert_json_within_limits}
use peas_engine.Digest.{Platform, canonical_hash}
use peas_engine.Events.{
  ProviderIdentity, EventDraft, CapturedEvent, StoredEvent, event_payload_limits,
  event_envelope_limits, is_event_draft, is_stored_event,
}

abbrev optional_field : String → Option String → Fields → Fields
optional_field k none fs = fs
optional_field k (some s) fs = field k (str s) fs

abbrev pub epoch_json : Option ℕ → Json
epoch_json none = null
epoch_json (some n) = nat n

unfoldable pub provider_json : ProviderIdentity → Json
provider_json i = obj (
    field "provider" (str i.provider) (
      field "recordId" (str i.record_id)
        (field "revisionId" (str i.revision_id) (field "artifactHash" (str i.artifact_hash) end))))

-- The fields of a draft before those that extend it, as draftFromStored builds them.
unfoldable pub draft_fields : EventDraft → Fields → Fields
unfolding provider_json
draft_fields d fs = field "envelopeVersion" (nat 2) (
    field "type" (str d.event_type) (
      field "schemaVersion" (nat d.schema_version) (
        field "source" (str d.source) (
          field "subject" (str d.subject) (
            field "occurredAtMs" (epoch_json d.occurred_at_ms) (
              field "correlationId" (str d.correlation_id) (
                field "provider" (provider_json d.provider) (
                  field "payload" (obj d.payload)
                    (optional_field "causationId" d.causation_id fs)))))))))

unfoldable pub draft_json : EventDraft → Json
unfolding draft_fields
draft_json d = obj (draft_fields d end)

module _ (p : Platform) where
  -- `toString` of a bigint.
  abbrev pub decimal_text : ℕ → String
  decimal_text n = p.stringify.digits (pos n)

  unfoldable pub captured_fields : CapturedEvent → Fields → Fields
  unfolding draft_fields
  captured_fields e fs = draft_fields e.draft (
      field "eventId" (str e.event_id) (
        field "streamVersion" (str (decimal_text e.stream_version)) (
          field "receivedAtMs" (nat e.received_at_ms)
            (field "logicalAtMs" (nat e.logical_at_ms) fs))))

  unfoldable pub stored_json : StoredEvent → Json
  unfolding captured_fields
  stored_json e = obj (
      captured_fields e.captured (
        field "position" (str (decimal_text e.position)) (
          field "contentHash" (str e.content_hash) (
            field "previousEventHash" (str e.previous_event_hash)
              (field "eventHash" (str e.event_hash) end)))))

  -- validateEventDraft
  unfoldable pub validate_event_draft : EventDraft → Result EventDraft
  unfolding draft_json is_event_draft
  validate_event_draft d = do
    outer ← assert_json_within_limits p.stringify p.utf8 (draft_json d) event_envelope_limits
    guard (is_event_draft d) "the draft is not of the schema"
    inner ← assert_json_within_limits p.stringify p.utf8 (obj d.payload) event_payload_limits
    ok d

  -- validateStoredEvent
  unfoldable pub validate_stored_event : StoredEvent → Result StoredEvent
  unfolding stored_json is_stored_event
  validate_stored_event e = do
    outer ← assert_json_within_limits p.stringify p.utf8 (stored_json e) event_envelope_limits
    guard (is_stored_event e) "the event is not of the schema"
    inner ←
        assert_json_within_limits p.stringify p.utf8 (obj e.captured.draft.payload)
          event_payload_limits
    ok e

  -- providerKey
  unfoldable pub provider_key : ProviderIdentity → Result String
  provider_key i = canonical_hash p "peas/provider-identity/v1" (
      obj (
        field "provider" (str i.provider)
          (field "recordId" (str i.record_id) (field "revisionId" (str i.revision_id) end))))

  -- deriveEventId
  unfoldable pub derive_event_id : ProviderIdentity → Result String
  unfolding provider_json
  derive_event_id i = canonical_hash p "peas/local-event-id/v2" (provider_json i)

  -- computeContentHash
  unfoldable pub compute_content_hash : CapturedEvent → Result String
  unfolding captured_fields
  compute_content_hash e = canonical_hash p "peas/event-content/v2" (obj (captured_fields e end))

  -- computeEventHash
  unfoldable pub compute_event_hash : ℕ → String → String → Result String
  compute_event_hash position content previous = canonical_hash p "peas/event-chain/v2" (
      obj (
        field "position" (str (decimal_text position))
          (field "contentHash" (str content) (field "previousEventHash" (str previous) end))))

  abbrev pub differs_from : Option String → String → Bool
  differs_from none s = false
  differs_from (some t) s = not (str_eq s t)

  -- verifyStoredEvent
  unfoldable pub verify_stored_event : StoredEvent → Option String → Result (Unit {0})
  unfolding validate_stored_event
  verify_stored_event event expected = do
    e ← validate_stored_event event
    fail_if (differs_from expected e.previous_event_hash) "Event chain mismatch"
    id ← derive_event_id e.captured.draft.provider
    guard (str_eq e.captured.event_id id) "Event ID mismatch"
    content ← compute_content_hash e.captured
    guard (str_eq e.content_hash content) "Content hash mismatch"
    chained ← compute_event_hash e.position e.content_hash e.previous_event_hash
    guard (str_eq e.event_hash chained) "Event hash mismatch"

  -- verifyEventPage
  unfoldable pub verify_event_page : List StoredEvent → String → Result String
  unfolding verify_stored_event
  verify_event_page [] previous = ok previous
  verify_event_page (e ∷ es) previous =
      verify_stored_event e (some previous) >>= λ _. verify_event_page es e.event_hash
