-- ===== src/Events.antt =====
-- core/event.ts: the envelope of an event. The tests that zod makes are written out from the schemas
-- that the file declares; an absent optional field is `none`. `Digests` has the identities and the
-- verification, `Log` the logs of adapters/memory.
pub mod Digests
pub mod Log
pub mod Chain
pub mod Delivery
pub mod Paging
pub mod Evidence
mod Tests
use peas_engine.Prelude.{
  ℕ, ◌+◌, String, Bool, true, false, not, ◌&&◌, ◌||◌, List, [], ◌∷◌, Option, none, some, Result, ok,
  err, ◌>>=◌, ◌>>◌, guard, fail_if, leb, ltb, ◌==◌, str_eq, is_hash, codes, length, if◌then◌else◌,
}
use peas_engine.Json.{Json, Fields, str, num, obj, nat, null, end, field, pos, max_safe, code_units}
use peas_engine.Json.Limits.{JsonLimits, assert_json_within_limits}
use peas_engine.Digest.{Platform, canonical_hash}

pub record ProviderIdentity : Type 0 where
  pub provider : String
  pub record_id : String
  pub revision_id : String
  pub artifact_hash : String

-- EventDraft; `envelopeVersion` is 2.
pub record EventDraft : Type 0 where
  pub event_type : String
  pub schema_version : ℕ
  pub source : String
  pub subject : String
  pub occurred_at_ms : Option ℕ
  pub correlation_id : String
  pub causation_id : Option String
  pub provider : ProviderIdentity
  pub payload : Fields

-- CapturedEvent; the stream version is the number whose decimal text the source keeps.
pub record CapturedEvent : Type 0 where
  pub draft : EventDraft
  pub event_id : String
  pub stream_version : ℕ
  pub received_at_ms : ℕ
  pub logical_at_ms : ℕ

-- StoredEvent; the position likewise.
pub record StoredEvent : Type 0 where
  pub captured : CapturedEvent
  pub position : ℕ
  pub content_hash : String
  pub previous_event_hash : String
  pub event_hash : String

-- EVENT_PAYLOAD_LIMITS
abbrev pub event_payload_limits : JsonLimits
event_payload_limits = record {
  max_depth = 32;
  max_nodes = 50000;
  max_array_length = 10000;
  max_object_keys = 10000;
  max_string_bytes = 262144;
  max_canonical_bytes = 1048576;
}

-- EVENT_ENVELOPE_LIMITS
abbrev pub event_envelope_limits : JsonLimits
event_envelope_limits = record {
  max_depth = 33;
  max_nodes = 50032;
  max_array_length = 10000;
  max_object_keys = 10000;
  max_string_bytes = 262144;
  max_canonical_bytes = 1064960;
}

-- `z.string().min(1).max(512)`
unfoldable pub is_identifier : String → Bool
is_identifier s = let n = length (code_units (codes s)) in leb 1 n && leb n 512

abbrev pub is_optional_identifier : Option String → Bool
is_optional_identifier none = true
is_optional_identifier (some s) = is_identifier s

abbrev pub is_optional_epoch : Option ℕ → Bool
is_optional_epoch none = true
is_optional_epoch (some n) = leb n max_safe

-- providerIdentitySchema
unfoldable pub is_provider_identity : ProviderIdentity → Bool
unfolding is_identifier
is_provider_identity i =
    is_identifier i.provider
    && is_identifier i.record_id
    && is_identifier i.revision_id
    && is_hash i.artifact_hash

-- eventDraftSchema
unfoldable pub is_event_draft : EventDraft → Bool
unfolding is_provider_identity
is_event_draft d =
    is_identifier d.event_type
    && leb 1 d.schema_version
    && leb d.schema_version max_safe
    && is_identifier d.source
    && is_identifier d.subject
    && is_optional_epoch d.occurred_at_ms
    && is_identifier d.correlation_id
    && is_optional_identifier d.causation_id
    && is_provider_identity d.provider

-- storedEventSchema
unfoldable pub is_stored_event : StoredEvent → Bool
unfolding is_event_draft
is_stored_event e =
    is_event_draft e.captured.draft
    && is_hash e.captured.event_id
    && leb 1 e.captured.stream_version
    && leb e.captured.received_at_ms max_safe
    && leb e.captured.logical_at_ms max_safe
    && leb 1 e.position
    && is_hash e.content_hash
    && is_hash e.previous_event_hash
    && is_hash e.event_hash

-- assertPageLimit
abbrev pub assert_page_limit : ℕ → Result (Unit {0})
assert_page_limit limit =
    guard (leb 1 limit && leb limit 10000) "Page limit must be an integer between 1 and 10,000"
