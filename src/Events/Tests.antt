-- ===== src/Events/Tests.antt =====
-- A log that takes one event, and the theorems on logs at it.
use peas_engine.Prelude.{
  ◌+◌, ◌≤◌, ◌≡◌, refl, String, [], ◌∷◌, ◌++◌, none, some, ok, length, drop, ltb, arith, is_hash,
}
use peas_engine.Json.{end, field, str, code_units, canonical_json}
use peas_engine.Json.Limits.{
  assert_json_within_limits, assert_json_limits, visit, count_items, count_fields, check_keys,
  add_key_bytes,
}
use peas_engine.Fixtures.{hash, platform, codes-IsUtf8}
use peas_engine.Digest.{canonical_hash, hash_parts}
use peas_engine.Events.{EventDraft, StoredEvent, is_event_draft}
use peas_engine.Events.Digests.{
  draft_json, validate_event_draft, provider_key, derive_event_id, compute_content_hash,
  compute_event_hash, verify_stored_event, verify_event_page,
}
use peas_engine.Events.Log.{
  EventLog, empty_log, AppendResult, appended, redelivery, append, capture, deliver, get,
  genesis_hash, EventPage, read_after, lookup, last_event, open_captured,
}
use peas_engine.Events.Chain.{IsLog}
use peas_engine.Events.Delivery.{append-IsLog, append-again, Extends}
use peas_engine.Events.Paging.{
  IsNumbered, IsChain-IsNumbered, read_after-page, open_captured-verified,
}

abbrev draft : EventDraft
draft = record {
  event_type = "filing";
  schema_version = 1;
  source = "sec";
  subject = "NVDA";
  occurred_at_ms = none;
  correlation_id = "c";
  causation_id = none;
  provider = record { provider = "sec"; record_id = "1"; revision_id = "1"; artifact_hash = hash };
  payload = field "form" (str "8-K") end;
}

abbrev event : StoredEvent
event = record {
  captured = record {
    draft = draft;
    event_id = hash;
    stream_version = 1;
    received_at_ms = 500;
    logical_at_ms = 500;
  };
  position = 1;
  content_hash = hash;
  previous_event_hash = genesis_hash;
  event_hash = hash;
}

abbrev after : EventLog
after = record {
  events = event ∷ [];
  provider_events = (hash, event) ∷ [];
  stream_versions = ("NVDA", 1) ∷ [];
}

abbrev result : AppendResult
result = record { log = after; event = event; disposition = appended }

first_append : append platform empty_log 500 draft ≡ ok result
unfolding append deliver capture validate_event_draft assert_json_within_limits assert_json_limits
    visit count_items count_fields check_keys add_key_bytes draft_json is_event_draft is_hash
    provider_key derive_event_id compute_content_hash compute_event_hash canonical_hash hash_parts
    lookup last_event code_units canonical_json
first_append = refl

empty_log-IsLog : IsLog platform empty_log
empty_log-IsLog = record { chain = tt; indexed = tt }

append-IsLog_example :
    IsLog platform after × Extends empty_log result × (get after.events event.position ≡ some event)
append-IsLog_example = append-IsLog platform empty_log 500 draft result empty_log-IsLog first_append

append-again_example :
    append platform after 700 draft
    ≡ ok (record { log = after; event = event; disposition = redelivery })
append-again_example =
    append-again platform empty_log 500 700 draft result codes-IsUtf8 first_append

after-IsLog : IsLog platform after
after-IsLog = (append-IsLog platform empty_log 500 draft result empty_log-IsLog first_append).0

read_after-page_example :
    (page : EventPage) × (read_after after.events 0 10 ≡ ok page)
    × (length page.events ≤ 10)
    × (page.next_position ≡ 0 + length page.events)
    × (page.events ++ drop page.next_position after.events ≡ drop 0 after.events)
    × (page.has_more ≡ ltb page.next_position (length after.events))
read_after-page_example =
    read_after-page after.events 0 10
      (IsChain-IsNumbered platform 1 genesis_hash 0 after.events after-IsLog.chain) (omega arith)
      (omega arith)

opened : open_captured platform (event ∷ []) ≡ ok (event ∷ [])
unfolding open_captured verify_stored_event assert_json_within_limits count_fields check_keys
    add_key_bytes code_units is_hash derive_event_id canonical_hash canonical_json
    compute_content_hash compute_event_hash
opened = refl

open_captured-verified_example :
    (event ∷ [] ≡ event ∷ [])
    × IsNumbered 1 (event ∷ [])
    × ((h : String) × (verify_event_page platform (event ∷ []) genesis_hash ≡ ok h))
open_captured-verified_example = open_captured-verified platform (event ∷ []) (event ∷ []) opened
