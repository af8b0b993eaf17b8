-- ===== src/Events/Log.antt =====
-- adapters/memory/event-log.ts and captured-event-log.ts: the append-only log of events, and the
-- read-only log over a captured stream. A Map is an association list with its newest entry first, and
-- `now` is what the clock reads. A cursor is the number of its decimal text; a text that is no
-- number, or a negative one, makes the source throw, and is no cursor here. Copies of events are
-- the events.
use peas_engine.Prelude.{
  ℕ, ◌+◌, ◌-◌, max, String, Bool, List, [], ◌∷◌, ◌++◌, Option, none, some, Result, ok, ◌>>=◌, ◌>>◌,
  guard, leb, ltb, ◌==◌, str_eq, length, get_elem?, take, drop, if◌then◌else◌,
}
use peas_engine.Json.{canonical_json, max_safe}
use peas_engine.Digest.{Platform}
use peas_engine.Events.{EventDraft, CapturedEvent, StoredEvent, assert_page_limit}
use peas_engine.Events.Digests.{
  draft_json, validate_event_draft, provider_key, derive_event_id, compute_content_hash,
  compute_event_hash, verify_stored_event,
}

-- `map.get(key)`
unfoldable pub lookup {ℓ} : {A : Type ℓ} → String → List (String × A) → Option A
lookup key [] = none
lookup key ((k, a) ∷ es) = let rest = lookup key es in if str_eq key k then some a else rest

-- `events.at(-1)`
unfoldable pub last_event : List StoredEvent → Option StoredEvent
last_event [] = none
last_event (e ∷ []) = some e
last_event (e ∷ f ∷ es) = last_event (f ∷ es)

-- `"0".repeat(64)`
abbrev pub genesis_hash : String
genesis_hash = "0000000000000000000000000000000000000000000000000000000000000000"

abbrev pub hash_or : String → Option StoredEvent → String
hash_or start none = start
hash_or start (some e) = e.event_hash

abbrev pub logical_or : ℕ → Option StoredEvent → ℕ
logical_or start none = start
logical_or start (some e) = e.captured.logical_at_ms

abbrev pub number_or_zero : Option ℕ → ℕ
number_or_zero none = 0
number_or_zero (some n) = n

-- InMemoryEventLog
pub record EventLog : Type 0 where
  pub events : List StoredEvent
  pub provider_events : List (String × StoredEvent)
  pub stream_versions : List (String × ℕ)

abbrev pub empty_log : EventLog
empty_log = record { events = []; provider_events = []; stream_versions = [] }

pub data Disposition : Type 0 where
  appended redelivery : Disposition

-- AppendResult, with the log after the call.
pub record AppendResult : Type 0 where
  pub log : EventLog
  pub event : StoredEvent
  pub disposition : Disposition

module _ (p : Platform) where
  -- The branch of append for a known provider record.
  unfoldable pub redeliver : EventLog → EventDraft → StoredEvent → Result AppendResult
  redeliver log input existing = do
    guard (str_eq existing.captured.draft.provider.artifact_hash input.provider.artifact_hash)
        "changed content without a new revision"
    before ← canonical_json p.stringify (draft_json existing.captured.draft)
    after ← canonical_json p.stringify (draft_json input)
    guard (str_eq before after) "Provider redelivery metadata conflicts"
    ok (record { log = log; event = existing; disposition = redelivery })

  -- The branch for a new record.
  unfoldable pub capture : EventLog → ℕ → EventDraft → String → Result AppendResult
  unfolding last_event lookup
  capture log now input key = do
    guard (leb now max_safe) "Trusted receipt time must be a non-negative safe integer"
    let previous = last_event log.events
    let version = number_or_zero (lookup input.subject log.stream_versions) + 1
    id ← derive_event_id p input.provider
    let captured : CapturedEvent = record {
      draft = input;
      event_id = id;
      stream_version = version;
      received_at_ms = now;
      logical_at_ms = max (logical_or 0 previous) now;
    }
    content ← compute_content_hash p captured
    let position = length log.events + 1
    chained ← compute_event_hash p position content (hash_or genesis_hash previous)
    let event : StoredEvent = record {
      captured = captured;
      position = position;
      content_hash = content;
      previous_event_hash = hash_or genesis_hash previous;
      event_hash = chained;
    }
    ok (record {
      log = record {
        events = log.events ++ event ∷ [];
        provider_events = (key, event) ∷ log.provider_events;
        stream_versions = (input.subject, version) ∷ log.stream_versions;
      };
      event = event;
      disposition = appended;
    })

  unfoldable pub deliver :
      EventLog → ℕ → EventDraft → String → Option StoredEvent → Result AppendResult
  unfolding redeliver capture
  deliver log now input key none = capture log now input key
  deliver log now input key (some existing) = redeliver log input existing

  -- append
  unfoldable pub append : EventLog → ℕ → EventDraft → Result AppendResult
  unfolding deliver
  append log now value = do
    input ← validate_event_draft p value
    key ← provider_key p input.provider
    deliver log now input key (lookup key log.provider_events)

  -- The loop of the constructor of CapturedEventLog.
  unfoldable pub check_captured : ℕ → String → List StoredEvent → Result (Unit {0})
  check_captured position previous [] = ok tt
  check_captured position previous (e ∷ es) = do
    guard (e.position == position) "Captured stream position gap"
    verify_stored_event p e (some previous)
    check_captured (position + 1) e.event_hash es

  -- The constructor of CapturedEventLog.
  unfoldable pub open_captured : List StoredEvent → Result (List StoredEvent)
  unfolding check_captured
  open_captured es = check_captured 1 genesis_hash es >> ok es

-- get, of both logs.
unfoldable pub get : List StoredEvent → ℕ → Option StoredEvent
get events position = if ltb position 1 then none else get_elem? events (position - 1)

-- EventPage
pub record EventPage : Type 0 where
  pub events : List StoredEvent
  pub next_position : ℕ
  pub has_more : Bool

abbrev pub position_or : ℕ → Option StoredEvent → ℕ
position_or n none = n
position_or n (some e) = e.position

-- readAfter, of both logs.
unfoldable pub read_after : List StoredEvent → ℕ → ℕ → Result EventPage
unfolding last_event
read_after events cursor limit = do
  assert_page_limit limit
  let selected = take limit (drop cursor events)
  let next = position_or cursor (last_event selected)
  ok (record { events = selected; next_position = next; has_more = ltb next (length events) })
