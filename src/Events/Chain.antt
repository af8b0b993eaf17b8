-- ===== src/Events/Chain.antt =====
-- The chain of events that the log keeps.
use peas_engine.Prelude.{
  ℕ, ◌∙◌, ◌+◌, ◌-◌, ◌≤◌, ◌≡◌, refl, max, String, List, [], ◌∷◌, ◌++◌, some, ok, guard, leb, length,
  get_elem?, get_elem?-append, arith, All, >>=-eq-ok, ok_injective,
}
use peas_engine.Json.{max_safe}
use peas_engine.Digest.{Platform}
use peas_engine.Events.{EventDraft, CapturedEvent, StoredEvent}
use peas_engine.Events.Digests.{
  provider_key, derive_event_id, compute_content_hash, compute_event_hash,
}
use peas_engine.Events.Log.{
  lookup, last_event, genesis_hash, hash_or, logical_or, number_or_zero, EventLog, AppendResult,
  appended, capture, get,
}

-- An event that continues a chain at a position, after a digest and a logical time.
pub record IsLink (p : Platform) (position : ℕ) (previous : String) (low : ℕ) (e : StoredEvent)
    : Type 0 where
  pub at_position : e.position ≡ position
  pub linked : e.previous_event_hash ≡ previous
  pub ordered : low ≤ e.captured.logical_at_ms
  pub received : e.captured.received_at_ms ≤ e.captured.logical_at_ms
  pub identified : derive_event_id p e.captured.draft.provider ≡ ok e.captured.event_id
  pub content : compute_content_hash p e.captured ≡ ok e.content_hash
  pub chained :
      compute_event_hash p e.position e.content_hash e.previous_event_hash ≡ ok e.event_hash

abbrev pub IsChain : Platform → ℕ → String → ℕ → List StoredEvent → Type 0
IsChain p position previous low [] = Unit
IsChain p position previous low (e ∷ es) =
    IsLink p position previous low e
    × IsChain p (position + 1) e.event_hash e.captured.logical_at_ms es

-- What a list ends with does not depend on what stands for the empty list.
last_event-start :
    (a b : String) (m n : ℕ) (e : StoredEvent) (es : List StoredEvent)
    → (hash_or a (last_event (e ∷ es)) ≡ hash_or b (last_event (e ∷ es)))
      × (logical_or m (last_event (e ∷ es)) ≡ logical_or n (last_event (e ∷ es)))
unfolding last_event
last_event-start a b m n e [] = (refl, refl)
last_event-start a b m n e (f ∷ es) = last_event-start a b m n f es

last_event-cons :
    (start : String) (low : ℕ) (e : StoredEvent) (es : List StoredEvent)
    → (hash_or start (last_event (e ∷ es)) ≡ hash_or e.event_hash (last_event es))
      × (logical_or low (last_event (e ∷ es)) ≡ logical_or e.captured.logical_at_ms (last_event es))
unfolding last_event
last_event-cons start low e [] = (refl, refl)
last_event-cons start low e (f ∷ es) =
    last_event-start start e.event_hash low e.captured.logical_at_ms f es

last_event-nil :
    (start : String) (low : ℕ)
    → (hash_or start (last_event []) ≡ start) × (logical_or low (last_event []) ≡ low)
unfolding last_event
last_event-nil start low = (refl, refl)

IsLink-cast :
    {p : Platform} {n n' : ℕ} {h h' : String} {t t' : ℕ} {e : StoredEvent}
    → n ≡ n'
    → h ≡ h'
    → t ≡ t'
    → IsLink p n h t e
    → IsLink p n' h' t' e
IsLink-cast same same' same'' link = record {
  at_position = link.at_position ∙ same;
  linked = link.linked ∙ same';
  ordered = omega (arith, link.ordered, same'');
  received = link.received;
  identified = link.identified;
  content = link.content;
  chained = link.chained;
}

pub IsChain-append_last :
    (p : Platform) (position : ℕ) (start : String) (low : ℕ) (es : List StoredEvent)
    (e : StoredEvent)
    → IsChain p position start low es
    → IsLink p
        (position + length es)
        (hash_or start (last_event es))
        (logical_or low (last_event es))
        e
    → IsChain p position start low (es ++ e ∷ [])
IsChain-append_last p position start low [] e c link =
    (IsLink-cast (omega arith) (last_event-nil start low).0 (last_event-nil start low).1 link, tt)
IsChain-append_last p position start low (f ∷ es) e c link =
    let (hash, time) = last_event-cons start low f es in
    (
      c.0,
      IsChain-append_last p (position + 1) f.event_hash f.captured.logical_at_ms es e c.1
          (IsLink-cast (omega arith) hash time link),
    )

get_elem?-last :
    (es : List StoredEvent) (e : StoredEvent) → get_elem? (es ++ e ∷ []) (length es) ≡ some e
get_elem?-last [] e = refl
get_elem?-last (f ∷ es) e = get_elem?-last es e

-- What is read at a position stays when the log grows.
pub get-append :
    (es fs : List StoredEvent) (n : ℕ) (e : StoredEvent)
    → get es n ≡ some e
    → get (es ++ fs) n ≡ some e
unfolding get
get-append es fs n e h = ground (arith, get_elem?-append es fs (n - 1) e)

pub get-last :
    (es : List StoredEvent) (e : StoredEvent) → get (es ++ e ∷ []) (length es + 1) ≡ some e
unfolding get
get-last es e =
    let here = get_elem?-last es e in
    let same : length es + 1 - 1 ≡ length es = omega arith in ground arith

-- Each entry of an index points to an event of the log under the event's provider key.
abbrev pub Indexed : Platform → List StoredEvent → List (String × StoredEvent) → Type 0
Indexed p events =
    All (λ (k, e).
      (provider_key p e.captured.draft.provider ≡ ok k) × (get events e.position ≡ some e))

-- A log whose events are a chain from the first position, and whose index of provider records
-- points to events of the log under their keys.
pub record IsLog (p : Platform) (log : EventLog) : Type 0 where
  pub chain : IsChain p 1 genesis_hash 0 log.events
  pub indexed : Indexed p log.events log.provider_events

pub Indexed-append :
    (p : Platform) (es fs : List StoredEvent) (index : List (String × StoredEvent))
    → Indexed p es index
    → Indexed p (es ++ fs) index
Indexed-append p es fs [] i = tt
Indexed-append p es fs ((k, e) ∷ index) i =
    ((i.0.0, get-append es fs e.position e i.0.1), Indexed-append p es fs index i.1)

-- What `capture` adds to the log.
pub record IsCapture (p : Platform) (log : EventLog) (now : ℕ) (d : EventDraft) (key : String)
    (r : AppendResult) : Type 0 where
  pub link :
      IsLink p
        (1 + length log.events)
        (hash_or genesis_hash (last_event log.events))
        (logical_or 0 (last_event log.events))
        r.event
  pub events : r.log.events ≡ log.events ++ r.event ∷ []
  pub index : r.log.provider_events ≡ (key, r.event) ∷ log.provider_events
  pub draft : r.event.captured.draft ≡ d
  pub received : r.event.captured.received_at_ms ≡ now
  pub disposition : r.disposition ≡ appended

pub capture-IsCapture :
    (p : Platform) (log : EventLog) (now : ℕ) (d : EventDraft) (key : String) (r : AppendResult)
    → capture p log now d key ≡ ok r
    → IsCapture p log now d key r
unfolding capture
capture-IsCapture p log now d key r h =
    let (_, safe, h₁) =
      >>=-eq-ok
        (guard (leb now max_safe) "Trusted receipt time must be a non-negative safe integer") _ h in
    let (id, identified, h₂) = >>=-eq-ok (derive_event_id p d.provider) _ h₁ in
    let captured : CapturedEvent = record {
      draft = d;
      event_id = id;
      stream_version = number_or_zero (lookup d.subject log.stream_versions) + 1;
      received_at_ms = now;
      logical_at_ms = max (logical_or 0 (last_event log.events)) now;
    } in
    let (content, contained, h₃) = >>=-eq-ok (compute_content_hash p captured) _ h₂ in
    let (chained, linked, h₄) =
      >>=-eq-ok
        (compute_event_hash p (length log.events + 1) content
          (hash_or genesis_hash (last_event log.events)))
        _ h₃ in
    rw (ok_injective h₄) (record {
      link = record {
        at_position = omega arith;
        linked = refl;
        ordered = omega arith;
        received = omega arith;
        identified = identified;
        content = contained;
        chained = linked;
      };
      events = refl;
      index = refl;
      draft = refl;
      received = refl;
      disposition = refl;
    })
