-- ===== src/Events/Delivery.antt =====
-- Proofs on appending to the log: new deliveries and redeliveries.
use peas_engine.Prelude.{
  ℕ, ◌+◌, ◌≡◌, ◌⊎◌, inl, inr, refl, sym, ◌∙◌, ap, String, List, [], ◌∷◌, ◌++◌, Option, none, some,
  ok, guard, All, >>=-eq-ok, ok_injective, str_eq, str_eq_iff, str_eq_refl, arith, length,
  Bool-cases,
}
use peas_engine.Json.{Json, canonical_json}
use peas_engine.Json.Bytes.{IsUtf8}
use peas_engine.Json.Limits.{assert_json_within_limits}
use peas_engine.Json.Accounting.{within_limits_exact}
use peas_engine.Digest.{Platform}
use peas_engine.Events.{
  EventDraft, StoredEvent, is_event_draft, event_envelope_limits, event_payload_limits,
}
use peas_engine.Events.Digests.{draft_json, validate_event_draft, provider_key}
use peas_engine.Events.Log.{
  lookup, EventLog, AppendResult, appended, redelivery, redeliver, deliver, append, get,
}
use peas_engine.Events.Chain.{
  IsLog, IsCapture, capture-IsCapture, Indexed-append, get-last, IsChain-append_last,
}

-- What an accepted redelivery has checked.
record IsRedelivery (p : Platform) (log : EventLog) (d : EventDraft) (existing : StoredEvent)
    (r : AppendResult) : Type 0 where
  result : r ≡ record { log = log; event = existing; disposition = redelivery }
  again : redeliver p log d existing ≡ ok r

redeliver-IsRedelivery :
    (p : Platform) (log : EventLog) (d : EventDraft) (existing : StoredEvent) (r : AppendResult)
    → redeliver p log d existing ≡ ok r
    → IsRedelivery p log d existing r
unfolding redeliver
redeliver-IsRedelivery p log d existing r h =
    let (_, same, h₁) =
      >>=-eq-ok
        (guard (str_eq existing.captured.draft.provider.artifact_hash d.provider.artifact_hash)
          "changed content without a new revision")
        _ h in
    let (before, b, h₂) =
      >>=-eq-ok (canonical_json p.stringify (draft_json existing.captured.draft)) _ h₁ in
    let (after, a, h₃) = >>=-eq-ok (canonical_json p.stringify (draft_json d)) _ h₂ in
    let (_, alike, h₄) =
      >>=-eq-ok (guard (str_eq before after) "Provider redelivery metadata conflicts") _ h₃ in
    record { result = ok_injective h₄; again = h }

-- The two ways of an accepted append.
data Way (p : Platform) (log : EventLog) (now : ℕ) (d : EventDraft) (key : String)
    (r : AppendResult) : Type 0 where
  known :
      (existing : StoredEvent)
      → lookup key log.provider_events ≡ some existing
      → IsRedelivery p log d existing r
      → Way p log now d key r
  new : lookup key log.provider_events ≡ none → IsCapture p log now d key r → Way p log now d key r

record IsAppend (p : Platform) (log : EventLog) (now : ℕ) (d : EventDraft) (r : AppendResult)
    : Type 0 where
  key : String
  validated : validate_event_draft p d ≡ ok d
  keyed : provider_key p d.provider ≡ ok key
  way : Way p log now d key r

validated_same : (p : Platform) (d d' : EventDraft) → validate_event_draft p d ≡ ok d' → d' ≡ d
unfolding validate_event_draft
validated_same p d d' h =
    let (_, outer, h₁) =
      >>=-eq-ok (assert_json_within_limits p.stringify p.utf8 (draft_json d) event_envelope_limits)
        _ h in
    let (_, shaped, h₂) =
      >>=-eq-ok (guard (is_event_draft d) "the draft is not of the schema") _ h₁ in
    let (_, inner, h₃) =
      >>=-eq-ok
        (assert_json_within_limits p.stringify p.utf8 (Json.obj d.payload) event_payload_limits) _
        h₂ in
    ok_injective h₃

deliver-Way :
    (p : Platform) (log : EventLog) (now : ℕ) (d : EventDraft) (key : String) (r : AppendResult)
    (o : Option StoredEvent)
    → lookup key log.provider_events ≡ o
    → deliver p log now d key o ≡ ok r
    → Way p log now d key r
unfolding deliver
deliver-Way p log now d key r none e h = Way.new e (capture-IsCapture p log now d key r h)
deliver-Way p log now d key r (some existing) e h =
    Way.known existing e (redeliver-IsRedelivery p log d existing r h)

append-IsAppend :
    (p : Platform) (log : EventLog) (now : ℕ) (d : EventDraft) (r : AppendResult)
    → append p log now d ≡ ok r
    → IsAppend p log now d r
unfolding append
append-IsAppend p log now d r h =
    let (d', validated, h₁) = >>=-eq-ok (validate_event_draft p d) _ h in
    let same = validated_same p d d' validated in
    let (key, keyed, h₂) = >>=-eq-ok (provider_key p d'.provider) _ h₁ in
    record {
      key = key;
      validated = rw same at validated;
      keyed = rw same at keyed;
      way = rw same at (deliver-Way p log now d' key r (lookup key log.provider_events) refl h₂);
    }

lookup-All :
    (P : String × StoredEvent → Type 0) (key : String) (index : List (String × StoredEvent))
    (e : StoredEvent)
    → lookup key index ≡ some e
    → All P index
    → (k : String) × (key ≡ k) × P (k, e)
unfolding lookup
lookup-All P key [] e h a = cc
lookup-All P key ((k, f) ∷ index) e h a = elim (Bool-cases (str_eq key k)) [
  | inl same ↦
      let found : f ≡ e = ground arith in (k, (str_eq_iff key k).0 same, rw (sym found) a.0)
  | inr differ ↦ lookup-All P key index e (ground arith) a.1
]

-- What the result of an append says of the log.
abbrev pub Extends : EventLog → AppendResult → Type 0
Extends log r =
    ((r.disposition ≡ appended) × (r.log.events ≡ log.events ++ r.event ∷ []))
    ⊎ ((r.disposition ≡ redelivery) × (r.log ≡ log))

one_more : (n : ℕ) → 1 + n ≡ n + 1
one_more n = omega arith

-- On a log whose events are a chain from position 1, each with the digest of its content and of the
-- link to its predecessor, its logical time not before that of its predecessor nor before its
-- receipt, and whose index points into the log: an accepted append keeps all this; the log grows by
-- the returned event or, on a redelivery, is the same; and the event is found at its position.
pub append-IsLog :
    (p : Platform) (log : EventLog) (now : ℕ) (d : EventDraft) (r : AppendResult)
    → IsLog p log
    → append p log now d ≡ ok r
    → IsLog p r.log × Extends log r × (get r.log.events r.event.position ≡ some r.event)
append-IsLog p log now d r i h =
    let a = append-IsAppend p log now d r h in
    elim a.way [
      | Way.known existing e x ↦
          let (k, same, (keyed, found)) =
            lookup-All _ a.key log.provider_events existing e i.indexed in
          rw x.result (i, inr (refl, refl), found)
      | Way.new e c ↦
          let link = c.link in
          let found : get (log.events ++ r.event ∷ []) r.event.position ≡ some r.event =
            ap (get (log.events ++ r.event ∷ [])) (link.at_position ∙ one_more (length log.events))
            ∙ get-last log.events r.event in
          (
            record {
              chain = rw c.events (IsChain-append_last p 1 _ 0 log.events r.event i.chain link);
              indexed =
                  rw (c.events, c.index)
                    (
                      (rw c.draft a.keyed, found),
                      Indexed-append p log.events (r.event ∷ []) _ i.indexed,
                    );
            },
            inl (c.disposition, c.events),
            rw c.events found,
          )
    ]

lookup_self :
    (key : String) (e : StoredEvent) (index : List (String × StoredEvent))
    → lookup key ((key, e) ∷ index) ≡ some e
unfolding lookup
lookup_self key e index = rw (str_eq_refl key) refl

encodes :
    (p : Platform) (d : EventDraft)
    → IsUtf8 p.utf8
    → validate_event_draft p d ≡ ok d
    → (text : String) × (canonical_json p.stringify (draft_json d) ≡ ok text)
unfolding validate_event_draft
encodes p d utf8 v =
    let (m, within, h) =
      >>=-eq-ok (assert_json_within_limits p.stringify p.utf8 (draft_json d) event_envelope_limits)
        _ v in
    let (text, encoded, counted) =
      within_limits_exact p.stringify p.utf8 utf8 (draft_json d) event_envelope_limits m within in
    (text, encoded)

redeliver-same :
    (p : Platform) (log : EventLog) (d : EventDraft) (e : StoredEvent) (text : String)
    → e.captured.draft ≡ d
    → canonical_json p.stringify (draft_json d) ≡ ok text
    → redeliver p log d e ≡ ok (record { log = log; event = e; disposition = redelivery })
unfolding redeliver
redeliver-same p log d e text same encoded =
    rw (same, str_eq_refl d.provider.artifact_hash, encoded, str_eq_refl text) refl

append-known :
    (p : Platform) (log : EventLog) (now : ℕ) (d : EventDraft) (key : String) (e : StoredEvent)
    → validate_event_draft p d ≡ ok d
    → provider_key p d.provider ≡ ok key
    → lookup key log.provider_events ≡ some e
    → append p log now d ≡ redeliver p log d e
unfolding append deliver
append-known p log now d key e validated keyed found = rw (validated, keyed, found) refl

-- Where UTF-8 encodes texts piece by piece and ASCII by single bytes: once a draft is accepted,
-- appending it again, at whatever time, is a redelivery that returns the same event and leaves
-- the log as it is.
pub append-again :
    (p : Platform) (log : EventLog) (now now' : ℕ) (d : EventDraft) (r : AppendResult)
    → IsUtf8 p.utf8
    → append p log now d ≡ ok r
    → append p r.log now' d ≡ ok (record { log = r.log; event = r.event; disposition = redelivery })
append-again p log now now' d r utf8 h =
    let a = append-IsAppend p log now d r h in
    let (text, encoded) = encodes p d utf8 a.validated in
    elim a.way [
      | Way.known existing e x ↦
          let kept : lookup a.key r.log.provider_events ≡ some existing = rw x.result e in
          append-known p r.log now' d a.key existing a.validated a.keyed kept
          ∙ rw x.result (x.again ∙ ap ok x.result)
      | Way.new e c ↦
          let found : lookup a.key r.log.provider_events ≡ some r.event =
            rw c.index (lookup_self a.key r.event log.provider_events) in
          append-known p r.log now' d a.key r.event a.validated a.keyed found
          ∙ redeliver-same p r.log d r.event text c.draft encoded
    ]
