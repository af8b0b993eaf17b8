-- ===== src/Processor/Process/Redelivery.antt =====
-- Proofs on `process` of an event that the run has processed.
use peas_engine.Prelude.{◌≤◌, ◌≡◌, ◌⊎◌, ap, ◌∙◌, false, List, some, Result, ok, ◌>>=◌, arith}
use peas_engine.Json.Bytes.{IsUtf8}
use peas_engine.Digest.{Platform}
use peas_engine.Events.{StoredEvent}
use peas_engine.Events.Log.{genesis_hash, check_captured, get}
use peas_engine.Processor.{RunCursor}
use peas_engine.Processor.Process.{ProcessingStore, Processor, Session, verify_cursor}
use peas_engine.Processor.Process.Run.{initialize, current_cursor, process_event, process}
use peas_engine.Processor.Process.Again.{process_event-again}

-- #initialize changes nothing but a session that is not initialized.
initialize-kept :
    {S : Type 0} (p : Platform) (api : ProcessingStore S) (d : Processor)
    (session ready : Session S)
    → initialize p api d session ≡ ok ready
    → (ready ≡ session) ⊎ (session.initialized ≡ false)
unfolding initialize
initialize-kept p api d session ready h = ground arith

-- Where UTF-8 encodes texts piece by piece, on a log that the captured log opens, for an event of
-- the log at or before the cursor: if #initialize returns, then `process` throws nothing, and
-- returns the cursor and the session with the store that #initialize returned, which is the session
-- as it was unless it was not initialized yet; provided the cursor is the one that this store loads,
-- passes the processor's check, and has the digest of the log's event at its position.
pub process-again :
    {S : Type 0} (p : Platform) (api : ProcessingStore S) (d : Processor)
    (events : List StoredEvent) (session ready : Session S) (e last : StoredEvent) (c : RunCursor)
    → IsUtf8 p.utf8
    → check_captured p 1 genesis_hash events ≡ ok tt
    → get events e.position ≡ some e
    → e.position ≤ c.core.processed_position
    → get events c.core.processed_position ≡ some last
    → c.core.last_event_hash ≡ last.event_hash
    → initialize p api d session ≡ ok ready
    → current_cursor p api d ready.store ≡ ok c
    → verify_cursor p d c ≡ ok tt
    → (process p api d events session e ≡ ok (c, ready))
      × ((ready ≡ session) ⊎ (session.initialized ≡ false))
unfolding process
process-again {S = S} p api d events session ready e last c utf8 checked at before ends head starts
      now valid =
    let after_start : Session S → Result (RunCursor × Session S) = λ r.
      process_event p api d events r.store e >>= λ (cursor, s).
      ok (cursor, record { store = s; initialized = r.initialized }) in
    (
      ap (λ r. r >>= after_start) starts
          ∙ ap
              (λ r. r >>= λ (cursor, s).
                ok (cursor, record { store = s; initialized = ready.initialized }))
              (process_event-again p api d events ready.store e last c utf8 checked at before ends
                head now valid),
      initialize-kept p api d session ready starts,
    )
