-- ===== src/Acquisition/Machine/Runs/Waits.antt =====
-- Proofs on waiting for a retry: the deadline of the acquisition and the end of a wait.
use peas_engine.Prelude.{
  ℕ, ◌+◌, ◌-◌, ◌≤◌, ◌≡◌, ◌≢◌, refl, Bool, true, false, List, none, some, ok, arith, ltb, String,
}
use peas_engine.Digest.{Platform}
use peas_engine.Acquisition.Limits
use peas_engine.Acquisition.Quota.{retry_fits_acquisition_deadline}
use peas_engine.Acquisition.Retry.{RetryDelayProof, validate_retry_delay_proof}
use peas_engine.Acquisition.Machine.{
  Snapshot, Event, Kind, waiting_retry, retry_delay_elapsed, event_target,
}
use peas_engine.Acquisition.Machine.Step.{dispatched, continued, checkpointed, with_facts}
use peas_engine.Acquisition.Machine.Run.{
  Plan, initial_snapshot, apply_events, derive_acquisition_transition,
}
use peas_engine.Acquisition.Machine.Facts.{
  Effect, Accepted-Effect, moved, is_plain, derive_acquisition_transition-Derived,
}
use peas_engine.Acquisition.Machine.Frame.{Accepted-Moves}
use peas_engine.Acquisition.Machine.Runs.{apply_events-keeps}

-- A wait after which a whole attempt still ends before the deadline of the acquisition.
pub record IsWait (s : Snapshot) : Type 0 where
  pub delay : ℕ
  pub pending : s.pending_retry_delay_ms ≡ some delay
  pub fits :
      s.last_monotonic_ms + delay + Limits.attempt_deadline_ms
      ≤ s.acquisition_declared_monotonic_ms + Limits.acquisition_deadline_ms

abbrev pub WaitsInTime : Snapshot → Type 0
WaitsInTime s = s.current_state ≡ waiting_retry → IsWait s

retry_fits-le :
    (now delay declared : ℕ)
    → retry_fits_acquisition_deadline now delay declared ≡ ok true
    → now + delay + Limits.attempt_deadline_ms ≤ declared + Limits.acquisition_deadline_ms
unfolding retry_fits_acquisition_deadline
retry_fits-le now delay declared h = ground arith

plain_target : (k : Kind) → is_plain k ≡ true → event_target k ≢ waiting_retry
unfolding event_target
plain_target Kind.begin_preflight ek h = cc
plain_target _ ek h = ground arith

Effect-WaitsInTime :
    {p : Platform} {s : Snapshot} (e : Event) {k : Kind} {t : Snapshot}
    → event_target e.kind ≡ event_target k
    → Effect p s e.proof (moved s e) k t
    → WaitsInTime t
unfolding dispatched continued checkpointed with_facts event_target
Effect-WaitsInTime e same (Effect.plain k ek) waiting = absurd (plain_target k ek (cc))
Effect-WaitsInTime {s} e same (Effect.cleanup context decision delay matched decided retried fitted)
      waiting =
    record {
      delay = delay;
      pending = refl;
      fits =
          retry_fits-le e.proof.now_monotonic_ms delay s.acquisition_declared_monotonic_ms fitted;
    }
Effect-WaitsInTime e same _ waiting = absurd (ground arith)

-- In every run from a new snapshot, a snapshot that waits for a retry has a pending delay, and the
-- delay with a whole attempt after it ends within the five minutes of the acquisition.
pub apply_events-WaitsInTime :
    (p : Platform) (request configuration journal nonce : String) (declared_ms : ℕ) (page : String)
    (es : List (Event × Bool))
    → WaitsInTime
        (apply_events p (initial_snapshot request configuration journal nonce declared_ms page) es)
unfolding initial_snapshot
apply_events-WaitsInTime p request configuration journal nonce declared_ms page es =
    apply_events-keeps p WaitsInTime (λ s e t a i. Effect-WaitsInTime e refl a.effect) _ es
      (λ waiting. absurd (ground arith))

Effect-elapsed :
    {p : Platform} {s : Snapshot} (e : Event) {d : RetryDelayProof} {t : Snapshot}
    → Effect p s e.proof (moved s e) (retry_delay_elapsed d) t
    → (delay : ℕ) × (s.pending_retry_delay_ms ≡ some delay)
      × (validate_retry_delay_proof delay d ≡ ok tt)
      × (ltb (e.proof.now_monotonic_ms - s.last_monotonic_ms) delay ≡ false)
      × (t.pending_retry_delay_ms ≡ none)
Effect-elapsed e (Effect.elapsed delay d pending proved waited) =
    (delay, pending, proved, waited, refl)
Effect-elapsed e (Effect.plain k ek) = cc

waited_out :
    (now before delay now' : ℕ)
    → ltb (now - before) delay ≡ false
    → before ≤ now'
    → now' ≡ now
    → before + delay ≤ now'
waited_out now before delay now' h le same = ground arith

proof-elapsed :
    (delay : ℕ) (d : RetryDelayProof)
    → validate_retry_delay_proof delay d ≡ ok tt
    → delay ≤ d.elapsed_ms
unfolding validate_retry_delay_proof
proof-elapsed delay d h = ground arith

-- An accepted `retry-delay-elapsed` had a pending delay; both the time since the snapshot and the
-- time that the delay proof measured are at least the delay, and the delay is no longer pending.
pub derive-elapsed_waited :
    (p : Platform) (s : Snapshot) (e : Event) (d : RetryDelayProof) (plan : Plan)
    → e.kind ≡ retry_delay_elapsed d
    → derive_acquisition_transition p s e ≡ ok plan
    → (delay : ℕ) × (s.pending_retry_delay_ms ≡ some delay)
      × (s.last_monotonic_ms + delay ≤ plan.next.last_monotonic_ms)
      × (delay ≤ d.elapsed_ms)
      × (plan.next.pending_retry_delay_ms ≡ none)
derive-elapsed_waited p s e d plan same h =
    let a = (derive_acquisition_transition-Derived p s e plan h).accepted in
    let m = Accepted-Moves a in
    let (delay, pending, proved, waited, none_left) =
      Effect-elapsed e (Accepted-Effect (retry_delay_elapsed d) same a) in
    (
      delay,
      pending,
      waited_out _ _ delay _ waited m.forward m.clock,
      proof-elapsed delay d proved,
      none_left,
    )
