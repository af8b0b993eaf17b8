-- ===== src/Acquisition/Machine/Frame.antt =====
-- What an accepted event leaves alone, and the clock, the state and the attempt count it sets.
use peas_engine.Prelude.{ℕ, ◌+◌, ◌≤◌, ◌≡◌, refl, Bool, true, false, arith, ok}
use peas_engine.Digest.{Platform}
use peas_engine.Acquisition.Machine.{
  Kind, Snapshot, Event, EventProof, event_target, dispatch_started,
}
use peas_engine.Acquisition.Machine.Validate.{validate_proof}
use peas_engine.Acquisition.Machine.Step.{dispatched, continued, checkpointed, with_facts}
use peas_engine.Acquisition.Machine.Facts.{Effect, Accepted}

-- The fields that no event changes.
pub record SameRun (s t : Snapshot) : Type 0 where
  pub schema : t.schema_version ≡ s.schema_version
  pub request : t.request_identity_hash ≡ s.request_identity_hash
  pub configuration : t.acquisition_configuration_hash ≡ s.acquisition_configuration_hash
  pub journal : t.market_acquisition_journal_id ≡ s.market_acquisition_journal_id
  pub nonce : t.run_session_nonce ≡ s.run_session_nonce
  pub declared : t.acquisition_declared_monotonic_ms ≡ s.acquisition_declared_monotonic_ms

abbrev pub is_dispatch : Kind → Bool
is_dispatch (dispatch_started _ _) = true
is_dispatch _ = false

-- One where the event starts an attempt.
abbrev pub attempt_count : Kind → ℕ
attempt_count (dispatch_started _ _) = 1
attempt_count _ = 0

module _ {p : Platform} {s : Snapshot} {proof : EventProof} {next : Snapshot} where
  Effect-SameRun : {k : Kind} {t : Snapshot} → Effect p s proof next k t → SameRun next t
  unfolding dispatched continued checkpointed with_facts
  Effect-SameRun (Effect.plain k ek) = ground arith
  Effect-SameRun _ = ground arith

  -- The state and the clock are those that every event sets.
  Effect-state :
      {k : Kind} {t : Snapshot}
      → Effect p s proof next k t
      → (t.current_state ≡ next.current_state) × (t.last_monotonic_ms ≡ next.last_monotonic_ms)
  unfolding dispatched continued checkpointed with_facts
  Effect-state (Effect.plain k ek) = (refl, refl)
  Effect-state _ = (refl, refl)

  -- Only a dispatch starts an attempt.
  Effect-attempts :
      {k : Kind} {t : Snapshot}
      → next.budgets ≡ s.budgets
      → Effect p s proof next k t
      → t.budgets.attempts ≡ s.budgets.attempts + attempt_count k
  unfolding dispatched continued checkpointed with_facts
  Effect-attempts same (Effect.plain k ek) = ground arith
  Effect-attempts same _ = ground arith

validate_proof-clock :
    (s : Snapshot) (proof : EventProof)
    → validate_proof s proof ≡ ok tt
    → s.last_monotonic_ms ≤ proof.now_monotonic_ms
unfolding validate_proof
validate_proof-clock s proof h = ground arith

-- What an accepted event sets and keeps.
pub record Moves (s : Snapshot) (e : Event) (t : Snapshot) : Type 0 where
  pub state : t.current_state ≡ event_target e.kind
  pub clock : t.last_monotonic_ms ≡ e.proof.now_monotonic_ms
  pub forward : s.last_monotonic_ms ≤ t.last_monotonic_ms
  pub same_run : SameRun s t
  pub attempts : t.budgets.attempts ≡ s.budgets.attempts + attempt_count e.kind

pub Accepted-Moves :
    {p : Platform} {s : Snapshot} {e : Event} {t : Snapshot} → Accepted p s e t → Moves s e t
Accepted-Moves {s} {e} a =
    let (state, clock) = Effect-state a.effect in
    let same = Effect-SameRun a.effect in
    record {
      state = state;
      clock = clock;
      forward = omega (arith, validate_proof-clock s e.proof a.proved, clock);
      same_run = record {
        schema = same.schema;
        request = same.request;
        configuration = same.configuration;
        journal = same.journal;
        nonce = same.nonce;
        declared = same.declared;
      };
      attempts = Effect-attempts refl a.effect;
    }
