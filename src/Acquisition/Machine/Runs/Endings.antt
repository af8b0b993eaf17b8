-- ===== src/Acquisition/Machine/Runs/Endings.antt =====
-- Proofs on the ends of runs.
use peas_engine.Prelude.{
  ◌≡◌, refl, Bool, true, not, ◌||◌, ◌&&◌, List, [], ◌∷◌, ok, inl, inr, arith, Result-cases,
}
use peas_engine.Digest.{Platform}
use peas_engine.Acquisition.Machine.{
  Snapshot, Event, EventProof, is_terminal, completed, waiting_retry, chain_complete, State,
  same_state, event_target,
}
use peas_engine.Acquisition.Machine.Validate.{is_some}
use peas_engine.Acquisition.Machine.Valid.{validate_snapshot-IsValid, validate_terminal-reason}
use peas_engine.Acquisition.Machine.Step.{ensure_resources_settled}
use peas_engine.Acquisition.Machine.Run.{
  Plan, after_plan, apply_event, apply_events, derive_acquisition_transition,
}
use peas_engine.Acquisition.Machine.Facts.{derive_acquisition_transition-Derived}
use peas_engine.Acquisition.Machine.Frame.{Accepted-Moves}
use peas_engine.Acquisition.Machine.Graph.{terminal_no_edge}

terminal-never_ok :
    (p : Platform) (s : Snapshot) (e : Event) (plan : Plan)
    → is_terminal s.current_state ≡ true
    → derive_acquisition_transition p s e ≡ ok plan
    → ⊥
terminal-never_ok p s e plan t h =
    let a = (derive_acquisition_transition-Derived p s e plan h).accepted in
    let edge = a.edge in
    let no_edge = terminal_no_edge s.current_state (event_target e.kind) t in cc

apply_event-terminal :
    (p : Platform) (s : Snapshot) (e : Event × Bool)
    → is_terminal s.current_state ≡ true
    → apply_event p s e ≡ s
unfolding apply_event after_plan
apply_event-terminal p s (e, persisted) t =
    elim (Result-cases (derive_acquisition_transition p s e)) [
      | inl (plan, h) ↦ absurd (terminal-never_ok p s e plan t h)
      | inr (message, h) ↦ rw h refl
    ]

-- A run that is completed, stopped, failed clean or quarantined stays exactly as it is, whatever
-- events arrive.
pub apply_events-terminal :
    (p : Platform) (s : Snapshot) (es : List (Event × Bool))
    → is_terminal s.current_state ≡ true
    → apply_events p s es ≡ s
unfolding apply_events
apply_events-terminal p s [] t = refl
apply_events-terminal p s (e ∷ es) t =
    rw (apply_event-terminal p s e t) (apply_events-terminal p s es t)

settled-of :
    (proof : EventProof) (target : State)
    → ensure_resources_settled proof target ≡ ok tt
    → (same_state target waiting_retry || same_state target chain_complete || is_terminal target)
      ≡ true
    → proof.resources_settled ≡ true
unfolding ensure_resources_settled
settled-of proof target h t = ground arith

-- An accepted event that waits for a retry, completes the chain of pages or ends the run was
-- sent with its resources settled; and the new snapshot has a reason just when the run has ended
-- without being completed.
pub derive-ending :
    (p : Platform) (s : Snapshot) (e : Event) (plan : Plan)
    → derive_acquisition_transition p s e ≡ ok plan
    → ((same_state plan.next.current_state waiting_retry
            || same_state plan.next.current_state chain_complete
            || is_terminal plan.next.current_state)
          ≡ true
        → e.proof.resources_settled ≡ true)
      × ((is_terminal plan.next.current_state && not (same_state plan.next.current_state completed))
          ≡ is_some plan.next.terminal_reason)
derive-ending p s e plan h =
    let d = derive_acquisition_transition-Derived p s e plan h in
    let m = Accepted-Moves d.accepted in
    let valid = validate_snapshot-IsValid p plan.next d.valid_next in
    (
      λ ended. settled-of e.proof (event_target e.kind) d.accepted.settled (rw m.state at ended),
      validate_terminal-reason plan.next valid.terminal,
    )
