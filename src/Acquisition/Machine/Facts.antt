-- ===== src/Acquisition/Machine/Facts.antt =====
-- What an accepted event of the acquisition machine implies, with the checks taken apart: the edge
-- of the state graph, and the effect of the event's kind as an equation.
use peas_engine.Prelude.{
  ℕ, ◌+◌, ◌-◌, ltb, ◌∷◌, ◌≡◌, refl, sym, String, Bool, true, false, List, Option, none, some, ok,
  >>=-eq-ok, ok_injective, fail_if-eq-ok, guard-eq-ok, fail_if, guard, ◌||◌,
}
use peas_engine.Digest.{Platform}
use peas_engine.Acquisition.Quota.{all_safe, DeadlineProof, retry_fits_acquisition_deadline}
use peas_engine.Acquisition.Retry.{
  RetryContext, RetryDecision, RetryDelayProof, decide_retry, validate_retry_delay_proof,
}
use peas_engine.Acquisition.Identity.{
  PageChainInput, PageAdmission, AttemptIds, derive_logical_page_identity_hash,
  derive_attempt_control_identities,
}
use peas_engine.Acquisition.Identity.Chain.{plan_page_admission}
use peas_engine.Acquisition.Limits.{TerminalReason}
use peas_engine.Acquisition.Machine.{
  Kind, Snapshot, Event, EventProof, ContinuationAuthority, transitions, includes_state,
  event_target, terminal_reason_for_event, assert_transition, dispatch_started,
  retry_cleanup_complete, retry_delay_elapsed, page_checkpointed, continue_next_page,
  terminal_page_admitted, normalization_completed, attempt_stopped, selection_completed,
}
use peas_engine.Acquisition.Machine.Validate.{
  validate_snapshot, validate_proof, is_some, require_at_most,
}
use peas_engine.Acquisition.Machine.Step.{
  ensure_resources_settled, check_dispatch, dispatch_starts, dispatched, continue_token, continued,
  admission_mismatch, checkpointed, retry_delay, context_mismatch, with_facts, is_lane_stop,
  on_dispatch, on_continue, on_checkpoint, on_retry_cleanup, on_retry_elapsed, on_normalized,
  on_event, derive_next,
}
use peas_engine.Acquisition.Machine.Run.{Plan, kind_numbers, derive_acquisition_transition}

-- The snapshot with the state, the reason and the time of an event, before the event's own effect.
abbrev pub moved : Snapshot → Event → Snapshot
moved s e = record s {
  current_state = event_target e.kind;
  terminal_reason = terminal_reason_for_event e.kind;
  last_monotonic_ms = e.proof.now_monotonic_ms;
}

-- The kinds whose case of the reducer changes nothing more.
abbrev pub is_plain : Kind → Bool
is_plain (dispatch_started _ _) = false
is_plain (retry_cleanup_complete _) = false
is_plain (retry_delay_elapsed _) = false
is_plain (page_checkpointed _ _) = false
is_plain continue_next_page = false
is_plain terminal_page_admitted = false
is_plain (normalization_completed _) = false
is_plain (attempt_stopped _) = false
is_plain selection_completed = false
is_plain _ = true

-- What an accepted event does, with the checks that its case of the reducer made.
pub data Effect (p : Platform) (s : Snapshot) (proof : EventProof) (next : Snapshot)
    : Kind → Snapshot → Type 0 where
  dispatch :
      (d : DeadlineProof) (entitlement : ℕ) (starts : List ℕ) (attempt : AttemptIds)
      → check_dispatch s proof d ≡ ok tt
      → dispatch_starts s proof entitlement ≡ ok starts
      → Effect p s proof next (dispatch_started d entitlement) (dispatched s starts attempt next)
  cleanup :
      (context : RetryContext) (decision : RetryDecision) (delay : ℕ)
      → context_mismatch s context ≡ false
      → decide_retry context ≡ ok decision
      → retry_delay decision ≡ ok delay
      → retry_fits_acquisition_deadline proof.now_monotonic_ms delay
          s.acquisition_declared_monotonic_ms
        ≡ ok true
      → Effect p s proof next
          (retry_cleanup_complete context)
          (record next { pending_retry_delay_ms = some delay })
  elapsed :
      (delay : ℕ) (d : RetryDelayProof)
      → s.pending_retry_delay_ms ≡ some delay
      → validate_retry_delay_proof delay d ≡ ok tt
      → ltb (proof.now_monotonic_ms - s.last_monotonic_ms) delay ≡ false
      → Effect p s proof next
          (retry_delay_elapsed d)
          (record next { pending_retry_delay_ms = none })
  checkpoint :
      (input : PageChainInput) (material : Option String) (admission : PageAdmission)
      → admission_mismatch s input ≡ false
      → plan_page_admission p input material ≡ ok admission
      → Effect p s proof next
          (page_checkpointed input material)
          (checkpointed s input material admission next)
  continuation :
      (authority : ContinuationAuthority) (token page : String)
      → s.continuation_authority ≡ some authority
      → continue_token p s authority ≡ ok token
      → Effect p s proof next continue_next_page (continued s authority token page next)
  last_page :
      is_some s.continuation_authority ≡ false → Effect p s proof next terminal_page_admitted next
  normalized :
      (count : ℕ) → Effect p s proof next (normalization_completed count) (with_facts s count next)
  attempt_end :
      (reason : TerminalReason) (disabled : Bool)
      → Effect p s proof next (attempt_stopped reason) (record next { lane_disabled = disabled })
  success : Effect p s proof next selection_completed (record next { terminal_reason = none })
  plain : (k : Kind) → is_plain k ≡ true → Effect p s proof next k next

module _ (p : Platform) (s : Snapshot) (proof : EventProof) (next t : Snapshot) where
  on_dispatch-Effect :
      (d : DeadlineProof) (entitlement : ℕ)
      → on_dispatch p s proof d entitlement next ≡ ok t
      → Effect p s proof next (dispatch_started d entitlement) t
  unfolding on_dispatch
  on_dispatch-Effect d entitlement h =
      let (u, checked, h₁) = >>=-eq-ok (check_dispatch s proof d) _ h in
      let (starts, quota, h₂) = >>=-eq-ok (dispatch_starts s proof entitlement) _ h₁ in
      let (attempt, ids, h₃) =
        >>=-eq-ok
          (derive_attempt_control_identities p s.logical_page_identity_hash s.page_attempts_started
            s.run_session_nonce)
          _ h₂ in
      rw (ok_injective h₃) (Effect.dispatch d entitlement starts attempt checked quota)

  on_continue-Effect :
      (o : Option ContinuationAuthority)
      → s.continuation_authority ≡ o
      → on_continue p s o next ≡ ok t
      → Effect p s proof next continue_next_page t
  unfolding on_continue
  on_continue-Effect none e h = cc
  on_continue-Effect (some authority) e h =
      let (token, fresh, h₁) = >>=-eq-ok (continue_token p s authority) _ h in
      let (page, ids, h₂) =
        >>=-eq-ok
          (derive_logical_page_identity_hash p s.request_identity_hash (s.page_ordinal + 1) token) _
          h₁ in
      rw (ok_injective h₂) (Effect.continuation authority token page e fresh)

  on_checkpoint-Effect :
      (input : PageChainInput) (material : Option String)
      → on_checkpoint p s input material next ≡ ok t
      → Effect p s proof next (page_checkpointed input material) t
  unfolding on_checkpoint
  on_checkpoint-Effect input material h =
      let (u, matched, h₁) =
        >>=-eq-ok (fail_if (admission_mismatch s input) "page-admission-proof-invalid") _ h in
      let (admission, planned, h₂) = >>=-eq-ok (plan_page_admission p input material) _ h₁ in
      rw (ok_injective h₂)
        (Effect.checkpoint input material admission (fail_if-eq-ok _ _ matched) planned)

  on_retry_cleanup-Effect :
      (context : RetryContext)
      → on_retry_cleanup s proof context next ≡ ok t
      → Effect p s proof next (retry_cleanup_complete context) t
  unfolding on_retry_cleanup
  on_retry_cleanup-Effect context h =
      let (u, matched, h₁) =
        >>=-eq-ok (fail_if (context_mismatch s context) "retry-context-mismatch") _ h in
      let (decision, decided, h₂) = >>=-eq-ok (decide_retry context) _ h₁ in
      let (delay, retried, h₃) = >>=-eq-ok (retry_delay decision) _ h₂ in
      let (fits, fitted, h₄) =
        >>=-eq-ok
          (retry_fits_acquisition_deadline proof.now_monotonic_ms delay
            s.acquisition_declared_monotonic_ms)
          _ h₃ in
      let (v, guarded, h₅) = >>=-eq-ok (guard fits "retry-acquisition-deadline") _ h₄ in
      rw (ok_injective h₅) (
        Effect.cleanup context decision delay (fail_if-eq-ok _ _ matched) decided retried
          (rw (guard-eq-ok fits _ guarded) at fitted))

  on_retry_elapsed-Effect :
      (o : Option ℕ) (d : RetryDelayProof)
      → s.pending_retry_delay_ms ≡ o
      → on_retry_elapsed s proof o d next ≡ ok t
      → Effect p s proof next (retry_delay_elapsed d) t
  unfolding on_retry_elapsed
  on_retry_elapsed-Effect none d e h = cc
  on_retry_elapsed-Effect (some delay) d e h =
      let (u, proved, h₁) = >>=-eq-ok (validate_retry_delay_proof delay d) _ h in
      let (v, waited, h₂) =
        >>=-eq-ok
          (fail_if (ltb (proof.now_monotonic_ms - s.last_monotonic_ms) delay)
            "retry-delay-proof-backdated")
          _ h₁ in
      rw (ok_injective h₂) (Effect.elapsed delay d e proved (fail_if-eq-ok _ _ waited))

  on_normalized-Effect :
      (count : ℕ)
      → on_normalized s count next ≡ ok t
      → Effect p s proof next (normalization_completed count) t
  unfolding on_normalized
  on_normalized-Effect count h =
      let (u, bounded, h₁) =
        >>=-eq-ok (require_at_most count 160000 "normalized-facts-invalid") _ h in
      rw (ok_injective h₁) (Effect.normalized count)

  -- The effect of an event that the reducer accepts.
  pub on_event-Effect : (k : Kind) → on_event p s proof k next ≡ ok t → Effect p s proof next k t
  unfolding on_event
  on_event-Effect (dispatch_started d entitlement) h = on_dispatch-Effect d entitlement h
  on_event-Effect (retry_cleanup_complete context) h = on_retry_cleanup-Effect context h
  on_event-Effect (retry_delay_elapsed d) h =
      on_retry_elapsed-Effect s.pending_retry_delay_ms d refl h
  on_event-Effect (page_checkpointed input material) h = on_checkpoint-Effect input material h
  on_event-Effect continue_next_page h = on_continue-Effect s.continuation_authority refl h
  on_event-Effect terminal_page_admitted h =
      let (u, none_left, h₁) =
        >>=-eq-ok (fail_if (is_some s.continuation_authority) "terminal-page-has-continuation") _
          h in
      rw (ok_injective h₁) (Effect.last_page (fail_if-eq-ok _ _ none_left))
  on_event-Effect (normalization_completed count) h = on_normalized-Effect count h
  on_event-Effect (attempt_stopped reason) h =
      rw (ok_injective h) (Effect.attempt_end reason (s.lane_disabled || is_lane_stop reason))
  on_event-Effect selection_completed h = rw (ok_injective h) Effect.success
  on_event-Effect k h = rw (ok_injective h) (Effect.plain k refl)

-- An accepted event: the proof and the edge were checked, and the effect is known.
pub record Accepted (p : Platform) (s : Snapshot) (e : Event) (t : Snapshot) : Type 0 where
  pub proved : validate_proof s e.proof ≡ ok tt
  pub edge : includes_state (transitions s.current_state) (event_target e.kind) ≡ true
  pub settled : ensure_resources_settled e.proof (event_target e.kind) ≡ ok tt
  pub effect : Effect p s e.proof (moved s e) e.kind t

pub Accepted-Effect :
    {p : Platform} {s : Snapshot} {e : Event} {t : Snapshot} (k : Kind)
    → e.kind ≡ k
    → Accepted p s e t
    → Effect p s e.proof (moved s e) k t
Accepted-Effect k same a = rw (sym same) a.effect

pub derive_next-Accepted :
    (p : Platform) (s : Snapshot) (e : Event) (t : Snapshot)
    → derive_next p s e ≡ ok t
    → Accepted p s e t
unfolding derive_next assert_transition
derive_next-Accepted p s e t h =
    let (u, proved, h₁) = >>=-eq-ok (validate_proof s e.proof) _ h in
    let (v, edge, h₂) =
      >>=-eq-ok
        (guard (includes_state (transitions s.current_state) (event_target e.kind))
          "acquisition-transition-invalid")
        _ h₁ in
    let (w, settled, h₃) =
      >>=-eq-ok (ensure_resources_settled e.proof (event_target e.kind)) _ h₂ in
    record {
      proved = proved;
      edge = guard-eq-ok _ _ edge;
      settled = settled;
      effect = on_event-Effect p s e.proof (moved s e) t e.kind h₃;
    }

-- What a derived transition says of the snapshots before and after.
pub record Derived (p : Platform) (s : Snapshot) (e : Event) (plan : Plan) : Type 0 where
  pub valid : validate_snapshot p s ≡ ok tt
  pub valid_next : validate_snapshot p plan.next ≡ ok tt
  pub accepted : Accepted p s e plan.next
  pub from_state : plan.from_state ≡ s.current_state
  pub to_state : plan.to_state ≡ plan.next.current_state

pub derive_acquisition_transition-Derived :
    (p : Platform) (s : Snapshot) (e : Event) (plan : Plan)
    → derive_acquisition_transition p s e ≡ ok plan
    → Derived p s e plan
unfolding derive_acquisition_transition
derive_acquisition_transition-Derived p s e plan h =
    let (u, valid, h₁) = >>=-eq-ok (validate_snapshot p s) _ h in
    let (v, safe, h₂) =
      >>=-eq-ok
        (guard (all_safe (e.proof.now_monotonic_ms ∷ kind_numbers e.kind))
          "must be a safe integer and cannot be negative zero")
        _ h₁ in
    let (t, stepped, h₃) = >>=-eq-ok (derive_next p s e) _ h₂ in
    let (w, valid_next, h₄) = >>=-eq-ok (validate_snapshot p t) _ h₃ in
    let same = ok_injective h₄ in
    rw same (record {
      valid = valid;
      valid_next = valid_next;
      accepted = derive_next-Accepted p s e t stepped;
      from_state = refl;
      to_state = refl;
    })
