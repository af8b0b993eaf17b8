-- ===== src/Acquisition/Machine/Runs/Pacing.antt =====
-- Proofs on the rate and the deadline of the attempts of a run.
use peas_engine.Prelude.{
  ℕ, ◌+◌, ◌≤◌, ◌<◌, ◌≡◌, refl, Bool, List, [], ◌∷◌, ok, arith, All, All-append_last, length,
  length-append, >>=-eq-ok, fail_if, String,
}
use peas_engine.Digest.{Platform}
use peas_engine.Acquisition.Limits
use peas_engine.Acquisition.Quota.{
  DeadlineProof, QuotaAdmission, admit, wait, stop, evaluate_rolling_quota, validate_deadline_proof,
}
use peas_engine.Acquisition.Quota.Sorting.{IsSorted}
use peas_engine.Acquisition.Quota.Admission.{IsRateLimited, evaluate-admit_rate}
use peas_engine.Acquisition.Machine.{Snapshot, Event, EventProof, Kind}
use peas_engine.Acquisition.Machine.Step.{
  check_dispatch, deadline_mismatch, dispatch_starts, quota_starts, dispatched, continued,
  checkpointed, with_facts,
}
use peas_engine.Acquisition.Machine.Run.{initial_snapshot, apply_events}
use peas_engine.Acquisition.Machine.Facts.{Effect, moved}
use peas_engine.Acquisition.Machine.Runs.{apply_events-keeps}

-- The evidence of a run: one start for each attempt, ascending, at most 30 in every window of 60
-- seconds, and each within the five minutes of the acquisition.
pub record IsPaced (s : Snapshot) : Type 0 where
  pub counted : length s.quota_window_evidence ≡ s.budgets.attempts
  pub sorted : IsSorted s.quota_window_evidence
  pub limited : IsRateLimited s.quota_window_evidence
  pub in_time :
      All
        (λ t. t < s.acquisition_declared_monotonic_ms + Limits.acquisition_deadline_ms)
        s.quota_window_evidence
  pub capped : s.budgets.attempts ≤ Limits.attempts_per_acquisition
  pub page_capped : s.page_attempts_started ≤ Limits.attempts_per_logical_page

quota_starts-admit :
    (q : QuotaAdmission) (starts : List ℕ) → quota_starts q ≡ ok starts → q ≡ admit starts
quota_starts-admit (admit xs) starts h = cc
quota_starts-admit (wait t) starts h = cc
quota_starts-admit (stop r) starts h = cc

-- The checks of a dispatch: there is an attempt left, and the deadline has not passed.
check_dispatch-limits :
    (s : Snapshot) (proof : EventProof) (d : DeadlineProof)
    → check_dispatch s proof d ≡ ok tt
    → (s.page_attempts_started < 3)
      × (s.budgets.attempts < 48)
      × (proof.now_monotonic_ms < s.acquisition_declared_monotonic_ms + 300000)
unfolding check_dispatch deadline_mismatch
check_dispatch-limits s proof d h =
    let (_, enabled, h₁) = >>=-eq-ok (fail_if s.lane_disabled "lane-disabled") _ h in
    let (_, valid, h₂) = >>=-eq-ok (validate_deadline_proof d) _ h₁ in ground arith

dispatched-IsPaced :
    (s : Snapshot) (proof : EventProof) (d : DeadlineProof) (entitlement : ℕ) (starts : List ℕ)
    → IsPaced s
    → check_dispatch s proof d ≡ ok tt
    → dispatch_starts s proof entitlement ≡ ok starts
    → (length starts ≡ s.budgets.attempts + 1)
      × IsSorted starts
      × IsRateLimited starts
      × All (λ t. t < s.acquisition_declared_monotonic_ms + Limits.acquisition_deadline_ms) starts
      × (s.page_attempts_started < 3)
      × (s.budgets.attempts < 48)
unfolding dispatch_starts
dispatched-IsPaced s proof d entitlement starts i checked quota =
    let xs = s.quota_window_evidence in
    let now = proof.now_monotonic_ms in
    let until = s.acquisition_declared_monotonic_ms + Limits.acquisition_deadline_ms in
    let (q, evaluated, started) =
      >>=-eq-ok (evaluate_rolling_quota xs now entitlement until) _ quota in
    let (same, sorted, limited) =
      evaluate-admit_rate xs now entitlement until starts i.sorted i.limited
        (rw (quota_starts-admit q starts started) at evaluated) in
    let (page_left, left, in_time) = check_dispatch-limits s proof d checked in
    (
      rw same (omega (arith, length-append xs (now ∷ []), i.counted)),
      sorted,
      limited,
      rw same (All-append_last _ xs now i.in_time in_time),
      page_left,
      left,
    )

Effect-IsPaced :
    {p : Platform} {s : Snapshot} (e : Event) {k : Kind} {t : Snapshot}
    → IsPaced s
    → Effect p s e.proof (moved s e) k t
    → IsPaced t
unfolding dispatched continued checkpointed with_facts
Effect-IsPaced {s} e i (Effect.dispatch d entitlement starts attempt checked quota) =
    let (counted, sorted, limited, in_time, page_left, left) =
      dispatched-IsPaced s e.proof d entitlement starts i checked quota in
    record {
      counted = counted;
      sorted = sorted;
      limited = limited;
      in_time = in_time;
      capped = omega arith;
      page_capped = omega arith;
    }
Effect-IsPaced e i (Effect.plain k ek) = record {
  counted = i.counted;
  sorted = i.sorted;
  limited = i.limited;
  in_time = i.in_time;
  capped = i.capped;
  page_capped = i.page_capped;
}
Effect-IsPaced e i _ = record {
  counted = i.counted;
  sorted = i.sorted;
  limited = i.limited;
  in_time = i.in_time;
  capped = i.capped;
  page_capped = omega (arith, i.page_capped);
}

-- In every run from a new snapshot, whatever events arrive and whichever plans are persisted, the
-- evidence holds one start for each attempt, ascending, at most 30 in every window of 60 seconds,
-- each within the five minutes of the acquisition; there are at most 48 attempts, 3 for the page.
pub apply_events-IsPaced :
    (p : Platform) (request configuration journal nonce : String) (declared_ms : ℕ) (page : String)
    (es : List (Event × Bool))
    → IsPaced
        (apply_events p (initial_snapshot request configuration journal nonce declared_ms page) es)
unfolding initial_snapshot
apply_events-IsPaced p request configuration journal nonce declared_ms page es =
    apply_events-keeps p IsPaced (λ s e t a i. Effect-IsPaced e i a.effect) _ es
      (record {
        counted = refl;
        sorted = tt;
        limited = λ now. omega arith;
        in_time = tt;
        capped = omega arith;
        page_capped = omega arith;
      })
