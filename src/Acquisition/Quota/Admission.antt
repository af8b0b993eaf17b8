-- ===== src/Acquisition/Quota/Admission.antt =====
-- Proofs on the answers `admit` and `exhausted` of evaluateRollingQuota.
use native.Mathlib.Decide.{dec_lt}
use peas_engine.Prelude.{
  ℕ, ◌+◌, ◌-◌, ◌≤◌, ◌<◌, ◌≡◌, ◌≢◌, true, false, List, [], ◌∷◌, ◌++◌, Option, none, some, ok, ltb,
  leb, ◌&&◌, min, arith, All, length, get_elem?, if◌then◌else◌,
}
use peas_engine.Json.{max_safe}
use peas_engine.Acquisition.Limits.{rate_attempts, rate_window_ms}
use peas_engine.Acquisition.Quota.{
  QuotaAdmission, admit, stop, QuotaStop, sort_starts, all_safe, some_after, active_starts,
  when_full, evaluate_rolling_quota, sorted_attempt_starts,
}
use peas_engine.Acquisition.Quota.Sorting.{IsSorted, sort_starts-of_IsSorted, IsSorted-append_last}
use peas_engine.Acquisition.Quota.Window.{some_after-eq-false, get_elem?-lt}

-- What the code answers once its arguments are in range, on the sorted starts.
abbrev pub answer : List ℕ → ℕ → ℕ → ℕ → QuotaAdmission
answer sorted proposed limit deadline_at =
    let active = active_starts proposed sorted in
    if ltb (length active) limit
    then admit (sorted ++ proposed ∷ [])
    else when_full (get_elem? active (length active - limit)) deadline_at

-- The arguments that the code does not reject.
pub record IsProposal (starts : List ℕ) (proposed entitlement_limit deadline_at : ℕ) : Type 0 where
  pub proposed_safe : proposed ≤ max_safe
  pub entitled : 1 ≤ entitlement_limit
  pub limit_safe : entitlement_limit ≤ max_safe
  pub deadline_safe : deadline_at ≤ max_safe
  pub starts_safe : all_safe starts ≡ true
  pub none_later : some_after proposed (sort_starts starts) ≡ false

module _ (starts : List ℕ) (proposed entitlement_limit deadline_at : ℕ) where
  pub evaluate-of_IsProposal :
      IsProposal starts proposed entitlement_limit deadline_at
      → evaluate_rolling_quota starts proposed entitlement_limit deadline_at
        ≡ ok
            (answer (sort_starts starts) proposed (min rate_attempts entitlement_limit) deadline_at)
  unfolding evaluate_rolling_quota sorted_attempt_starts
  evaluate-of_IsProposal h = ground arith

  pub evaluate-IsProposal :
      (a : QuotaAdmission)
      → evaluate_rolling_quota starts proposed entitlement_limit deadline_at ≡ ok a
      → IsProposal starts proposed entitlement_limit deadline_at
  unfolding evaluate_rolling_quota sorted_attempt_starts
  evaluate-IsProposal a h = ground arith

  pub evaluate-answer :
      (a : QuotaAdmission)
      → evaluate_rolling_quota starts proposed entitlement_limit deadline_at ≡ ok a
      → answer (sort_starts starts) proposed (min rate_attempts entitlement_limit) deadline_at ≡ a
  evaluate-answer a h = cc (evaluate-of_IsProposal (evaluate-IsProposal a h))

-- The starts in the window `(now - 60000, now]` of an instant.
abbrev pub starts_at : ℕ → List ℕ → ℕ
starts_at now [] = 0
starts_at now (s ∷ ss) =
    let rest = starts_at now ss in
    if leb s now && ltb now (s + rate_window_ms) then rest + 1 else rest

-- At every instant the window holds at most `rate_attempts` starts.
abbrev pub IsRateLimited : List ℕ → Type 0
IsRateLimited starts = (now : ℕ) → starts_at now starts ≤ rate_attempts

starts_at-append_last :
    (now p : ℕ) (xs : List ℕ) → starts_at now (xs ++ p ∷ []) ≤ starts_at now xs + 1
starts_at-append_last now p [] = ground arith
starts_at-append_last now p (x ∷ xs) = ground (arith, starts_at-append_last now p xs)

starts_at-before :
    (now p : ℕ) (xs : List ℕ) → now < p → starts_at now (xs ++ p ∷ []) ≡ starts_at now xs
starts_at-before now p [] h = ground arith
starts_at-before now p (x ∷ xs) h = ground (arith, starts_at-before now p xs h)

starts_at-le_active :
    (now p : ℕ) (xs : List ℕ) → p ≤ now → starts_at now xs ≤ length (active_starts p xs)
unfolding active_starts
starts_at-le_active now p [] h = omega arith
starts_at-le_active now p (x ∷ xs) h = ground (arith, starts_at-le_active now p xs h)

IsRateLimited-append_last :
    (xs : List ℕ) (p limit : ℕ)
    → IsRateLimited xs
    → length (active_starts p xs) < limit
    → limit ≤ rate_attempts
    → IsRateLimited (xs ++ p ∷ [])
IsRateLimited-append_last xs p limit r few le now = elim (dec_lt now p) [
  | yes before ↦ rw (starts_at-before now p xs before) (r now)
  | no after ↦ omega (arith, starts_at-append_last now p xs, starts_at-le_active now p xs)
]

when_full-ne-admit : (o : Option ℕ) (d : ℕ) (xs : List ℕ) → when_full o d ≢ admit xs
unfolding when_full
when_full-ne-admit none d xs h = cc
when_full-ne-admit (some b) d xs h = ground arith

answer-admit :
    (xs : List ℕ) (p limit d : ℕ) (ys : List ℕ)
    → answer xs p limit d ≡ admit ys
    → (length (active_starts p xs) < limit) × (ys ≡ xs ++ p ∷ [])
answer-admit xs p limit d ys h =
    let active = active_starts p xs in
    ground (arith, when_full-ne-admit (get_elem? active (length active - limit)) d ys)

-- For ascending evidence that keeps the rate at every instant, an admission appends the proposed
-- start to the evidence, keeps it ascending, and keeps the rate: every window of 60 seconds holds
-- at most 30 starts, whatever the entitlement allows.
pub evaluate-admit_rate :
    (starts : List ℕ) (proposed entitlement_limit deadline_at : ℕ) (starts' : List ℕ)
    → IsSorted starts
    → IsRateLimited starts
    → evaluate_rolling_quota starts proposed entitlement_limit deadline_at ≡ ok (admit starts')
    → (starts' ≡ starts ++ proposed ∷ []) × IsSorted starts' × IsRateLimited starts'
evaluate-admit_rate starts proposed entitlement_limit deadline_at starts' s r h =
    let proposal = evaluate-IsProposal starts proposed entitlement_limit deadline_at _ h in
    let same = sort_starts-of_IsSorted starts s in
    let late : All (λ t. t ≤ proposed) starts =
      some_after-eq-false proposed starts (rw same at proposal.none_later) in
    let answered : answer starts proposed (min rate_attempts entitlement_limit) deadline_at
        ≡ admit starts' =
      rw same at (evaluate-answer starts proposed entitlement_limit deadline_at _ h) in
    let (few, e) =
      answer-admit starts proposed (min rate_attempts entitlement_limit) deadline_at starts'
        answered in
    (
      e,
      rw e (IsSorted-append_last starts proposed s late),
      rw e (IsRateLimited-append_last starts proposed _ r few (omega arith)),
    )

-- The code never answers that the quota is exhausted: its `blocking` is always defined.
pub evaluate-ne-exhausted :
    (starts : List ℕ) (proposed entitlement_limit deadline_at : ℕ)
    → evaluate_rolling_quota starts proposed entitlement_limit deadline_at
      ≢ ok (stop QuotaStop.quota_exhausted)
unfolding when_full
evaluate-ne-exhausted starts proposed entitlement_limit deadline_at h =
    let proposal = evaluate-IsProposal starts proposed entitlement_limit deadline_at _ h in
    let entitled = proposal.entitled in
    let answered = evaluate-answer starts proposed entitlement_limit deadline_at _ h in
    let active = active_starts proposed (sort_starts starts) in
    let limit = min rate_attempts entitlement_limit in
    elim (dec_lt (length active) limit) [
      | yes few ↦ ground arith
      | no full ↦
          let (b, e) = get_elem?-lt active (length active - limit) (omega arith) in ground arith
    ]
