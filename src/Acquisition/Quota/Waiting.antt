-- ===== src/Acquisition/Quota/Waiting.antt =====
-- Proofs on the answer `wait` of evaluateRollingQuota.
use native.Mathlib.Decide.{dec_lt}
use peas_engine.Prelude.{
  ℕ, ◌+◌, ◌-◌, ◌≤◌, ◌<◌, ◌≡◌, ◌∙◌, List, [], ◌∷◌, ◌++◌, some, ok, min, arith, length, get_elem?, ap,
}
use peas_engine.Acquisition.Limits.{rate_attempts, rate_window_ms}
use peas_engine.Acquisition.Quota.{
  admit, wait, sort_starts, active_starts, when_full, evaluate_rolling_quota,
}
use peas_engine.Acquisition.Quota.Sorting.{IsSorted, sort_starts-IsSorted}
use peas_engine.Acquisition.Quota.Window.{
  some_after-eq-false, some_after-of_All, All-le_mono, active_starts-later, active_starts-IsSorted,
  active_starts-in_window, active_starts-after_block, active_starts-before_block, get_elem?-lt,
}
use peas_engine.Acquisition.Quota.Admission.{
  answer, IsProposal, evaluate-of_IsProposal, evaluate-IsProposal, evaluate-answer,
}

-- The start that blocks an admission at p until t.
record IsBlocked (xs : List ℕ) (p limit d t : ℕ) : Type 0 where
  block : ℕ
  full : limit ≤ length (active_starts p xs)
  found : get_elem? (active_starts p xs) (length (active_starts p xs) - limit) ≡ some block
  until : t ≡ block + rate_window_ms
  in_time : t ≤ d

module _ (xs : List ℕ) (p limit d t : ℕ) (one : 1 ≤ limit) where
  answer-IsBlocked : answer xs p limit d ≡ wait t → IsBlocked xs p limit d t
  unfolding when_full
  answer-IsBlocked h = elim (dec_lt (length (active_starts p xs)) limit) [
    | yes few ↦ absurd (ground arith)
    | no full ↦
        let (b, e) =
          get_elem?-lt (active_starts p xs) (length (active_starts p xs) - limit) (omega arith) in
        record {
          block = b;
          full = omega arith;
          found = e;
          until = ground arith;
          in_time = ground arith;
        }
  ]

  answer-until :
      (u : ℕ)
      → IsSorted xs
      → IsBlocked xs p limit d t
      → p ≤ u
      → u < t
      → answer xs u limit d ≡ wait t
  unfolding when_full
  answer-until u s blocked le lt =
      let (full, found) =
        active_starts-before_block limit u (active_starts p xs) one blocked.full
          (active_starts-IsSorted p xs s) blocked.found (omega arith) in
      let same = active_starts-later p u xs le in ground arith

  answer-at :
      IsSorted xs → IsBlocked xs p limit d t → p ≤ t → answer xs t limit d ≡ admit (xs ++ t ∷ [])
  answer-at s blocked le =
      let few =
        active_starts-after_block limit (active_starts p xs) one blocked.full
          (active_starts-IsSorted p xs s) blocked.found in
      let same = active_starts-later p t xs le in ground arith

IsProposal-later :
    (starts : List ℕ) (p e d u : ℕ)
    → p ≤ u
    → u ≤ d
    → IsProposal starts p e d
    → IsProposal starts u e d
IsProposal-later starts p e d u le ld h = record {
  proposed_safe = omega arith;
  entitled = h.entitled;
  limit_safe = h.limit_safe;
  deadline_safe = h.deadline_safe;
  starts_safe = h.starts_safe;
  none_later = some_after-of_All u (sort_starts starts) (
      All-le_mono p u (sort_starts starts) le
        (some_after-eq-false p (sort_starts starts) h.none_later));
}

-- When the code says to wait until t, then t is after the proposed start and not after the
-- deadline, a start at any instant from the proposed one up to t (t excluded) is told to wait until
-- the same t, and a start at t itself is admitted.
pub evaluate-wait_exact :
    (starts : List ℕ) (proposed entitlement_limit deadline_at t : ℕ)
    → evaluate_rolling_quota starts proposed entitlement_limit deadline_at ≡ ok (wait t)
    → (proposed < t)
      × (t ≤ deadline_at)
      × ((u : ℕ)
          → proposed ≤ u
          → u < t
          → evaluate_rolling_quota starts u entitlement_limit deadline_at ≡ ok (wait t))
      × (evaluate_rolling_quota starts t entitlement_limit deadline_at
          ≡ ok (admit (sort_starts starts ++ t ∷ [])))
evaluate-wait_exact starts proposed entitlement_limit deadline_at t h =
    let proposal = evaluate-IsProposal starts proposed entitlement_limit deadline_at _ h in
    let limit = min rate_attempts entitlement_limit in
    let sorted = sort_starts-IsSorted starts in
    let one : 1 ≤ limit = omega (arith, proposal.entitled) in
    let blocked =
      answer-IsBlocked (sort_starts starts) proposed limit deadline_at t one
        (evaluate-answer starts proposed entitlement_limit deadline_at _ h) in
    let late : proposed < t = omega (
      arith,
      active_starts-in_window proposed (sort_starts starts) _ blocked.found,
      blocked.until,
    ) in
    (
      late,
      blocked.in_time,
      λ u le lt.
          evaluate-of_IsProposal starts u entitlement_limit deadline_at (
            IsProposal-later starts proposed entitlement_limit deadline_at u le
              (omega (arith, blocked.in_time)) proposal)
          ∙ ap ok (
              answer-until (sort_starts starts) proposed limit deadline_at t one u sorted blocked le
                lt),
      evaluate-of_IsProposal starts t entitlement_limit deadline_at (
            IsProposal-later starts proposed entitlement_limit deadline_at t (omega arith)
              blocked.in_time proposal)
          ∙ ap ok (
              answer-at (sort_starts starts) proposed limit deadline_at t one sorted blocked
                (omega arith)),
    )
