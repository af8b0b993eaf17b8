-- ===== src/Acquisition/Tests.antt =====
-- The theorems of the quota and of the retries at concrete starts, headers and failures.
use peas_engine.Prelude.{
  ℕ, ◌*◌, ◌≤◌, ◌<◌, ◌≡◌, ◌≢◌, refl, List, [], ◌∷◌, ◌++◌, some, ok, is_ok, true, arith, codes, inl,
  inr,
}
use peas_engine.Acquisition.Quota.{
  evaluate_rolling_quota, admit, wait, stop, QuotaStop, sort_starts, all_safe, some_after,
  active_starts, sorted_attempt_starts, insert_start, when_full,
}
use peas_engine.Acquisition.Quota.Sorting.{IsSorted}
use peas_engine.Acquisition.Quota.Admission.{
  IsRateLimited, evaluate-admit_rate, evaluate-ne-exhausted,
}
use peas_engine.Acquisition.Quota.Waiting.{evaluate-wait_exact}
use peas_engine.Acquisition.Retry.{
  RetryContext, RetryDecision, http, temporary_throttling_proved, parse_seconds, decide_retry,
  decide_failure, is_canonical, decimal, throttled, with_retry_after, parse_retry_after_ms,
  project_delay, is_retryable_status,
}
use peas_engine.Acquisition.Retry.Header.{parse_seconds_injective}
use peas_engine.Acquisition.Retry.Decision.{
  InBudget, IsTransient, decide_retry_sound, decide_retry_complete, decide_retry_total,
}

abbrev one_start : List ℕ
one_start = 1000 ∷ []

one_start-IsRateLimited : IsRateLimited one_start
one_start-IsRateLimited now = ground arith

admitted : evaluate_rolling_quota one_start 2000 30 301000 ≡ ok (admit (1000 ∷ 2000 ∷ []))
unfolding evaluate_rolling_quota sorted_attempt_starts sort_starts insert_start all_safe some_after
    active_starts
admitted = refl

evaluate-admit_rate_example :
    (1000 ∷ 2000 ∷ [] ≡ one_start ++ 2000 ∷ [])
    × IsSorted (1000 ∷ 2000 ∷ [])
    × IsRateLimited (1000 ∷ 2000 ∷ [])
evaluate-admit_rate_example =
    evaluate-admit_rate one_start 2000 30 301000 (1000 ∷ 2000 ∷ []) (tt, tt) one_start-IsRateLimited
      admitted

told_to_wait : evaluate_rolling_quota one_start 2000 1 301000 ≡ ok (wait 61000)
unfolding evaluate_rolling_quota sorted_attempt_starts sort_starts insert_start all_safe some_after
    active_starts when_full
told_to_wait = refl

evaluate-wait_exact_example :
    (2000 < 61000)
    × (61000 ≤ 301000)
    × ((u : ℕ)
        → 2000 ≤ u
        → u < 61000
        → evaluate_rolling_quota one_start u 1 301000 ≡ ok (wait 61000))
    × (evaluate_rolling_quota one_start 61000 1 301000
        ≡ ok (admit (sort_starts one_start ++ 61000 ∷ [])))
evaluate-wait_exact_example = evaluate-wait_exact one_start 2000 1 301000 61000 told_to_wait

evaluate-ne-exhausted_example :
    evaluate_rolling_quota one_start 2000 1 301000 ≢ ok (stop QuotaStop.quota_exhausted)
evaluate-ne-exhausted_example = evaluate-ne-exhausted one_start 2000 1 301000

seven_seconds : parse_seconds (codes "7") ≡ ok 7000
unfolding parse_seconds is_canonical decimal
seven_seconds = refl

parse_seconds_injective_example : codes "7" ≡ codes "7"
parse_seconds_injective_example =
    parse_seconds_injective (codes "7") (codes "7") 7000 seven_seconds seven_seconds

-- The second attempt of a page was answered with status 429 and `Retry-After: 7`.
abbrev throttled_twice : RetryContext
throttled_twice = record {
  failure = http 429 temporary_throttling_proved (some "7");
  page_attempts_started = 2;
  acquisition_attempts_started = 5;
}

throttled_retries : decide_retry throttled_twice ≡ ok (RetryDecision.retry 7000 2)
unfolding decide_retry decide_failure throttled with_retry_after parse_retry_after_ms parse_seconds
    is_canonical decimal project_delay is_retryable_status
throttled_retries = refl

decide_retry_sound_example :
    InBudget throttled_twice
    × IsTransient throttled_twice.failure
    × (throttled_twice.page_attempts_started ≡ throttled_twice.page_attempts_started)
    × (1000 * 2 ≤ 7000)
    × (7000 ≤ 30000)
decide_retry_sound_example = decide_retry_sound throttled_twice 7000 2 throttled_retries

decide_retry_complete_example :
    (ms : ℕ) × (decide_retry throttled_twice ≡ ok (RetryDecision.retry ms 2))
unfolding is_canonical decimal
decide_retry_complete_example =
    decide_retry_complete throttled_twice (omega arith, omega arith, omega arith, omega arith)
      (inr (inl refl), λ throttling. (refl, (refl, omega arith)))

decide_retry_total_example : is_ok (decide_retry throttled_twice) ≡ true
decide_retry_total_example = decide_retry_total throttled_twice
