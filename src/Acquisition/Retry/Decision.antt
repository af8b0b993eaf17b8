-- ===== src/Acquisition/Retry/Decision.antt =====
-- Proofs on the decisions of decideRetry.
use peas_engine.Prelude.{
  ℕ, ◌*◌, ◌≤◌, ◌≡◌, ◌⊎◌, inl, inr, refl, true, false, String, Option, none, some, Result, ok, err,
  is_ok, max, arith, codes, ◌==◌, Bool-cases,
}
use peas_engine.Acquisition.Retry.{
  QuotaClass, temporary_throttling_proved, HardFailure, RetryFailure, pre_response_transport,
  clean_partial_body_transport, http, hard, RetryContext, RetryStop, retry, stop, is_canonical,
  decimal, parse_seconds, parse_retry_after_ms, with_retry_after, throttled, project_delay,
  decide_failure, decide_retry,
}
use peas_engine.Acquisition.Retry.Header.{parse_seconds-le, parse_seconds-of_canonical}

abbrev pub InBudget : RetryContext → Type 0
InBudget c =
    (1 ≤ c.page_attempts_started)
    × (c.page_attempts_started ≤ 2)
    × (1 ≤ c.acquisition_attempts_started)
    × (c.acquisition_attempts_started ≤ 47)

abbrev pub IsRetryableStatus : ℕ → Type 0
IsRetryableStatus s = (s ≡ 408) ⊎ (s ≡ 429) ⊎ (s ≡ 500) ⊎ (s ≡ 502) ⊎ (s ≡ 503) ⊎ (s ≡ 504)

-- No header, or a canonical number of seconds up to 30.
abbrev pub IsAcceptable : Option String → Type 0
IsAcceptable none = Unit
IsAcceptable (some text) = (is_canonical (codes text) ≡ true) × (decimal 0 (codes text) ≤ 30)

abbrev pub IsTransient : RetryFailure → Type 0
IsTransient pre_response_transport = Unit
IsTransient (clean_partial_body_transport settled) = settled ≡ true
IsTransient (http status quota header) =
    IsRetryableStatus status
    × (status ≡ 429 → (quota ≡ temporary_throttling_proved) × IsAcceptable header)
IsTransient (hard _) = ⊥

parse_retry_after_ms_cases :
    (header : Option String) (d k : ℕ)
    → d ≤ 30000
    → (with_retry_after (d, k) (parse_retry_after_ms header) ≡ stop RetryStop.retry_after_invalid)
      ⊎ (IsAcceptable header
          × ((ms : ℕ) × (with_retry_after (d, k) (parse_retry_after_ms header) ≡ retry ms k)
              × (d ≤ ms)
              × (ms ≤ 30000)))
unfolding parse_retry_after_ms with_retry_after
parse_retry_after_ms_cases none d k h = inr (tt, (max d 0, refl, omega arith, omega arith))
parse_retry_after_ms_cases (some text) d k h = go (parse_seconds (codes text)) refl
  where
    go :
        (r : Result ℕ)
        → parse_seconds (codes text) ≡ r
        → (with_retry_after (d, k) (parse_retry_after_ms (some text))
            ≡ stop RetryStop.retry_after_invalid)
          ⊎ (IsAcceptable (some text)
              × ((ms : ℕ) × (with_retry_after (d, k) (parse_retry_after_ms (some text))
                    ≡ retry ms k)
                  × (d ≤ ms)
                  × (ms ≤ 30000)))
    go (err e) q = inl (rw q refl)
    go (ok ms) q =
        let (a, le, p) = parse_seconds-le (codes text) ms q in
        inr ((p, le), (max d ms, rw q refl, omega arith, omega arith))

-- What a retry says: the ordinal is the number of the page's attempts, and the delay is between the
-- project's delay for it and 30 seconds.
abbrev Retries : RetryContext → ℕ → ℕ → Type 0
Retries c ms k =
    InBudget c
    × IsTransient c.failure
    × (k ≡ c.page_attempts_started)
    × (1000 * k ≤ ms)
    × (ms ≤ 30000)

throttled-Retries :
    (d n : ℕ) (q : QuotaClass) (header : Option String) (ms k : ℕ)
    → d ≤ 30000
    → throttled (d, n) q header ≡ retry ms k
    → (q ≡ temporary_throttling_proved) × IsAcceptable header × (k ≡ n) × (d ≤ ms) × (ms ≤ 30000)
unfolding throttled
throttled-Retries d n temporary_throttling_proved header ms k le h =
    ground (arith, parse_retry_after_ms_cases header d n le)
throttled-Retries d n _ header ms k le h = cc

decide_failure-Retries :
    (f : RetryFailure) (n : ℕ) (ms k : ℕ)
    → 1 ≤ n
    → n ≤ 2
    → decide_failure f n ≡ ok (retry ms k)
    → IsTransient f × (k ≡ n) × (1000 * k ≤ ms) × (ms ≤ 30000)
unfolding decide_failure
decide_failure-Retries (hard x) n ms k one two h = absurd (ground arith)
decide_failure-Retries pre_response_transport n ms k one two h = ground arith
decide_failure-Retries (clean_partial_body_transport settled) n ms k one two h = ground arith
decide_failure-Retries (http status q header) n ms k one two h =
    ground (arith, throttled-Retries 1000 1 q header ms k, throttled-Retries 2000 2 q header ms k)

-- A retry is decided only within the budgets (at most 2 earlier attempts of the page, at most 47 of
-- the acquisition, at least 1 of each) and for a transient failure: a transport failure before the
-- response, a partial body whose resources are settled, or a retryable status, where 429 needs proved
-- throttling and an absent or canonical Retry-After of at most 30 seconds. The ordinal is the number
-- of attempts of the page, and the delay is between 1 second per attempt and 30 seconds.
pub decide_retry_sound :
    (c : RetryContext) (ms k : ℕ) → decide_retry c ≡ ok (retry ms k) → Retries c ms k
unfolding decide_retry
decide_retry_sound c ms k h =
    ground (arith, decide_failure-Retries c.failure c.page_attempts_started ms k)

throttled_acceptable :
    (d n : ℕ) (header : Option String)
    → d ≤ 30000
    → IsAcceptable header
    → (ms : ℕ) × (throttled (d, n) temporary_throttling_proved header ≡ retry ms n)
unfolding throttled parse_retry_after_ms with_retry_after
throttled_acceptable d n none le a = (max d 0, refl)
throttled_acceptable d n (some text) le a = (
  max d (decimal 0 (codes text) * 1000),
  rw (parse_seconds-of_canonical (codes text) a.0 a.1) refl,
)

project_delay-of : (n : ℕ) → 1 ≤ n → n ≤ 2 → project_delay n ≡ ok (1000 * n, n)
unfolding project_delay
project_delay-of n one two = ground arith

decide_failure_transient :
    (f : RetryFailure) (n : ℕ)
    → 1 ≤ n
    → n ≤ 2
    → IsTransient f
    → (ms : ℕ) × (decide_failure f n ≡ ok (retry ms n))
unfolding decide_failure
decide_failure_transient (hard x) n one two t = absurd t
decide_failure_transient pre_response_transport n one two t =
    (1000 * n, rw (project_delay-of n one two) refl)
decide_failure_transient (clean_partial_body_transport settled) n one two t =
    (1000 * n, rw (t, project_delay-of n one two) refl)
decide_failure_transient (http status q header) n one two (retryable, quota) =
    elim (Bool-cases (status == 429)) [
      | inl throttling ↦
          let (proved, acceptable) = quota (ground arith) in
          let (ms, e) = throttled_acceptable (1000 * n) n header (omega arith) acceptable in
          (ms, rw (project_delay-of n one two) (ground arith))
      | inr other ↦ (1000 * n, rw (project_delay-of n one two) (ground arith))
    ]

-- Every transient failure within the budgets is retried, with the number of the page's attempts as
-- its ordinal.
pub decide_retry_complete :
    (c : RetryContext)
    → InBudget c
    → IsTransient c.failure
    → (ms : ℕ) × (decide_retry c ≡ ok (retry ms c.page_attempts_started))
unfolding decide_retry
decide_retry_complete c b t =
    let (ms, e) = decide_failure_transient c.failure c.page_attempts_started b.0 b.1 t in
    (ms, ground arith)

decide_failure-is_ok :
    (f : RetryFailure) (n : ℕ) → 1 ≤ n → n ≤ 2 → is_ok (decide_failure f n) ≡ true
unfolding decide_failure
decide_failure-is_ok (hard HardFailure.cleanup_unprovable) n one two = refl
decide_failure-is_ok (hard _) n one two = refl
decide_failure-is_ok pre_response_transport n one two = rw (project_delay-of n one two) refl
decide_failure-is_ok (clean_partial_body_transport true) n one two =
    rw (project_delay-of n one two) refl
decide_failure-is_ok (clean_partial_body_transport false) n one two = refl
decide_failure-is_ok (http status q header) n one two = rw (project_delay-of n one two) refl

-- decideRetry throws on no context: its projectDelay is only reached with one or two attempts.
pub decide_retry_total : (c : RetryContext) → is_ok (decide_retry c) ≡ true
unfolding decide_retry
decide_retry_total c = ground (arith, decide_failure-is_ok c.failure c.page_attempts_started)
