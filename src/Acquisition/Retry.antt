-- ===== src/Acquisition/Retry.antt =====
-- adapters/market-acquisition/retry.ts: which failures are retried, and after how long.
pub mod Header
pub mod Decision
use peas_engine.Prelude.{
  ℕ, zero, suc, ◌+◌, ◌-◌, ◌*◌, String, Bool, true, false, not, ◌&&◌, ◌||◌, List, [], ◌∷◌, Option,
  none, some, Result, ok, err, ◌>>=◌, ◌>>◌, fail_if, guard, ltb, leb, max, ◌==◌, str_eq, codes,
  all_codes, if◌then◌else◌,
}
use peas_engine.Json.{max_safe}
use peas_engine.Acquisition.Limits
use peas_engine.Acquisition.Limits.{max_retry_after_ms}

-- RetryFailure["quotaClassification"]
pub data QuotaClass : Type 0 where
  temporary_throttling_proved exhausted missing ambiguous : QuotaClass

-- The kinds of RetryFailure that carry nothing.
pub data HardFailure : Type 0 where
  identity entitlement authorization feed capability cost clock bound schema : HardFailure
  pagination redaction artifact correction journal malformed_body : HardFailure
  cleanup_unprovable zero_spend : HardFailure

pub data RetryFailure : Type 0 where
  pre_response_transport : RetryFailure
  clean_partial_body_transport : Bool → RetryFailure
  http : ℕ → QuotaClass → Option String → RetryFailure
  hard : HardFailure → RetryFailure

pub record RetryContext : Type 0 where
  pub failure : RetryFailure
  pub page_attempts_started : ℕ
  pub acquisition_attempts_started : ℕ

pub data RetryStop : Type 0 where
  non_retryable lane_disabled quota_exhausted retry_after_invalid : RetryStop
  attempt_budget_exhausted cleanup_unprovable : RetryStop

-- The delay in milliseconds and the ordinal of the retry.
pub data RetryDecision : Type 0 where
  retry : ℕ → ℕ → RetryDecision
  stop : RetryStop → RetryDecision

-- `\d`
abbrev pub is_digit : ℕ → Bool
is_digit c = leb b'0' c && leb c b'9'

-- isCanonicalNonNegativeInteger, `/^(?:0|[1-9]\d*)$/u`, on the characters of the header.
unfoldable pub is_canonical : List ℕ → Bool
is_canonical [] = false
is_canonical (c ∷ []) = is_digit c
is_canonical (c ∷ d ∷ cs) = leb b'1' c && leb c b'9' && all_codes is_digit (d ∷ cs)

-- `Number(value)` on digits, exact: where a double would round, the value is past every limit.
unfoldable pub decimal : ℕ → List ℕ → ℕ
decimal acc [] = acc
decimal acc (c ∷ cs) = decimal (10 * acc + (c - b'0')) cs

unfoldable pub parse_seconds : List ℕ → Result ℕ
unfolding is_canonical decimal
parse_seconds cs = do
  guard (is_canonical cs) "retry-after-invalid"
  let seconds = decimal 0 cs
  let milliseconds = seconds * 1000
  fail_if (ltb max_safe seconds || ltb max_safe milliseconds || ltb max_retry_after_ms milliseconds)
      "retry-after-invalid"
  ok milliseconds

-- parseRetryAfterMs; `none` is an absent header.
unfoldable pub parse_retry_after_ms : Option String → Result (Option ℕ)
unfolding parse_seconds
parse_retry_after_ms none = ok none
parse_retry_after_ms (some value) = parse_seconds (codes value) >>= λ ms. ok (some ms)

-- projectDelay: the delay and the ordinal.
unfoldable pub project_delay : ℕ → Result (ℕ × ℕ)
project_delay started =
    if started == 1
    then ok (1000, 1)
    else if started == 2
    then ok (2000, 2)
    else err "attempt-budget-exhausted"

-- stopForHttp
unfoldable pub stop_for_http : ℕ → RetryDecision
stop_for_http status =
    if status == 401 || status == 403 then stop lane_disabled else stop non_retryable

-- `Number.isSafeInteger(status) && RETRYABLE_HTTP_STATUSES.includes(status)`
unfoldable pub is_retryable_status : ℕ → Bool
is_retryable_status status =
    leb status max_safe
    && (status == 408
        || status == 429
        || status == 500
        || status == 502
        || status == 503
        || status == 504)

-- The `try` at the end of decideRetry.
unfoldable pub with_retry_after : ℕ × ℕ → Result (Option ℕ) → RetryDecision
with_retry_after (delay, ordinal) (err e) = stop retry_after_invalid
with_retry_after (delay, ordinal) (ok none) = retry (max delay 0) ordinal
with_retry_after (delay, ordinal) (ok (some ms)) = retry (max delay ms) ordinal

-- What decideRetry answers on status 429.
unfoldable pub throttled : ℕ × ℕ → QuotaClass → Option String → RetryDecision
unfolding with_retry_after parse_retry_after_ms
throttled project temporary_throttling_proved header =
    with_retry_after project (parse_retry_after_ms header)
throttled project _ header = stop quota_exhausted

-- The part of decideRetry after the budget tests.
unfoldable pub decide_failure : RetryFailure → ℕ → Result RetryDecision
unfolding project_delay stop_for_http is_retryable_status throttled
decide_failure (hard HardFailure.cleanup_unprovable) started =
    ok (stop RetryStop.cleanup_unprovable)
decide_failure (hard _) started = ok (stop non_retryable)
decide_failure pre_response_transport started =
    project_delay started >>= λ (delay, ordinal). ok (retry delay ordinal)
decide_failure (clean_partial_body_transport settled) started =
    if settled
    then (project_delay started >>= λ (delay, ordinal). ok (retry delay ordinal))
    else ok (stop RetryStop.cleanup_unprovable)
decide_failure (http status quota header) started = project_delay started >>= λ project. ok (
    if not (is_retryable_status status)
    then stop_for_http status
    else if not (status == 429)
    then retry project.0 project.1
    else throttled project quota header)

-- decideRetry
unfoldable pub decide_retry : RetryContext → Result RetryDecision
unfolding decide_failure
decide_retry c =
    if not (leb c.page_attempts_started max_safe)
      || ltb c.page_attempts_started 1
      || not (leb c.acquisition_attempts_started max_safe)
      || ltb c.acquisition_attempts_started 1
    then ok (stop attempt_budget_exhausted)
    else if leb Limits.attempts_per_logical_page c.page_attempts_started
        || leb Limits.attempts_per_acquisition c.acquisition_attempts_started
    then ok (stop attempt_budget_exhausted)
    else decide_failure c.failure c.page_attempts_started

-- RetryDelayProof; `clockBasis` has one value and is left out.
pub record RetryDelayProof : Type 0 where
  pub elapsed_ms : ℕ
  pub monotonic_order_valid : Bool

-- validateRetryDelayProof
unfoldable pub validate_retry_delay_proof : ℕ → RetryDelayProof → Result (Unit {0})
validate_retry_delay_proof delay proof =
    fail_if
      (not (leb delay max_safe)
        || not proof.monotonic_order_valid
        || not (proof.elapsed_ms == delay))
      "retry-delay-proof-invalid"
