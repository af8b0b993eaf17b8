-- ===== src/Acquisition/Quota.antt =====
-- adapters/market-acquisition/quota.ts: the rolling-window quota and the deadlines. Times are
-- milliseconds; a number that the code requires to be a non-negative safe integer is a natural
-- number here, and the bound by MAX_SAFE_INTEGER is checked as in the code.
pub mod Window
pub mod Sorting
pub mod Admission
pub mod Waiting
use peas_engine.Prelude.{
  ℕ, ◌+◌, ◌-◌, String, Bool, true, false, ◌&&◌, ◌||◌, List, [], ◌∷◌, ◌++◌, Option, none, some,
  Result, ok, err, ◌>>=◌, ◌>>◌, guard, fail_if, ltb, leb, min, length, get_elem?, if◌then◌else◌,
}
use peas_engine.Json.{max_safe}
use peas_engine.Acquisition.Limits.{
  rate_attempts, rate_window_ms, attempt_deadline_ms, acquisition_deadline_ms,
}

-- requireNonNegativeSafeInteger
abbrev pub require_nonnegative : ℕ → String → Result (Unit {0})
require_nonnegative value name = guard (leb value max_safe) name

-- requirePositiveSafeInteger
abbrev pub require_positive : ℕ → String → Result (Unit {0})
require_positive value name = guard (leb 1 value && leb value max_safe) name

-- `copy.sort((left, right) => left - right)`
unfoldable pub insert_start : ℕ → List ℕ → List ℕ
insert_start x [] = x ∷ []
insert_start x (y ∷ ys) = let rest = insert_start x ys in if ltb y x then y ∷ rest else x ∷ y ∷ ys

unfoldable pub sort_starts : List ℕ → List ℕ
unfolding insert_start
sort_starts [] = []
sort_starts (x ∷ xs) = insert_start x (sort_starts xs)

unfoldable pub all_safe : List ℕ → Bool
all_safe [] = true
all_safe (x ∷ xs) = leb x max_safe && all_safe xs

-- sortedAttemptStarts
unfoldable pub sorted_attempt_starts : List ℕ → Result (List ℕ)
unfolding all_safe sort_starts
sorted_attempt_starts values =
    guard (all_safe values) "quota-start-invalid" >> ok (sort_starts values)

pub data QuotaStop : Type 0 where
  quota_exhausted acquisition_deadline : QuotaStop

pub data QuotaAdmission : Type 0 where
  admit : List ℕ → QuotaAdmission
  wait : ℕ → QuotaAdmission
  stop : QuotaStop → QuotaAdmission

-- `sorted.some((start) => start > proposedStartMs)`
unfoldable pub some_after : ℕ → List ℕ → Bool
some_after now [] = false
some_after now (s ∷ ss) = ltb now s || some_after now ss

-- `start > proposedStartMs - PROJECT_RATE_WINDOW_MS`, where the difference may be negative.
abbrev pub in_window : ℕ → ℕ → Bool
in_window now start = ltb now (start + rate_window_ms)

-- `sorted.filter((start) => start > lowerExclusive)`
unfoldable pub active_starts : ℕ → List ℕ → List ℕ
active_starts now [] = []
active_starts now (s ∷ ss) =
    let rest = active_starts now ss in if in_window now s then s ∷ rest else rest

-- The answer where the window is full: `blocking` is `active.at(active.length - effectiveLimit)`.
unfoldable pub when_full : Option ℕ → ℕ → QuotaAdmission
when_full none deadline_at = stop quota_exhausted
when_full (some blocking) deadline_at =
    if ltb deadline_at (blocking + rate_window_ms)
    then stop acquisition_deadline
    else wait (blocking + rate_window_ms)

-- evaluateRollingQuota
unfoldable pub evaluate_rolling_quota : List ℕ → ℕ → ℕ → ℕ → Result QuotaAdmission
unfolding sorted_attempt_starts some_after active_starts when_full
evaluate_rolling_quota starts proposed entitlement_limit deadline_at = do
  require_nonnegative proposed "quota-proposed-start-invalid"
  require_positive entitlement_limit "quota-entitlement-limit-invalid"
  require_nonnegative deadline_at "acquisition-deadline-invalid"
  let limit = min rate_attempts entitlement_limit
  sorted ← sorted_attempt_starts starts
  fail_if (some_after proposed sorted) "quota-window-future-start"
  let active = active_starts proposed sorted
  ok (
      if ltb (length active) limit
      then admit (sorted ++ proposed ∷ [])
      else when_full (get_elem? active (length active - limit)) deadline_at)

pub record DeadlineProof : Type 0 where
  pub acquisition_declared_monotonic_ms : ℕ
  pub attempt_started_monotonic_ms : ℕ
  pub now_monotonic_ms : ℕ

-- validateDeadlineProof
unfoldable pub validate_deadline_proof : DeadlineProof → Result (Unit {0})
validate_deadline_proof proof = do
  require_nonnegative acquisition_declared_monotonic_ms "acquisition-start-invalid"
  require_nonnegative attempt_started_monotonic_ms "attempt-start-invalid"
  require_nonnegative now_monotonic_ms "deadline-now-invalid"
  fail_if
      (ltb attempt_started_monotonic_ms acquisition_declared_monotonic_ms
        || ltb now_monotonic_ms attempt_started_monotonic_ms)
      "deadline-monotonic-regression"
  fail_if (ltb attempt_deadline_ms (now_monotonic_ms - attempt_started_monotonic_ms))
      "attempt-timeout"
  fail_if (ltb acquisition_deadline_ms (now_monotonic_ms - acquisition_declared_monotonic_ms))
      "acquisition-deadline"
  where
    open proof use {
      acquisition_declared_monotonic_ms, attempt_started_monotonic_ms, now_monotonic_ms,
    }

-- retryFitsAcquisitionDeadline
unfoldable pub retry_fits_acquisition_deadline : ℕ → ℕ → ℕ → Result Bool
retry_fits_acquisition_deadline now delay declared = do
  require_nonnegative now "deadline-now-invalid"
  require_nonnegative delay "retry-delay-invalid"
  require_nonnegative declared "acquisition-start-invalid"
  ok (
      if ltb now declared
      then false
      else leb (now + delay + attempt_deadline_ms - declared) acquisition_deadline_ms)
