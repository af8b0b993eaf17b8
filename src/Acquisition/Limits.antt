-- ===== src/Acquisition/Limits.antt =====
-- adapters/market-acquisition/contracts.ts: MARKET_ACQUISITION_LIMITS and the terminal reasons.
use peas_engine.Prelude.{ℕ}

-- MARKET_ACQUISITION_LIMITS, the limits that the modelled code reads.
abbrev pub raw_artifact_bytes : ℕ
raw_artifact_bytes = 10485760

abbrev pub aggregate_verified_bytes : ℕ
aggregate_verified_bytes = 67108864

abbrev pub successful_pages : ℕ
successful_pages = 16

abbrev pub records_per_page : ℕ
records_per_page = 10000

abbrev pub normalized_facts : ℕ
normalized_facts = 160000

abbrev pub opaque_page_token_bytes : ℕ
opaque_page_token_bytes = 4096

abbrev pub attempts_per_acquisition : ℕ
attempts_per_acquisition = 48

abbrev pub attempts_per_logical_page : ℕ
attempts_per_logical_page = 3

abbrev pub max_retry_after_ms : ℕ
max_retry_after_ms = 30000

abbrev pub attempt_deadline_ms : ℕ
attempt_deadline_ms = 30000

abbrev pub acquisition_deadline_ms : ℕ
acquisition_deadline_ms = 300000

abbrev pub rate_attempts : ℕ
rate_attempts = 30

abbrev pub rate_window_ms : ℕ
rate_window_ms = 60000

-- MARKET_ACQUISITION_TERMINAL_REASONS
pub data TerminalReason : Type 0 where
  authority_invalid lane_not_authorized lane_not_implemented capability_not_authorized :
      TerminalReason
  configuration_invalid identity_mismatch query_invalid zero_spend_unprovable : TerminalReason
  credential_unavailable clock_unavailable clock_regression : TerminalReason
  historical_boundary_unprovable concurrency_exhausted quota_exhausted : TerminalReason
  attempt_budget_exhausted page_budget_exhausted acquisition_deadline attempt_timeout :
      TerminalReason
  retry_after_invalid transport_failed http_nonretryable lane_disabled : TerminalReason
  partial_cleanup_failed artifact_store_failed artifact_verification_failed : TerminalReason
  response_length_mismatch schema_invalid bound_exceeded pagination_invalid : TerminalReason
  journal_conflict delivery_conflict correction_unsupported normalization_failed : TerminalReason
  selection_failed operator_stop : TerminalReason
