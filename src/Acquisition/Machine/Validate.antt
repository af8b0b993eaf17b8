-- ===== src/Acquisition/Machine/Validate.antt =====
-- adapters/market-acquisition/state-machine.ts: validateSnapshot and validateProof. A snapshot has
-- no unsafe value but a number, so `canonicalJson` throws on it just when a number is unsafe; the
-- tests of numbers for being non-negative integers hold by their type.
use peas_engine.Prelude.{
  ℕ, String, Bool, true, false, not, ◌&&◌, ◌||◌, List, [], ◌∷◌, Option, none, some, Result, ok,
  ◌>>=◌, ◌>>◌, guard, fail_if, ltb, leb, ◌==◌, str_eq, str_lt, is_hash, is_empty, length,
}
use peas_engine.Json.{max_safe}
use peas_engine.Digest.{Platform}
use peas_engine.Acquisition.Limits
use peas_engine.Acquisition.Quota.{all_safe}
use peas_engine.Acquisition.Identity.{
  no_token_hash, genesis_hash, iff, derive_logical_page_identity_hash,
  derive_attempt_control_identities,
}
use peas_engine.Acquisition.Machine.{is_terminal, Snapshot, EventProof, same_state, completed}

abbrev pub number_of : Option ℕ → List ℕ
number_of none = []
number_of (some n) = n ∷ []

-- The numbers that `canonicalJson` meets beside the quota evidence.
abbrev pub snapshot_numbers : Snapshot → List ℕ
snapshot_numbers s =
    s.schema_version ∷ s.page_ordinal ∷ s.page_attempts_started ∷ s.budgets.successful_pages
    ∷ s.budgets.verified_bytes ∷ s.budgets.records ∷ s.budgets.normalized_facts ∷ s.budgets.attempts
    ∷ s.acquisition_declared_monotonic_ms ∷ s.last_monotonic_ms ∷ []

-- `left !== right` on a text and a text or null.
abbrev pub differs : String → Option String → Bool
differs s none = true
differs s (some t) = not (str_eq s t)

abbrev pub is_some {ℓ} : {A : Type ℓ} → Option A → Bool
is_some none = false
is_some (some a) = true

-- requireSafeInteger with minimum 0.
abbrev pub require_at_most : ℕ → ℕ → String → Result (Unit {0})
require_at_most value maximum message = guard (leb value maximum) message

-- The canonicalJson call and the first group of tests.
unfoldable pub validate_header : Snapshot → Result (Unit {0})
validate_header s = do
  guard
      (all_safe (snapshot_numbers s)
        && all_safe s.quota_window_evidence
        && all_safe (number_of s.attempt_ordinal)
        && all_safe (number_of s.pending_retry_delay_ms))
      "must be a safe integer and cannot be negative zero"
  fail_if
      (not (s.schema_version == 1)
        || not (is_hash s.request_identity_hash)
        || not (is_hash s.acquisition_configuration_hash)
        || not (is_hash s.market_acquisition_journal_id)
        || is_empty s.run_session_nonce)
      "acquisition-snapshot-invalid"

module _ (p : Platform) where
  unfoldable pub validate_page : Snapshot → Result (Unit {0})
  validate_page s = do
    require_at_most s.page_ordinal 15 "page-ordinal-invalid"
    expected ←
        derive_logical_page_identity_hash p s.request_identity_hash s.page_ordinal
          s.current_token_hash
    guard (str_eq s.logical_page_identity_hash expected) "snapshot-logical-page-identity-invalid"

  unfoldable pub validate_attempt : Snapshot → Option ℕ → Result (Unit {0})
  validate_attempt s none =
      fail_if (is_some s.attempt_id || is_some s.retrieval_attempt_id)
        "snapshot-attempt-identity-invalid"
  validate_attempt s (some ordinal) = do
    expected ←
        derive_attempt_control_identities p s.logical_page_identity_hash ordinal s.run_session_nonce
    fail_if
        (differs expected.attempt_id s.attempt_id
          || differs expected.retrieval_attempt_id s.retrieval_attempt_id)
        "snapshot-attempt-identity-invalid"

unfoldable pub validate_budgets : Snapshot → Result (Unit {0})
validate_budgets s = do
  require_at_most s.page_attempts_started Limits.attempts_per_logical_page "page-attempts-invalid"
  require_at_most s.budgets.successful_pages Limits.successful_pages "successful-pages-invalid"
  require_at_most s.budgets.verified_bytes Limits.aggregate_verified_bytes "verified-bytes-invalid"
  require_at_most s.budgets.records 160000 "records-invalid"
  require_at_most s.budgets.normalized_facts Limits.normalized_facts "normalized-facts-invalid"
  require_at_most s.budgets.attempts Limits.attempts_per_acquisition "attempts-invalid"
  require_at_most s.acquisition_declared_monotonic_ms max_safe "start-invalid"
  require_at_most s.last_monotonic_ms max_safe "last-monotonic-invalid"
  fail_if (ltb s.last_monotonic_ms s.acquisition_declared_monotonic_ms) "snapshot-clock-regression"

-- The `some` of the quota evidence: a start before `low`, after `high`, or before its predecessor.
unfoldable pub has_bad_start : ℕ → ℕ → ℕ → List ℕ → Bool
has_bad_start low high previous [] = false
has_bad_start low high previous (t ∷ ts) =
    not (leb t max_safe) || ltb t low || ltb high t || ltb t previous || has_bad_start low high t ts

unfoldable pub validate_evidence : Snapshot → Result (Unit {0})
unfolding has_bad_start
validate_evidence s =
    fail_if
      (not (length s.quota_window_evidence == s.budgets.attempts)
        || has_bad_start s.acquisition_declared_monotonic_ms s.last_monotonic_ms 0
            s.quota_window_evidence)
      "snapshot-quota-evidence-invalid"

-- The previous hash is not below this one.
abbrev follows : Option String → String → Bool
follows none t = false
follows (some t') t = not (str_lt t' t)

-- assertSortedUnique
unfoldable pub assert_sorted_unique : Option String → List String → Result (Unit {0})
assert_sorted_unique previous [] = ok tt
assert_sorted_unique previous (h ∷ hs) = do
  guard (is_hash h) "consumed-token-hashes-invalid"
  fail_if (follows previous h) "consumed-token-hashes-not-sorted-unique"
  assert_sorted_unique (some h) hs

unfoldable pub validate_tokens : Snapshot → Result (Unit {0})
unfolding assert_sorted_unique
validate_tokens s = do
  assert_sorted_unique none s.consumed_token_hashes
  fail_if
      (not (
        iff (s.page_ordinal == 0) (
          str_eq s.current_token_hash no_token_hash
          && not (is_some s.current_continuation_binding_hash))))
      "snapshot-token-state-invalid"
  fail_if (ltb 0 s.page_ordinal && not (is_hash s.current_token_hash))
      "snapshot-token-state-invalid"
  fail_if (not (str_eq s.page_chain_hash genesis_hash) && not (is_hash s.page_chain_hash))
      "snapshot-page-chain-invalid"

unfoldable pub validate_terminal : Snapshot → Result (Unit {0})
validate_terminal s =
    fail_if
      ((not (iff (is_terminal s.current_state) (is_some s.terminal_reason))
          || (same_state s.current_state completed && is_some s.terminal_reason))
        && (not (same_state s.current_state completed) || is_some s.terminal_reason))
      "snapshot-terminal-invalid"

module _ (p : Platform) where
  -- validateSnapshot
  unfoldable pub validate_snapshot : Snapshot → Result (Unit {0})
  validate_snapshot s = do
    validate_header s
    validate_page p s
    validate_attempt p s s.attempt_ordinal
    validate_budgets s
    validate_evidence s
    validate_tokens s
    validate_terminal s

-- validateProof
unfoldable pub validate_proof : Snapshot → EventProof → Result (Unit {0})
validate_proof s proof =
    fail_if
      (not (str_eq proof.request_identity_hash s.request_identity_hash)
        || not (str_eq proof.acquisition_configuration_hash s.acquisition_configuration_hash)
        || not (str_eq proof.market_acquisition_journal_id s.market_acquisition_journal_id)
        || not (str_eq proof.run_session_nonce s.run_session_nonce)
        || not (leb proof.now_monotonic_ms max_safe)
        || ltb proof.now_monotonic_ms s.last_monotonic_ms)
      "acquisition-event-proof-invalid"
