-- ===== src/Acquisition/Machine/Step.antt =====
-- adapters/market-acquisition/state-machine.ts: deriveNext, the reducer of the acquisition.
use peas_engine.Prelude.{
  ℕ, ◌+◌, ◌-◌, String, Bool, true, false, not, ◌&&◌, ◌||◌, List, [], ◌∷◌, Option, none, some,
  Result, ok, err, ◌>>=◌, ◌>>◌, guard, fail_if, ltb, leb, ◌==◌, str_eq, str_lt, if◌then◌else◌,
}
use peas_engine.Digest.{Platform}
use peas_engine.Acquisition.Limits
use peas_engine.Acquisition.Limits.{TerminalReason}
use peas_engine.Acquisition.Quota.{
  QuotaAdmission, admit, wait, stop, evaluate_rolling_quota, DeadlineProof, validate_deadline_proof,
  retry_fits_acquisition_deadline,
}
use peas_engine.Acquisition.Retry.{
  RetryContext, RetryStop, RetryDecision, RetryDelayProof, decide_retry, validate_retry_delay_proof,
}
use peas_engine.Acquisition.Identity.{
  PageChainInput, PageAdmission, AttemptIds, derive_private_token_hash,
  derive_logical_page_identity_hash, derive_attempt_control_identities,
}
use peas_engine.Acquisition.Identity.Chain.{plan_page_admission}
use peas_engine.Acquisition.Machine.{
  State, Kind, Snapshot, ContinuationAuthority, EventProof, is_terminal, same_state, waiting_retry,
  chain_complete, dispatch_started, retry_cleanup_complete, retry_delay_elapsed, page_checkpointed,
  continue_next_page, terminal_page_admitted, normalization_completed, attempt_stopped,
  selection_completed, Event, event_target, assert_transition, terminal_reason_for_event,
}
use peas_engine.Acquisition.Machine.Validate.{validate_proof, is_some, require_at_most}

-- ensureResourcesSettled
unfoldable pub ensure_resources_settled : EventProof → State → Result (Unit {0})
ensure_resources_settled proof target =
    fail_if
      ((same_state target waiting_retry || same_state target chain_complete || is_terminal target)
        && not proof.resources_settled)
      "acquisition-resources-unsettled"

-- The message for an attempt that the quota does not admit.
abbrev pub quota_starts : QuotaAdmission → Result (List ℕ)
quota_starts (admit starts) = ok starts
quota_starts (wait _) = err "dispatch-wait"
quota_starts (stop _) = err "dispatch-stop"

abbrev pub stop_message : RetryStop → String
stop_message RetryStop.non_retryable = "retry-non-retryable"
stop_message RetryStop.lane_disabled = "retry-lane-disabled"
stop_message RetryStop.quota_exhausted = "retry-quota-exhausted"
stop_message RetryStop.retry_after_invalid = "retry-retry-after-invalid"
stop_message RetryStop.attempt_budget_exhausted = "retry-attempt-budget-exhausted"
stop_message RetryStop.cleanup_unprovable = "retry-cleanup-unprovable"

abbrev pub retry_delay : RetryDecision → Result ℕ
retry_delay (RetryDecision.retry delay _) = ok delay
retry_delay (RetryDecision.stop reason) = err (stop_message reason)

abbrev pub is_lane_stop : TerminalReason → Bool
is_lane_stop TerminalReason.lane_disabled = true
is_lane_stop TerminalReason.quota_exhausted = true
is_lane_stop _ = false

-- `[...hashes, hash].sort()`, on sorted hashes.
unfoldable pub insert_hash : String → List String → List String
insert_hash h [] = h ∷ []
insert_hash h (g ∷ gs) = let rest = insert_hash h gs in if str_lt g h then g ∷ rest else h ∷ g ∷ gs

-- `hashes.includes(hash)`
unfoldable pub includes_hash : List String → String → Bool
includes_hash [] h = false
includes_hash (g ∷ gs) h = str_eq g h || includes_hash gs h

-- The record of a continuation, if the page has a next token.
abbrev authority_of : Option String → PageAdmission → Option ContinuationAuthority
authority_of none admission = none
authority_of (some material) admission = elim admission.next_continuation_binding_hash [
  | none ↦ none
  | some binding ↦ some (record {
    next_token_material = material;
    next_token_hash = admission.next_token_hash;
    next_continuation_binding_hash = binding;
  })
]

-- The comparison of a deadline proof with the snapshot and the event.
unfoldable pub deadline_mismatch : Snapshot → EventProof → DeadlineProof → Bool
deadline_mismatch s proof d =
    not (d.acquisition_declared_monotonic_ms == s.acquisition_declared_monotonic_ms)
    || not (d.now_monotonic_ms == proof.now_monotonic_ms)
    || not (d.attempt_started_monotonic_ms == proof.now_monotonic_ms)
    || leb Limits.acquisition_deadline_ms
        (proof.now_monotonic_ms - s.acquisition_declared_monotonic_ms)

-- The comparison of a page's chain input with the snapshot.
unfoldable pub admission_mismatch : Snapshot → PageChainInput → Bool
admission_mismatch s i =
    not (str_eq i.prior_page_chain_hash s.page_chain_hash)
    || not (str_eq i.request_identity_hash s.request_identity_hash)
    || not (str_eq i.logical_page_identity_hash s.logical_page_identity_hash)
    || not (i.page_ordinal == s.page_ordinal)
    || not (str_eq i.current_token_hash s.current_token_hash)
    || not (i.cumulative_successful_pages == s.budgets.successful_pages + 1)
    || not (i.cumulative_verified_bytes == s.budgets.verified_bytes + i.artifact_size_bytes)
    || not (i.cumulative_records == s.budgets.records + i.page_record_count)
    || not (i.cumulative_normalized_facts == 0)
    || not (i.cumulative_attempts == s.budgets.attempts)

-- The checks of a dispatch before its quota.
unfoldable pub check_dispatch : Snapshot → EventProof → DeadlineProof → Result (Unit {0})
unfolding deadline_mismatch
check_dispatch s proof d = do
  fail_if s.lane_disabled "lane-disabled"
  validate_deadline_proof d
  fail_if (deadline_mismatch s proof d) "deadline-proof-mismatch"
  fail_if
      (leb Limits.attempts_per_logical_page s.page_attempts_started
        || leb Limits.attempts_per_acquisition s.budgets.attempts)
      "attempt-budget-exhausted"

-- The evidence with the new start, or a throw where the quota does not admit it.
unfoldable pub dispatch_starts : Snapshot → EventProof → ℕ → Result (List ℕ)
dispatch_starts s proof entitlement = do
  quota ←
      evaluate_rolling_quota s.quota_window_evidence proof.now_monotonic_ms entitlement
        (s.acquisition_declared_monotonic_ms + Limits.acquisition_deadline_ms)
  quota_starts quota

-- The snapshot after a dispatch.
unfoldable pub dispatched : Snapshot → List ℕ → AttemptIds → Snapshot → Snapshot
dispatched s starts attempt next =
    let counted = s.budgets in
    record next {
      page_attempts_started = s.page_attempts_started + 1;
      attempt_ordinal = some s.page_attempts_started;
      attempt_id = some attempt.attempt_id;
      retrieval_attempt_id = some attempt.retrieval_attempt_id;
      budgets = record counted { attempts = s.budgets.attempts + 1 };
      quota_window_evidence = starts;
    }

-- The snapshot after a continuation to the page of a token.
unfoldable pub continued : Snapshot → ContinuationAuthority → String → String → Snapshot → Snapshot
unfolding insert_hash
continued s authority token page next = record next {
  page_ordinal = s.page_ordinal + 1;
  page_attempts_started = 0;
  logical_page_identity_hash = page;
  attempt_ordinal = none;
  attempt_id = none;
  retrieval_attempt_id = none;
  current_token_hash = token;
  current_continuation_binding_hash = some authority.next_continuation_binding_hash;
  consumed_token_hashes = insert_hash token s.consumed_token_hashes;
  continuation_authority = none;
}

-- The snapshot after a page has been admitted to the chain.
unfoldable pub checkpointed :
    Snapshot → PageChainInput → Option String → PageAdmission → Snapshot → Snapshot
checkpointed s input material admission next =
    let counted = s.budgets in
    record next {
      budgets = record counted {
        successful_pages = input.cumulative_successful_pages;
        verified_bytes = input.cumulative_verified_bytes;
        records = input.cumulative_records;
      };
      page_chain_hash = admission.page_chain_hash;
      continuation_authority = authority_of material admission;
    }

module _ (p : Platform) where
  -- The case `dispatch-started` of deriveNext; `next` is the snapshot with the new state and time.
  unfoldable pub on_dispatch :
      Snapshot → EventProof → DeadlineProof → ℕ → Snapshot → Result Snapshot
  on_dispatch s proof d entitlement next = do
    check_dispatch s proof d
    starts ← dispatch_starts s proof entitlement
    attempt ←
        derive_attempt_control_identities p s.logical_page_identity_hash s.page_attempts_started
          s.run_session_nonce
    ok (dispatched s starts attempt next)

  -- The token hash of a continuation that is not consumed yet.
  unfoldable pub continue_token : Snapshot → ContinuationAuthority → Result String
  unfolding includes_hash
  continue_token s authority = do
    token ← derive_private_token_hash p authority.next_token_material
    fail_if
        (not (str_eq token authority.next_token_hash)
          || includes_hash s.consumed_token_hashes token)
        "continuation-token-invalid"
    ok token

  -- The case `continue-next-page`.
  unfoldable pub on_continue : Snapshot → Option ContinuationAuthority → Snapshot → Result Snapshot
  on_continue s none next = err "continuation-authority-missing"
  on_continue s (some authority) next = do
    token ← continue_token s authority
    page ← derive_logical_page_identity_hash p s.request_identity_hash (s.page_ordinal + 1) token
    ok (continued s authority token page next)

  -- The case `page-checkpointed`.
  unfoldable pub on_checkpoint :
      Snapshot → PageChainInput → Option String → Snapshot → Result Snapshot
  on_checkpoint s input material next = do
    fail_if (admission_mismatch s input) "page-admission-proof-invalid"
    admission ← plan_page_admission p input material
    ok (checkpointed s input material admission next)

-- The comparison of a retry context with the snapshot.
unfoldable pub context_mismatch : Snapshot → RetryContext → Bool
context_mismatch s context =
    not (context.page_attempts_started == s.page_attempts_started)
    || not (context.acquisition_attempts_started == s.budgets.attempts)

-- The case `retry-cleanup-complete`.
unfoldable pub on_retry_cleanup : Snapshot → EventProof → RetryContext → Snapshot → Result Snapshot
unfolding context_mismatch
on_retry_cleanup s proof context next = do
  fail_if (context_mismatch s context) "retry-context-mismatch"
  decision ← decide_retry context
  delay ← retry_delay decision
  fits ←
      retry_fits_acquisition_deadline proof.now_monotonic_ms delay
        s.acquisition_declared_monotonic_ms
  guard fits "retry-acquisition-deadline"
  ok (record next { pending_retry_delay_ms = some delay })

-- The case `retry-delay-elapsed`.
unfoldable pub on_retry_elapsed :
    Snapshot → EventProof → Option ℕ → RetryDelayProof → Snapshot → Result Snapshot
on_retry_elapsed s proof none d next = err "retry-delay-not-pending"
on_retry_elapsed s proof (some delay) d next = do
  validate_retry_delay_proof delay d
  fail_if (ltb (proof.now_monotonic_ms - s.last_monotonic_ms) delay) "retry-delay-proof-backdated"
  ok (record next { pending_retry_delay_ms = none })

-- The snapshot with the number of normalized facts.
unfoldable pub with_facts : Snapshot → ℕ → Snapshot → Snapshot
with_facts s count next =
    let counted = s.budgets in record next { budgets = record counted { normalized_facts = count } }

-- The case `normalization-completed`.
unfoldable pub on_normalized : Snapshot → ℕ → Snapshot → Result Snapshot
on_normalized s count next = do
  require_at_most count Limits.normalized_facts "normalized-facts-invalid"
  ok (with_facts s count next)

-- The `switch` of deriveNext.
unfoldable pub on_event : Platform → Snapshot → EventProof → Kind → Snapshot → Result Snapshot
unfolding on_dispatch on_continue on_checkpoint on_retry_cleanup on_retry_elapsed on_normalized
on_event p s proof (dispatch_started d entitlement) next = on_dispatch p s proof d entitlement next
on_event p s proof (retry_cleanup_complete context) next = on_retry_cleanup s proof context next
on_event p s proof (retry_delay_elapsed d) next =
    on_retry_elapsed s proof s.pending_retry_delay_ms d next
on_event p s proof (page_checkpointed input material) next = on_checkpoint p s input material next
on_event p s proof continue_next_page next = on_continue p s s.continuation_authority next
on_event p s proof terminal_page_admitted next =
    fail_if (is_some s.continuation_authority) "terminal-page-has-continuation" >> ok next
on_event p s proof (normalization_completed count) next = on_normalized s count next
on_event p s proof (attempt_stopped reason) next =
    ok (record next { lane_disabled = s.lane_disabled || is_lane_stop reason })
on_event p s proof selection_completed next = ok (record next { terminal_reason = none })
on_event p s proof _ next = ok next

-- deriveNext
unfoldable pub derive_next : Platform → Snapshot → Event → Result Snapshot
unfolding validate_proof assert_transition ensure_resources_settled on_event
derive_next p s e = do
  validate_proof s e.proof
  let target = event_target e.kind
  assert_transition s.current_state target
  ensure_resources_settled e.proof target
  on_event p s e.proof e.kind (record s {
    current_state = target;
    terminal_reason = terminal_reason_for_event e.kind;
    last_monotonic_ms = e.proof.now_monotonic_ms;
  })
