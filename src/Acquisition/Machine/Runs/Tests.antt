-- ===== src/Acquisition/Machine/Runs/Tests.antt =====
-- The theorems on runs at a run of two pages from a new snapshot to `completed`, whose first attempt
-- fails and is retried. The digest of the test platform is one constant hash.
use peas_engine.Fixtures.{hash, platform}
use peas_engine.Prelude.{
  ℕ, ◌+◌, ◌*◌, ◌≤◌, ◌≡◌, refl, String, Bool, is_hash, true, List, [], ◌∷◌, ◌++◌, none, some,
}
use peas_engine.Digest.{framed_hash}
use peas_engine.Json.{canonical_json}
use peas_engine.Acquisition.Quota.{
  DeadlineProof, all_safe, validate_deadline_proof, evaluate_rolling_quota,
  retry_fits_acquisition_deadline,
}
use peas_engine.Acquisition.Retry.{
  RetryContext, RetryFailure, decide_retry, validate_retry_delay_proof,
}
use peas_engine.Acquisition.Identity.{
  PageChainInput, genesis_hash, no_token_hash, derive_logical_page_identity_hash,
  derive_attempt_control_identities, derive_private_token_hash, derive_continuation_binding_hash,
  assert_prefixed_id,
}
use peas_engine.Acquisition.Identity.Chain.{
  page_chain_fields, check_page_chain, derive_page_chain_hash, binding_of, plan_page_admission,
}
use peas_engine.Acquisition.Machine.{
  Event, Kind, State, waiting_retry, event_target, terminal_reason_for_event,
}
use peas_engine.Acquisition.Machine.Validate.{
  validate_snapshot, validate_header, validate_page, validate_attempt, validate_budgets,
  validate_evidence, validate_tokens, validate_terminal, validate_proof,
}
use peas_engine.Acquisition.Machine.Step.{
  derive_next, on_event, on_dispatch, check_dispatch, dispatch_starts, dispatched, on_retry_cleanup,
  on_retry_elapsed, on_checkpoint, on_continue, on_normalized, continue_token, continued,
  insert_hash, includes_hash, checkpointed, admission_mismatch, with_facts,
}
use peas_engine.Acquisition.Machine.Run.Checkpoint.{kind_name, checkpoint_for_event}
use peas_engine.Acquisition.Machine.Run.{
  kind_numbers, initial_snapshot, derive_acquisition_transition, apply_events,
}
use peas_engine.Acquisition.Machine.Termination.{remaining, count_advances, count_advances-bound}
use peas_engine.Acquisition.Machine.Runs.Pacing.{IsPaced, apply_events-IsPaced}
use peas_engine.Acquisition.Machine.Runs.Pages.{IsPaged, apply_events-IsPaged}
use peas_engine.Acquisition.Machine.Runs.Waits.{IsWait, apply_events-WaitsInTime}

abbrev at : ℕ → Kind → Event × Bool
at now k = (
  record {
    proof = record {
      request_identity_hash = hash;
      acquisition_configuration_hash = hash;
      market_acquisition_journal_id = hash;
      run_session_nonce = "nonce";
      now_monotonic_ms = now;
      resources_settled = true;
    };
    kind = k;
  },
  true,
)

abbrev attempt_at : ℕ → DeadlineProof
attempt_at now = record {
  acquisition_declared_monotonic_ms = 1000;
  attempt_started_monotonic_ms = now;
  now_monotonic_ms = now;
}

abbrev first_failure : RetryContext
first_failure = record {
  failure = RetryFailure.pre_response_transport;
  page_attempts_started = 1;
  acquisition_attempts_started = 1;
}

-- The admission of a page of 100 bytes and 10 records, after one attempt that failed.
abbrev page : ℕ → String → String → PageChainInput
page ordinal chain token = record {
  prior_page_chain_hash = chain;
  market_acquisition_id = "maq1_aaaaaaaaaaaaaaaaaaaaaaaaaaaaaaaaaaaaaaaaaaaaaaaaaaaaaaaaaaaaaaaa";
  request_identity_hash = hash;
  logical_page_identity_hash = hash;
  page_ordinal = ordinal;
  artifact_observation_id = hash;
  artifact_digest = hash;
  artifact_size_bytes = 100;
  artifact_observation_hash = hash;
  artifact_content_id = "mac1_aaaaaaaaaaaaaaaaaaaaaaaaaaaaaaaaaaaaaaaaaaaaaaaaaaaaaaaaaaaaaaaa";
  raw_artifact_id = "mar1_aaaaaaaaaaaaaaaaaaaaaaaaaaaaaaaaaaaaaaaaaaaaaaaaaaaaaaaaaaaaaaaa";
  current_token_hash = token;
  page_record_count = 10;
  cumulative_successful_pages = ordinal + 1;
  cumulative_verified_bytes = 100 * (ordinal + 1);
  cumulative_records = 10 * (ordinal + 1);
  cumulative_normalized_facts = 0;
  cumulative_attempts = ordinal + 2;
}

-- From the declaration of the acquisition to the wait after its first attempt.
abbrev failed_attempt : List (Event × Bool)
failed_attempt =
    at 1000 Kind.begin_preflight
    ∷ at 1100 Kind.preflight_approved
    ∷ at 1200 Kind.credentials_loaded
    ∷ at 1300 (Kind.dispatch_started (attempt_at 1300) 30)
    ∷ at 1400 (Kind.retry_cleanup_complete first_failure)
    ∷ []

-- The retry of the first page, admitted with a continuation, up to the checkpoint.
abbrev retried_page : List (Event × Bool)
retried_page =
    at 2400 (Kind.retry_delay_elapsed (record { elapsed_ms = 1000; monotonic_order_valid = true }))
    ∷ at 2400 Kind.preflight_approved
    ∷ at 2400 Kind.credentials_loaded
    ∷ at 2500 (Kind.dispatch_started (attempt_at 2500) 30)
    ∷ at 2600 Kind.response_accepted
    ∷ at 2700 Kind.artifact_store_started
    ∷ at 2800 Kind.artifact_store_committed
    ∷ at 2900 Kind.artifact_verification_started
    ∷ at 3000 Kind.page_verified
    ∷ at 3100 (Kind.page_checkpointed (page 0 genesis_hash no_token_hash) (some "token"))
    ∷ []

abbrev last_page : List (Event × Bool)
last_page =
    at 3200 Kind.continue_next_page
    ∷ at 3300 Kind.preflight_approved
    ∷ at 3400 Kind.credentials_loaded
    ∷ at 3500 (Kind.dispatch_started (attempt_at 3500) 30)
    ∷ at 3600 Kind.response_accepted
    ∷ at 3700 Kind.artifact_store_started
    ∷ at 3800 Kind.artifact_store_committed
    ∷ at 3900 Kind.artifact_verification_started
    ∷ at 4000 Kind.page_verified
    ∷ at 4100 (Kind.page_checkpointed (page 1 hash hash) none)
    ∷ at 4200 Kind.terminal_page_admitted
    ∷ at 4300 Kind.normalization_started
    ∷ at 4400 (Kind.normalization_completed 20)
    ∷ at 4500 Kind.selection_started
    ∷ at 4600 Kind.selection_completed
    ∷ []

-- All events of the run.
abbrev whole_run : List (Event × Bool)
whole_run = failed_attempt ++ (retried_page ++ last_page)

waits :
    (apply_events platform
      (initial_snapshot hash hash hash "nonce" 1000 hash)
      failed_attempt).current_state
    ≡ waiting_retry
unfolding apply_events derive_acquisition_transition derive_next event_target
    terminal_reason_for_event validate_proof kind_numbers kind_name checkpoint_for_event
    validate_snapshot validate_header validate_page validate_attempt validate_budgets
    validate_evidence validate_tokens validate_terminal all_safe is_hash
    derive_logical_page_identity_hash framed_hash canonical_json initial_snapshot on_event
    on_dispatch derive_attempt_control_identities evaluate_rolling_quota validate_deadline_proof
    check_dispatch dispatch_starts dispatched on_retry_cleanup decide_retry
    retry_fits_acquisition_deadline
waits = refl

-- A `begin-preflight` one millisecond after the wait has begun: the run goes on to the preflight, and
-- the delay of one second is still pending.
skips_wait :
    let after =
      apply_events platform
        (initial_snapshot hash hash hash "nonce" 1000 hash)
        (failed_attempt ++ (at 1401 Kind.begin_preflight ∷ [])) in
    (after.current_state ≡ State.preflighting) × (after.pending_retry_delay_ms ≡ some 1000)
unfolding apply_events derive_acquisition_transition derive_next event_target
    terminal_reason_for_event validate_proof kind_numbers kind_name checkpoint_for_event
    validate_snapshot validate_header validate_page validate_attempt validate_budgets
    validate_evidence validate_tokens validate_terminal all_safe is_hash
    derive_logical_page_identity_hash framed_hash canonical_json initial_snapshot on_event
    on_dispatch derive_attempt_control_identities evaluate_rolling_quota validate_deadline_proof
    check_dispatch dispatch_starts dispatched on_retry_cleanup decide_retry
    retry_fits_acquisition_deadline
skips_wait = (refl, refl)

apply_events-WaitsInTime_example :
    IsWait
      (apply_events platform (initial_snapshot hash hash hash "nonce" 1000 hash) failed_attempt)
apply_events-WaitsInTime_example =
    apply_events-WaitsInTime platform hash hash hash "nonce" 1000 hash failed_attempt waits

-- The state and the counts at the end of the run.
completes :
    let end_of_run =
      apply_events platform (initial_snapshot hash hash hash "nonce" 1000 hash) whole_run in
    (end_of_run.current_state ≡ State.completed)
    × (end_of_run.budgets.successful_pages ≡ 2)
    × (end_of_run.budgets.attempts ≡ 3)
    × (end_of_run.page_ordinal ≡ 1)
unfolding apply_events derive_acquisition_transition derive_next event_target
    terminal_reason_for_event validate_proof kind_numbers kind_name checkpoint_for_event
    validate_snapshot validate_header validate_page validate_attempt validate_budgets
    validate_evidence validate_tokens validate_terminal all_safe is_hash
    derive_logical_page_identity_hash framed_hash canonical_json initial_snapshot on_event
    on_dispatch derive_attempt_control_identities evaluate_rolling_quota validate_deadline_proof
    check_dispatch dispatch_starts dispatched on_retry_cleanup decide_retry
    retry_fits_acquisition_deadline on_checkpoint on_continue on_normalized continue_token continued
    insert_hash includes_hash checkpointed admission_mismatch with_facts plan_page_admission
    derive_page_chain_hash check_page_chain binding_of derive_continuation_binding_hash
    derive_private_token_hash assert_prefixed_id page_chain_fields on_retry_elapsed
    validate_retry_delay_proof
completes = (refl, refl, refl, refl)

apply_events-IsPaged_example :
    IsPaged (apply_events platform (initial_snapshot hash hash hash "nonce" 1000 hash) whole_run)
apply_events-IsPaged_example =
    apply_events-IsPaged platform hash hash hash "nonce" 1000 hash whole_run

apply_events-IsPaced_example :
    IsPaced (apply_events platform (initial_snapshot hash hash hash "nonce" 1000 hash) whole_run)
apply_events-IsPaced_example =
    apply_events-IsPaced platform hash hash hash "nonce" 1000 hash whole_run

count_advances-bound_example :
    count_advances platform (initial_snapshot hash hash hash "nonce" 1000 hash) whole_run
    ≤ remaining (initial_snapshot hash hash hash "nonce" 1000 hash)
count_advances-bound_example =
    count_advances-bound platform (initial_snapshot hash hash hash "nonce" 1000 hash) whole_run
