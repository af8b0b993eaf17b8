-- ===== src/Acquisition/Machine/Tests.antt =====
-- The theorems of the machine at the first three events of a run from a new snapshot, and at single
-- transitions from snapshots built by hand. The digest of the test platform is one constant hash.
use peas_engine.Acquisition.Limits.{TerminalReason}
use peas_engine.Acquisition.Machine.{is_terminal, same_state, chain_complete}
use peas_engine.Acquisition.Machine.Validate.{is_some}
use peas_engine.Acquisition.Machine.Step.{
  on_event, on_retry_elapsed, on_continue, continue_token, continued, insert_hash, includes_hash,
}
use peas_engine.Acquisition.Retry.{validate_retry_delay_proof}
use peas_engine.Acquisition.Identity.{derive_attempt_control_identities, derive_private_token_hash}
use peas_engine.Acquisition.Machine.Valid.{InBudget}
use peas_engine.Acquisition.Machine.Runs.{Later, apply_events-Later}
use peas_engine.Acquisition.Machine.Runs.Waits.{derive-elapsed_waited}
use peas_engine.Acquisition.Machine.Runs.Pages.{apply_events-InBudget}
use peas_engine.Acquisition.Machine.Runs.Tokens.{derive-continue_fresh}
use peas_engine.Acquisition.Machine.Runs.Endings.{derive-ending, apply_events-terminal}
use peas_engine.Fixtures.{hash, platform}
use peas_engine.Prelude.{
  ℕ, ◌+◌, ◌≤◌, ◌≡◌, ◌≢◌, refl, String, Bool, true, false, not, ◌||◌, ◌&&◌, List, [], ◌∷◌, is_hash,
  none, some, ok, arith,
}
use peas_engine.Digest.{framed_hash}
use peas_engine.Acquisition.Quota.{all_safe}
use peas_engine.Acquisition.Retry.{RetryDelayProof}
use peas_engine.Acquisition.Identity.{derive_logical_page_identity_hash}
use peas_engine.Acquisition.Machine.{
  Snapshot, Event, EventProof, ContinuationAuthority, Kind, State, completed, waiting_retry,
  event_target, terminal_reason_for_event,
}
use peas_engine.Json.{canonical_json}
use peas_engine.Acquisition.Machine.Validate.{
  validate_snapshot, validate_header, validate_page, validate_attempt, validate_budgets,
  validate_evidence, validate_tokens, validate_terminal, validate_proof,
}
use peas_engine.Acquisition.Machine.Step.{derive_next}
use peas_engine.Acquisition.Machine.Run.Checkpoint.{JournalKind, kind_name, checkpoint_for_event}
use peas_engine.Acquisition.Machine.Run.{
  kind_numbers, Plan, initial_snapshot, derive_acquisition_transition, apply_events, create_initial,
}

abbrev proof_at : ℕ → Bool → EventProof
proof_at now settled = record {
  request_identity_hash = hash;
  acquisition_configuration_hash = hash;
  market_acquisition_journal_id = hash;
  run_session_nonce = "nonce";
  now_monotonic_ms = now;
  resources_settled = settled;
}

abbrev fresh : Snapshot
unfolding initial_snapshot
fresh = initial_snapshot hash hash hash "nonce" 1000 hash

created : create_initial platform hash hash hash "nonce" 1000 ≡ ok fresh
unfolding create_initial validate_snapshot validate_header validate_page validate_attempt
    validate_budgets validate_evidence validate_tokens validate_terminal all_safe is_hash
    derive_logical_page_identity_hash framed_hash canonical_json fresh initial_snapshot
created = refl

abbrev event_at : ℕ → Kind → Event
event_at now k = record { proof = proof_at now true; kind = k }

-- The first three events of a run, the second of which fails to persist.
abbrev opening : List (Event × Bool)
opening =
    (event_at 1000 Kind.begin_preflight, true)
    ∷ (event_at 1200 Kind.preflight_approved, false)
    ∷ (event_at 1100 Kind.preflight_approved, true)
    ∷ []

opened : (apply_events platform fresh opening).current_state ≡ State.dispatch_ready
unfolding apply_events derive_acquisition_transition derive_next event_target
    terminal_reason_for_event validate_proof kind_numbers kind_name checkpoint_for_event
    validate_snapshot validate_header validate_page validate_attempt validate_budgets
    validate_evidence validate_tokens validate_terminal all_safe is_hash
    derive_logical_page_identity_hash framed_hash canonical_json fresh initial_snapshot
opened = refl

apply_events-Later_example : Later fresh (apply_events platform fresh opening)
apply_events-Later_example = apply_events-Later platform fresh opening

fresh-InBudget : InBudget fresh
unfolding fresh initial_snapshot
fresh-InBudget = ground arith

apply_events-InBudget_example : InBudget (apply_events platform fresh opening)
apply_events-InBudget_example = apply_events-InBudget platform fresh opening fresh-InBudget

abbrev preflight : Snapshot
unfolding fresh initial_snapshot
preflight = record fresh { current_state = State.preflighting }

abbrev stopped_plan : Plan
unfolding preflight fresh initial_snapshot
stopped_plan = record {
  event_kind = "preflight-stopped";
  from_state = State.preflighting;
  to_state = State.stopped;
  checkpoint_kind = some JournalKind.stopped;
  next = record preflight {
    current_state = State.stopped;
    terminal_reason = some TerminalReason.quota_exhausted;
    last_monotonic_ms = 1500;
  };
}

preflight_stops :
    derive_acquisition_transition platform preflight
      (event_at 1500 (Kind.preflight_stopped TerminalReason.quota_exhausted))
    ≡ ok stopped_plan
unfolding apply_events derive_acquisition_transition derive_next event_target
    terminal_reason_for_event validate_proof kind_numbers kind_name checkpoint_for_event
    validate_snapshot validate_header validate_page validate_attempt validate_budgets
    validate_evidence validate_tokens validate_terminal all_safe is_hash
    derive_logical_page_identity_hash framed_hash canonical_json fresh initial_snapshot preflight
    stopped_plan
preflight_stops = refl

derive-ending_example :
    ((same_state stopped_plan.next.current_state waiting_retry
          || same_state stopped_plan.next.current_state chain_complete
          || is_terminal stopped_plan.next.current_state)
        ≡ true
      → true ≡ true)
    × ((is_terminal stopped_plan.next.current_state
          && not (same_state stopped_plan.next.current_state completed))
        ≡ is_some stopped_plan.next.terminal_reason)
derive-ending_example =
    derive-ending platform preflight
      (event_at 1500 (Kind.preflight_stopped TerminalReason.quota_exhausted)) stopped_plan
      preflight_stops

apply_events-terminal_example : apply_events platform stopped_plan.next opening ≡ stopped_plan.next
unfolding stopped_plan preflight
apply_events-terminal_example = apply_events-terminal platform stopped_plan.next opening refl

-- A snapshot that waits for a retry of its first attempt.
abbrev waiting : Snapshot
unfolding fresh initial_snapshot
waiting = record fresh {
  current_state = waiting_retry;
  page_attempts_started = 1;
  attempt_ordinal = some 0;
  attempt_id = some "mat1_aaaaaaaaaaaaaaaaaaaaaaaaaaaaaaaaaaaaaaaaaaaaaaaaaaaaaaaaaaaaaaaa";
  retrieval_attempt_id =
      some "rat1_aaaaaaaaaaaaaaaaaaaaaaaaaaaaaaaaaaaaaaaaaaaaaaaaaaaaaaaaaaaaaaaa";
  budgets = record {
    successful_pages = 0;
    verified_bytes = 0;
    records = 0;
    normalized_facts = 0;
    attempts = 1;
  };
  quota_window_evidence = 1000 ∷ [];
  last_monotonic_ms = 2000;
  pending_retry_delay_ms = some 1000;
}

abbrev delay_proof : RetryDelayProof
delay_proof = record { elapsed_ms = 1000; monotonic_order_valid = true }

abbrev retried_plan : Plan
unfolding waiting fresh initial_snapshot
retried_plan = record {
  event_kind = "retry-delay-elapsed";
  from_state = waiting_retry;
  to_state = State.preflighting;
  checkpoint_kind = none;
  next = record waiting {
    current_state = State.preflighting;
    last_monotonic_ms = 3000;
    pending_retry_delay_ms = none;
  };
}

waiting_retries :
    derive_acquisition_transition platform waiting
      (event_at 3000 (Kind.retry_delay_elapsed delay_proof))
    ≡ ok retried_plan
unfolding apply_events derive_acquisition_transition derive_next event_target
    terminal_reason_for_event validate_proof kind_numbers kind_name checkpoint_for_event
    validate_snapshot validate_header validate_page validate_attempt validate_budgets
    validate_evidence validate_tokens validate_terminal all_safe is_hash
    derive_logical_page_identity_hash framed_hash canonical_json fresh initial_snapshot waiting
    retried_plan derive_attempt_control_identities on_event on_retry_elapsed
    validate_retry_delay_proof
waiting_retries = refl

derive-elapsed_waited_example :
    (delay : ℕ) × (waiting.pending_retry_delay_ms ≡ some delay)
    × (waiting.last_monotonic_ms + delay ≤ retried_plan.next.last_monotonic_ms)
    × (delay ≤ 1000)
    × (retried_plan.next.pending_retry_delay_ms ≡ none)
derive-elapsed_waited_example =
    derive-elapsed_waited platform waiting (event_at 3000 (Kind.retry_delay_elapsed delay_proof))
      delay_proof retried_plan refl waiting_retries

abbrev other_hash : String
other_hash = "bbbbbbbbbbbbbbbbbbbbbbbbbbbbbbbbbbbbbbbbbbbbbbbbbbbbbbbbbbbbbbbb"

-- A snapshot behind the checkpoint of the second page, with a continuation to the third.
abbrev checkpointed_page : Snapshot
unfolding waiting fresh initial_snapshot
checkpointed_page = record waiting {
  current_state = State.checkpointing;
  page_ordinal = 1;
  current_token_hash = other_hash;
  current_continuation_binding_hash = some hash;
  consumed_token_hashes = other_hash ∷ [];
  page_chain_hash = hash;
  continuation_authority = some (record {
    next_token_material = "token";
    next_token_hash = hash;
    next_continuation_binding_hash = hash;
  });
  budgets = record {
    successful_pages = 2;
    verified_bytes = 200;
    records = 20;
    normalized_facts = 0;
    attempts = 1;
  };
  pending_retry_delay_ms = none;
}

abbrev continued_plan : Plan
unfolding checkpointed_page waiting fresh initial_snapshot
continued_plan = record {
  event_kind = "continue-next-page";
  from_state = State.checkpointing;
  to_state = State.preflighting;
  checkpoint_kind = none;
  next = record checkpointed_page {
    current_state = State.preflighting;
    last_monotonic_ms = 3000;
    page_ordinal = 2;
    page_attempts_started = 0;
    attempt_ordinal = none;
    attempt_id = none;
    retrieval_attempt_id = none;
    current_token_hash = hash;
    consumed_token_hashes = hash ∷ other_hash ∷ [];
    continuation_authority = none;
  };
}

page_continues :
    derive_acquisition_transition platform
      (apply_events platform checkpointed_page [])
      (event_at 3000 Kind.continue_next_page)
    ≡ ok continued_plan
unfolding apply_events derive_acquisition_transition derive_next event_target
    terminal_reason_for_event validate_proof kind_numbers kind_name checkpoint_for_event
    validate_snapshot validate_header validate_page validate_attempt validate_budgets
    validate_evidence validate_tokens validate_terminal all_safe is_hash
    derive_logical_page_identity_hash framed_hash canonical_json fresh initial_snapshot
    checkpointed_page waiting continued_plan derive_attempt_control_identities on_event on_continue
    continue_token continued insert_hash includes_hash derive_private_token_hash
page_continues = refl

derive-continue_fresh_example :
    (includes_hash (apply_events platform checkpointed_page []).consumed_token_hashes other_hash
      ≡ true)
    × (continued_plan.next.current_token_hash ≢ other_hash)
    × (includes_hash continued_plan.next.consumed_token_hashes
          continued_plan.next.current_token_hash
        ≡ true)
    × (continued_plan.next.page_ordinal
        ≡ (apply_events platform checkpointed_page []).page_ordinal + 1)
    × ((authority : ContinuationAuthority) × ((apply_events platform checkpointed_page
            []).continuation_authority
          ≡ some authority)
        × (continued_plan.next.current_token_hash ≡ authority.next_token_hash))
unfolding includes_hash checkpointed_page waiting fresh initial_snapshot
derive-continue_fresh_example =
    derive-continue_fresh platform checkpointed_page other_hash []
      (event_at 3000 Kind.continue_next_page) continued_plan refl refl page_continues
