-- ===== src/Acquisition/Machine/Run.antt =====
-- adapters/market-acquisition/state-machine.ts: deriveAcquisitionTransition, the initial snapshot
-- and the machine, which changes its state only after the plan has been persisted.
pub mod Checkpoint
use peas_engine.Prelude.{
  ℕ, zero, suc, ◌+◌, String, Bool, true, false, ◌&&◌, List, [], ◌∷◌, ◌++◌, Option, none, some,
  Result, ok, err, ◌>>=◌, ◌>>◌, guard, if◌then◌else◌,
}
use peas_engine.Digest.{Platform}
use peas_engine.Acquisition.Quota.{all_safe, DeadlineProof}
use peas_engine.Acquisition.Retry.{
  RetryFailure, pre_response_transport, clean_partial_body_transport, http, hard, RetryContext,
  RetryDelayProof,
}
use peas_engine.Acquisition.Identity.{
  PageChainInput, no_token_hash, genesis_hash, derive_logical_page_identity_hash,
}
use peas_engine.Acquisition.Machine.{
  State, declared, Kind, Snapshot, Event, dispatch_started, retry_cleanup_complete,
  retry_delay_elapsed, page_checkpointed, normalization_completed,
}
use peas_engine.Acquisition.Machine.Validate.{validate_snapshot}
use peas_engine.Acquisition.Machine.Step.{derive_next}
use Checkpoint.{JournalKind, kind_name, checkpoint_for_event}

abbrev status_of : RetryFailure → List ℕ
status_of (http status _ _) = status ∷ []
status_of _ = []

abbrev chain_numbers : PageChainInput → List ℕ
chain_numbers i =
    i.page_ordinal ∷ i.artifact_size_bytes ∷ i.page_record_count ∷ i.cumulative_successful_pages
    ∷ i.cumulative_verified_bytes ∷ i.cumulative_records ∷ i.cumulative_normalized_facts
    ∷ i.cumulative_attempts ∷ []

abbrev deadline_numbers : DeadlineProof → List ℕ
deadline_numbers d =
    d.acquisition_declared_monotonic_ms ∷ d.attempt_started_monotonic_ms ∷ d.now_monotonic_ms ∷ []

abbrev context_numbers : RetryContext → List ℕ
context_numbers c = c.page_attempts_started ∷ c.acquisition_attempts_started ∷ status_of c.failure

-- The numbers that `canonicalJson` meets in an event beside the time of its proof.
unfoldable pub kind_numbers : Kind → List ℕ
kind_numbers (dispatch_started d entitlement) = entitlement ∷ deadline_numbers d
kind_numbers (retry_cleanup_complete c) = context_numbers c
kind_numbers (retry_delay_elapsed d) = d.elapsed_ms ∷ []
kind_numbers (page_checkpointed i _) = chain_numbers i
kind_numbers (normalization_completed count) = count ∷ []
kind_numbers _ = []

-- AcquisitionTransitionPlan
pub record Plan : Type 0 where
  pub event_kind : String
  pub from_state : State
  pub to_state : State
  pub checkpoint_kind : Option JournalKind
  pub next : Snapshot

-- The record of createInitialAcquisitionSnapshot.
unfoldable pub initial_snapshot : String → String → String → String → ℕ → String → Snapshot
initial_snapshot request configuration journal nonce declared_ms page = record {
  schema_version = 1;
  request_identity_hash = request;
  acquisition_configuration_hash = configuration;
  market_acquisition_journal_id = journal;
  run_session_nonce = nonce;
  current_state = declared;
  lane_disabled = false;
  terminal_reason = none;
  page_ordinal = 0;
  page_attempts_started = 0;
  logical_page_identity_hash = page;
  attempt_ordinal = none;
  attempt_id = none;
  retrieval_attempt_id = none;
  current_token_hash = no_token_hash;
  current_continuation_binding_hash = none;
  consumed_token_hashes = [];
  page_chain_hash = genesis_hash;
  continuation_authority = none;
  budgets = record {
    successful_pages = 0;
    verified_bytes = 0;
    records = 0;
    normalized_facts = 0;
    attempts = 0;
  };
  quota_window_evidence = [];
  acquisition_declared_monotonic_ms = declared_ms;
  last_monotonic_ms = declared_ms;
  pending_retry_delay_ms = none;
}

module _ (p : Platform) where
  -- deriveAcquisitionTransition; the event that it returns is its argument, printed and parsed back.
  unfoldable pub derive_acquisition_transition : Snapshot → Event → Result Plan
  unfolding kind_numbers
  derive_acquisition_transition s e = do
    validate_snapshot p s
    guard (all_safe (e.proof.now_monotonic_ms ∷ kind_numbers e.kind))
        "must be a safe integer and cannot be negative zero"
    next ← derive_next p s e
    validate_snapshot p next
    ok (record {
      event_kind = kind_name e.kind;
      from_state = s.current_state;
      to_state = next.current_state;
      checkpoint_kind = checkpoint_for_event s e.kind;
      next = next;
    })

  -- createInitialAcquisitionSnapshot
  unfoldable pub create_initial : String → String → String → String → ℕ → Result Snapshot
  create_initial request configuration journal nonce declared_ms = do
    page ← derive_logical_page_identity_hash p request 0 no_token_hash
    let snapshot = initial_snapshot request configuration journal nonce declared_ms page
    validate_snapshot p snapshot
    ok snapshot

  -- What the machine holds after an event; a throw of the reducer or of the persistence callback
  -- leaves the snapshot as it was. `persisted` says whether the callback succeeds.
  unfoldable pub after_plan : Bool → Snapshot → Result Plan → Snapshot
  after_plan persisted s (err e) = s
  after_plan persisted s (ok plan) = if persisted then plan.next else s

  -- applyAcquisitionEvent
  unfoldable pub apply_event : Snapshot → Event × Bool → Snapshot
  unfolding after_plan
  apply_event s (e, persisted) = after_plan persisted s (derive_acquisition_transition s e)

  -- The machine over a sequence of events.
  unfoldable pub apply_events : Snapshot → List (Event × Bool) → Snapshot
  unfolding apply_event
  apply_events s [] = s
  apply_events s (e ∷ es) = apply_events (apply_event s e) es
