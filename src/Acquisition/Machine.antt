-- ===== src/Acquisition/Machine.antt =====
-- adapters/market-acquisition/state-machine.ts: the states, events and snapshot of an acquisition.
-- `Validate` checks a snapshot, `Step` is the reducer, `Run` the machine that persists and advances.
pub mod Validate
pub mod Step
pub mod Run
pub mod Facts
pub mod Frame
pub mod Graph
pub mod Valid
pub mod Termination
pub mod Runs
mod Tests
use peas_engine.Prelude.{
  ℕ, String, Bool, true, false, ◌&&◌, ◌||◌, List, [], ◌∷◌, Option, none, some, Result, guard, ◌==◌,
  if◌then◌else◌,
}
use peas_engine.Acquisition.Limits.{TerminalReason}
use peas_engine.Acquisition.Identity.{PageChainInput}
use peas_engine.Acquisition.Quota.{DeadlineProof}
use peas_engine.Acquisition.Retry.{RetryContext, RetryDelayProof}

-- AcquisitionState
pub data State : Type 0 where
  declared preflighting dispatch_ready credential_ready attempt_active response_accepted : State
  artifact_committing artifact_committed artifact_verifying page_verified checkpointing : State
  waiting_retry chain_complete normalizing ready_for_selection selecting completed stopped : State
  failed_clean quarantined : State

-- ACQUISITION_TRANSITIONS
unfoldable pub transitions : State → List State
transitions declared = preflighting ∷ []
transitions preflighting = dispatch_ready ∷ stopped ∷ failed_clean ∷ []
transitions dispatch_ready = credential_ready ∷ stopped ∷ []
transitions credential_ready = attempt_active ∷ []
transitions attempt_active = waiting_retry ∷ response_accepted ∷ stopped ∷ failed_clean ∷ []
transitions response_accepted = artifact_committing ∷ failed_clean ∷ []
transitions artifact_committing = artifact_committed ∷ failed_clean ∷ []
transitions artifact_committed = artifact_verifying ∷ []
transitions artifact_verifying = page_verified ∷ failed_clean ∷ quarantined ∷ []
transitions page_verified = checkpointing ∷ []
transitions checkpointing = chain_complete ∷ preflighting ∷ failed_clean ∷ []
transitions waiting_retry = preflighting ∷ stopped ∷ []
transitions chain_complete = normalizing ∷ []
transitions normalizing = ready_for_selection ∷ quarantined ∷ failed_clean ∷ []
transitions ready_for_selection = selecting ∷ []
transitions selecting = completed ∷ failed_clean ∷ quarantined ∷ []
transitions completed = []
transitions stopped = []
transitions failed_clean = []
transitions quarantined = []

-- The position of a state in ACQUISITION_STATES, by which states are compared.
abbrev pub state_index : State → ℕ
state_index declared = 0
state_index preflighting = 1
state_index dispatch_ready = 2
state_index credential_ready = 3
state_index attempt_active = 4
state_index response_accepted = 5
state_index artifact_committing = 6
state_index artifact_committed = 7
state_index artifact_verifying = 8
state_index page_verified = 9
state_index checkpointing = 10
state_index waiting_retry = 11
state_index chain_complete = 12
state_index normalizing = 13
state_index ready_for_selection = 14
state_index selecting = 15
state_index completed = 16
state_index stopped = 17
state_index failed_clean = 18
state_index quarantined = 19

abbrev pub same_state : State → State → Bool
same_state s t = state_index s == state_index t

-- `states.includes(state)`
abbrev pub includes_state : List State → State → Bool
includes_state [] t = false
includes_state (s ∷ ss) t = same_state s t || includes_state ss t

-- TERMINAL_STATES
abbrev pub is_terminal : State → Bool
is_terminal completed = true
is_terminal stopped = true
is_terminal failed_clean = true
is_terminal quarantined = true
is_terminal _ = false

-- assertTransition
unfoldable pub assert_transition : State → State → Result (Unit {0})
unfolding transitions
assert_transition from to =
    guard (includes_state (transitions from) to) "acquisition-transition-invalid"

-- AcquisitionBudgets
pub record Budgets : Type 0 where
  pub successful_pages : ℕ
  pub verified_bytes : ℕ
  pub records : ℕ
  pub normalized_facts : ℕ
  pub attempts : ℕ

pub record ContinuationAuthority : Type 0 where
  pub next_token_material : String
  pub next_token_hash : String
  pub next_continuation_binding_hash : String

-- AcquisitionMachineSnapshot
pub record Snapshot : Type 0 where
  pub schema_version : ℕ
  pub request_identity_hash : String
  pub acquisition_configuration_hash : String
  pub market_acquisition_journal_id : String
  pub run_session_nonce : String
  pub current_state : State
  pub lane_disabled : Bool
  pub terminal_reason : Option TerminalReason
  pub page_ordinal : ℕ
  pub page_attempts_started : ℕ
  pub logical_page_identity_hash : String
  pub attempt_ordinal : Option ℕ
  pub attempt_id : Option String
  pub retrieval_attempt_id : Option String
  pub current_token_hash : String
  pub current_continuation_binding_hash : Option String
  pub consumed_token_hashes : List String
  pub page_chain_hash : String
  pub continuation_authority : Option ContinuationAuthority
  pub budgets : Budgets
  pub quota_window_evidence : List ℕ
  pub acquisition_declared_monotonic_ms : ℕ
  pub last_monotonic_ms : ℕ
  pub pending_retry_delay_ms : Option ℕ

-- AcquisitionEventProof
pub record EventProof : Type 0 where
  pub request_identity_hash : String
  pub acquisition_configuration_hash : String
  pub market_acquisition_journal_id : String
  pub run_session_nonce : String
  pub now_monotonic_ms : ℕ
  pub resources_settled : Bool

-- The kinds of AcquisitionEvent, with what each carries beside its proof.
pub data Kind : Type 0 where
  begin_preflight preflight_approved : Kind
  preflight_stopped preflight_failed : TerminalReason → Kind
  credentials_loaded credential_unavailable : Kind
  dispatch_started : DeadlineProof → ℕ → Kind
  retry_cleanup_complete : RetryContext → Kind
  retry_delay_elapsed : RetryDelayProof → Kind
  response_accepted : Kind
  attempt_stopped attempt_failed : TerminalReason → Kind
  artifact_store_started artifact_store_committed artifact_store_failed : Kind
  artifact_verification_started page_verified page_verification_failed page_quarantined : Kind
  page_checkpointed : PageChainInput → Option String → Kind
  continue_next_page terminal_page_admitted normalization_started : Kind
  normalization_completed : ℕ → Kind
  normalization_failed normalization_quarantined selection_started selection_completed : Kind
  selection_failed selection_quarantined : Kind
  policy_stopped : TerminalReason → Kind

-- AcquisitionEvent
pub record Event : Type 0 where
  pub proof : EventProof
  pub kind : Kind

-- EVENT_TARGETS
unfoldable pub event_target : Kind → State
event_target begin_preflight = preflighting
event_target preflight_approved = dispatch_ready
event_target (preflight_stopped _) = stopped
event_target (preflight_failed _) = failed_clean
event_target credentials_loaded = credential_ready
event_target credential_unavailable = stopped
event_target (dispatch_started _ _) = attempt_active
event_target (retry_cleanup_complete _) = waiting_retry
event_target (retry_delay_elapsed _) = preflighting
event_target Kind.response_accepted = State.response_accepted
event_target (attempt_stopped _) = stopped
event_target (attempt_failed _) = failed_clean
event_target artifact_store_started = artifact_committing
event_target artifact_store_committed = artifact_committed
event_target artifact_store_failed = failed_clean
event_target artifact_verification_started = artifact_verifying
event_target Kind.page_verified = State.page_verified
event_target page_verification_failed = failed_clean
event_target page_quarantined = quarantined
event_target (page_checkpointed _ _) = checkpointing
event_target continue_next_page = preflighting
event_target terminal_page_admitted = chain_complete
event_target normalization_started = normalizing
event_target (normalization_completed _) = ready_for_selection
event_target normalization_failed = failed_clean
event_target normalization_quarantined = quarantined
event_target selection_started = selecting
event_target selection_completed = completed
event_target selection_failed = failed_clean
event_target selection_quarantined = quarantined
event_target (policy_stopped _) = stopped

-- terminalReasonForEvent
unfoldable pub terminal_reason_for_event : Kind → Option TerminalReason
terminal_reason_for_event (preflight_stopped r) = some r
terminal_reason_for_event (preflight_failed r) = some r
terminal_reason_for_event (attempt_stopped r) = some r
terminal_reason_for_event (attempt_failed r) = some r
terminal_reason_for_event (policy_stopped r) = some r
terminal_reason_for_event credential_unavailable = some TerminalReason.credential_unavailable
terminal_reason_for_event artifact_store_failed = some TerminalReason.artifact_store_failed
terminal_reason_for_event page_verification_failed =
    some TerminalReason.artifact_verification_failed
terminal_reason_for_event page_quarantined = some TerminalReason.delivery_conflict
terminal_reason_for_event normalization_failed = some TerminalReason.normalization_failed
terminal_reason_for_event normalization_quarantined = some TerminalReason.correction_unsupported
terminal_reason_for_event selection_failed = some TerminalReason.selection_failed
terminal_reason_for_event selection_quarantined = some TerminalReason.delivery_conflict
terminal_reason_for_event _ = none
