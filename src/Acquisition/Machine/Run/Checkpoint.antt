-- ===== src/Acquisition/Machine/Run/Checkpoint.antt =====
-- adapters/market-acquisition/state-machine.ts and journal.ts: the checkpoint that an accepted event
-- writes to the journal.
use peas_engine.Prelude.{String, ◌&&◌, Option, none, some, ◌==◌, if◌then◌else◌}
use peas_engine.Acquisition.Machine.{Kind, Snapshot}

-- JOURNAL_CHECKPOINT_KINDS
pub data JournalKind : Type 0 where
  acquisition_declared request_started attempt_started request_succeeded : JournalKind
  artifact_committed artifact_verified page_checkpointed chain_complete : JournalKind
  normalization_started normalization_complete selection_started completed : JournalKind
  stopped failed_clean quarantined : JournalKind

-- `event.kind`
unfoldable pub kind_name : Kind → String
kind_name Kind.begin_preflight = "begin-preflight"
kind_name Kind.preflight_approved = "preflight-approved"
kind_name (Kind.preflight_stopped _) = "preflight-stopped"
kind_name (Kind.preflight_failed _) = "preflight-failed"
kind_name Kind.credentials_loaded = "credentials-loaded"
kind_name Kind.credential_unavailable = "credential-unavailable"
kind_name (Kind.dispatch_started _ _) = "dispatch-started"
kind_name (Kind.retry_cleanup_complete _) = "retry-cleanup-complete"
kind_name (Kind.retry_delay_elapsed _) = "retry-delay-elapsed"
kind_name Kind.response_accepted = "response-accepted"
kind_name (Kind.attempt_stopped _) = "attempt-stopped"
kind_name (Kind.attempt_failed _) = "attempt-failed"
kind_name Kind.artifact_store_started = "artifact-store-started"
kind_name Kind.artifact_store_committed = "artifact-store-committed"
kind_name Kind.artifact_store_failed = "artifact-store-failed"
kind_name Kind.artifact_verification_started = "artifact-verification-started"
kind_name Kind.page_verified = "page-verified"
kind_name Kind.page_verification_failed = "page-verification-failed"
kind_name Kind.page_quarantined = "page-quarantined"
kind_name (Kind.page_checkpointed _ _) = "page-checkpointed"
kind_name Kind.continue_next_page = "continue-next-page"
kind_name Kind.terminal_page_admitted = "terminal-page-admitted"
kind_name Kind.normalization_started = "normalization-started"
kind_name (Kind.normalization_completed _) = "normalization-completed"
kind_name Kind.normalization_failed = "normalization-failed"
kind_name Kind.normalization_quarantined = "normalization-quarantined"
kind_name Kind.selection_started = "selection-started"
kind_name Kind.selection_completed = "selection-completed"
kind_name Kind.selection_failed = "selection-failed"
kind_name Kind.selection_quarantined = "selection-quarantined"
kind_name (Kind.policy_stopped _) = "policy-stopped"

-- CHECKPOINT_FOR_EVENT and checkpointForEvent
unfoldable pub checkpoint_for_event : Snapshot → Kind → Option JournalKind
checkpoint_for_event s Kind.preflight_approved =
    if s.page_ordinal == 0 && s.budgets.attempts == 0 then some request_started else none
checkpoint_for_event s Kind.begin_preflight = some acquisition_declared
checkpoint_for_event s (Kind.dispatch_started _ _) = some attempt_started
checkpoint_for_event s Kind.response_accepted = some request_succeeded
checkpoint_for_event s Kind.artifact_store_committed = some artifact_committed
checkpoint_for_event s Kind.page_verified = some artifact_verified
checkpoint_for_event s (Kind.page_checkpointed _ _) = some page_checkpointed
checkpoint_for_event s Kind.terminal_page_admitted = some chain_complete
checkpoint_for_event s Kind.normalization_started = some normalization_started
checkpoint_for_event s (Kind.normalization_completed _) = some normalization_complete
checkpoint_for_event s Kind.selection_started = some selection_started
checkpoint_for_event s Kind.selection_completed = some completed
checkpoint_for_event s (Kind.preflight_stopped _) = some stopped
checkpoint_for_event s Kind.credential_unavailable = some stopped
checkpoint_for_event s (Kind.attempt_stopped _) = some stopped
checkpoint_for_event s (Kind.policy_stopped _) = some stopped
checkpoint_for_event s (Kind.preflight_failed _) = some failed_clean
checkpoint_for_event s (Kind.attempt_failed _) = some failed_clean
checkpoint_for_event s Kind.artifact_store_failed = some failed_clean
checkpoint_for_event s Kind.page_verification_failed = some failed_clean
checkpoint_for_event s Kind.normalization_failed = some failed_clean
checkpoint_for_event s Kind.selection_failed = some failed_clean
checkpoint_for_event s Kind.page_quarantined = some quarantined
checkpoint_for_event s Kind.normalization_quarantined = some quarantined
checkpoint_for_event s Kind.selection_quarantined = some quarantined
checkpoint_for_event s _ = none
