-- ===== src/Acquisition/Machine/Graph.antt =====
-- Proofs on the state graph of ACQUISITION_TRANSITIONS.
use peas_engine.Prelude.{ℕ, ◌≤◌, ◌<◌, ◌≡◌, ◌⊎◌, true, false, arith}
use peas_engine.Acquisition.Machine.{
  State, declared, preflighting, dispatch_ready, credential_ready, attempt_active,
  artifact_committing, artifact_committed, artifact_verifying, checkpointing, waiting_retry,
  chain_complete, normalizing, ready_for_selection, selecting, transitions, includes_state,
  is_terminal, event_target, Kind,
}
use peas_engine.Acquisition.Machine.Frame.{attempt_count}

-- How far a state is from the end of its round.
abbrev pub rank : State → ℕ
rank declared = 5
rank preflighting = 4
rank dispatch_ready = 3
rank credential_ready = 2
rank attempt_active = 16
rank waiting_retry = 15
rank State.response_accepted = 14
rank artifact_committing = 13
rank artifact_committed = 12
rank artifact_verifying = 11
rank State.page_verified = 10
rank checkpointing = 9
rank chain_complete = 8
rank normalizing = 7
rank ready_for_selection = 6
rank selecting = 5
rank _ = 0

pub rank-le : (s : State) → rank s ≤ 16
rank-le declared = omega arith
rank-le _ = omega arith

-- Every edge goes down in rank, but those into `attempt_active`.
pub edge_rank :
    (from to : State)
    → includes_state (transitions from) to ≡ true
    → (rank to < rank from) ⊎ (to ≡ attempt_active)
unfolding transitions
edge_rank declared to h = ground arith
edge_rank _ to h = ground arith

-- Only a dispatch leads there.
pub target_attempt : (k : Kind) → event_target k ≡ attempt_active → attempt_count k ≡ 1
unfolding event_target
target_attempt Kind.begin_preflight h = cc
target_attempt _ h = ground arith

pub terminal_no_edge :
    (from to : State) → is_terminal from ≡ true → includes_state (transitions from) to ≡ false
unfolding transitions
terminal_no_edge declared to h = cc
terminal_no_edge _ to h = ground arith
