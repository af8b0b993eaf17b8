-- ===== src/Processor.antt =====
-- core/processor.ts: runs of a reducer over the log of events, and adapters/memory/processing-store.ts.
-- A value of the types below already has the shape that the strict schemas ask for, so that the
-- body of an output says its category; the tests that the schemas make on texts and numbers are
-- in `Schemas`. Decimal texts are their numbers, and the copy that a validation returns is its
-- argument.
pub mod Schemas
pub mod Hashes
pub mod Validate
pub mod Verify
pub mod Materialize
pub mod Store
pub mod Process
mod Samples
mod Tests
use peas_engine.Prelude.{ℕ, String, Bool, List, Option, Result}
use peas_engine.Json.{Fields}
use peas_engine.Events.{StoredEvent}

pub data RunKind : Type 0 where
  live replay shadow research paper : RunKind

pub record RunIdentities : Type 0 where
  pub extractor_version : String
  pub feature_set_id : Option String
  pub model_id : Option String
  pub prompt_id : Option String
  pub dataset_id : Option String

pub record RunBehavior : Type 0 where
  pub reducer_name : String
  pub reducer_version : String
  pub build_digest : String
  pub schema_registry_digest : String
  pub configuration : Fields
  pub identities : RunIdentities

-- RunManifest; `manifestVersion` is 2 and `canonicalizationVersion` is "peas-json-v1".
pub record RunManifest : Type 0 where
  pub run_id : String
  pub kind : RunKind
  pub effects_allowed : Bool
  pub behavior : RunBehavior

pub record RunRegistration : Type 0 where
  pub manifest : RunManifest
  pub manifest_hash : String
  pub behavior_hash : String

pub record DecisionDraft : Type 0 where
  pub decision_type : String
  pub payload : Fields

pub record JobDraft : Type 0 where
  pub job_id : String
  pub job_type : String
  pub dedupe_key : String
  pub not_before_logical_ms : ℕ
  pub input_bundle_hash : String
  pub payload : Fields

pub record OutboxDraft : Type 0 where
  pub message_id : String
  pub topic : String
  pub dedupe_key : String
  pub payload : Fields

-- Transition
pub record Transition : Type 0 where
  pub state : Fields
  pub decisions : List DecisionDraft
  pub jobs : List JobDraft
  pub outbox : List OutboxDraft

pub record ReducerContext : Type 0 where
  pub now_ms : ℕ
  pub run_id : String
  pub behavior_hash : String
  pub identities : RunIdentities
  pub config : Fields
  pub config_hash : String

-- Reducer: each of its functions may throw.
pub record Reducer : Type 0 where
  pub name : String
  pub version : String
  pub route : StoredEvent → Result String
  pub parse_state : Fields → Result Fields
  pub initial_state : String → Fields → Result Fields
  pub apply : Fields → StoredEvent → ReducerContext → Result Transition

pub data OutputCategory : Type 0 where
  decision_category job_category outbox_category : OutputCategory

-- A draft, and the body that an output keeps of it.
pub data OutputBody : Type 0 where
  decision : DecisionDraft → OutputBody
  job : JobDraft → OutputBody
  outbox_message : OutboxDraft → OutputBody

abbrev pub category_of : OutputBody → OutputCategory
category_of (decision d) = decision_category
category_of (job d) = job_category
category_of (outbox_message d) = outbox_category

pub record ImmutableOutput : Type 0 where
  pub output_id : String
  pub run_id : String
  pub input_event_id : String
  pub input_position : ℕ
  pub aggregate_id : String
  pub ordinal : ℕ
  pub dedupe_key : Option String
  pub not_before_logical_ms : Option ℕ
  pub body : OutputBody
  pub body_hash : String

pub record StoredOutput : Type 0 where
  pub output : ImmutableOutput
  pub sequence : ℕ

-- A RunCursor less its hash.
pub record CursorCore : Type 0 where
  pub run_id : String
  pub manifest_hash : String
  pub behavior_hash : String
  pub processed_position : ℕ
  pub logical_at_ms : ℕ
  pub last_event_hash : String
  pub state_head : String
  pub decision_head : String

pub record RunCursor : Type 0 where
  pub core : CursorCore
  pub cursor_hash : String

-- An AggregateCheckpoint less its hash.
pub record CheckpointCore : Type 0 where
  pub run_id : String
  pub aggregate_id : String
  pub version : ℕ
  pub last_input_position : ℕ
  pub state : Fields
  pub state_hash : String

pub record AggregateCheckpoint : Type 0 where
  pub core : CheckpointCore
  pub checkpoint_hash : String

pub record ProcessingCommit : Type 0 where
  pub expected_position : ℕ
  pub event : StoredEvent
  pub cursor : RunCursor
  pub aggregate : AggregateCheckpoint
  pub outputs : List ImmutableOutput

pub record OutputPage : Type 0 where
  pub outputs : List StoredOutput
  pub next_sequence : ℕ
  pub has_more : Bool

pub record AggregatePage : Type 0 where
  pub aggregates : List AggregateCheckpoint
  pub next_aggregate_id : String
  pub has_more : Bool
