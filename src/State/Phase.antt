-- ===== src/State/Phase.antt =====
-- src/state.rs: the phases of a run.
use reve.Prelude.{ℕ, ℤ, String, ◌<>◌, Bool, true, false, Option, none, List, str_eq, if◌then◌else◌}
use reve.State.Lane.{LaneConfiguration, RetryPolicy, OperationError}

pub data Continuation : Type 0 where
  need_assistant : Bool → Continuation
  may_finish : Bool → Continuation

pub record CheckpointPhase : Type 0 where
  pub continuation : Continuation
  pub trigger_entry_id : String
  pub threshold_checked_trigger_entry_id : Option String
  pub skip_inbox_once : Bool

-- `CheckpointPhase::need_assistant` and `may_finish`.
abbrev pub then_assistant : String → CheckpointPhase
then_assistant trigger = record {
  continuation = need_assistant false;
  trigger_entry_id = trigger;
  threshold_checked_trigger_entry_id = none;
  skip_inbox_once = false;
}

abbrev pub then_finish : String → Bool → CheckpointPhase
then_finish trigger include_final_assistant = record {
  continuation = may_finish include_final_assistant;
  trigger_entry_id = trigger;
  threshold_checked_trigger_entry_id = none;
  skip_inbox_once = false;
}

pub record GenerationContext : Type 0 where
  pub step_id : String
  pub trigger_entry_id : String
  pub configuration : LaneConfiguration
  pub retry_policy : RetryPolicy
  pub overflow_recovery_used : Bool

-- The next attempt; the attempt, the response id and the usage id; the next attempt, the time before
-- which it does not start, and the error.
pub data Generation : Type 0 where
  ready : GenerationContext → ℕ → Generation
  effect_pending : GenerationContext → ℕ → String → String → Generation
  retry_wait : GenerationContext → ℕ → ℤ → String → Generation

abbrev pub generation_context : Generation → GenerationContext
generation_context (ready c next_attempt) = c
generation_context (effect_pending c attempt response_entry_id usage_id) = c
generation_context (retry_wait c next_attempt not_before error_message) = c

-- Whether an interrupted tool may run again.
pub data Replay : Type 0 where
  safe never : Replay

unfoldable pub parse_replay : String → Replay
parse_replay value = if str_eq value "safe" then safe else never

unfoldable pub replay_str : Replay → String
replay_str safe = "safe"
replay_str never = "never"

-- The source index and the reserved result id; then what the status adds.
pub data ToolCallState : Type 0 where
  planned : ℕ → String → ToolCallState
  effect_pending : ℕ → String → Replay → ToolCallState
  completed : ℕ → String → Bool → ToolCallState

abbrev pub source_index : ToolCallState → ℕ
source_index (planned i id) = i
source_index (effect_pending i id replay) = i
source_index (completed i id terminate) = i

abbrev pub result_entry_id : ToolCallState → String
result_entry_id (planned i id) = id
result_entry_id (effect_pending i id replay) = id
result_entry_id (completed i id terminate) = id

abbrev pub is_completed : ToolCallState → Bool
is_completed (planned i id) = false
is_completed (effect_pending i id replay) = false
is_completed (completed i id terminate) = true

pub record ToolBatch : Type 0 where
  pub assistant_entry_id : String
  pub configuration : LaneConfiguration
  pub turn_id : String
  pub calls : List ToolCallState

-- `format!` prints a number by its digits, which `show` stands for.
unfoldable pub args_prefix : String → String → String
args_prefix operation_id step_id = operation_id <> ":" <> step_id <> ":"

unfoldable pub args_key : (ℕ → String) → String → String → ℕ → String
unfolding args_prefix
args_key show operation_id step_id source_index =
    args_prefix operation_id step_id <> show source_index

pub data CompactionReason : Type 0 where
  manual threshold overflow : CompactionReason

pub record SummaryContext : Type 0 where
  pub task_id : String
  pub result_entry_id : String
  pub configuration : LaneConfiguration
  pub retry_policy : RetryPolicy
  pub reason : CompactionReason

pub data SummaryGeneration : Type 0 where
  ready : SummaryContext → ℕ → SummaryGeneration
  effect_pending : SummaryContext → ℕ → String → SummaryGeneration
  retry_wait : SummaryContext → ℕ → ℤ → String → SummaryGeneration

abbrev pub summary_context : SummaryGeneration → SummaryContext
summary_context (ready c next_attempt) = c
summary_context (effect_pending c attempt usage_id) = c
summary_context (retry_wait c next_attempt not_before error_message) = c

pub data StructuralStatus : Type 0 where
  deciding : StructuralStatus
  generating : SummaryGeneration → StructuralStatus

pub record StructuralDecision : Type 0 where
  pub task_id : String
  pub status : StructuralStatus

unfoldable pub preparation_key : String → String → String
preparation_key operation_id task_id = operation_id <> ":" <> task_id

pub data FailureProvenance : Type 0 where
  response : String → FailureProvenance
  structural : String → FailureProvenance

pub data RunPhase : Type 0 where
  checkpoint : CheckpointPhase → RunPhase
  assistant : Generation → RunPhase
  tools : ToolBatch → RunPhase
  compaction : CompactionReason → StructuralDecision → CheckpointPhase → RunPhase
  failure_drain : OperationError → FailureProvenance → RunPhase
