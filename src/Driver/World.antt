-- ===== src/Driver/World.antt =====
-- src/lane.rs: what a driver is given, and what one of its steps makes of what it has read.
use reve.Prelude.{ℕ, ◌+◌, ℤ, String, Bool, ◌⊎◌, Option, none, some, List, [], unwrap_or}
use reve.Map.{Map}
use reve.Json.{Json, Serde}
use reve.Namespace.{Namespace, lane_leaf, pending_entry, op_preparation}
use reve.Entry.{Entry, Write}
use reve.State.{
  OpKind, Outcome, OperationError, OperationState, LaneLastResult, RetryPolicy, Replay,
  PendingEntry, CompactionPreparation, CompactionReason,
}
use reve.Storage.{Storage}
use reve.Storage.Scan.{register_value, scan_branch}
use reve.Session.{SessionError}
use reve.Session.Restore.{Codecs, Current}
use reve.Session.Context.{project_context, window}
use reve.Model.{Assistant, ToolCall}

pub record OperationResult : Type 0 where
  pub operation_id : String
  pub kind : OpKind
  pub outcome : Outcome
  pub leaf_id : Option String
  pub final_assistant_entry_id : Option String
  pub final_text : Option String
  pub error : Option OperationError
  pub result_entry_id : Option String
  pub old_leaf_id : Option String

unfoldable pub from_last_result : LaneLastResult → Option String → OperationResult
from_last_result last final_text = record {
  operation_id = last.operation_id;
  kind = last.kind;
  outcome = last.outcome;
  leaf_id = last.leaf_id;
  final_assistant_entry_id = last.final_assistant_entry_id;
  final_text = final_text;
  error = last.error;
  result_entry_id = none;
  old_leaf_id = none;
}

-- The errors that `SessionError::Corrupt` words, and a state that the code declares unreachable.
pub data DriverError : Type 0 where
  session : SessionError → DriverError
  vanished : String → DriverError
  pending_missing : String → DriverError
  batch_assistant_missing : String → DriverError
  not_an_assistant : DriverError
  call_missing : ℕ → DriverError
  args_missing preparation_missing : String → DriverError
  unreachable : DriverError

-- Either the driver still owns the operation, or it was finalised elsewhere.
pub data Reload : Type 0 where
  current : Current → Reload
  finalized : OperationResult → Reload
  broken : DriverError → Reload

-- The arguments of `terminal` besides the current state.
pub record Ending (V : Type 0) : Type 0 where
  pub outcome : Outcome
  pub error : Option OperationError
  pub publication : List (Write V)
  pub new_leaf : Option (Option String)
  pub result_entry_id : Option String

abbrev pub ending : {V : Type 0} → Outcome → Option OperationError → Ending V
ending outcome error = record {
  outcome = outcome;
  error = error;
  publication = [];
  new_leaf = none;
  result_entry_id = none;
}

-- What a step comes to: an error, a reload, a transition, a transition with an effect to run once it is
-- committed (on the storage and the state of then), or the terminal transaction.
pub data Move (V : Type 0) : Type 0 where
  fail : DriverError → Move V
  wait : Move V
  advance : OperationState → List (Write V) → Move V
  intend : OperationState → List (Write V) → (Storage V → Current → Move V) → Move V
  finish : Ending V → Move V

-- A provider's answer to a request, or the signal that came first.
pub data Response (V : Type 0) : Type 0 where
  interrupted : Response V
  answered : Assistant V → Response V
  failed : String → Bool → Response V

pub record Block : Type 0 where
  pub reason : String
  pub terminate : Bool

pub record BeforeTool (V : Type 0) : Type 0 where
  pub args : Option (Map String V)
  pub block : Option Block

pub record AfterTool : Type 0 where
  pub content : Option String
  pub is_error : Option Bool
  pub terminate : Option Bool

pub record BeforeCompaction : Type 0 where
  pub decline : Bool
  pub summary : Option String

-- What the model keeps abstract in every step: JSON, the register types, and the text functions of Rust's
-- standard library (`show` prints a number, `quote` is `{:?}`, `lower` is `to_ascii_lowercase`, and `is_blank`
-- tests the trimmed text).
pub record Env (V : Type 0) : Type 0 where
  pub json : Json V
  pub codecs : Codecs V
  pub last_result : Serde V LaneLastResult
  pub preparation : Serde V (CompactionPreparation V)
  pub show : ℕ → String
  pub quote : String → String
  pub lower : String → String
  pub is_blank : String → Bool

-- The answers of the world to one step: the clock, the abort signal before and after the effect, the ids that
-- are minted, the hooks, the tools and the model. A follower's id is a call's by its index.
pub record World (V : Type 0) : Type 0 where
  pub now : ℤ
  pub retry : RetryPolicy
  pub signalled : Bool
  pub stopped : Bool
  pub task_id : String
  pub step_id : String
  pub response_id : String
  pub usage_id : String
  pub entry_id : String
  pub follower_id : String
  pub call_id : ℕ → String
  pub scratch_id : ℕ → String
  pub before_run_end : List V → Option String
  pub transform_context : List (Entry V) → List (Entry V)
  pub system_prompt : String
  pub schemas : List (String × V)
  pub respond : List (Entry V) → String → List (String × V) → Response V
  pub replay : String → Option Replay
  pub before_tool : ToolCall V → BeforeTool V
  pub invoke : String → Map String V → String ⊎ String
  pub after_tool : ToolCall V → Map String V → String → Bool → AfterTool
  pub before_compaction : CompactionReason → CompactionPreparation V → BeforeCompaction

module _ {V : Type 0} (env : Env V) where
  -- The reads of a step, src/session.rs. The walk has the fuel that a well-formed tree needs.
  abbrev leaf_of : Option (Option String × ℕ) → Option String
  leaf_of none = none
  leaf_of (some l) = l.0

  abbrev pub read_leaf : Storage V → String → Option String
  read_leaf s lane = leaf_of (register_value env.codecs.leaf.from_value s lane_leaf lane)

  unfoldable pub context : Storage V → String → List (Entry V)
  unfolding project_context register_value
  context s lane = unwrap_or (project_context env.json env.show (s.seq + 2) s (read_leaf s lane)) []

  unfoldable pub transcript : Storage V → String → List (Entry V)
  unfolding scan_branch register_value
  transcript s lane = unwrap_or (scan_branch (s.seq + 2) s (window (read_leaf s lane))) []

  abbrev value_of : {A : Type 0} → Option (A × ℕ) → Option A
  value_of none = none
  value_of (some r) = some r.0

  unfoldable pub pending : Storage V → String → Option (PendingEntry V)
  unfolding register_value
  pending s id = value_of (register_value env.codecs.pending.from_value s pending_entry id)

  unfoldable pub last_result : Storage V → String → Option LaneLastResult
  unfolding register_value
  last_result s lane =
      value_of (register_value env.last_result.from_value s Namespace.lane_last_result lane)

  unfoldable pub preparation : Storage V → String → Option (CompactionPreparation V)
  unfolding register_value
  preparation s key = value_of (register_value env.preparation.from_value s op_preparation key)
