-- ===== src/State/Lane.antt =====
-- src/state.rs: lane registers, operation metadata, control and settings.
use reve.Prelude.{
  ℕ, ◌*◌, ◌^◌, ◌-◌, min, ℤ, String, Bool, true, false, ◌&&◌, Option, none, List, [], is_empty,
  u64_mod,
}

pub record ModelRef : Type 0 where
  pub provider : String
  pub model_id : String

pub record LaneConfiguration : Type 0 where
  pub model : ModelRef
  pub thinking_level : String
  pub active_tool_names : List String

pub record LaneState : Type 0 where
  pub current_operation_id : Option String
  pub pending_next_run : List String

abbrev pub default_lane_state : LaneState
default_lane_state = record { current_operation_id = none; pending_next_run = [] }

pub data OpKind : Type 0 where
  run compaction navigation : OpKind

pub data Outcome : Type 0 where
  completed aborted failed declined : Outcome

unfoldable pub outcome_str : Outcome → String
outcome_str completed = "completed"
outcome_str aborted = "aborted"
outcome_str failed = "failed"
outcome_str declined = "declined"

pub record OperationError : Type 0 where
  pub code : String
  pub message : String

pub data RunCompletion : Type 0 where
  assistant terminated_tools : RunCompletion

pub record LaneLastResult : Type 0 where
  pub operation_id : String
  pub kind : OpKind
  pub outcome : Outcome
  pub leaf_id : Option String
  pub final_assistant_entry_id : Option String
  pub error : Option OperationError
  pub run_completion : Option RunCompletion

pub data Intent : Type 0 where
  run : List String → Option String → Intent
  compaction : Option String → Intent
  navigation : Option String → Bool → Option String → Intent

-- `Intent::kind`.
abbrev pub intent_kind : Intent → OpKind
intent_kind (run prompt_entry_ids system_prompt_override) = run
intent_kind (compaction custom_instructions) = compaction
intent_kind (navigation target_id summarize label) = navigation

pub record Operation : Type 0 where
  pub operation_id : String
  pub lane : String
  pub source_leaf_id : Option String
  pub started_at : ℤ
  pub intent : Intent

-- `cancel_requested` carries its time and the drained steer and follow-up ids.
pub data Control : Type 0 where
  running : Control
  cancel_requested : ℤ → List String → List String → Control

abbrev pub is_cancelled : Control → Bool
is_cancelled running = false
is_cancelled (cancel_requested requested_at drained_steer drained_follow_up) = true

pub data QueueMode : Type 0 where
  all one_at_a_time : QueueMode

pub record CompactionSettings : Type 0 where
  pub enabled : Bool
  pub reserve_tokens : ℕ
  pub keep_recent_tokens : ℕ

abbrev pub default_compaction_settings : CompactionSettings
default_compaction_settings = record {
  enabled = true;
  reserve_tokens = 16384;
  keep_recent_tokens = 20000;
}

pub record RetryPolicy : Type 0 where
  pub max_attempts : ℕ
  pub base_delay_ms : ℕ

abbrev pub default_retry_policy : RetryPolicy
default_retry_policy = record { max_attempts = 3; base_delay_ms = 1000 }

-- `saturating_mul` on 64 bits; the shift is at most 20.
unfoldable pub delay_ms : RetryPolicy → ℕ → ℕ
delay_ms p attempt = min (p.base_delay_ms * 2 ^ min (attempt - 1) 20) (u64_mod - 1)

pub record RunSettings : Type 0 where
  pub compaction : CompactionSettings
  pub steering_mode : QueueMode
  pub follow_up_mode : QueueMode
  pub context_window : ℕ

abbrev pub default_run_settings : RunSettings
default_run_settings = record {
  compaction = default_compaction_settings;
  steering_mode = all;
  follow_up_mode = all;
  context_window = 200000;
}

pub record Inbox : Type 0 where
  pub steer : List String
  pub follow_up : List String
  pub writes : List String

abbrev pub empty_inbox : Inbox
empty_inbox = record { steer = []; follow_up = []; writes = [] }

-- `Inbox::is_empty`.
abbrev pub inbox_is_empty : Inbox → Bool
inbox_is_empty i = is_empty i.steer && is_empty i.follow_up && is_empty i.writes
