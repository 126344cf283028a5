-- ===== src/State.antt =====
-- src/state.rs: the state of an operation, which is its program counter, and pending content.
pub mod Lane
pub mod Phase
unfoldable pub use Lane.*
unfoldable pub use Phase.*
use reve.Prelude.{
  ℕ, ℤ, String, ◌<>◌, Bool, false, true, Option, none, some, List, str_eq, unwrap_or, if◌then◌else◌,
}
use reve.Map.{Map}
use reve.Json.{Json}
use reve.Entry.{Entry, message_entry, custom_entry, with_id}

pub record RunState : Type 0 where
  pub control : Control
  pub settings : RunSettings
  pub phase : RunPhase
  pub inbox : Inbox
  pub latest_assistant_entry_id : Option String

pub record CompactionState : Type 0 where
  pub control : Control
  pub custom_instructions : Option String
  pub structural : StructuralDecision

pub record NavigationState : Type 0 where
  pub control : Control
  pub target_id : Option String
  pub label : Option String

pub data OperationState : Type 0 where
  run : RunState → OperationState
  compaction : CompactionState → OperationState
  navigation : NavigationState → OperationState

-- `OperationState::kind`.
abbrev pub state_kind : OperationState → OpKind
state_kind (run s) = OpKind.run
state_kind (compaction s) = OpKind.compaction
state_kind (navigation s) = OpKind.navigation

abbrev pub control : OperationState → Control
control (run s) = s.control
control (compaction s) = s.control
control (navigation s) = s.control

-- `control_mut`, as the assignment that its callers make.
abbrev pub set_control : OperationState → Control → OperationState
set_control (run s) c = run (record s { control = c })
set_control (compaction s) c = compaction (record s { control = c })
set_control (navigation s) c = navigation (record s { control = c })

-- Content without a place: the register value until the entry of that id is written.
pub record PendingEntry (V : Type 0) : Type 0 where
  pub entry_type : String
  pub custom_type : Option String
  pub payload : Option V

module _ {V : Type 0} (json : Json V) where
  unfoldable pub pending_message : V → PendingEntry V
  pending_message message = record {
    entry_type = "message";
    custom_type = none;
    payload = some message;
  }

  -- `fresh` is the id that the entry's constructor mints and the reserved id replaces.
  unfoldable pub into_entry : String → PendingEntry V → String → Entry V
  unfolding message_entry custom_entry with_id
  into_entry fresh p id =
      let named : Entry V = custom_entry fresh (unwrap_or p.custom_type "custom") p.payload in
      let plain : Entry V = message_entry fresh (unwrap_or p.payload json.null) in
      with_id (if str_eq p.entry_type "custom" then named else plain) id

pub record CompactionPreparation (V : Type 0) : Type 0 where
  pub messages_to_summarize : List V
  pub retained_tail : List V
  pub tokens_before : ℕ
  pub previous_summary : Option String
