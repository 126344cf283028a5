-- ===== src/Harness.antt =====
-- src/harness.rs: starting, feeding and stopping the operations of a lane. What a call reads and the
-- commit that it sends are two messages to the session's owner, with any others between them.
pub mod Cancel
pub mod Claims
pub mod Race
pub mod Calls
pub mod Queued
pub mod Begin
pub mod Examples
use reve.Prelude.{
  ℕ, ℤ, String, Bool, true, false, ◌&&◌, not, Option, none, some, List, [], ◌∷◌, ◌++◌, is_empty,
  if◌then◌else◌,
}
use reve.Json.{Json, Serde}
use reve.Namespace.{Namespace, lane_state, lane_leaf, op_meta, op_state, pending_entry}
use reve.Entry.{Write, set_write}
use reve.State.{
  LaneState, Operation, OperationState, RunState, Control, cancel_requested, is_cancelled, Intent,
  OpKind, PendingEntry, control, state_kind,
}
use reve.Storage.{Storage}
use reve.Storage.Scan.{register_value}
use reve.Session.{Expect, SessionError}
use reve.Session
use reve.Session.Restore.{Codecs, Current, Restored, idle, suspended, restore}

pub data HarnessError : Type 0 where
  session : SessionError → HarnessError
  busy : String → HarnessError
  idle_lane : String → HarnessError
  takes_no_input : String → OpKind → HarnessError
  being_aborted : String → HarnessError
  vanished : String → HarnessError
  invalid : String → HarnessError
  disappeared : String → HarnessError

-- What a call makes of its reads: an error, or a commit to send; `nothing` is a call that is done.
pub data Plan (V : Type 0) : Type 0 where
  refuse : HarnessError → Plan V
  nothing : Plan V
  submit : Expect → List (Write V) → Plan V

pub data Queue : Type 0 where
  steer follow_up writes : Queue

abbrev pub is_writes : Queue → Bool
is_writes steer = false
is_writes follow_up = false
is_writes writes = true

-- The function `cancelled`.
abbrev pub cancelled : OperationState → Bool
cancelled s = is_cancelled (control s)

-- What an abort turns a state into, plus the queued inputs that it dropped.
pub record Cancelled : Type 0 where
  pub state : Option OperationState
  pub steer : List String
  pub follow_up : List String

abbrev pub stop_state : ℤ → OperationState → Cancelled
stop_state now (OperationState.run r) = record {
  state = some (
      OperationState.run (record r {
        inbox = record (r.inbox) { steer = []; follow_up = [] };
        control = cancel_requested now r.inbox.steer r.inbox.follow_up;
      }));
  steer = r.inbox.steer;
  follow_up = r.inbox.follow_up;
}
stop_state now (OperationState.compaction c) = record {
  state = some (OperationState.compaction (record c { control = cancel_requested now [] [] }));
  steer = [];
  follow_up = [];
}
stop_state now (OperationState.navigation n) = record {
  state = some (OperationState.navigation (record n { control = cancel_requested now [] [] }));
  steer = [];
  follow_up = [];
}

unfoldable pub cancel : ℤ → OperationState → Cancelled
cancel now s =
    if cancelled s then record { state = none; steer = []; follow_up = [] } else stop_state now s

-- The run with one more id in a queue.
abbrev pub push : Queue → String → RunState → RunState
push steer id r = record r { inbox = record (r.inbox) { steer = r.inbox.steer ++ id ∷ [] } }
push follow_up id r = record r {
  inbox = record (r.inbox) { follow_up = r.inbox.follow_up ++ id ∷ [] };
}
push writes id r = record r { inbox = record (r.inbox) { writes = r.inbox.writes ++ id ∷ [] } }

-- A run adopts what was queued for the next run, ahead of its own prompts.
abbrev pub adopt : List String → OperationState → OperationState
adopt queued (OperationState.run r) =
    OperationState.run (record r { inbox = record (r.inbox) { writes = queued ++ r.inbox.writes } })
adopt queued (OperationState.compaction c) = OperationState.compaction c
adopt queued (OperationState.navigation n) = OperationState.navigation n

abbrev pub left_queued : List String → OperationState → List String
left_queued queued (OperationState.run r) = []
left_queued queued (OperationState.compaction c) = queued
left_queued queued (OperationState.navigation n) = queued

module _ {V : Type 0} (json : Json V) (codecs : Codecs V) (show : ℕ → String) where
  abbrev pub op_token : Current → Expect
  op_token c = record {
    namespace = op_state;
    key = c.operation.operation_id;
    seq = some c.state_seq;
  }

  abbrev pub set_program : String → OperationState → Write V
  set_program op state = set_write op_state op (codecs.program.to_value state)

  -- One pass of `enqueue`, on what restore returns; `id` is the reserved id.
  abbrev pub enqueue_run :
      String → Queue → PendingEntry V → String → Current → OperationState → Plan V
  enqueue_run lane queue content id c (OperationState.compaction s) =
      refuse (takes_no_input lane OpKind.compaction)
  enqueue_run lane queue content id c (OperationState.navigation s) =
      refuse (takes_no_input lane OpKind.navigation)
  enqueue_run lane queue content id c (OperationState.run r) =
      if is_cancelled r.control && not (is_writes queue)
      then refuse (being_aborted lane)
      else submit (op_token c) (
          set_write pending_entry id (codecs.pending.to_value content)
          ∷ set_program c.operation.operation_id (OperationState.run (push queue id r))
          ∷ [])

  abbrev pub enqueue_restored :
      String → Queue → PendingEntry V → String → Session.Result Restored → Plan V
  enqueue_restored lane queue content id (Session.err e) = refuse (session e)
  enqueue_restored lane queue content id (Session.ok (idle l)) = refuse (idle_lane lane)
  enqueue_restored lane queue content id (Session.ok (suspended c)) =
      enqueue_run lane queue content id c c.state

  unfoldable pub enqueue_plan : Storage V → String → Queue → PendingEntry V → String → Plan V
  unfolding set_write restore
  enqueue_plan s lane queue content id =
      enqueue_restored lane queue content id (restore json codecs show s lane)

  abbrev pub abort_with : Current → Option OperationState → Plan V
  abort_with c none = nothing
  abort_with c (some next) = submit (op_token c) (set_program c.operation.operation_id next ∷ [])

  abbrev pub abort_restored : ℤ → String → Session.Result Restored → Plan V
  abort_restored now lane (Session.err e) = refuse (session e)
  abort_restored now lane (Session.ok (idle l)) = refuse (idle_lane lane)
  abort_restored now lane (Session.ok (suspended c)) = abort_with c (cancel now c.state).state

  -- One pass of `abort`: nothing to commit when the state is cancelled already.
  unfoldable pub abort_plan : ℤ → Storage V → String → Plan V
  unfolding set_write restore cancel
  abort_plan now s lane = abort_restored now lane (restore json codecs show s lane)

  abbrev pub leaf_of : Option (Option String × ℕ) → Option String
  leaf_of none = none
  leaf_of (some l) = l.0

  abbrev pub claim :
      ℤ
      → String
      → String
      → Intent
      → OperationState
      → List (Write V)
      → Option String
      → LaneState × ℕ
      → Plan V
  claim now lane op intent state extra leaf (ls, seq) =
      submit (record { namespace = lane_state; key = lane; seq = some seq })
        (set_write op_meta op (
            codecs.meta.to_value (record {
              operation_id = op;
              lane = lane;
              source_leaf_id = leaf;
              started_at = now;
              intent = intent;
            }))
          ∷ set_program op (adopt ls.pending_next_run state)
          ∷ set_write lane_state lane (
              codecs.state.to_value (record {
                current_operation_id = some op;
                pending_next_run = left_queued ls.pending_next_run state;
              }))
          ∷ extra)

  abbrev pub start_free :
      ℤ
      → String
      → String
      → Intent
      → OperationState
      → List (Write V)
      → Option String
      → LaneState × ℕ
      → Option String
      → Plan V
  start_free now lane op intent state extra leaf ls (some running) = refuse (busy lane)
  start_free now lane op intent state extra leaf ls none =
      claim now lane op intent state extra leaf ls

  abbrev pub start_read :
      ℤ
      → String
      → String
      → Intent
      → OperationState
      → List (Write V)
      → Option String
      → Option (LaneState × ℕ)
      → Plan V
  start_read now lane op intent state extra leaf none = refuse (vanished lane)
  start_read now lane op intent state extra leaf (some ls) =
      start_free now lane op intent state extra leaf ls ls.0.current_operation_id

  -- `start`: the lane's state is read from one storage, its leaf from a later one.
  unfoldable pub start_plan :
      ℤ
      → Storage V
      → Storage V
      → String
      → String
      → Intent
      → OperationState
      → List (Write V)
      → Plan V
  unfolding set_write register_value
  start_plan now s later lane op intent state extra =
      start_read now lane op intent state extra
        (leaf_of (register_value codecs.leaf.from_value later lane_leaf lane))
        (register_value codecs.state.from_value s lane_state lane)
