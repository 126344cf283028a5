-- ===== src/Driver/Terminal.antt =====
-- src/lane.rs: `reload` and the terminal transaction.
use reve.Prelude.{
  String, ◌<>◌, Bool, true, false, Option, none, some, List, [], ◌∷◌, ◌++◌, map, str_eq,
  if◌then◌else◌,
}
use reve.Namespace.{
  Namespace, lane_leaf, lane_state, lane_last_result, op_meta, op_state, op_tool_args,
  op_preparation, pending_entry,
}
use reve.Entry.{Entry, Write, set_write, delete_write, message_value}
use reve.State.{
  Outcome, completed, RunCompletion, LaneLastResult, OperationState, RunPhase, checkpoint,
  Continuation, may_finish, Control, cancel_requested, intent_kind,
}
use reve.Storage.{Storage}
use reve.Storage.Scan.{entry, list_registers}
use reve.Session.{Expect, ok, err}
use reve.Session
use reve.Session.Restore.{Current, Restored, idle, suspended, restore}
use reve.Model.{and_then, from_message}
use reve.Harness.{op_token}
use reve.Driver.World.{
  Env, Ending, session, vanished, OperationResult, from_last_result, Reload, current, finalized,
  broken, last_result,
}

module _ {V : Type 0} (env : Env V) where
  abbrev text_of_entry : Entry V → Option String
  text_of_entry e =
      and_then (message_value e)
        λ m. and_then (from_message env.json env.codecs.stop env.codecs.usage m) λ a. some a.text

  unfoldable pub assistant_text : Storage V → Option String → Option String
  unfolding entry message_value from_message
  assistant_text s none = none
  assistant_text s (some id) = and_then (entry s id) text_of_entry

  -- Externally finalised: the only durable word on the outcome is the lane's last result.
  abbrev pub finished_elsewhere : Storage V → String → Option LaneLastResult → Reload
  finished_elsewhere s op none = broken (vanished op)
  finished_elsewhere s op (some last) =
      if str_eq last.operation_id op
      then finalized (from_last_result last (assistant_text s last.final_assistant_entry_id))
      else broken (vanished op)

  abbrev pub reload_restored : Storage V → Current → Session.Result Restored → Reload
  reload_restored s c (err e) = broken (session e)
  reload_restored s c (ok (idle lane)) =
      finished_elsewhere s c.operation.operation_id (last_result env s c.operation.lane)
  reload_restored s c (ok (suspended next)) =
      if str_eq next.operation.operation_id c.operation.operation_id
      then current next
      else finished_elsewhere s c.operation.operation_id (last_result env s c.operation.lane)

  unfoldable pub reload : Storage V → Current → Reload
  unfolding assistant_text from_last_result last_result restore
  reload s c = reload_restored s c (restore env.json env.codecs env.show s c.operation.lane)

  -- Whether the result names the run's last response.
  abbrev pub includes : RunPhase → Outcome → Bool
  includes (checkpoint cp) completed = of_continuation cp.continuation
    where
      of_continuation : Continuation → Bool
      of_continuation (may_finish include_final_assistant) = include_final_assistant
      of_continuation (Continuation.need_assistant overflow_recovery_used) = true
  includes _ _ = true

  abbrev pub completion : Outcome → Bool → Option RunCompletion
  completion completed true = some RunCompletion.assistant
  completion completed false = some RunCompletion.terminated_tools
  completion _ include = none

  abbrev pub final_assistant : OperationState → Outcome → Option String
  final_assistant (OperationState.run r) outcome =
      if includes r.phase outcome then r.latest_assistant_entry_id else none
  final_assistant (OperationState.compaction c) outcome = none
  final_assistant (OperationState.navigation n) outcome = none

  abbrev pub run_completion : OperationState → Outcome → Option RunCompletion
  run_completion (OperationState.run r) outcome = completion outcome (includes r.phase outcome)
  run_completion (OperationState.compaction c) outcome = none
  run_completion (OperationState.navigation n) outcome = none

  abbrev pub drained : Control → List String
  drained Control.running = []
  drained (cancel_requested requested_at drained_steer drained_follow_up) =
      drained_steer ++ drained_follow_up

  -- The pending content that the operation owns.
  abbrev pub owned : OperationState → List String
  owned (OperationState.run r) =
      r.inbox.steer ++ (r.inbox.follow_up ++ (r.inbox.writes ++ drained r.control))
  owned (OperationState.compaction c) = []
  owned (OperationState.navigation n) = []

  abbrev pub leaf_of : Option (Option String) → Option String → Option String
  leaf_of none leaf = leaf
  leaf_of (some leaf) before = leaf

  abbrev pub move_leaf : String → Option (Option String) → List (Write V)
  move_leaf lane none = []
  move_leaf lane (some leaf) = set_write lane_leaf lane (env.codecs.leaf.to_value leaf) ∷ []

  abbrev pub last_of : Current → Ending V → LaneLastResult
  last_of c e = record {
    operation_id = c.operation.operation_id;
    kind = intent_kind c.operation.intent;
    outcome = e.outcome;
    leaf_id = leaf_of e.new_leaf c.leaf;
    final_assistant_entry_id = final_assistant c.state e.outcome;
    error = e.error;
    run_completion = run_completion c.state e.outcome;
  }

  abbrev pub deletes : Namespace → List String → List (Write V)
  deletes ns = map (λ key. delete_write ns key)

  abbrev pub keys : Storage V → Namespace → String → List String
  keys s ns key_prefix = map (λ r. r.key) (list_registers s ns key_prefix)

  unfoldable pub terminal_writes : Storage V → Current → Ending V → List (Write V)
  unfolding set_write delete_write list_registers
  terminal_writes s c e =
      let op = c.operation.operation_id in
      e.publication
      ++ (move_leaf c.operation.lane e.new_leaf
          ++ (delete_write op_meta op
                ∷ delete_write op_state op
                ∷ deletes op_tool_args (keys s op_tool_args (op <> ":"))
              ++ (deletes op_preparation (keys s op_preparation (op <> ":"))
                  ++ (deletes pending_entry (owned c.state)
                      ++ (set_write lane_last_result c.operation.lane
                            (env.last_result.to_value (last_of c e))
                          ∷ set_write lane_state c.operation.lane (
                              env.codecs.state.to_value
                                (record (c.lane_state) { current_operation_id = none }))
                          ∷ [])))))

  abbrev pub terminal_expect : Current → List Expect
  terminal_expect c =
      op_token env.json env.codecs env.show c
      ∷ record { namespace = lane_state; key = c.operation.lane; seq = some c.lane_state_seq }
      ∷ []

  -- What the caller gets, the text of the last response read before the commit.
  unfoldable pub terminal_result : Storage V → Current → Ending V → OperationResult
  unfolding assistant_text
  terminal_result s c e = record {
    operation_id = c.operation.operation_id;
    kind = intent_kind c.operation.intent;
    outcome = e.outcome;
    leaf_id = leaf_of e.new_leaf c.leaf;
    final_assistant_entry_id = final_assistant c.state e.outcome;
    final_text = assistant_text s (final_assistant c.state e.outcome);
    error = e.error;
    result_entry_id = e.result_entry_id;
    old_leaf_id = c.operation.source_leaf_id;
  }
