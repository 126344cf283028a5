-- ===== src/Driver/Tools.antt =====
-- src/lane.rs: `tools`, one call of a batch at a time.
use reve.Prelude.{
  ℕ, String, ◌<>◌, Bool, true, false, ◌&&◌, ◌||◌, Option, none, some, List, [], ◌∷◌, map, leb, ◌==◌,
  str_eq, get_elem?, unwrap_or, ◌⊎◌, inl, inr, if◌then◌else◌,
}
use reve.Map
use reve.Map.{Map, string_key}
use reve.Namespace.{lane_leaf, op_tool_args}
use reve.Entry.{Entry, entry, set_write, message_entry, with_id, with_parent, message_value}
use reve.State.{
  OperationState, RunState, RunPhase, tools, checkpoint, then_assistant, then_finish, is_cancelled,
  ToolBatch, ToolCallState, planned, effect_pending, source_index, result_entry_id, is_completed,
  Replay, safe, args_prefix, args_key,
}
use reve.Storage.{Storage}
use reve.Storage.Scan
use reve.Storage.Scan.{register}
use reve.Session.Checks.{sort}
use reve.Session.Restore.{Current}
use reve.Model.{Assistant, ToolCall, StopReason, from_message, and_then}
use reve.Driver.World.{
  Env, World, Move, fail, advance, intend, batch_assistant_missing, not_an_assistant, call_missing,
  args_missing, unreachable, Block,
}
use reve.Driver.Inbox.{run_with}
use reve.Driver.Terminal.{keys, deletes}

abbrev pub find_pending : List ToolCallState → Option ToolCallState
find_pending [] = none
find_pending (call ∷ calls) =
    let rest = find_pending calls in if is_completed call then rest else some call

abbrev pub by_source : List ToolCallState → List ToolCallState
by_source = sort (λ a b. leb (source_index a) (source_index b))

abbrev pub terminates : ToolCallState → Bool
terminates (ToolCallState.completed i id terminate) = terminate
terminates _ = false

abbrev pub all_terminate : List ToolCallState → Bool
all_terminate [] = true
all_terminate (call ∷ calls) = terminates call && all_terminate calls

abbrev pub newest_result : String → List ToolCallState → String
newest_result before [] = before
newest_result before (call ∷ calls) = newest_result (result_entry_id call) calls

-- The calls with the one of that result completed, and with the one of that index started.
abbrev pub complete_call : String → Bool → ToolCallState → ToolCallState
complete_call id terminate call =
    if str_eq (result_entry_id call) id
    then ToolCallState.completed (source_index call) id terminate
    else call

abbrev pub start_call : ℕ → String → Replay → ToolCallState → ToolCallState
start_call index id replay call =
    if source_index call == index then effect_pending index id replay else call

-- `RunPhase::Tools { batch }` of the next state, or the code is unreachable.
abbrev pub batch_of : RunPhase → Option ToolBatch
batch_of (tools batch) = some batch
batch_of _ = none

abbrev pub with_calls : (ToolCallState → ToolCallState) → ToolBatch → RunPhase
with_calls f batch = tools (record batch { calls = map f batch.calls })

abbrev pub is_length : StopReason → Bool
is_length StopReason.length = true
is_length _ = false

abbrev pub is_safe : Option Replay → Bool
is_safe (some safe) = true
is_safe _ = false

-- What becomes of a call: its text, whether it is an error, whether it ends the run, and the kind of a result
-- that no tool produced.
pub record Verdict : Type 0 where
  pub content : String
  pub is_error : Bool
  pub terminate : Bool
  pub synthetic : Option String

abbrev pub refusal : String → String → Verdict
refusal content kind = record {
  content = content;
  is_error = true;
  terminate = false;
  synthetic = some kind;
}

module _ {V : Type 0} (env : Env V) (w : World V) where
  abbrev text_content : String → V
  text_content content = env.json.array (
      env.json.object
        (Map.insert (Map.insert [] "type" (env.json.text "text")) "text" (env.json.text content))
      ∷ [])

  abbrev insert_if : Bool → String → V → Map String V → Map String V
  insert_if true key value m = Map.insert m key value
  insert_if false key value m = m

  abbrev insert_some : Option String → String → Map String V → Map String V
  insert_some none key m = m
  insert_some (some text) key m = Map.insert m key (env.json.text text)

  unfoldable pub tool_result_message : ToolCall V → Verdict → V
  tool_result_message call v =
      let base : Map String V =
        Map.insert
          (Map.insert
            (Map.insert
              (Map.insert (Map.insert [] "role" (env.json.text "toolResult")) "toolCallId"
                (env.json.text call.id))
              "toolName" (env.json.text call.name))
            "content" (text_content v.content))
          "isError" (env.json.boolean v.is_error) in
      env.json.object (
        insert_some v.synthetic "synthetic"
          (insert_if v.terminate "terminate" (env.json.boolean true) base))

  abbrev pub result_entry : Current → ToolCall V → String → Verdict → Entry V
  result_entry c call id v =
      with_parent (with_id (message_entry "" (tool_result_message call v)) id) c.leaf

  abbrev pub commit_batch :
      Current → RunState → ToolCall V → String → Verdict → Option ToolBatch → Move V
  commit_batch c r call id v none = fail unreachable
  commit_batch c r call id v (some batch) =
      advance (run_with r (with_calls (complete_call id v.terminate) batch)) (
        entry (result_entry c call id v)
        ∷ set_write lane_leaf c.operation.lane (env.codecs.leaf.to_value (some id))
        ∷ [])

  unfoldable pub commit_tool_result : Current → RunState → ToolCall V → String → Verdict → Move V
  unfolding tool_result_message with_parent with_id message_entry set_write
  commit_tool_result c r call id v = commit_batch c r call id v (batch_of r.phase)

  abbrev pub outcome_of : String → String ⊎ String → String × Bool
  outcome_of name (inl text) = (text, false)
  outcome_of name (inr why) = ("tool " <> name <> " failed: " <> why, true)

  -- Interrupted while it ran, or patched by the hooks field by field.
  abbrev pub executed : ToolCall V → Map String V → String × Bool → Verdict
  executed call args (content, is_error) =
      let after = w.after_tool call args content is_error in
      if w.stopped
      then record {
        content = if env.is_blank content then "Interrupted: the command was stopped." else content;
        is_error = true;
        terminate = false;
        synthetic = none;
      }
      else record {
        content = unwrap_or after.content content;
        is_error = unwrap_or after.is_error is_error;
        terminate = unwrap_or after.terminate false;
        synthetic = none;
      }

  unfoldable pub execute_tool : Current → RunState → ToolCall V → Map String V → String → Move V
  unfolding commit_tool_result
  execute_tool c r call args id =
      commit_tool_result c r call id
        (executed call args (outcome_of call.name (w.invoke call.name args)))

  abbrev pub execute_committed :
      ToolCall V → Map String V → String → Current → OperationState → Move V
  execute_committed call args id c (OperationState.run r) = execute_tool c r call args id
  execute_committed call args id c (OperationState.compaction x) = fail unreachable
  execute_committed call args id c (OperationState.navigation x) = fail unreachable

  -- Intent: the effective arguments durable, the call pending.
  abbrev pub start_tool :
      Current → RunState → ToolBatch → ToolCall V → ℕ → String → Replay → Map String V → Move V
  start_tool c r batch call index id replay args =
      intend (run_with r (with_calls (start_call index id replay) batch))
        (set_write op_tool_args (args_key env.show c.operation.operation_id batch.turn_id index)
            (env.json.object args)
          ∷ [])
        (λ later committed. execute_committed call args id committed committed.state)

  abbrev pub unless_blocked :
      Current
      → RunState
      → ToolBatch
      → ToolCall V
      → ℕ
      → String
      → Replay
      → Option (Map String V)
      → Option Block
      → Move V
  unless_blocked c r batch call index id replay args (some block) =
      commit_tool_result c r call id
        (record (refusal ("Blocked: " <> block.reason) "blocked") { terminate = block.terminate })
  unless_blocked c r batch call index id replay args none =
      start_tool c r batch call index id replay (unwrap_or args call.arguments)

  abbrev pub declared :
      Current → RunState → ToolBatch → ToolCall V → ℕ → String → Option Replay → Move V
  declared c r batch call index id none =
      commit_tool_result c r call id
        (refusal ("no tool named " <> env.quote call.name) "unknown_tool")
  declared c r batch call index id (some replay) =
      let before = w.before_tool call in
      unless_blocked c r batch call index id replay before.args before.block

  -- A planned call: cancelled, truncated, unknown or blocked, it has a synthetic result and no effect.
  abbrev pub planned_call : Current → RunState → ToolBatch → Bool → ToolCall V → ℕ → String → Move V
  planned_call c r batch truncated call index id =
      if is_cancelled r.control || w.signalled
      then commit_tool_result c r call id
          (refusal "Aborted: the user interrupted this run before the tool started." "aborted")
      else if truncated
      then commit_tool_result c r call id (
          refusal
            "The response hit the output limit while emitting this call; its arguments may be truncated, so it was not executed."
            "truncated")
      else declared c r batch call index id (w.replay call.name)

  abbrev pub repeat :
      Current → RunState → ToolCall V → String → String → Option (Map String V) → Move V
  repeat c r call id key none = fail (args_missing key)
  repeat c r call id key (some args) = execute_tool c r call args id

  abbrev pub stored_args : Storage V → String → Option (Map String V)
  stored_args s key = and_then (register s op_tool_args key) λ r. env.json.as_object r.value

  -- A restored call is run again only when both declarations say that it is safe.
  abbrev pub restored_call :
      Storage V → Current → RunState → ToolBatch → ToolCall V → ℕ → String → Replay → Move V
  restored_call s c r batch call index id replay =
      let key = args_key env.show c.operation.operation_id batch.turn_id index in
      if is_cancelled r.control || w.signalled
      then commit_tool_result c r call id (
          refusal "Interrupted: reve aborted this operation before the tool finished."
            "interrupted")
      else if is_safe (some replay) && is_safe (w.replay call.name)
      then repeat c r call id key (stored_args s key)
      else commit_tool_result c r call id (
          refusal
            "Interrupted: the process died while this tool was running and it is not safe to re-run. Its effects may or may not have happened."
            "interrupted")

  abbrev pub dispatch :
      Storage V → Current → RunState → ToolBatch → Bool → ToolCall V → ToolCallState → Move V
  dispatch s c r batch truncated call (planned index id) =
      planned_call c r batch truncated call index id
  dispatch s c r batch truncated call (effect_pending index id replay) =
      restored_call s c r batch call index id replay
  dispatch s c r batch truncated call (ToolCallState.completed index id terminate) =
      fail unreachable

  abbrev pub dispatch_found :
      Storage V
      → Current
      → RunState
      → ToolBatch
      → Bool
      → ToolCallState
      → Option (ToolCall V)
      → Move V
  dispatch_found s c r batch truncated next none = fail (call_missing (source_index next))
  dispatch_found s c r batch truncated next (some call) = dispatch s c r batch truncated call next

  -- The batch is complete: its stored arguments go with this transition.
  abbrev pub batch_done : Storage V → Current → RunState → ToolBatch → List ToolCallState → Move V
  batch_done s c r batch calls =
      let newest = newest_result batch.assistant_entry_id calls in
      advance
        (run_with r (
          checkpoint
            (if all_terminate calls then then_finish newest false else then_assistant newest)))
        (deletes env op_tool_args
          (keys env s op_tool_args (args_prefix c.operation.operation_id batch.turn_id)))

  abbrev pub next_call :
      Storage V → Current → RunState → ToolBatch → Assistant V → Option ToolCallState → Move V
  next_call s c r batch a none = batch_done s c r batch (by_source batch.calls)
  next_call s c r batch a (some next) =
      dispatch_found s c r batch (is_length a.stop_reason) next
        (get_elem? a.tool_calls (source_index next))

  abbrev pub with_assistant :
      Storage V → Current → RunState → ToolBatch → Option (Assistant V) → Move V
  with_assistant s c r batch none = fail not_an_assistant
  with_assistant s c r batch (some a) =
      next_call s c r batch a (find_pending (by_source batch.calls))

  abbrev pub with_entry : Storage V → Current → RunState → ToolBatch → Option (Entry V) → Move V
  with_entry s c r batch none = fail (batch_assistant_missing batch.assistant_entry_id)
  with_entry s c r batch (some e) = with_assistant s c r batch (
      from_message env.json env.codecs.stop env.codecs.usage
        (unwrap_or (message_value e) env.json.null))

  unfoldable pub tools_step : Storage V → Current → RunState → ToolBatch → Move V
  unfolding commit_tool_result execute_tool from_message message_value register set_write args_key
      args_prefix Scan.entry
  tools_step s c r batch = with_entry s c r batch (Scan.entry s batch.assistant_entry_id)
