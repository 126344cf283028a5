-- ===== src/Driver/Walk/Calls.antt =====
-- The batch of tools (src/lane.rs) follows the graph.
use reve.Prelude.{
  ℕ, ap, ◌≡◌, refl, String, Bool, ◌&&◌, ◌||◌, Option, none, some, get_elem?, sym, subst,
}
use reve.Map.{Map}
use reve.Entry.{Entry}
use reve.Storage.Scan.{entry}
use reve.State.{RunState, ToolBatch, ToolCallState, planned, source_index, is_cancelled, Replay}
use reve.Storage.{Storage}
use reve.Session.Restore.{Current}
use reve.Model.{Assistant, ToolCall}
use reve.Driver.World.{Env, World, Block}
use reve.Driver.Tools.{
  commit_tool_result, commit_batch, batch_of, Verdict, execute_tool, execute_committed,
  unless_blocked, declared, planned_call, repeat, dispatch, dispatch_found, next_call,
  with_assistant, with_entry, tools_step, start_tool, is_safe, is_length,
}
use reve.Driver.Graph.{
  tools, place, settle_call, batch_complete, Follows, fails, moves, plans, if-Follows,
}

module _ {V : Type 0} (env : Env V) (w : World V) where
  commit_tool_result-Follows :
      (c : Current) (r : RunState) (call : ToolCall V) (id : String) (v : Verdict)
      → place r.phase ≡ tools
      → Follows r (commit_tool_result env w c r call id v)
  unfolding commit_tool_result
  commit_tool_result-Follows c r call id v q = by_batch (batch_of r.phase)
    where
      by_batch : (b : Option ToolBatch) → Follows r (commit_batch env w c r call id v b)
      by_batch none = fails
      by_batch (some b) = moves (_, refl, rw q settle_call, refl, refl)

  start_tool-Follows :
      (c : Current) (r : RunState) (b : ToolBatch) (call : ToolCall V) (i : ℕ) (id : String)
      (replay : Replay) (args : Map String V)
      → place r.phase ≡ tools
      → Follows r (start_tool env w c r b call i id replay args)
  unfolding execute_tool
  start_tool-Follows c r b call i id replay args q =
      plans (_, refl, rw q settle_call, refl, refl)
        (λ later c' r' p same.
          subst (λ st. Follows r' (execute_committed env w call args id c' st)) (sym p)
            (commit_tool_result-Follows c' r' call id _ (ap place same)))

  unless_blocked-Follows :
      (c : Current) (r : RunState) (b : ToolBatch) (call : ToolCall V) (i : ℕ) (id : String)
      (replay : Replay) (args : Option (Map String V)) (block : Option Block)
      → place r.phase ≡ tools
      → Follows r (unless_blocked env w c r b call i id replay args block)
  unless_blocked-Follows c r b call i id replay args none q =
      start_tool-Follows c r b call i id replay _ q
  unless_blocked-Follows c r b call i id replay args (some block) q =
      commit_tool_result-Follows c r call id _ q

  declared-Follows :
      (c : Current) (r : RunState) (b : ToolBatch) (call : ToolCall V) (i : ℕ) (id : String)
      (replay : Option Replay)
      → place r.phase ≡ tools
      → Follows r (declared env w c r b call i id replay)
  declared-Follows c r b call i id none q = commit_tool_result-Follows c r call id _ q
  declared-Follows c r b call i id (some replay) q =
      unless_blocked-Follows c r b call i id replay (w.before_tool call).args
        (w.before_tool call).block q

  planned_call-Follows :
      (c : Current) (r : RunState) (b : ToolBatch) (truncated : Bool) (call : ToolCall V) (i : ℕ)
      (id : String)
      → place r.phase ≡ tools
      → Follows r (planned_call env w c r b truncated call i id)
  planned_call-Follows c r b truncated call i id q =
      if-Follows r (is_cancelled r.control || w.signalled) _ _
        (commit_tool_result-Follows c r call id _ q)
        (if-Follows r truncated _ _ (commit_tool_result-Follows c r call id _ q)
          (declared-Follows c r b call i id (w.replay call.name) q))

  repeat-Follows :
      (c : Current) (r : RunState) (call : ToolCall V) (id key : String)
      (args : Option (Map String V))
      → place r.phase ≡ tools
      → Follows r (repeat env w c r call id key args)
  unfolding execute_tool
  repeat-Follows c r call id key none q = fails
  repeat-Follows c r call id key (some args) q = commit_tool_result-Follows c r call id _ q

  dispatch-Follows :
      (s : Storage V) (c : Current) (r : RunState) (b : ToolBatch) (truncated : Bool)
      (call : ToolCall V) (upcoming : ToolCallState)
      → place r.phase ≡ tools
      → Follows r (dispatch env w s c r b truncated call upcoming)
  dispatch-Follows s c r b truncated call (planned i id) q =
      planned_call-Follows c r b truncated call i id q
  dispatch-Follows s c r b truncated call (ToolCallState.effect_pending i id replay) q =
      if-Follows r (is_cancelled r.control || w.signalled) _ _
        (commit_tool_result-Follows c r call id _ q)
        (if-Follows r (is_safe (some replay) && is_safe (w.replay call.name)) _ _
          (repeat-Follows c r call id _ _ q) (commit_tool_result-Follows c r call id _ q))
  dispatch-Follows s c r b truncated call (ToolCallState.completed i id terminate) q = fails

  next_call-Follows :
      (s : Storage V) (c : Current) (r : RunState) (b : ToolBatch) (a : Assistant V)
      (upcoming : Option ToolCallState)
      → place r.phase ≡ tools
      → Follows r (next_call env w s c r b a upcoming)
  next_call-Follows s c r b a none q = moves (_, refl, rw q batch_complete, refl, refl)
  next_call-Follows s c r b a (some upcoming) q =
      by_call (get_elem? a.tool_calls (source_index upcoming))
    where
      by_call :
          (o : Option (ToolCall V))
          → Follows r (dispatch_found env w s c r b (is_length a.stop_reason) upcoming o)
      by_call none = fails
      by_call (some call) = dispatch-Follows s c r b _ call upcoming q

  pub tools_step-Follows :
      (s : Storage V) (c : Current) (r : RunState) (b : ToolBatch)
      → place r.phase ≡ tools
      → Follows r (tools_step env w s c r b)
  unfolding tools_step
  tools_step-Follows s c r b q = by_entry (entry s b.assistant_entry_id)
    where
      by_turn : (o : Option (Assistant V)) → Follows r (with_assistant env w s c r b o)
      by_turn none = fails
      by_turn (some a) = next_call-Follows s c r b a _ q

      by_entry : (o : Option (Entry V)) → Follows r (with_entry env w s c r b o)
      by_entry none = fails
      by_entry (some e) = by_turn _
