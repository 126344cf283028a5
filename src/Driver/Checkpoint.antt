-- ===== src/Driver/Checkpoint.antt =====
-- src/lane.rs: `checkpoint`, which decides between the inbox, a compaction, a request and the end.
use reve.Prelude.{
  String, Bool, true, false, ◌&&◌, not, Option, none, some, List, [], ◌∷◌, filter_map, str_eq,
  if◌then◌else◌,
}
use reve.Map
use reve.Map.{string_key}
use reve.Namespace.{lane_leaf, op_preparation}
use reve.Entry.{Entry, entry, set_write, message_entry, with_parent, message_value}
use reve.State.{
  completed, RunState, RunPhase, checkpoint, assistant, CheckpointPhase, then_assistant,
  Continuation, need_assistant, may_finish, is_cancelled, threshold, CompactionPreparation,
  Generation, preparation_key, deciding,
}
use reve.Storage.{Storage}
use reve.Session.Context.{estimate_tokens}
use reve.Session.Restore.{Current}
use reve.Compaction.{over_threshold, prepare}
use reve.Driver.World.{Env, World, Move, advance, finish, ending, context, transcript}
use reve.Driver.Inbox.{
  writes, steer, follow_up, take_queue, run_with, apply_inbox, abort_finish, drain,
}

abbrev pub is_need : Continuation → Bool
is_need (need_assistant overflow_recovery_used) = true
is_need (may_finish include_final_assistant) = false

-- `Option == Some`.
abbrev pub is_id : Option String → String → Bool
is_id none id = false
is_id (some a) id = str_eq a id

abbrev pub mark_checked : CheckpointPhase → CheckpointPhase
mark_checked cp = record cp { threshold_checked_trigger_entry_id = some cp.trigger_entry_id }

abbrev pub unless_skipped : Bool → List String → List String
unless_skipped true queue = []
unless_skipped false queue = queue

module _ {V : Type 0} (env : Env V) (w : World V) where
  abbrev pub prepared_if : RunState → List (Entry V) → Option (CompactionPreparation V)
  prepared_if r es =
      if over_threshold (estimate_tokens env.json env.show es) r.settings.context_window
        r.settings.compaction
      then prepare env.json env.show es r.settings.compaction
      else none

  -- The threshold is checked once per trigger: the phase that follows says so.
  abbrev pub checked :
      Current → RunState → CheckpointPhase → Option (CompactionPreparation V) → Move V
  checked c r cp none = advance (run_with r (checkpoint (mark_checked cp))) []
  checked c r cp (some p) =
      advance
        (run_with r (
          RunPhase.compaction threshold (record { task_id = w.task_id; status = deciding })
            (mark_checked cp)))
        (set_write op_preparation (preparation_key c.operation.operation_id w.task_id)
            (env.preparation.to_value p)
          ∷ [])

  abbrev pub start_generation : Current → RunState → CheckpointPhase → Bool → Move V
  start_generation c r cp overflow_recovery_used =
      advance
        (run_with r (
          assistant (
            Generation.ready
              (record {
                step_id = w.step_id;
                trigger_entry_id = cp.trigger_entry_id;
                configuration = c.configuration;
                retry_policy = w.retry;
                overflow_recovery_used = overflow_recovery_used;
              })
              1)))
        []

  abbrev pub user_message : String → V
  user_message text =
      env.json.object
        (Map.insert (Map.insert [] "role" (env.json.text "user")) "content" (env.json.text text))

  -- The hook's follow-up is born placed.
  abbrev pub run_end : Current → RunState → Option String → Move V
  run_end c r none = finish (ending completed none)
  run_end c r (some text) =
      advance
        (run_with r (checkpoint (record (then_assistant w.entry_id) { skip_inbox_once = true })))
        (entry (with_parent (message_entry w.entry_id (user_message text)) c.leaf)
          ∷ set_write lane_leaf c.operation.lane (env.codecs.leaf.to_value (some w.entry_id))
          ∷ [])

  abbrev pub continue_with :
      Storage V → Current → RunState → CheckpointPhase → Continuation → Move V
  continue_with s c r cp (need_assistant overflow_recovery_used) =
      if r.settings.compaction.enabled
        && not (is_id cp.threshold_checked_trigger_entry_id cp.trigger_entry_id)
      then checked c r cp (prepared_if r (context env s c.operation.lane))
      else start_generation c r cp overflow_recovery_used
  continue_with s c r cp (may_finish include_final_assistant) =
      drain env s c r follow_up (take_queue r.settings.follow_up_mode r.inbox.follow_up) (
        run_end c r
          (w.before_run_end (filter_map message_value (transcript env s c.operation.lane))))

  -- Deferred writes are applied even under cancellation.
  unfoldable pub checkpoint_step : Storage V → Current → RunState → CheckpointPhase → Move V
  unfolding apply_inbox context transcript estimate_tokens over_threshold prepare set_write
      message_entry with_parent message_value preparation_key
  checkpoint_step s c r cp =
      drain env s c r writes
        (unless_skipped (cp.skip_inbox_once && not (is_cancelled r.control)) r.inbox.writes)
        (if is_cancelled r.control
          then abort_finish
          else drain env s c r steer
              (unless_skipped cp.skip_inbox_once
                (take_queue r.settings.steering_mode r.inbox.steer))
              (continue_with s c r cp cp.continuation))
