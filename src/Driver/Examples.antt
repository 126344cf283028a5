-- ===== src/Driver/Examples.antt =====
-- Small steps of the driver of src/lane.rs.
use reve.Prelude.{
  ◌≡◌, refl, ℤ, String, true, false, none, some, [], ◌∷◌, ◌⊎◌, inr, All, str_eq, arith,
}
use reve.Map
use reve.Namespace.{Namespace, register_key, pending_entry}
use reve.Entry.{CommitResult}
use reve.State.{
  OperationState, RunState, RunPhase, Control, cancel_requested, Generation, GenerationContext,
  then_finish, then_assistant, aborted, completed, default_run_settings, default_retry_policy,
  empty_inbox,
}
use reve.Storage.{Storage, done, failed, commit, StorageError, apply_all}
use reve.Storage
use reve.Storage.Registers.{value_at, written, commit_refines_map}
use reve.Session.{Owner, ok}
use reve.Session.Restore.{Current}
use reve.Session.Values.{Value, json, codecs, last_codec, preparation_codec}
use reve.Session.Examples.{wire, named, renamed, interrupted, digits, found, lane_config_value}
use reve.Model.{text_turn}
use reve.Driver.World.{Env, World, finish, ending, answered, context}
use reve.Driver.Terminal.{terminal_writes}
use reve.Driver.Checkpoint.{checkpoint_step}
use reve.Driver.Settle.{settle_run, classify, normalised, is_marked, strip_mark}
use reve.Driver.Generate.{assistant_step, request_assistant}
use reve.Driver.Step.{Turn, step}
use reve.Driver.Graph.{Commits, at_once, effect, Finishes, finishes, EndsAs, Moves}
use reve.Driver.Walk.{step_walks_graph, step_ends_drained}
use reve.Driver.Abort.{Descends, abort-Descends}
use reve.Driver.Sound.Phase.{SoundRun}
use reve.Driver.Sound.{step_stays_sound}
use reve.Driver.Deferred.{OnlyRegisters, abort_drops_deferred}

abbrev pub env : Env Value
env = record {
  json = json;
  codecs = codecs;
  last_result = last_codec;
  preparation = preparation_codec;
  show = digits;
  quote = λ s. s;
  lower = λ s. s;
  is_blank = λ s. str_eq s "";
}

-- A model that answers, no tools and no hooks.
abbrev pub world : World Value
world = record {
  now = ℤ.pos 10;
  retry = default_retry_policy;
  signalled = false;
  stopped = false;
  task_id = "t";
  step_id = "s";
  response_id = "r";
  usage_id = "u";
  entry_id = "e";
  follower_id = "f";
  call_id = λ i. "c";
  scratch_id = λ i. "x";
  before_run_end = λ messages. none;
  transform_context = λ entries. entries;
  system_prompt = "";
  schemas = [];
  respond = λ entries system schemas. answered (text_turn "done");
  replay = λ name. none;
  before_tool = λ call. record { args = none; block = none };
  invoke = λ name args. inr "no tool";
  after_tool =
      λ call args content is_error. record { content = none; is_error = none; terminate = none };
  before_compaction = λ reason p. record { decline = false; summary = none };
}

abbrev generation : GenerationContext
generation = record {
  step_id = "s";
  trigger_entry_id = "p";
  configuration = lane_config_value;
  retry_policy = default_retry_policy;
  overflow_recovery_used = false;
}

abbrev pub running_in : RunPhase → RunState
running_in phase = record {
  control = Control.running;
  settings = default_run_settings;
  phase = phase;
  inbox = empty_inbox;
  latest_assistant_entry_id = none;
}

abbrev pub at : RunState → Current
at r = record found { state = OperationState.run r }

abbrev asking : RunState
asking = running_in (RunPhase.assistant (Generation.ready generation 1))

abbrev asked : RunState
asked = running_in (RunPhase.assistant (Generation.effect_pending generation 1 "r" "u"))

abbrev answered_run : RunState
answered_run = record asked {
  phase = RunPhase.checkpoint (then_finish "r" true);
  latest_assistant_entry_id = some "r";
}

-- The request of a run, and the response that its effect commits.
answers :
    Commits asking (step env world interrupted (at asking)) asked (OperationState.run answered_run)
unfolding step assistant_step request_assistant settle_run classify normalised is_marked strip_mark
    context
answers = effect interrupted (at asked) refl refl at_once

step_walks_graph_example : Moves asked (OperationState.run answered_run)
step_walks_graph_example =
    step_walks_graph env world interrupted (at asking) asking asked
      (OperationState.run answered_run) refl answers

-- A process that died in the first attempt goes on to the second.
abbrev again : RunState
again = record asked { phase = RunPhase.assistant (Generation.ready generation 2) }

tries_again : Commits asked (step env world interrupted (at asked)) asked (OperationState.run again)
unfolding step assistant_step
tries_again = at_once

step_stays_sound_example : SoundRun asked.phase (OperationState.run again)
step_stays_sound_example =
    step_stays_sound env world interrupted (at asked) asked asked (OperationState.run again) refl
      (omega arith) tries_again

-- A run that waits to try again when it is aborted, with a deferred write.
abbrev stopped_wait : RunState
stopped_wait =
    record (running_in
      (RunPhase.assistant (Generation.retry_wait generation 2 (ℤ.pos 99) "busy"))) {
        control = cancel_requested (ℤ.pos 9) [] [];
        inbox = record empty_inbox { writes = "p" ∷ [] };
      }

-- A run that may finish, and does.
end_reached :
    Finishes answered_run (step env world interrupted (at answered_run)) answered_run completed
unfolding step checkpoint_step
end_reached = finishes

step_ends_drained_example : EndsAs answered_run completed
step_ends_drained_example =
    step_ends_drained env world interrupted (at answered_run) answered_run answered_run completed
      refl end_reached

abort_drops_deferred_example :
    (step env world interrupted (at stopped_wait) ≡ finish (ending aborted none))
    × OnlyRegisters env (terminal_writes env interrupted (at stopped_wait) (ending aborted none))
    × All
        (λ id.
          written
            (pending_entry, id)
            (value_at interrupted (pending_entry, id))
            (terminal_writes env interrupted (at stopped_wait) (ending aborted none))
          ≡ none)
        ("p" ∷ [])
abort_drops_deferred_example =
    abort_drops_deferred env world interrupted interrupted (at stopped_wait) stopped_wait generation
      2 (ℤ.pos 99) "busy" refl refl refl

abbrev stopped_checkpoint : RunState
stopped_checkpoint = record stopped_wait { phase = RunPhase.checkpoint (then_assistant "p") }

abort-Descends_example :
    Descends stopped_checkpoint (step env world interrupted (at stopped_checkpoint))
abort-Descends_example =
    abort-Descends env world interrupted (at stopped_checkpoint) stopped_checkpoint refl refl

commit_refines_map_example :
    ((e : StorageError) × ((commit wire done (ℤ.pos 7) named renamed).0 ≡ Storage.err e)
      × ((k : Namespace × String)
          → value_at (commit wire done (ℤ.pos 7) named renamed).1 k ≡ value_at named k))
    ⊎ ((c : CommitResult) × ((commit wire done (ℤ.pos 7) named renamed).0 ≡ Storage.ok c)
        × ((k : Namespace × String)
            → value_at (commit wire done (ℤ.pos 7) named renamed).1 k
              ≡ written k (value_at named k) renamed))
commit_refines_map_example = commit_refines_map wire done (ℤ.pos 7) named renamed

abbrev alone : Turn Value
alone = record { others = []; outcome = done; now = ℤ.pos 7 }

abbrev session_owner : Owner Value
session_owner = record { storage = interrupted; fault = none }

abbrev ended : CommitResult
ended = record { first_seq = 7; last_seq = 10; timestamp = ℤ.pos 7 }
