-- ===== src/Driver/Walk.antt =====
-- Each step of src/lane.rs follows the graph of the phases.
mod Input
mod Turn
mod Calls
use reve.Prelude.{
  ℕ, ◌+◌, ◌≡◌, refl, String, ◌<>◌, Bool, true, false, ◌&&◌, ◌||◌, not, Option, none, some, List, [],
  ◌∷◌, ◌⊎◌, inl, inr, map, length, is_empty, ltb, leb, str_eq, ltb_ℤ, contains, unwrap_or,
  get_elem?, if◌then◌else◌, arith, ap, sym, subst, ◌∙◌,
}
use reve.Map.{Map}
use reve.Entry.{Entry, Write}
use reve.Storage.Scan.{entry}
use reve.State.{
  OperationState, RunState, RunPhase, Outcome, CheckpointPhase, Continuation, need_assistant,
  may_finish, Generation, GenerationContext, ToolBatch, ToolCallState, planned, source_index,
  OperationError, is_cancelled, CompactionPreparation, CompactionReason, StructuralDecision,
  threshold, SummaryContext, Replay,
}
use reve.Storage.{Storage}
use reve.Session.Restore.{Current}
use reve.Model.{Assistant, ToolCall, error_turn}
use reve.Driver.World.{
  Env, World, Move, fail, wait, advance, intend, finish, ending, DriverError, Block,
}
use reve.Driver.Inbox.{
  InboxKind, writes, steer, follow_up, Placed, run_with, skip_once, phase_after, projects, applied,
  apply_inbox, abort_finish, drain, failure_drain_step, take_queue,
}
use reve.Driver.Checkpoint.{
  checked, start_generation, run_end, continue_with, checkpoint_step, unless_skipped, prepared_if,
  is_id,
}
use reve.Driver.Settle.{
  Settled, settled, classify, commit_settled, settle_run, settle_state, overflow_phase, recovery,
  error_phase, is_error, some_and, is_context_overflow, normalised, is_marked,
}
use reve.Driver.Generate.{assistant_step, recover, aborted_turn, wait_or_start, request_assistant}
use reve.Driver.Tools.{
  commit_tool_result, commit_batch, batch_of, Verdict, execute_tool, execute_committed,
  unless_blocked, declared, planned_call, restored_call, repeat, dispatch, dispatch_found,
  next_call, with_assistant, with_entry, tools_step, start_tool, all_terminate, is_safe, is_length,
}
use reve.Driver.Structural.{
  Structural, declined, published, next, intent, unknown, waited, retry, failure, missing,
  structural_step, summary_effect, reserved_result,
}
use reve.Driver.Compact.{
  in_run_outcome, in_run_compaction, commit_structural, commit_on, retry_or_fail, declined_phase,
}
use reve.Driver.Step.{step, phase_step, state_step}
use reve.Driver.Graph.{
  Place, checkpoint, assistant, tools, compaction, failure_drain, place, ◌⟶◌, apply_input, generate,
  over_threshold, attempt, call_tools, overflow, stop, give_up, settle_call, batch_complete, decide,
  resume, decline, keep_failing, revive, EndsAs, Moves, Follows, fails, waits, moves, plans, ends,
  Commits, Finishes, Commits-Moves, Finishes-EndsAs, if_test-Follows,
}
use reve.Driver.Walk.Input.{checkpoint_step-Follows, failure_drain_step-Follows}
use reve.Driver.Walk.Turn.{assistant_step-Follows}
use reve.Driver.Walk.Calls.{tools_step-Follows}

module _ {V : Type 0} (env : Env V) (w : World V) where
  commit_on-Follows :
      (r : RunState) (reason : CompactionReason) (d : StructuralDecision)
      (resume_after : CheckpointPhase) (x : Structural V)
      → place r.phase ≡ compaction
      → Follows r (commit_structural env w r reason d resume_after x)
  commit_on-Follows r reason d cp declined q = fails
  commit_on-Follows r reason d cp (published e ws) q = moves (_, refl, rw q resume, refl, refl)
  commit_on-Follows r reason d cp (next d') q = fails
  commit_on-Follows r reason d cp (intent d' x n u) q = fails
  commit_on-Follows r reason d cp (unknown x n) q = fails
  commit_on-Follows r reason d cp waited q = fails
  commit_on-Follows r reason d cp (retry d' row) q = moves (_, refl, rw q decide, refl, refl)
  commit_on-Follows r reason d cp (failure error row) q = moves (_, refl, rw q decline, refl, refl)
  commit_on-Follows r reason d cp (missing error) q = fails

  retry_or_fail-⟶ :
      (r : RunState) (reason : CompactionReason) (id : String) (cp : CheckpointPhase)
      (x : SummaryContext) (n : ℕ)
      → compaction ⟶ place (retry_or_fail env w r reason id cp x n)
  retry_or_fail-⟶ r reason id cp x n = ground (arith, decide, decline)

  declined_phase-⟶ :
      (reason : CompactionReason) (id : String) (cp : CheckpointPhase)
      → compaction ⟶ place (declined_phase reason id cp)
  declined_phase-⟶ reason id cp = ground (arith, resume, decline)

  in_run_outcome-Follows :
      (r : RunState) (reason : CompactionReason) (d : StructuralDecision) (cp : CheckpointPhase)
      (id : String) (x : Structural V)
      → place r.phase ≡ compaction
      → Follows r (in_run_outcome env w r reason d cp id x)
  in_run_outcome-Follows r reason d cp id declined q =
      moves (_, refl, rw q (declined_phase-⟶ reason d.task_id cp), refl, refl)
  in_run_outcome-Follows r reason d cp id (published e ws) q =
      moves (_, refl, rw q resume, refl, refl)
  in_run_outcome-Follows r reason d cp id (next d') q = moves (_, refl, rw q decide, refl, refl)
  in_run_outcome-Follows r reason d cp id (intent d' x n u) q =
      plans (_, refl, rw q decide, refl, refl)
        (λ later c' r' p same.
          let result = summary_effect env w later c' d'.task_id x n u none id in
          subst (λ st. Follows r' (commit_on env w reason d' cp result st)) (sym p)
            (commit_on-Follows r' reason d' cp result (ap place same)))
  in_run_outcome-Follows r reason d cp id (unknown x n) q =
      moves (_, refl, rw q (retry_or_fail-⟶ r reason d.task_id cp x n), refl, refl)
  in_run_outcome-Follows r reason d cp id waited q = waits
  in_run_outcome-Follows r reason d cp id (retry d' row) q = fails
  in_run_outcome-Follows r reason d cp id (failure error row) q = fails
  in_run_outcome-Follows r reason d cp id (missing error) q = fails

  phase_step-Follows :
      (s : Storage V) (c : Current) (r : RunState) (p : RunPhase)
      → r.phase ≡ p
      → Follows r (phase_step env w s c r p)
  unfolding in_run_compaction
  phase_step-Follows s c r (RunPhase.checkpoint cp) q = checkpoint_step-Follows env w s c r cp q
  phase_step-Follows s c r (RunPhase.assistant g) q =
      assistant_step-Follows env w s c r g (ap place q)
  phase_step-Follows s c r (RunPhase.tools b) q = tools_step-Follows env w s c r b (ap place q)
  phase_step-Follows s c r (RunPhase.compaction reason d cp) q =
      if_test-Follows r (is_cancelled r.control) _ _ (λ stop. ends (stop, rw q tt))
        (λ live. in_run_outcome-Follows r reason d cp _ _ (ap place q))
  phase_step-Follows s c r (RunPhase.failure_drain error provenance) q =
      failure_drain_step-Follows env s c r error (ap place q)

  step-Follows :
      (s : Storage V) (c : Current) (r : RunState)
      → c.state ≡ OperationState.run r
      → Follows r (step env w s c)
  unfolding step
  step-Follows s c r p =
      subst (λ st. Follows r (state_step env w s c st)) (sym p)
        (phase_step-Follows s c r r.phase refl)

  -- The driver walks the graph: every state that a step of a run commits, before or after its effect, is
  -- one edge from the run that it was planned from, and has that run's control and settings. So
  -- only an abort cancels, and nothing takes a cancellation back.
  pub step_walks_graph :
      (s : Storage V) (c : Current) (r r' : RunState) (upcoming : OperationState)
      → c.state ≡ OperationState.run r
      → Commits r (step env w s c) r' upcoming
      → Moves r' upcoming
  step_walks_graph s c r r' upcoming p h = Commits-Moves r r' _ upcoming (step-Follows s c r p) h

  -- A run ends only when its inbox and its control allow it, and never in a batch of tools. It ends
  -- completed only at a checkpoint, not cancelled, with no follow-up waiting, and with no deferred
  -- write and no steering either, unless the checkpoint is one that skips its inbox once. It ends
  -- failed only in the drain of a failure, not cancelled, with nothing waiting at all. It ends aborted
  -- only when it is cancelled, and at a checkpoint or in a drain only with no deferred write left. This
  -- is of every ending that a step comes to, before or after an effect, and of the run it is
  -- planned from.
  pub step_ends_drained :
      (s : Storage V) (c : Current) (r r' : RunState) (outcome : Outcome)
      → c.state ≡ OperationState.run r
      → Finishes r (step env w s c) r' outcome
      → EndsAs r' outcome
  step_ends_drained s c r r' outcome p h = Finishes-EndsAs r r' _ outcome (step-Follows s c r p) h
