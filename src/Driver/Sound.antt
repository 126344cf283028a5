-- ===== src/Driver/Sound.antt =====
-- What the phase of a run always satisfies in src/lane.rs, and what it may go to: attempts are counted within
-- the retry policy and only ever go on to later ones, and a batch keeps its calls.
pub mod Phase
mod Turn
mod Calls
use reve.Prelude.{
  ℕ, zero, suc, ◌+◌, ◌<◌, ◌≤◌, max, ap, ◌≡◌, refl, String, ◌<>◌, Bool, true, false, ◌&&◌, ◌||◌, not,
  Option, none, some, List, [], ◌∷◌, ◌⊎◌, inl, inr, map, length, is_empty, ltb, ltb→lt, leb, ◌==◌,
  ==→eq, str_eq, ltb_ℤ, contains, unwrap_or, get_elem?, if◌then◌else◌, arith, sym, subst, ◌∙◌,
  Bool-cases,
}
use reve.Map.{Map}
use reve.Entry.{Entry, Write}
use reve.Storage.Scan.{entry}
use reve.State.{
  OperationState, RunState, RunPhase, Outcome, CheckpointPhase, Continuation, need_assistant,
  may_finish, Generation, GenerationContext, ToolBatch, ToolCallState, planned, source_index,
  result_entry_id, OperationError, is_cancelled, RetryPolicy, CompactionPreparation,
  CompactionReason, StructuralDecision, LaneConfiguration, preparation_key, StructuralStatus,
  deciding, generating, SummaryGeneration, threshold, SummaryContext, Replay,
}
use reve.Storage.{Storage}
use reve.Session.Checks.{range_from}
use reve.Session.Restore.{Current}
use reve.Model.{Assistant, ToolCall, error_turn}
use reve.Driver.World.{
  Env, World, Move, fail, wait, advance, intend, finish, ending, DriverError, Block,
}
use reve.Driver.Inbox.{
  InboxKind, writes, steer, follow_up, Placed, run_with, skip_once, phase_after, projects, applied,
  apply_inbox, abort_finish, drain, failure_drain_step, take_queue,
}
use reve.Driver.Checkpoint.{
  checked, start_generation, run_end, continue_with, checkpoint_step, unless_skipped, prepared_if,
  is_id,
}
use reve.Driver.Settle.{
  Settled, settled, classify, commit_settled, settle_run, settle_state, overflow_phase, recovery,
  error_phase, batch_phase, is_error, some_and, is_context_overflow, normalised, is_marked,
}
use reve.Driver.Generate.{assistant_step, recover, aborted_turn, wait_or_start, request_assistant}
use reve.Driver.Tools.{
  commit_tool_result, commit_batch, batch_of, Verdict, execute_tool, execute_committed,
  unless_blocked, declared, planned_call, restored_call, repeat, dispatch, dispatch_found,
  next_call, with_assistant, with_entry, tools_step, start_tool, all_terminate, is_safe, is_length,
  complete_call, start_call,
}
use reve.Driver.Structural.{
  Structural, declined, published, next, intent, unknown, waited, retry, failure, missing,
  structural_step, summary_effect, reserved_result, by_status, generate, prepared, hook_decision,
  summarised, Summary, summary, refused, request_summary, decision_at,
}
use reve.Driver.Compact.{
  in_run_outcome, in_run_compaction, commit_structural, commit_on, retry_or_fail, declined_phase,
  is_threshold,
}
use reve.Driver.Clock.{retry_at}
use reve.Driver.Step.{step, phase_step, state_step}
use reve.Driver.Graph.{Commits}
use reve.Driver.Sound.Phase.{
  Within, Attempt, SummaryAttempt, Covers, IsSound, SoundRun, AfterSummary, Later, Keeps, fails,
  waits, ends, keeps, plans, Commits-SoundRun, if-Keeps,
}
use reve.Driver.Sound.Turn.{
  Within-next, assistant_step-Keeps, checkpoint_step-Keeps, failure_drain_step-Keeps,
}
use reve.Driver.Sound.Calls.{tools_step-Keeps}

-- What a structural step may produce: decisions whose attempts are within the policy.
data Fine {V : Type 0} : StructuralStatus → Structural V → Type 0 where
  fine_declined : {st : StructuralStatus} → Fine st declined
  fine_published :
      {st : StructuralStatus} {e : Entry V} {ws : List (Write V)} → Fine st (published e ws)
  fine_next :
      {st : StructuralStatus} {d : StructuralDecision}
      → SummaryAttempt d.status
      → Later st d.status
      → Fine st (next d)
  fine_intent :
      {st : StructuralStatus} {d : StructuralDecision} {g : SummaryContext} {n : ℕ}
      {usage_id : String}
      → SummaryAttempt d.status
      → Later st d.status
      → d.status ≡ generating (SummaryGeneration.effect_pending g n usage_id)
      → Fine st (intent d g n usage_id)
  fine_unknown :
      {st : StructuralStatus} {g : SummaryContext} {n : ℕ}
      → Later st (generating (SummaryGeneration.ready g (n + 1)))
      → Fine st (unknown g n)
  fine_waited : {st : StructuralStatus} → Fine st waited
  fine_retry :
      {st : StructuralStatus} {d : StructuralDecision} {row : Write V}
      → SummaryAttempt d.status
      → Later st d.status
      → Fine st (retry d row)
  fine_failure :
      {st : StructuralStatus} {e : OperationError} {row : Option (Write V)}
      → Fine st (failure e row)
  fine_missing : {st : StructuralStatus} {e : DriverError} → Fine st (missing e)

-- A summary whose attempt has started.
abbrev attempt_started : SummaryContext → ℕ → String → StructuralStatus
attempt_started g n usage_id = generating (SummaryGeneration.effect_pending g n usage_id)

module _ {V : Type 0} (env : Env V) (w : World V) where
  if-Fine :
      (st : StructuralStatus) (b : Bool) (x y : Structural V)
      → Fine st x
      → Fine st y
      → Fine st (if b then x else y)
  if-Fine st true x y f g = f
  if-Fine st false x y f g = g

  hook_decision-Fine :
      (c : Current) (d : StructuralDecision) (reason : CompactionReason) (id : String)
      (configuration : LaneConfiguration) (p : CompactionPreparation V) (stop : Bool)
      (text : Option String)
      → Fine deciding (hook_decision env w c d reason id configuration p stop text)
  hook_decision-Fine c d reason id configuration p true text = fine_declined
  hook_decision-Fine c d reason id configuration p false none =
      fine_next (omega arith) (tt, omega arith)
  hook_decision-Fine c d reason id configuration p false (some text) = fine_published

  generate-Fine :
      (d : StructuralDecision) (g : SummaryGeneration)
      → SummaryAttempt (generating g)
      → Fine (generating g) (generate env w d g)
  generate-Fine d (SummaryGeneration.ready g n) h = fine_intent h (refl, omega arith) refl
  generate-Fine d (SummaryGeneration.effect_pending g n usage_id) h =
      fine_unknown (refl, omega arith)
  generate-Fine d (SummaryGeneration.retry_wait g n not_before why) h =
      if-Fine _ (ltb_ℤ w.now not_before) _ _ fine_waited (fine_next h (refl, omega arith))

  structural_step-Fine :
      (s : Storage V) (c : Current) (d : StructuralDecision) (reason : CompactionReason)
      (id : String) (configuration : LaneConfiguration)
      → SummaryAttempt d.status
      → Fine d.status (structural_step env w s c d reason id configuration)
  unfolding structural_step
  structural_step-Fine s c d reason id configuration h = by_preparation _
    where
      by_decision :
          (p : CompactionPreparation V) (status : StructuralStatus)
          → SummaryAttempt status
          → Fine status (by_status env w c d reason id configuration p status)
      by_decision p deciding h' = hook_decision-Fine c d reason id configuration p _ _
      by_decision p (generating g) h' = generate-Fine d g h'

      by_preparation :
          (o : Option (CompactionPreparation V))
          → Fine d.status (
              prepared env w
                (preparation_key c.operation.operation_id d.task_id)
                o
                (λ p. by_status env w c d reason id configuration p d.status))
      by_preparation none = fine_missing
      by_preparation (some p) = by_decision p d.status h

  retry_if-Fine :
      (task_id : String) (g : SummaryContext) (n : ℕ) (usage_id why : String) (row : Write V)
      (b more : Bool) (e : OperationError)
      → ltb n g.retry_policy.max_attempts ≡ more
      → Fine (attempt_started g n usage_id) (
          if b && (more && not w.stopped)
          then retry
              (decision_at task_id
                (SummaryGeneration.retry_wait g (n + 1) (retry_at w.now g.retry_policy n) why))
              row
          else failure e (some row))
  retry_if-Fine task_id g n usage_id why row true true e h =
      if-Fine _ (not w.stopped) _ _
        (fine_retry (Within-next n g.retry_policy h) (refl, omega arith)) fine_failure
  retry_if-Fine task_id g n usage_id why row true false e h = fine_failure
  retry_if-Fine task_id g n usage_id why row false more e h = fine_failure

  summarised-Fine :
      (c : Current) (task_id : String) (g : SummaryContext) (n : ℕ) (usage_id id : String)
      (p : CompactionPreparation V) (x : Summary)
      → Fine (attempt_started g n usage_id) (summarised env w c task_id g n usage_id id p x)
  summarised-Fine c task_id g n usage_id id p (summary text used) = fine_published
  summarised-Fine c task_id g n usage_id id p (refused why again) =
      retry_if-Fine task_id g n usage_id why _ again (ltb n g.retry_policy.max_attempts) _ refl

  summary_effect-Fine :
      (s : Storage V) (c : Current) (task_id : String) (g : SummaryContext) (n : ℕ)
      (usage_id : String) (custom : Option String) (id : String)
      → Fine
          (attempt_started g n usage_id)
          (summary_effect env w s c task_id g n usage_id custom id)
  unfolding summary_effect
  summary_effect-Fine s c task_id g n usage_id custom id = by_preparation _
    where
      by_preparation :
          (o : Option (CompactionPreparation V))
          → Fine (attempt_started g n usage_id) (
              prepared env w (preparation_key c.operation.operation_id task_id) o (λ p.
                summarised env w c task_id g n usage_id id p (request_summary env w p custom)))
      by_preparation none = fine_missing
      by_preparation (some p) = summarised-Fine c task_id g n usage_id id p _

  commit_structural-Keeps :
      (r : RunState) (reason : CompactionReason) (d : StructuralDecision) (cp : CheckpointPhase)
      (x : Structural V)
      → Fine d.status x
      → Keeps (RunPhase.compaction reason d cp) (commit_structural env w r reason d cp x)
  commit_structural-Keeps r reason d cp declined f = fails
  commit_structural-Keeps r reason d cp (published e ws) f = keeps tt tt
  commit_structural-Keeps r reason d cp (next d') f = fails
  commit_structural-Keeps r reason d cp (intent d' g n u) f = fails
  commit_structural-Keeps r reason d cp (unknown g n) f = fails
  commit_structural-Keeps r reason d cp waited f = fails
  commit_structural-Keeps r reason d cp (retry d' row) (fine_retry h l) = keeps h l
  commit_structural-Keeps r reason d cp (failure e row) f = keeps tt tt
  commit_structural-Keeps r reason d cp (missing e) f = fails

  IsSound-declined :
      (reason : CompactionReason) (id : String) (cp : CheckpointPhase)
      → IsSound (declined_phase reason id cp)
  IsSound-declined reason id cp = elim (Bool-cases (is_threshold reason)) [
    | inl t ↦ rw t tt
    | inr f ↦ rw f tt
  ]

  IsSound-retry_or_fail :
      (r : RunState) (reason : CompactionReason) (id : String) (cp : CheckpointPhase)
      (g : SummaryContext) (n : ℕ)
      → IsSound (retry_or_fail env w r reason id cp g n)
  IsSound-retry_or_fail r reason id cp g n = elim (Bool-cases (ltb n g.retry_policy.max_attempts)) [
    | inl more ↦ rw more (Within-next n g.retry_policy more)
    | inr over ↦ rw over tt
  ]

  -- What a phase goes to when an attempt at a summary is lost.
  After-retry_or_fail :
      (r : RunState) (reason : CompactionReason) (id : String) (cp : CheckpointPhase)
      (g : SummaryContext) (n : ℕ) (st : StructuralStatus)
      → Later st (generating (SummaryGeneration.ready g (n + 1)))
      → AfterSummary st (retry_or_fail env w r reason id cp g n)
  After-retry_or_fail r reason id cp g n st l =
      elim (Bool-cases (ltb n g.retry_policy.max_attempts)) [
        | inl more ↦ rw more l
        | inr over ↦ rw over tt
      ]

  After-declined :
      (reason : CompactionReason) (id : String) (cp : CheckpointPhase) (st : StructuralStatus)
      → AfterSummary st (declined_phase reason id cp)
  After-declined reason id cp st = elim (Bool-cases (is_threshold reason)) [
    | inl t ↦ rw t tt
    | inr f ↦ rw f tt
  ]

  in_run_outcome-Keeps :
      (r : RunState) (reason : CompactionReason) (d : StructuralDecision) (cp : CheckpointPhase)
      (id : String) (x : Structural V)
      → Fine d.status x
      → Keeps (RunPhase.compaction reason d cp) (in_run_outcome env w r reason d cp id x)
  in_run_outcome-Keeps r reason d cp id declined f =
      keeps (IsSound-declined reason d.task_id cp) (After-declined reason d.task_id cp d.status)
  in_run_outcome-Keeps r reason d cp id (published e ws) f = keeps tt tt
  in_run_outcome-Keeps r reason d cp id (next d') (fine_next h l) = keeps h l
  in_run_outcome-Keeps r reason d cp id (intent d' g n u) (fine_intent h l e) =
      plans h l (λ later c' r' p same.
        let result = summary_effect env w later c' d'.task_id g n u none id in
        subst
          (λ st. Keeps (RunPhase.compaction reason d' cp) (commit_on env w reason d' cp result st))
          (sym p)
          (commit_structural-Keeps r' reason d' cp result (
            subst (λ st. Fine st result) (sym e)
              (summary_effect-Fine later c' d'.task_id g n u none id))))
  in_run_outcome-Keeps r reason d cp id (unknown g n) (fine_unknown l) =
      keeps (IsSound-retry_or_fail r reason d.task_id cp g n)
        (After-retry_or_fail r reason d.task_id cp g n d.status l)
  in_run_outcome-Keeps r reason d cp id waited f = waits
  in_run_outcome-Keeps r reason d cp id (retry d' row) f = fails
  in_run_outcome-Keeps r reason d cp id (failure e row) f = fails
  in_run_outcome-Keeps r reason d cp id (missing e) f = fails

  phase_step-Keeps :
      (s : Storage V) (c : Current) (r : RunState) (p : RunPhase)
      → IsSound p
      → r.phase ≡ p
      → Keeps p (phase_step env w s c r p)
  unfolding in_run_compaction
  phase_step-Keeps s c r (RunPhase.checkpoint cp) h q =
      checkpoint_step-Keeps env w (RunPhase.checkpoint cp) (λ next. tt) s c r cp
        (subst IsSound (sym q) tt)
  phase_step-Keeps s c r (RunPhase.assistant g) h q = assistant_step-Keeps env w s c r g h
  phase_step-Keeps s c r (RunPhase.tools b) h q = tools_step-Keeps env w s c r b h q
  phase_step-Keeps s c r (RunPhase.compaction reason d cp) h q =
      if-Keeps _ (is_cancelled r.control) _ _ ends (
        in_run_outcome-Keeps r reason d cp _ _
          (structural_step-Fine s c d reason _ c.configuration h))
  phase_step-Keeps s c r (RunPhase.failure_drain error provenance) h q =
      failure_drain_step-Keeps env (RunPhase.failure_drain error provenance) (λ next. tt) s c r
        error (subst IsSound (sym q) tt)

  -- The phase of a run stays sound, and retries end. From a sound phase every state that a step commits,
  -- before or after its effect, is a run in a sound phase: no attempt at a response or a summary
  -- is counted beyond its retry policy's maximum (one, if the policy allows none), and the calls of
  -- a batch are one for each index from 0, in order. Compared with the phase that the commit is
  -- planned from, a response or a summary that goes on keeps the context, and so the policy, that it
  -- was started with, and is at a strictly later stage: behind an attempt that was started there is
  -- only one with a higher number, even when the process died in it. A batch that goes on keeps its
  -- response and the number of its calls.
  pub step_stays_sound :
      (s : Storage V) (c : Current) (r r' : RunState) (upcoming : OperationState)
      → c.state ≡ OperationState.run r
      → IsSound r.phase
      → Commits r (step env w s c) r' upcoming
      → SoundRun r'.phase upcoming
  unfolding step
  step_stays_sound s c r r' upcoming p h = Commits-SoundRun r r' r.phase _ upcoming refl (
      subst (λ st. Keeps r.phase (state_step env w s c st)) (sym p)
        (phase_step-Keeps s c r r.phase h refl))
