-- ===== src/Driver/Compact.antt =====
-- src/lane.rs: a compaction inside a run, and the standalone operations `compact` and `navigate`.
use reve.Prelude.{
  ℕ, ◌+◌, String, Bool, true, false, Option, none, some, List, [], ◌∷◌, ltb, if◌then◌else◌,
}
use reve.Namespace.{fact_label}
use reve.Entry.{Entry, Write, set_write}
use reve.State.{
  Outcome, completed, failed, OperationState, RunState, CompactionState, NavigationState, RunPhase,
  checkpoint, failure_drain, CheckpointPhase, is_cancelled, CompactionReason, manual, threshold,
  StructuralDecision, SummaryContext, ready, OperationError, structural,
}
use reve.Storage.{Storage}
use reve.Session.Restore.{Current}
use reve.Driver.World.{
  Env, World, Move, fail, wait, advance, intend, finish, Ending, ending, unreachable,
}
use reve.Driver.Inbox.{run_with, abort_finish}
use reve.Driver.Structural.{
  Structural, declined, published, next, intent, unknown, waited, retry, failure, missing,
  decision_at, reserved_result, structural_step, summary_effect,
}

abbrev pub structural_failure : String → OperationError → RunPhase
structural_failure task_id error = failure_drain error (structural task_id)

abbrev pub no_more_attempts : OperationError
no_more_attempts = record {
  code = "summary_failed";
  message = "interrupted and the retry policy allows no more";
}

abbrev pub is_threshold : CompactionReason → Bool
is_threshold threshold = true
is_threshold _ = false

abbrev pub declined_phase : CompactionReason → String → CheckpointPhase → RunPhase
declined_phase reason task_id resume_after =
    if is_threshold reason
    then checkpoint resume_after
    else structural_failure task_id (record {
      code = "compaction_declined";
      message = "the request did not fit and compaction was declined";
    })

abbrev pub with_decision : CompactionState → StructuralDecision → OperationState
with_decision state d = OperationState.compaction (record state { structural = d })

abbrev pub to_list : {A : Type 0} → Option A → List A
to_list none = []
to_list (some a) = a ∷ []

module _ {V : Type 0} (env : Env V) (w : World V) where
  -- `commit_in_run_structural`, on the run that the intent was committed against.
  abbrev pub commit_structural :
      RunState → CompactionReason → StructuralDecision → CheckpointPhase → Structural V → Move V
  commit_structural r reason d resume_after (published e ws) =
      advance (run_with r (checkpoint resume_after)) ws
  commit_structural r reason d resume_after (retry d' row) =
      advance (run_with r (RunPhase.compaction reason d' resume_after)) (row ∷ [])
  commit_structural r reason d resume_after (failure error row) =
      advance (run_with r (structural_failure d.task_id error)) (to_list row)
  commit_structural r reason d resume_after (missing error) = fail error
  commit_structural r reason d resume_after _ = fail unreachable

  abbrev pub commit_on :
      CompactionReason
      → StructuralDecision
      → CheckpointPhase
      → Structural V
      → OperationState
      → Move V
  commit_on reason d resume_after effect (OperationState.run r) =
      commit_structural r reason d resume_after effect
  commit_on reason d resume_after effect (OperationState.compaction x) = fail unreachable
  commit_on reason d resume_after effect (OperationState.navigation x) = fail unreachable

  abbrev pub retry_or_fail :
      RunState → CompactionReason → String → CheckpointPhase → SummaryContext → ℕ → RunPhase
  retry_or_fail r reason task_id resume_after context attempt =
      if ltb attempt context.retry_policy.max_attempts
      then RunPhase.compaction reason (decision_at task_id (ready context (attempt + 1)))
          resume_after
      else structural_failure task_id no_more_attempts

  abbrev pub in_run_outcome :
      RunState
      → CompactionReason
      → StructuralDecision
      → CheckpointPhase
      → String
      → Structural V
      → Move V
  in_run_outcome r reason d resume_after id declined =
      advance (run_with r (declined_phase reason d.task_id resume_after)) []
  in_run_outcome r reason d resume_after id (published e ws) =
      advance (run_with r (checkpoint resume_after)) ws
  in_run_outcome r reason d resume_after id (next d') =
      advance (run_with r (RunPhase.compaction reason d' resume_after)) []
  in_run_outcome r reason d resume_after id waited = wait
  in_run_outcome r reason d resume_after id (intent d' context attempt usage_id) =
      intend (run_with r (RunPhase.compaction reason d' resume_after)) [] (λ later committed.
        commit_on reason d' resume_after
          (summary_effect env w later committed d'.task_id context attempt usage_id none id)
          committed.state)
  in_run_outcome r reason d resume_after id (unknown context attempt) =
      advance (run_with r (retry_or_fail r reason d.task_id resume_after context attempt)) []
  in_run_outcome r reason d resume_after id (retry d' row) = fail unreachable
  in_run_outcome r reason d resume_after id (failure error row) = fail unreachable
  in_run_outcome r reason d resume_after id (missing error) = fail error

  unfoldable pub in_run_compaction :
      Storage V
      → Current
      → RunState
      → CompactionReason
      → StructuralDecision
      → CheckpointPhase
      → Move V
  unfolding structural_step summary_effect
  in_run_compaction s c r reason d resume_after =
      let id = reserved_result d.status w.follower_id in
      if is_cancelled r.control
      then abort_finish
      else in_run_outcome r reason d resume_after id
          (structural_step env w s c d reason id c.configuration)

  -- The terminal transaction that publishes a compaction entry.
  abbrev pub publish_summary : Entry V → List (Write V) → Ending V
  publish_summary e ws = record {
    outcome = completed;
    error = none;
    publication = ws;
    new_leaf = some (some e.id);
    result_entry_id = some e.id;
  }

  abbrev pub finish_structural : CompactionState → Structural V → Move V
  finish_structural state (published e ws) = finish (publish_summary e ws)
  finish_structural state (retry d row) = advance (with_decision state d) (row ∷ [])
  finish_structural state (failure error row) =
      finish (record (ending failed (some error)) { publication = to_list row })
  finish_structural state (missing error) = fail error
  finish_structural state _ = fail unreachable

  abbrev pub standalone_outcome : CompactionState → String → Structural V → Move V
  standalone_outcome state id declined = finish (ending Outcome.declined none)
  standalone_outcome state id (published e ws) = finish (publish_summary e ws)
  standalone_outcome state id (next d) = advance (with_decision state d) []
  standalone_outcome state id waited = wait
  standalone_outcome state id (intent d context attempt usage_id) =
      intend (with_decision state d) [] (λ later committed. finish_structural state (
        summary_effect env w later committed d.task_id context attempt usage_id
          state.custom_instructions id))
  standalone_outcome state id (unknown context attempt) =
      if ltb attempt context.retry_policy.max_attempts
      then advance
          (with_decision state (decision_at state.structural.task_id (ready context (attempt + 1))))
          []
      else finish (ending failed (some no_more_attempts))
  standalone_outcome state id (retry d row) = fail unreachable
  standalone_outcome state id (failure error row) = fail unreachable
  standalone_outcome state id (missing error) = fail error

  unfoldable pub step_compaction : Storage V → Current → CompactionState → Move V
  unfolding structural_step summary_effect
  step_compaction s c state =
      let id = reserved_result state.structural.status w.follower_id in
      if is_cancelled state.control
      then abort_finish
      else standalone_outcome state id
          (structural_step env w s c state.structural manual id c.configuration)

  abbrev pub label_writes : Option String → Option String → List (Write V)
  label_writes (some label) (some target) = set_write fact_label target (env.json.text label) ∷ []
  label_writes _ _ = []

  -- Unsummarised navigation: one terminal transaction moves the leaf.
  unfoldable pub step_navigation : NavigationState → Move V
  unfolding set_write
  step_navigation state =
      if is_cancelled state.control
      then abort_finish
      else finish (record {
        outcome = completed;
        error = none;
        publication = label_writes state.label state.target_id;
        new_leaf = some state.target_id;
        result_entry_id = none;
      })
