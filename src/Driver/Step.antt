-- ===== src/Driver/Step.antt =====
-- src/lane.rs: the loop, a step for each state of an operation, and how the owner of the session answers it.
use reve.Prelude.{ℕ, zero, suc, ℤ, Option, none, some, List, [], ◌∷◌, ◌++◌}
use reve.Entry.{Write, CommitResult}
use reve.State.{OperationState, RunState, RunPhase, checkpoint, assistant, tools, failure_drain}
use reve.Storage.{Storage, Wire, Io}
use reve.Session.{Owner, Expect, ok, err, commit_if}
use reve.Session
use reve.Session.Tokens.{Message, serve}
use reve.Session.Restore.{Current}
use reve.Harness.{op_token, set_program}
use reve.Driver.World.{
  Env, World, Move, fail, wait, advance, intend, finish, Ending, DriverError, session,
  OperationResult, Reload, current, finalized, broken,
}
use reve.Driver.Terminal.{reload, terminal_writes, terminal_expect, terminal_result}
use reve.Driver.Inbox.{failure_drain_step}
use reve.Driver.Checkpoint.{checkpoint_step}
use reve.Driver.Generate.{assistant_step}
use reve.Driver.Tools.{tools_step}
use reve.Driver.Compact.{in_run_compaction, step_compaction, step_navigation}

-- What a step of the loop ends with: the next state, the operation's result, or an error.
pub data Step : Type 0 where
  continue : Current → Step
  done : OperationResult → Step
  broke : DriverError → Step

-- The commits that the owner serves between the read and the commit of the driver, the answer of the disk, and
-- the time.
pub record Turn (V : Type 0) : Type 0 where
  pub others : List (Message V)
  pub outcome : Io
  pub now : ℤ

module _ {V : Type 0} (env : Env V) where
  abbrev pub phase_step : World V → Storage V → Current → RunState → RunPhase → Move V
  phase_step w s c r (checkpoint cp) = checkpoint_step env w s c r cp
  phase_step w s c r (assistant generation) = assistant_step env w s c r generation
  phase_step w s c r (tools batch) = tools_step env w s c r batch
  phase_step w s c r (RunPhase.compaction reason structural resume_after) =
      in_run_compaction env w s c r reason structural resume_after
  phase_step w s c r (failure_drain error provenance) = failure_drain_step env s c r error

  abbrev pub state_step : World V → Storage V → Current → OperationState → Move V
  state_step w s c (OperationState.run r) = phase_step w s c r r.phase
  state_step w s c (OperationState.compaction state) = step_compaction env w s c state
  state_step w s c (OperationState.navigation state) = step_navigation env w state

  -- `step_run`, `step_compaction` or `step_navigation`, up to the first commit.
  unfoldable pub step : World V → Storage V → Current → Move V
  unfolding checkpoint_step assistant_step tools_step in_run_compaction step_compaction
      step_navigation failure_drain_step
  step w s c = state_step w s c c.state

  abbrev pub step_of : Reload → Step
  step_of (current c) = continue c
  step_of (finalized r) = done r
  step_of (broken e) = broke e

  -- `transition`, on the owner that has served the others.
  unfoldable pub transition :
      Wire V
      → Turn V
      → Owner V
      → Current
      → OperationState
      → List (Write V)
      → Session.Result (Option CommitResult) × Owner V
  unfolding commit_if serve
  transition wire t o c next extra =
      commit_if wire t.outcome t.now (serve wire o t.others)
        (op_token env.json env.codecs env.show c ∷ [])
        (extra ++ set_program env.json env.codecs env.show c.operation.operation_id next ∷ [])

  unfoldable pub terminal :
      Wire V
      → Turn V
      → Owner V
      → Current
      → Ending V
      → Session.Result (Option CommitResult) × Owner V
  unfolding commit_if serve terminal_writes
  terminal wire t o c e =
      commit_if wire t.outcome t.now (serve wire o t.others) (terminal_expect env c)
        (terminal_writes env o.storage c e)

  -- After a transition the state is read again, whether the commit was accepted or not.
  abbrev pub after_transition :
      Current → Session.Result (Option CommitResult) × Owner V → Step × Owner V
  after_transition c (err e, o) = (broke (session e), o)
  after_transition c (ok answer, o) = (step_of (reload env o.storage c), o)

  abbrev pub after_terminal :
      Storage V
      → Current
      → Ending V
      → Session.Result (Option CommitResult) × Owner V
      → Step × Owner V
  after_terminal s c e (err why, o) = (broke (session why), o)
  after_terminal s c e (ok none, o) = (step_of (reload env o.storage c), o)
  after_terminal s c e (ok (some r), o) = (done (terminal_result env s c e), o)

  -- The effect of an intent runs only if the intent was committed and the operation is still there; `run` is the
  -- rest of the step, on the owner and the state of then.
  abbrev pub after_intent :
      (Owner V → Current → Step × Owner V)
      → Current
      → Session.Result (Option CommitResult) × Owner V
      → Step × Owner V
  after_intent run c (err e, o) = (broke (session e), o)
  after_intent run c (ok none, o) = (step_of (reload env o.storage c), o)
  after_intent run c (ok (some r), o) = committed (reload env o.storage c)
    where
      committed : Reload → Step × Owner V
      committed (current c') = run o c'
      committed (finalized result) = (done result, o)
      committed (broken e) = (broke e, o)

  -- A move, served by the owner; the turns are those of its commits in their order.
  unfoldable pub perform : Wire V → (ℕ → Turn V) → ℕ → Owner V → Current → Move V → Step × Owner V
  unfolding reload transition terminal terminal_result
  perform wire turns i o c (fail e) = (broke e, o)
  perform wire turns i o c wait = (step_of (reload env o.storage c), o)
  perform wire turns i o c (advance next extra) =
      after_transition c (transition wire (turns i) o c next extra)
  perform wire turns i o c (intend next extra k) =
      after_intent (λ o' c'. perform wire turns (suc i) o' c' (k o'.storage c')) c
        (transition wire (turns i) o c next extra)
  perform wire turns i o c (finish e) = after_terminal o.storage c e (terminal wire (turns i) o c e)

  -- `drive`, on fuel: `none` is a loop that has not ended. The worlds and the turns are those of its steps.
  unfoldable pub drive :
      Wire V → (ℕ → World V) → (ℕ → ℕ → Turn V) → ℕ → Owner V → Current → Option (Step × Owner V)
  unfolding step perform
  drive wire worlds turns zero o c = none
  drive wire worlds turns (suc fuel) o c =
      let rest = drive wire worlds turns fuel in
      again rest (perform wire (turns fuel) 0 o c (step (worlds fuel) o.storage c))
    where
      again :
          (Owner V → Current → Option (Step × Owner V)) → Step × Owner V → Option (Step × Owner V)
      again rest (continue c', o') = rest o' c'
      again rest (done r, o') = some (done r, o')
      again rest (broke e, o') = some (broke e, o')
