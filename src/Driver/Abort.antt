-- ===== src/Driver/Abort.antt =====
-- A cancelled run comes to its end: src/lane.rs, with the cancellation of src/harness.rs in place.
mod Open
use reve.Prelude.{
  ℕ, zero, suc, ◌+◌, ◌<◌, ◌≤◌, ◌≡◌, refl, String, ◌<>◌, Bool, true, false, ◌&&◌, ◌||◌, not, Option,
  none, some, List, [], ◌∷◌, ◌++◌, append_assoc, ◌⊎◌, inl, inr, map, is_empty, ltb, contains,
  filter, str_eq, get_elem?, if◌then◌else◌, arith, ap, sym, subst, ◌∙◌, All, eq_iff, Bool-cases,
  Option-cases,
}
use reve.Entry.{Entry, Write}
use reve.State.{
  OperationState, RunState, RunPhase, Outcome, aborted, CheckpointPhase, Generation,
  GenerationContext, ToolBatch, ToolCallState, planned, effect_pending, source_index,
  result_entry_id, is_cancelled, OperationError,
}
use reve.Storage.{Storage}
use reve.Storage.Scan.{entry}
use reve.Session.Restore.{Current}
use reve.Model.{Assistant, ToolCall}
use reve.Driver.World.{
  Env, World, Move, fail, wait, advance, intend, finish, Ending, ending, DriverError,
}
use reve.Driver.Inbox.{
  writes, Placed, projects, phase_after, skip_once, without, removed, applied, apply_inbox,
  abort_finish, drain, failure_drain_step,
}
use reve.Driver.Checkpoint.{checkpoint_step, unless_skipped}
use reve.Driver.Settle.{settle_run, classify, commit_settled, settled}
use reve.Driver.Generate.{assistant_step, recover, aborted_turn}
use reve.Driver.Tools.{
  batch_of, commit_batch, commit_tool_result, complete_call, Verdict, dispatch, dispatch_found,
  next_call, with_assistant, with_entry, tools_step, find_pending, by_source, is_length,
}
use reve.Driver.Compact.{in_run_compaction}
use reve.Driver.Step.{step, phase_step, state_step}
use reve.Driver.Abort.Open.{open_calls, open_complete, next-Has}

-- What a cancelled run has still to do: its open calls, the response to settle, the deferred writes.
abbrev pub base : RunPhase → ℕ
base (RunPhase.checkpoint cp) = 0
base (RunPhase.assistant generation) = 1
base (RunPhase.tools batch) = 1 + open_calls batch.calls
base (RunPhase.compaction reason structural resume_after) = 0
base (RunPhase.failure_drain error provenance) = 0

abbrev pub some_writes : List String → ℕ
some_writes [] = 0
some_writes (id ∷ ids) = 1

abbrev pub weight : RunState → ℕ
weight r = base r.phase + some_writes r.inbox.writes

module _ {V : Type 0} where
  -- A move of a cancelled run: an error, one commit of a lighter run that is still cancelled, or the end.
  pub data Descends : RunState → Move V → Type 0 where
    fails : {r : RunState} {e : DriverError} → Descends r (fail e)
    lowers :
        {r r' : RunState} {ws : List (Write V)}
        → is_cancelled r'.control ≡ true
        → weight r' < weight r
        → Descends r (advance (OperationState.run r') ws)
    aborts : {r : RunState} {e : Ending V} → e.outcome ≡ aborted → Descends r (finish e)

-- A queue without its own ids is empty.
listed : (pre : List String) (x : String) (xs : List String) → contains (pre ++ x ∷ xs) x ≡ true
listed [] x xs = ground (arith, eq_iff x x)
listed (y ∷ pre) x xs = ground (arith, listed pre x xs)

all_listed : (ids pre ys : List String) → ids ≡ pre ++ ys → without ids ys ≡ []
unfolding filter
all_listed ids pre [] h = refl
all_listed ids pre (y ∷ ys) h =
    let found : contains ids y ≡ true = rw h (listed pre y ys) in
    let rest = all_listed ids (pre ++ y ∷ []) ys (h ∙ sym (append_assoc pre (y ∷ []) ys)) in
    rw (found, filter) rest

base-skip_once : (p : RunPhase) → base (skip_once p) ≡ base p
base-skip_once (RunPhase.checkpoint cp) = refl
base-skip_once (RunPhase.assistant g) = refl
base-skip_once (RunPhase.tools b) = refl
base-skip_once (RunPhase.compaction a b c) = refl
base-skip_once (RunPhase.failure_drain a b) = refl

base-phase_after :
    (stopped : Bool) (newest : Option String) (p : RunPhase)
    → stopped ≡ true
    → (b : Bool) → base (phase_after (b && not stopped) newest p) ≡ base p
base-phase_after stopped none p h b = base-skip_once p
base-phase_after stopped (some id) p h true = rw h (base-skip_once p)
base-phase_after stopped (some id) p h false = base-skip_once p

module _ {V : Type 0} (env : Env V) where
  -- The deferred writes all take their place at once.
  applied-Descends :
      (r : RunState) (id : String) (ids : List String) (x : DriverError ⊎ Placed V)
      → is_cancelled r.control ≡ true
      → id ∷ ids ≡ r.inbox.writes
      → Descends r (applied env r (id ∷ ids) writes x)
  applied-Descends r id ids (inl e) h p = fails
  applied-Descends r id ids (inr placed) h p =
      let empty : without (id ∷ ids) r.inbox.writes ≡ [] =
        all_listed (id ∷ ids) [] r.inbox.writes p in
      let same =
        base-phase_after (is_cancelled r.control) placed.newest r.phase h
          (projects env placed.placed) in
      let none_left : some_writes (without (id ∷ ids) r.inbox.writes) ≡ 0 = ap some_writes empty in
      let some_there : some_writes r.inbox.writes ≡ 1 = ap some_writes (sym p) in
      lowers h (omega (arith, same, none_left, some_there))

  drain-Descends :
      (s : Storage V) (c : Current) (r : RunState) (queue : List String) (m : Move V)
      → is_cancelled r.control ≡ true
      → queue ≡ r.inbox.writes
      → Descends r m
      → Descends r (drain env s c r writes queue m)
  unfolding apply_inbox
  drain-Descends s c r [] m h p f = f
  drain-Descends s c r (id ∷ ids) m h p f = applied-Descends r id ids _ h p

  if_cancelled :
      (r : RunState) (m n : Move V)
      → is_cancelled r.control ≡ true
      → Descends r m
      → Descends r (if is_cancelled r.control then m else n)
  if_cancelled r m n h f = rw h f

  failure_drain_step-Descends :
      (s : Storage V) (c : Current) (r : RunState) (error : OperationError)
      → is_cancelled r.control ≡ true
      → Descends r (failure_drain_step env s c r error)
  unfolding failure_drain_step
  failure_drain_step-Descends s c r error h =
      drain-Descends s c r r.inbox.writes _ h refl (if_cancelled r _ _ h (aborts refl))

kept :
    (stopped skip : Bool) (queue : List String)
    → stopped ≡ true
    → unless_skipped (skip && not stopped) queue ≡ queue
kept stopped true queue h = rw h refl
kept stopped false queue h = refl

module _ {V : Type 0} (env : Env V) (w : World V) where
  checkpoint_step-Descends :
      (s : Storage V) (c : Current) (r : RunState) (cp : CheckpointPhase)
      → is_cancelled r.control ≡ true
      → Descends r (checkpoint_step env w s c r cp)
  unfolding checkpoint_step
  checkpoint_step-Descends s c r cp h =
      drain-Descends env s c r
        (unless_skipped (cp.skip_inbox_once && not (is_cancelled r.control)) r.inbox.writes) _ h
        (kept (is_cancelled r.control) cp.skip_inbox_once r.inbox.writes h)
        (if_cancelled env r _ _ h (aborts refl))

  -- A response that settles under a cancellation leads to a checkpoint.
  settle_run-Descends :
      (s : Storage V) (c : Current) (r : RunState) (g : GenerationContext) (n : ℕ)
      (id usage_id : String) (a : Assistant V)
      → is_cancelled r.control ≡ true
      → base r.phase ≡ 1
      → Descends r (settle_run env w s c r g n id usage_id a)
  unfolding settle_run classify
  settle_run-Descends s c r g n id usage_id a h q = rw h (lowers h (omega (arith, q)))

  assistant_step-Descends :
      (s : Storage V) (c : Current) (r : RunState) (g : Generation)
      → is_cancelled r.control ≡ true
      → base r.phase ≡ 1
      → Descends r (assistant_step env w s c r g)
  unfolding assistant_step
  assistant_step-Descends s c r (Generation.ready g n) h q = if_cancelled env r _ _ h (aborts refl)
  assistant_step-Descends s c r (Generation.effect_pending g n id usage_id) h q =
      if_cancelled env r _ _ h (
        settle_run-Descends s c r g n id usage_id
          (aborted_turn "aborted before the response settled") h q)
  assistant_step-Descends s c r (Generation.retry_wait g n not_before why) h q =
      if_cancelled env r _ _ h (aborts refl)

  -- A call that gets its result is no longer open.
  commit_batch-Descends :
      (c : Current) (r : RunState) (b : ToolBatch) (call : ToolCall V) (x : ToolCallState)
      (v : Verdict)
      → is_cancelled r.control ≡ true
      → r.phase ≡ RunPhase.tools b
      → find_pending (by_source b.calls) ≡ some x
      → Descends r (commit_batch env w c r call (result_entry_id x) v (batch_of r.phase))
  commit_batch-Descends c r b call x v h q f =
      let (m, o) = next-Has x b.calls f in
      let fewer = open_complete v.terminate x b.calls m o in
      let here : base r.phase ≡ 1 + open_calls b.calls = ap base q in
      subst (λ p. Descends r (commit_batch env w c r call (result_entry_id x) v (batch_of p)))
        (sym q) (lowers h (omega (arith, fewer, here)))

  commit_tool_result-Descends :
      (c : Current) (r : RunState) (b : ToolBatch) (call : ToolCall V) (x : ToolCallState)
      (v : Verdict)
      → is_cancelled r.control ≡ true
      → r.phase ≡ RunPhase.tools b
      → find_pending (by_source b.calls) ≡ some x
      → Descends r (commit_tool_result env w c r call (result_entry_id x) v)
  unfolding commit_tool_result
  commit_tool_result-Descends c r b call x v h q f = commit_batch-Descends c r b call x v h q f

  if_stopped :
      (r : RunState) (signalled : Bool) (m n : Move V)
      → is_cancelled r.control ≡ true
      → Descends r m
      → Descends r (if is_cancelled r.control || signalled then m else n)
  if_stopped r signalled m n h f = rw h f

  dispatch-Descends :
      (s : Storage V) (c : Current) (r : RunState) (b : ToolBatch) (truncated : Bool)
      (call : ToolCall V) (x : ToolCallState)
      → is_cancelled r.control ≡ true
      → r.phase ≡ RunPhase.tools b
      → find_pending (by_source b.calls) ≡ some x
      → Descends r (dispatch env w s c r b truncated call x)
  dispatch-Descends s c r b truncated call (planned i id) h q f =
      if_stopped r w.signalled _ _ h (commit_tool_result-Descends c r b call (planned i id) _ h q f)
  dispatch-Descends s c r b truncated call (effect_pending i id replay) h q f =
      if_stopped r w.signalled _ _ h
        (commit_tool_result-Descends c r b call (effect_pending i id replay) _ h q f)
  dispatch-Descends s c r b truncated call (ToolCallState.completed i id terminate) h q f = fails

  next_call-Descends :
      (s : Storage V) (c : Current) (r : RunState) (b : ToolBatch) (a : Assistant V)
      (o : Option ToolCallState)
      → is_cancelled r.control ≡ true
      → r.phase ≡ RunPhase.tools b
      → find_pending (by_source b.calls) ≡ o
      → Descends r (next_call env w s c r b a o)
  next_call-Descends s c r b a none h q f =
      let here : base r.phase ≡ 1 + open_calls b.calls = ap base q in lowers h (omega (arith, here))
  next_call-Descends s c r b a (some x) h q f = by_call (get_elem? a.tool_calls (source_index x))
    where
      by_call :
          (o : Option (ToolCall V))
          → Descends r (dispatch_found env w s c r b (is_length a.stop_reason) x o)
      by_call none = fails
      by_call (some call) = dispatch-Descends s c r b _ call x h q f

  tools_step-Descends :
      (s : Storage V) (c : Current) (r : RunState) (b : ToolBatch)
      → is_cancelled r.control ≡ true
      → r.phase ≡ RunPhase.tools b
      → Descends r (tools_step env w s c r b)
  unfolding tools_step
  tools_step-Descends s c r b h q = by_entry (entry s b.assistant_entry_id)
    where
      by_turn : (o : Option (Assistant V)) → Descends r (with_assistant env w s c r b o)
      by_turn none = fails
      by_turn (some a) = next_call-Descends s c r b a _ h q refl

      by_entry : (o : Option (Entry V)) → Descends r (with_entry env w s c r b o)
      by_entry none = fails
      by_entry (some e) = by_turn _

  phase_step-Descends :
      (s : Storage V) (c : Current) (r : RunState) (p : RunPhase)
      → is_cancelled r.control ≡ true
      → r.phase ≡ p
      → Descends r (phase_step env w s c r p)
  unfolding in_run_compaction
  phase_step-Descends s c r (RunPhase.checkpoint cp) h q = checkpoint_step-Descends s c r cp h
  phase_step-Descends s c r (RunPhase.assistant g) h q =
      assistant_step-Descends s c r g h (ap base q)
  phase_step-Descends s c r (RunPhase.tools b) h q = tools_step-Descends s c r b h q
  phase_step-Descends s c r (RunPhase.compaction reason d cp) h q =
      if_cancelled env r _ _ h (aborts refl)
  phase_step-Descends s c r (RunPhase.failure_drain error provenance) h q =
      failure_drain_step-Descends env s c r error h

  -- An abort takes effect: whatever a cancelled run was doing, and whatever the model, the tools and the hooks
  -- answer, the next step neither waits nor starts an effect. It fails on a damaged session, it ends
  -- the run as aborted, or it commits one cancelled run that has strictly less to do: an open call, an
  -- unsettled response or the deferred writes. So a cancelled run to which nothing is added ends.
  pub abort-Descends :
      (s : Storage V) (c : Current) (r : RunState)
      → c.state ≡ OperationState.run r
      → is_cancelled r.control ≡ true
      → Descends r (step env w s c)
  unfolding step
  abort-Descends s c r p h =
      subst (λ st. Descends r (state_step env w s c st)) (sym p)
        (phase_step-Descends s c r r.phase h refl)
