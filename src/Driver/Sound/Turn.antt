-- ===== src/Driver/Sound/Turn.antt =====
-- The inbox, the checkpoint and the generation of a response (src/lane.rs) keep the phase sound.
use reve.Prelude.{
  ℤ, ℕ, zero, suc, ◌+◌, ap, ◌≡◌, refl, String, ◌<>◌, Bool, true, false, ◌||◌, not, Option, none,
  some, List, [], ◌∷◌, ◌⊎◌, inl, inr, map, length, is_empty, ltb, ltb→lt, if◌then◌else◌, arith, sym,
  subst, ◌∙◌, Bool-cases,
}
use reve.Entry.{Write}
use reve.State.{
  RunState, RunPhase, CheckpointPhase, Continuation, need_assistant, may_finish, Generation,
  GenerationContext, planned, source_index, OperationError, is_cancelled, RetryPolicy,
  CompactionPreparation,
}
use reve.Storage.{Storage}
use reve.Session.Checks.{range_from}
use reve.Session.Restore.{Current}
use reve.Model.{Assistant, error_turn}
use reve.Driver.World.{Env, World, Move, advance, DriverError}
use reve.Driver.Inbox.{
  InboxKind, writes, steer, follow_up, Placed, run_with, skip_once, phase_after, applied,
  apply_inbox, drain, failure_drain_step,
}
use reve.Driver.Checkpoint.{checked, start_generation, run_end, continue_with, checkpoint_step}
use reve.Driver.Settle.{
  Settled, settled, classify, commit_settled, settle_run, settle_state, overflow_phase, recovery,
  error_phase, batch_phase, is_error, normalised, is_marked,
}
use reve.Driver.Generate.{assistant_step, recover, aborted_turn, wait_or_start, request_assistant}
use reve.Driver.Sound.Phase.{
  Within, Attempt, IsSound, Advances, AfterResponse, Keeps, fails, waits, ends, keeps, plans,
  if-Keeps,
}

IsSound-skip_once : (p : RunPhase) → IsSound p → IsSound (skip_once p)
IsSound-skip_once (RunPhase.checkpoint cp) h = tt
IsSound-skip_once (RunPhase.assistant g) h = h
IsSound-skip_once (RunPhase.tools b) h = h
IsSound-skip_once (RunPhase.compaction a b c) h = h
IsSound-skip_once (RunPhase.failure_drain a b) h = h

IsSound-phase_after :
    (restarts : Bool) (newest : Option String) (p : RunPhase)
    → IsSound p
    → IsSound (phase_after restarts newest p)
IsSound-phase_after restarts none p h = IsSound-skip_once p h
IsSound-phase_after true (some id) p h = tt
IsSound-phase_after false (some id) p h = IsSound-skip_once p h

pub Within-next : (n : ℕ) (p : RetryPolicy) → ltb n p.max_attempts ≡ true → Within (n + 1) p
Within-next n p h = omega (arith, ltb→lt n p.max_attempts h)

sources_from :
    (id : ℕ → String) (i n : ℕ)
    → map source_index (map (λ index. planned index (id index)) (range_from i n)) ≡ range_from i n
sources_from id i zero = refl
sources_from id i (suc n) = ap (◌∷◌ i) (sources_from id (suc i) n)

length-planned :
    (id : ℕ → String) (i n : ℕ)
    → length (map (λ index. planned index (id index)) (range_from i n)) ≡ n
length-planned id i zero = refl
length-planned id i (suc n) = ap suc (length-planned id (suc i) n)

module _ {V : Type 0} (env : Env V) (p : RunPhase)
    (free : (next : RunPhase) → Advances p next) where
  applied-Keeps :
      (r : RunState) (ids : List String) (kind : InboxKind) (x : DriverError ⊎ Placed V)
      → IsSound r.phase
      → Keeps p (applied env r ids kind x)
  applied-Keeps r ids kind (inl e) h = fails
  applied-Keeps r ids kind (inr x) h = keeps (IsSound-phase_after _ x.newest r.phase h) (free _)

  drain-Keeps :
      (s : Storage V) (c : Current) (r : RunState) (kind : InboxKind) (queue : List String)
      (m : Move V)
      → IsSound r.phase
      → Keeps p m
      → Keeps p (drain env s c r kind queue m)
  unfolding apply_inbox
  drain-Keeps s c r kind [] m h f = f
  drain-Keeps s c r kind (id ∷ ids) m h f = applied-Keeps r (id ∷ ids) kind _ h

  pub failure_drain_step-Keeps :
      (s : Storage V) (c : Current) (r : RunState) (error : OperationError)
      → IsSound r.phase
      → Keeps p (failure_drain_step env s c r error)
  unfolding failure_drain_step
  failure_drain_step-Keeps s c r error h = drain-Keeps s c r writes r.inbox.writes _ h (
      if-Keeps p (is_cancelled r.control) _ _ ends
        (drain-Keeps s c r steer _ _ h (drain-Keeps s c r follow_up _ _ h ends)))

module _ {V : Type 0} (env : Env V) (w : World V) (p : RunPhase)
    (free : (next : RunPhase) → Advances p next) where
  checked-Keeps :
      (c : Current) (r : RunState) (cp : CheckpointPhase) (x : Option (CompactionPreparation V))
      → Keeps p (checked env w c r cp x)
  checked-Keeps c r cp none = keeps tt (free _)
  checked-Keeps c r cp (some x) = keeps tt (free _)

  run_end-Keeps : (c : Current) (r : RunState) (o : Option String) → Keeps p (run_end env w c r o)
  run_end-Keeps c r none = ends
  run_end-Keeps c r (some text) = keeps tt (free _)

  start_generation-Keeps :
      (c : Current) (r : RunState) (cp : CheckpointPhase) (used : Bool)
      → Keeps p (start_generation env w c r cp used)
  start_generation-Keeps c r cp used = keeps (omega arith) (free _)

  continue_with-Keeps :
      (s : Storage V) (c : Current) (r : RunState) (cp : CheckpointPhase) (k : Continuation)
      → IsSound r.phase
      → Keeps p (continue_with env w s c r cp k)
  continue_with-Keeps s c r cp (need_assistant used) h =
      if-Keeps p _ _ _ (checked-Keeps c r cp _) (start_generation-Keeps c r cp used)
  continue_with-Keeps s c r cp (may_finish included) h =
      drain-Keeps env p free s c r follow_up _ _ h (run_end-Keeps c r _)

  pub checkpoint_step-Keeps :
      (s : Storage V) (c : Current) (r : RunState) (cp : CheckpointPhase)
      → IsSound r.phase
      → Keeps p (checkpoint_step env w s c r cp)
  unfolding checkpoint_step
  checkpoint_step-Keeps s c r cp h = drain-Keeps env p free s c r writes _ _ h (
      if-Keeps p (is_cancelled r.control) _ _ ends
        (drain-Keeps env p free s c r steer _ _ h (continue_with-Keeps s c r cp cp.continuation h)))

module _ {V : Type 0} (env : Env V) (w : World V) where
  -- What may follow an attempt that has started.
  abbrev After : GenerationContext → ℕ → RunPhase → Type 0
  After g n next =
      (id usage_id : String) → AfterResponse (Generation.effect_pending g n id usage_id) next

  -- A classified response whose phase is sound and follows its attempt.
  data Fit : GenerationContext → ℕ → Settled V → Type 0 where
    fit :
        {g : GenerationContext} {n : ℕ} {a : Assistant V} {p : RunPhase} {ws : List (Write V)}
        → IsSound p
        → After g n p
        → Fit g n (settled a p ws)

  if-Fit :
      (g : GenerationContext) (n : ℕ) (b : Bool) (x y : Settled V)
      → Fit g n x
      → Fit g n y
      → Fit g n (if b then x else y)
  if-Fit g n true x y f f' = f
  if-Fit g n false x y f f' = f'

  overflow_phase-Fit :
      (c : Current) (g : GenerationContext) (n : ℕ) (id : String) (a : Assistant V)
      (p : Option (CompactionPreparation V))
      → Fit g n (overflow_phase env w c g id a p)
  overflow_phase-Fit c g n id a none = fit tt (λ i u. tt)
  overflow_phase-Fit c g n id a (some p) = fit tt (λ i u. tt)

  IsSound-error_phase :
      (g : GenerationContext) (n : ℕ) (id : String) (retryable : Bool) (why : Option String)
      → IsSound (error_phase env w g n id retryable why)
  IsSound-error_phase g n id false why = tt
  IsSound-error_phase g n id true why = elim (Bool-cases (ltb n g.retry_policy.max_attempts)) [
    | inl more ↦ rw more (Within-next n g.retry_policy more)
    | inr over ↦ rw over tt
  ]

  After-error_phase :
      (g : GenerationContext) (n : ℕ) (id : String) (retryable : Bool) (why : Option String)
      → After g n (error_phase env w g n id retryable why)
  After-error_phase g n id false why i u = tt
  After-error_phase g n id true why i u = elim (Bool-cases (ltb n g.retry_policy.max_attempts)) [
    | inl more ↦ rw more (refl, omega arith)
    | inr over ↦ rw over tt
  ]

  IsSound-batch_phase :
      (g : GenerationContext) (id : String) (n : ℕ) → IsSound (batch_phase env w g id n)
  IsSound-batch_phase g id n =
      sources_from w.call_id 0 n ∙ ap (range_from 0) (sym (length-planned w.call_id 0 n))

  classify-Fit :
      (s : Storage V) (c : Current) (r : RunState) (g : GenerationContext) (n : ℕ) (id : String)
      (cancelled retryable : Bool) (a : Assistant V)
      → Fit g n (classify env w s c r g n id cancelled retryable a)
  unfolding classify
  classify-Fit s c r g n id cancelled retryable a = if-Fit g n cancelled _ _ (fit tt (λ i u. tt)) (
      if-Fit g n _ _ _ (overflow_phase-Fit c g n id a (recovery env w s c r g)) (
        if-Fit g n (is_error a.stop_reason) _ _
          (fit (IsSound-error_phase g n id retryable a.error_message)
            (After-error_phase g n id retryable a.error_message))
          (if-Fit g n (not (is_empty a.tool_calls)) _ _
            (fit (IsSound-batch_phase g id (length a.tool_calls)) (λ i u. tt))
            (fit tt (λ i u. tt)))))

  commit_settled-Keeps :
      (c : Current) (r : RunState) (g : GenerationContext) (n : ℕ) (id usage_id : String)
      (x : Settled V)
      → Fit g n x
      → Keeps
          (RunPhase.assistant (Generation.effect_pending g n id usage_id))
          (commit_settled env w c r id usage_id x)
  commit_settled-Keeps c r g n id usage_id (settled a p ws) (fit e f) = keeps e (f id usage_id)

  settle_run-Keeps :
      (s : Storage V) (c : Current) (r : RunState) (g : GenerationContext) (n : ℕ)
      (id usage_id : String) (a : Assistant V)
      → Keeps
          (RunPhase.assistant (Generation.effect_pending g n id usage_id))
          (settle_run env w s c r g n id usage_id a)
  unfolding settle_run
  settle_run-Keeps s c r g n id usage_id a =
      let cancelled = is_cancelled r.control || w.stopped in
      let turn = normalised env w cancelled a in
      commit_settled-Keeps c r g n id usage_id
        (classify env w s c r g n id cancelled (is_marked a.error_message) turn)
        (classify-Fit s c r g n id cancelled (is_marked a.error_message) turn)

  wait_or_start-Keeps :
      (r : RunState) (g : GenerationContext) (n : ℕ) (not_before : ℤ) (why : String) (b : Bool)
      → Within n g.retry_policy
      → Keeps
          (RunPhase.assistant (Generation.retry_wait g n not_before why))
          (wait_or_start env w r g n b)
  wait_or_start-Keeps r g n not_before why true h = waits
  wait_or_start-Keeps r g n not_before why false h = keeps h (refl, omega arith)

  if_more-Keeps :
      (r : RunState) (g : GenerationContext) (n : ℕ) (id usage_id : String) (m : Move V)
      → Keeps (RunPhase.assistant (Generation.effect_pending g n id usage_id)) m
      → Keeps (RunPhase.assistant (Generation.effect_pending g n id usage_id)) (
          if ltb n g.retry_policy.max_attempts
          then advance (run_with r (RunPhase.assistant (Generation.ready g (n + 1)))) []
          else m)
  if_more-Keeps r g n id usage_id m f = elim (Bool-cases (ltb n g.retry_policy.max_attempts)) [
    | inl more ↦ rw more (keeps (Within-next n g.retry_policy more) (refl, omega arith))
    | inr over ↦ rw over f
  ]

  recover-Keeps :
      (s : Storage V) (c : Current) (r : RunState) (g : GenerationContext) (n : ℕ)
      (id usage_id : String)
      → Keeps
          (RunPhase.assistant (Generation.effect_pending g n id usage_id))
          (recover env w s c r g n id usage_id)
  recover-Keeps s c r g n id usage_id =
      if-Keeps _ (is_cancelled r.control) _ _
        (settle_run-Keeps s c r g n id usage_id
          (aborted_turn "aborted before the response settled"))
        (if_more-Keeps r g n id usage_id _ (
          settle_run-Keeps s c r g n id usage_id (
            error_turn (
              "the process was interrupted during attempt "
              <> env.show n
              <> " and the retry policy allows no more"))))

  pub assistant_step-Keeps :
      (s : Storage V) (c : Current) (r : RunState) (g : Generation)
      → Attempt g
      → Keeps (RunPhase.assistant g) (assistant_step env w s c r g)
  unfolding assistant_step
  assistant_step-Keeps s c r (Generation.ready g n) h =
      if-Keeps _ (is_cancelled r.control) _ _ ends (
        plans h (refl, omega arith)
          (λ later c' r' p same.
            let turn = request_assistant env w later c' g in
            subst
              (λ st.
                Keeps (RunPhase.assistant (Generation.effect_pending g n w.response_id w.usage_id))
                  (settle_state env w later c' g n w.response_id w.usage_id turn st))
              (sym p) (settle_run-Keeps later c' r' g n w.response_id w.usage_id turn)))
  assistant_step-Keeps s c r (Generation.effect_pending g n id usage_id) h =
      recover-Keeps s c r g n id usage_id
  assistant_step-Keeps s c r (Generation.retry_wait g n not_before why) h =
      if-Keeps _ (is_cancelled r.control) _ _ ends (wait_or_start-Keeps r g n not_before why _ h)
