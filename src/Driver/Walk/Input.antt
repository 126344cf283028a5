-- ===== src/Driver/Walk/Input.antt =====
-- The checkpoint and the drain of a failure (src/lane.rs) follow the graph.
use reve.Prelude.{
  ◌&&◌, not, ap, sym, subst, Bool-cases, arith, ◌≡◌, refl, String, Bool, true, false, Option, none,
  some, List, [], ◌∷◌, ◌⊎◌, inl, inr,
}
use reve.State.{
  QueueMode, completed, failed, RunState, RunPhase, CheckpointPhase, Continuation, need_assistant,
  may_finish, OperationError, is_cancelled, CompactionPreparation,
}
use reve.Storage.{Storage}
use reve.Session.Restore.{Current}
use reve.Driver.World.{ending, Env, World, Move, DriverError}
use reve.Driver.Inbox.{
  InboxKind, writes, steer, follow_up, Placed, skip_once, phase_after, applied, apply_inbox,
  take_queue, drain, failure_drain_step,
}
use reve.Driver.Checkpoint.{
  unless_skipped, checked, start_generation, run_end, continue_with, checkpoint_step,
}
use reve.Driver.Graph.{
  checkpoint, failure_drain, place, ◌⟶◌, apply_input, generate, over_threshold, keep_failing,
  revive, skips, EndsAs, Follows, fails, moves, ends, if_test-Follows, if_test-Follows, if-Follows,
}

place-skip_once : (p : RunPhase) → place (skip_once p) ≡ place p
place-skip_once (RunPhase.checkpoint cp) = refl
place-skip_once (RunPhase.assistant g) = refl
place-skip_once (RunPhase.tools b) = refl
place-skip_once (RunPhase.compaction a b c) = refl
place-skip_once (RunPhase.failure_drain a b) = refl

-- A phase that input may be applied in: one that goes to a checkpoint and back to itself.
abbrev Takes : RunPhase → Type 0
Takes p = (place p ⟶ checkpoint) × (place p ⟶ place p)

phase_after-⟶ :
    (restarts : Bool) (newest : Option String) (p : RunPhase)
    → Takes p
    → place p ⟶ place (phase_after restarts newest p)
phase_after-⟶ restarts none p (out, back) = rw (place-skip_once p) back
phase_after-⟶ true (some id) p (out, back) = out
phase_after-⟶ false (some id) p (out, back) = rw (place-skip_once p) back

taken_all : (mode : QueueMode) (queue : List String) → take_queue mode queue ≡ [] → queue ≡ []
taken_all QueueMode.all queue h = h
taken_all QueueMode.one_at_a_time [] h = refl
taken_all QueueMode.one_at_a_time (id ∷ ids) h = absurd (ground arith)

not_skipped :
    (skip : Bool) (queue : List String)
    → unless_skipped skip queue ≡ []
    → (skip ≡ true) ⊎ (queue ≡ [])
not_skipped true queue h = inl refl
not_skipped false queue h = inr h

unskipped_writes :
    (skip cancel : Bool) (queue : List String)
    → skip ≡ false
    → unless_skipped (skip && not cancel) queue ≡ []
    → queue ≡ []
unskipped_writes false cancel queue s h = h
unskipped_writes true cancel queue s h = absurd (ground arith)

-- What a checkpoint that reads past its inbox has found there.
abbrev Drained : RunPhase → RunState → Type 0
Drained p r = (skips p ≡ true) ⊎ ((r.inbox.writes ≡ []) × (r.inbox.steer ≡ []))

drained :
    (cp : CheckpointPhase) (r : RunState)
    → is_cancelled r.control ≡ false
    → unless_skipped (cp.skip_inbox_once && not (is_cancelled r.control)) r.inbox.writes ≡ []
    → unless_skipped cp.skip_inbox_once (take_queue r.settings.steering_mode r.inbox.steer) ≡ []
    → Drained (RunPhase.checkpoint cp) r
drained cp r live w s = elim (not_skipped cp.skip_inbox_once _ s) [
  | inl skip ↦ inl skip
  | inr none_taken ↦ elim (Bool-cases cp.skip_inbox_once) [
    | inl skip ↦ inl skip
    | inr here ↦ inr (
      unskipped_writes cp.skip_inbox_once (is_cancelled r.control) r.inbox.writes here w,
      taken_all r.settings.steering_mode r.inbox.steer none_taken,
    )
  ]
]

aborted_writes :
    (skip cancel : Bool) (queue : List String)
    → cancel ≡ true
    → unless_skipped (skip && not cancel) queue ≡ []
    → queue ≡ []
aborted_writes true true queue c h = h
aborted_writes false true queue c h = h
aborted_writes skip false queue c h = absurd (ground arith)

module _ {V : Type 0} (env : Env V) where
  applied-Follows :
      (r : RunState) (ids : List String) (kind : InboxKind) (x : DriverError ⊎ Placed V)
      → Takes r.phase
      → Follows r (applied env r ids kind x)
  applied-Follows r ids kind (inl e) t = fails
  applied-Follows r ids kind (inr p) t =
      moves (_, refl, phase_after-⟶ _ p.newest r.phase t, refl, refl)

  drain-Follows :
      (s : Storage V) (c : Current) (r : RunState) (kind : InboxKind) (queue : List String)
      (m : Move V)
      → Takes r.phase
      → (queue ≡ [] → Follows r m)
      → Follows r (drain env s c r kind queue m)
  unfolding apply_inbox
  drain-Follows s c r kind [] m t f = f refl
  drain-Follows s c r kind (id ∷ ids) m t f = applied-Follows r (id ∷ ids) kind _ t

  pub failure_drain_step-Follows :
      (s : Storage V) (c : Current) (r : RunState) (error : OperationError)
      → place r.phase ≡ failure_drain
      → Follows r (failure_drain_step env s c r error)
  unfolding failure_drain_step
  failure_drain_step-Follows s c r error q =
      let t : Takes r.phase = rw q (revive, keep_failing) in
      drain-Follows s c r writes r.inbox.writes _ t (λ no_write.
        if_test-Follows r (is_cancelled r.control) _ _ (λ stop. ends (stop, rw q no_write))
          (λ live. drain-Follows s c r steer _ _ t (λ no_steer.
            drain-Follows s c r follow_up _ _ t (λ no_follow_up.
              ends {e = ending failed (some error)} (
                q,
                live,
                no_write,
                taken_all r.settings.steering_mode r.inbox.steer no_steer,
                taken_all r.settings.follow_up_mode r.inbox.follow_up no_follow_up,
              )))))

module _ {V : Type 0} (env : Env V) (w : World V) where
  checked-Follows :
      (c : Current) (r : RunState) (cp : CheckpointPhase) (p : Option (CompactionPreparation V))
      → place r.phase ≡ checkpoint
      → Follows r (checked env w c r cp p)
  checked-Follows c r cp none q = moves (_, refl, rw q apply_input, refl, refl)
  checked-Follows c r cp (some p) q = moves (_, refl, rw q over_threshold, refl, refl)

  run_end-Follows :
      (c : Current) (r : RunState) (o : Option String)
      → place r.phase ≡ checkpoint
      → EndsAs r completed
      → Follows r (run_end env w c r o)
  run_end-Follows c r none q e = ends e
  run_end-Follows c r (some text) q e = moves (_, refl, rw q apply_input, refl, refl)

  start_generation-Follows :
      (c : Current) (r : RunState) (cp : CheckpointPhase) (used : Bool)
      → place r.phase ≡ checkpoint
      → Follows r (start_generation env w c r cp used)
  start_generation-Follows c r cp used q = moves (_, refl, rw q generate, refl, refl)

  continue_with-Follows :
      (s : Storage V) (c : Current) (r : RunState) (cp : CheckpointPhase) (k : Continuation)
      → place r.phase ≡ checkpoint
      → is_cancelled r.control ≡ false
      → Drained r.phase r
      → Follows r (continue_with env w s c r cp k)
  continue_with-Follows s c r cp (need_assistant used) q live d =
      if-Follows r _ _ _ (checked-Follows c r cp _ q) (start_generation-Follows c r cp used q)
  continue_with-Follows s c r cp (may_finish included) q live d =
      drain-Follows env s c r follow_up _ _ (rw q (apply_input, apply_input)) (λ no_follow_up.
        run_end-Follows c r _ q
          (q, live, taken_all r.settings.follow_up_mode r.inbox.follow_up no_follow_up, d))

  pub checkpoint_step-Follows :
      (s : Storage V) (c : Current) (r : RunState) (cp : CheckpointPhase)
      → r.phase ≡ RunPhase.checkpoint cp
      → Follows r (checkpoint_step env w s c r cp)
  unfolding checkpoint_step
  checkpoint_step-Follows s c r cp p =
      let q : place r.phase ≡ checkpoint = ap place p in
      let t : Takes r.phase = rw q (apply_input, apply_input) in
      drain-Follows env s c r writes _ _ t (λ no_write.
        if_test-Follows r (is_cancelled r.control) _ _
          (λ stop. ends (
            stop,
            rw q (
                aborted_writes cp.skip_inbox_once (is_cancelled r.control) r.inbox.writes stop
                  no_write),
          ))
          (λ live. drain-Follows env s c r steer _ _ t (λ no_steer.
            continue_with-Follows s c r cp cp.continuation q live
              (subst (λ x. Drained x r) (sym p) (drained cp r live no_write no_steer)))))
