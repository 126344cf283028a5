-- ===== src/Driver/Walk/Turn.antt =====
-- The generation of a response (src/lane.rs) follows the graph.
use reve.Prelude.{
  ℕ, ◌+◌, ap, ◌≡◌, refl, String, ◌<>◌, Bool, true, false, ◌||◌, not, Option, none, some, List, [],
  is_empty, ltb, if◌then◌else◌, arith, sym, subst,
}
use reve.Entry.{Write}
use reve.State.{
  RunState, RunPhase, Generation, GenerationContext, is_cancelled, CompactionPreparation,
}
use reve.Storage.{Storage}
use reve.Session.Restore.{Current}
use reve.Model.{Assistant, error_turn}
use reve.Driver.World.{Env, World, advance}
use reve.Driver.Inbox.{run_with}
use reve.Driver.Settle.{
  Settled, settled, classify, commit_settled, settle_run, settle_state, overflow_phase, recovery,
  error_phase, is_error, normalised, is_marked,
}
use reve.Driver.Generate.{assistant_step, recover, aborted_turn, wait_or_start, request_assistant}
use reve.Driver.Graph.{
  assistant, place, ◌⟶◌, attempt, call_tools, overflow, stop, give_up, Follows, waits, moves, plans,
  ends, if_test-Follows, if-Follows,
}

module _ {V : Type 0} (env : Env V) (w : World V) where
  error_phase-⟶ :
      (g : GenerationContext) (n : ℕ) (id : String) (retryable : Bool) (why : Option String)
      → assistant ⟶ place (error_phase env w g n id retryable why)
  error_phase-⟶ g n id retryable why = ground (arith, attempt, give_up)

  -- Where a classified response leads.
  data Leads : Settled V → Type 0 where
    leads :
        {a : Assistant V} {p : RunPhase} {ws : List (Write V)}
        → assistant ⟶ place p
        → Leads (settled a p ws)

  if-Leads : (b : Bool) (x y : Settled V) → Leads x → Leads y → Leads (if b then x else y)
  if-Leads true x y f g = f
  if-Leads false x y f g = g

  overflow_phase-Leads :
      (c : Current) (g : GenerationContext) (id : String) (a : Assistant V)
      (p : Option (CompactionPreparation V))
      → Leads (overflow_phase env w c g id a p)
  overflow_phase-Leads c g id a none = leads give_up
  overflow_phase-Leads c g id a (some p) = leads overflow

  commit_settled-Follows :
      (c : Current) (r : RunState) (id usage_id : String) (x : Settled V)
      → place r.phase ≡ assistant
      → Leads x
      → Follows r (commit_settled env w c r id usage_id x)
  commit_settled-Follows c r id usage_id (settled a p ws) q (leads e) =
      moves (_, refl, rw q e, refl, refl)

  classify-Leads :
      (s : Storage V) (c : Current) (r : RunState) (g : GenerationContext) (n : ℕ) (id : String)
      (cancelled retryable : Bool) (a : Assistant V)
      → Leads (classify env w s c r g n id cancelled retryable a)
  unfolding classify
  classify-Leads s c r g n id cancelled retryable a = if-Leads cancelled _ _ (leads stop) (
      if-Leads _ _ _ (overflow_phase-Leads c g id a (recovery env w s c r g)) (
        if-Leads (is_error a.stop_reason) _ _
          (leads (error_phase-⟶ g n id retryable a.error_message))
          (if-Leads (not (is_empty a.tool_calls)) _ _ (leads call_tools) (leads stop))))

  settle_run-Follows :
      (s : Storage V) (c : Current) (r : RunState) (g : GenerationContext) (n : ℕ)
      (id usage_id : String) (a : Assistant V)
      → place r.phase ≡ assistant
      → Follows r (settle_run env w s c r g n id usage_id a)
  unfolding settle_run
  settle_run-Follows s c r g n id usage_id a q =
      let cancelled = is_cancelled r.control || w.stopped in
      let turn = normalised env w cancelled a in
      commit_settled-Follows c r id usage_id
        (classify env w s c r g n id cancelled (is_marked a.error_message) turn) q
        (classify-Leads s c r g n id cancelled (is_marked a.error_message) turn)

  wait_or_start-Follows :
      (r : RunState) (g : GenerationContext) (n : ℕ) (b : Bool)
      → place r.phase ≡ assistant
      → Follows r (wait_or_start env w r g n b)
  wait_or_start-Follows r g n true q = waits
  wait_or_start-Follows r g n false q = moves (_, refl, rw q attempt, refl, refl)

  restart-Follows :
      (r : RunState) (g : GenerationContext) (n : ℕ)
      → place r.phase ≡ assistant
      → Follows {V = V} r (advance (run_with r (RunPhase.assistant (Generation.ready g n))) [])
  restart-Follows r g n q = moves (_, refl, rw q attempt, refl, refl)

  recover-Follows :
      (s : Storage V) (c : Current) (r : RunState) (g : GenerationContext) (n : ℕ)
      (id usage_id : String)
      → place r.phase ≡ assistant
      → Follows r (recover env w s c r g n id usage_id)
  recover-Follows s c r g n id usage_id q =
      if-Follows r (is_cancelled r.control) _ _
        (settle_run-Follows s c r g n id usage_id
          (aborted_turn "aborted before the response settled") q)
        (if-Follows r (ltb n g.retry_policy.max_attempts) _ _ (restart-Follows r g (n + 1) q) (
          settle_run-Follows s c r g n id usage_id
            (error_turn (
              "the process was interrupted during attempt "
              <> env.show n
              <> " and the retry policy allows no more"))
            q))

  pub assistant_step-Follows :
      (s : Storage V) (c : Current) (r : RunState) (g : Generation)
      → place r.phase ≡ assistant
      → Follows r (assistant_step env w s c r g)
  unfolding assistant_step
  assistant_step-Follows s c r (Generation.ready g n) q =
      if_test-Follows r (is_cancelled r.control) _ _ (λ stop. ends (stop, rw q tt))
        (λ live.
          plans (_, refl, rw q attempt, refl, refl)
            (λ later c' r' p same.
              let turn = request_assistant env w later c' g in
              subst
                (λ st.
                  Follows r' (settle_state env w later c' g n w.response_id w.usage_id turn st))
                (sym p)
                (settle_run-Follows later c' r' g n w.response_id w.usage_id turn (ap place same))))
  assistant_step-Follows s c r (Generation.effect_pending g n id usage_id) q =
      recover-Follows s c r g n id usage_id q
  assistant_step-Follows s c r (Generation.retry_wait g n not_before why) q =
      if_test-Follows r (is_cancelled r.control) _ _ (λ stop. ends (stop, rw q tt))
        (λ live. wait_or_start-Follows r g n _ q)
