-- ===== src/Driver/Generate.antt =====
-- src/lane.rs: `assistant`, the request for a response, its retries and its recovery.
use reve.Prelude.{
  ℕ, ◌+◌, String, ◌<>◌, Bool, true, false, some, [], filter, contains, ltb, ltb_ℤ, if◌then◌else◌,
}
use reve.State.{
  RunState, assistant, is_cancelled, Generation, ready, effect_pending, retry_wait,
  GenerationContext, Intent,
}
use reve.Storage.{Storage}
use reve.Session.Restore.{Current}
use reve.Model.{Assistant, aborted, error_turn, text_turn}
use reve.Driver.World.{
  Env, World, Move, wait, advance, intend, Response, interrupted, answered, failed, context,
}
use reve.Driver.Inbox.{run_with, abort_finish}
use reve.Driver.Settle.{retryable_prefix, settle_run, settle_assistant}

module _ {V : Type 0} where
  -- An aborted turn has nothing but its reason.
  abbrev pub aborted_turn : String → Assistant V
  aborted_turn why = record (text_turn "") { stop_reason = aborted; error_message = some why }

  -- The error turn of a request that the provider refused, marked if it may be retried.
  abbrev pub refused_turn : String → Bool → Assistant V
  refused_turn why true = error_turn (retryable_prefix <> why)
  refused_turn why false = error_turn why

  abbrev pub turn_of : Response V → Assistant V
  turn_of interrupted = aborted_turn "aborted by the user"
  turn_of (answered a) = a
  turn_of (failed why retryable) = refused_turn why retryable

module _ {V : Type 0} (env : Env V) (w : World V) where
  abbrev pub system_of : Intent → String
  system_of (Intent.run prompt_entry_ids (some system)) = system
  system_of _ = w.system_prompt

  -- `request_assistant`: the transformed context, the system prefix and the active tools.
  unfoldable pub request_assistant : Storage V → Current → GenerationContext → Assistant V
  unfolding context
  request_assistant s c g = turn_of (
      w.respond (w.transform_context (context env s c.operation.lane))
        (system_of c.operation.intent)
        (filter (λ schema. contains g.configuration.active_tool_names schema.0) w.schemas))

  abbrev pub wait_or_start : RunState → GenerationContext → ℕ → Bool → Move V
  wait_or_start r g next_attempt true = wait
  wait_or_start r g next_attempt false = advance (run_with r (assistant (ready g next_attempt))) []

  -- A restored attempt, whose outcome nobody knows: cancelled, tried again, or given up.
  abbrev pub recover :
      Storage V → Current → RunState → GenerationContext → ℕ → String → String → Move V
  recover s c r g attempt id usage_id =
      if is_cancelled r.control
      then settle_run env w s c r g attempt id usage_id
          (aborted_turn "aborted before the response settled")
      else if ltb attempt g.retry_policy.max_attempts
      then advance (run_with r (assistant (ready g (attempt + 1)))) []
      else settle_run env w s c r g attempt id usage_id (
          error_turn (
            "the process was interrupted during attempt "
            <> env.show attempt
            <> " and the retry policy allows no more"))

  -- Intent: the ids of the response and of its usage are reserved, then the request is dispatched.
  unfoldable pub assistant_step : Storage V → Current → RunState → Generation → Move V
  unfolding request_assistant settle_run
  assistant_step s c r (ready g next_attempt) =
      if is_cancelled r.control
      then abort_finish
      else intend (run_with r (assistant (effect_pending g next_attempt w.response_id w.usage_id)))
          []
          (λ later committed.
            settle_assistant env w later committed g next_attempt w.response_id w.usage_id
              (request_assistant later committed g))
  assistant_step s c r (effect_pending g attempt id usage_id) = recover s c r g attempt id usage_id
  assistant_step s c r (retry_wait g next_attempt not_before why) =
      if is_cancelled r.control
      then abort_finish
      else wait_or_start r g next_attempt (ltb_ℤ w.now not_before)
