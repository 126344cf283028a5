-- ===== src/Driver/Settle.antt =====
-- src/lane.rs: `settle_assistant`, which classifies a response and plans its commit.
use text.Mathlib.Text.{starts_with, find?, get?}
use Prim.Native.String.{len}
use reve.Prelude.{
  ℕ, ◌+◌, String, Bool, true, false, ◌&&◌, ◌||◌, not, Option, none, some, List, [], ◌∷◌, map,
  length, ltb, is_some, is_empty, unwrap_or, if◌then◌else◌,
}
use reve.Namespace.{lane_leaf, op_preparation}
use reve.Entry.{
  Entry, Write, entry, usage, set_write, message_entry, with_id, with_parent, new_usage_row,
}
use reve.State.{
  OperationState, RunState, RunPhase, assistant, tools, checkpoint, failure_drain, then_finish,
  need_assistant, is_cancelled, overflow, CompactionPreparation, retry_wait, GenerationContext,
  preparation_key, deciding, planned, response,
}
use reve.Storage.{Storage}
use reve.Session.Checks.{range_from}
use reve.Session.Restore.{Current}
use reve.Compaction.{prepare}
use reve.Model.{Assistant, StopReason, error, aborted, message}
use reve.Driver.World.{Env, World, Move, fail, advance, unreachable, context}
use reve.Driver.Clock.{retry_at}

-- Marks a message whose transport called it retryable.
abbrev pub retryable_prefix : String
retryable_prefix = "\0retryable\0"

-- Context-limit failures, as providers phrase them.
abbrev pub needles : List String
needles =
    "context_length_exceeded" ∷ "context window" ∷ "context length" ∷ "maximum context"
    ∷ "prompt is too long" ∷ "too many tokens" ∷ "input is too long"
    ∷ "exceeds the maximum number of tokens" ∷ []

abbrev pub any_in : List String → String → Bool
any_in [] m = false
any_in (n ∷ ns) m = is_some (find? m n) || any_in ns m

unfoldable pub is_context_overflow : (String → String) → String → Bool
is_context_overflow lower m = any_in needles (lower m)

abbrev pub is_error : StopReason → Bool
is_error error = true
is_error _ = false

abbrev pub is_aborted : StopReason → Bool
is_aborted aborted = true
is_aborted _ = false

-- `is_some_and`.
abbrev pub some_and : (String → Bool) → Option String → Bool
some_and f none = false
some_and f (some m) = f m

unfoldable pub is_marked : Option String → Bool
is_marked = some_and (λ m. starts_with m retryable_prefix)

unfoldable pub strip_mark : Option String → Option String
strip_mark none = none
strip_mark (some m) =
    if starts_with m retryable_prefix
    then some (unwrap_or (get? m (len retryable_prefix) (len m)) m)
    else some m

abbrev pub failure : String → Option String → String → RunPhase
failure code why response_id =
    failure_drain (record { code = code; message = unwrap_or why "" }) (response response_id)

-- A response as it is committed, the phase that follows, and the writes that the phase needs.
pub data Settled (V : Type 0) : Type 0 where
  settled : Assistant V → RunPhase → List (Write V) → Settled V

module _ {V : Type 0} (env : Env V) (w : World V) where
  -- The marker goes, and only the harness's own signal may say `aborted`.
  unfoldable pub normalised : Bool → Assistant V → Assistant V
  unfolding strip_mark
  normalised cancelled a = record a {
    error_message = strip_mark a.error_message;
    stop_reason = if is_aborted a.stop_reason && not cancelled then error else a.stop_reason;
  }

  abbrev pub overflow_phase :
      Current
      → GenerationContext
      → String
      → Assistant V
      → Option (CompactionPreparation V)
      → Settled V
  overflow_phase c g id a none = settled a (failure "context_overflow" a.error_message id) []
  overflow_phase c g id a (some p) =
      settled a
        (RunPhase.compaction overflow (record { task_id = w.task_id; status = deciding })
          (record {
            continuation = need_assistant true;
            trigger_entry_id = g.trigger_entry_id;
            threshold_checked_trigger_entry_id = some g.trigger_entry_id;
            skip_inbox_once = false;
          }))
        (set_write op_preparation (preparation_key c.operation.operation_id w.task_id)
            (env.preparation.to_value p)
          ∷ [])

  abbrev pub recovery :
      Storage V → Current → RunState → GenerationContext → Option (CompactionPreparation V)
  recovery s c r g =
      if g.overflow_recovery_used
      then none
      else prepare env.json env.show (context env s c.operation.lane) r.settings.compaction

  abbrev pub error_phase : GenerationContext → ℕ → String → Bool → Option String → RunPhase
  error_phase g attempt id retryable why =
      if retryable && ltb attempt g.retry_policy.max_attempts
      then assistant
          (retry_wait g (attempt + 1) (retry_at w.now g.retry_policy attempt) (unwrap_or why ""))
      else failure (if retryable then "retries_exhausted" else "provider_error") why id

  abbrev pub batch_phase : GenerationContext → String → ℕ → RunPhase
  batch_phase g id calls = tools (record {
    assistant_entry_id = id;
    configuration = g.configuration;
    turn_id = g.step_id;
    calls = map (λ index. planned index (w.call_id index)) (range_from 0 calls);
  })

  -- The classification, in the order of the code; `a` is the normalised response.
  unfoldable pub classify :
      Storage V
      → Current
      → RunState
      → GenerationContext
      → ℕ
      → String
      → Bool
      → Bool
      → Assistant V
      → Settled V
  unfolding context prepare set_write preparation_key retry_at is_context_overflow
  classify s c r g attempt id cancelled retryable a =
      if cancelled
      then settled (record a { stop_reason = aborted }) (checkpoint (then_finish id true)) []
      else if is_error a.stop_reason && some_and (is_context_overflow env.lower) a.error_message
      then overflow_phase c g id a (recovery s c r g)
      else if is_error a.stop_reason
      then settled a (error_phase g attempt id retryable a.error_message) []
      else if not (is_empty a.tool_calls)
      then settled a (batch_phase g id (length a.tool_calls)) []
      else settled a (checkpoint (then_finish id true)) []

  abbrev pub response_entry : Current → String → Assistant V → Entry V
  response_entry c id a =
      with_parent
        (with_id (message_entry "" (message env.json env.codecs.stop env.codecs.usage a)) id) c.leaf

  abbrev pub commit_settled : Current → RunState → String → String → Settled V → Move V
  commit_settled c r id usage_id (settled turn phase extra) =
      advance (OperationState.run (record r { phase = phase; latest_assistant_entry_id = some id }))
        (entry (response_entry c id turn)
          ∷ set_write lane_leaf c.operation.lane (env.codecs.leaf.to_value (some id))
          ∷ usage (new_usage_row usage_id turn.usage (some id))
          ∷ extra)

  -- `settle_assistant`, on the run of the current state.
  unfoldable pub settle_run :
      Storage V
      → Current
      → RunState
      → GenerationContext
      → ℕ
      → String
      → String
      → Assistant V
      → Move V
  unfolding classify normalised is_marked message_entry message with_id with_parent new_usage_row
      set_write
  settle_run s c r g attempt id usage_id a =
      let cancelled = is_cancelled r.control || w.stopped in
      commit_settled c r id usage_id
        (classify s c r g attempt id cancelled (is_marked a.error_message) (normalised cancelled a))

  abbrev pub settle_state :
      Storage V
      → Current
      → GenerationContext
      → ℕ
      → String
      → String
      → Assistant V
      → OperationState
      → Move V
  settle_state s c g attempt id usage_id a (OperationState.run r) =
      settle_run s c r g attempt id usage_id a
  settle_state s c g attempt id usage_id a (OperationState.compaction x) = fail unreachable
  settle_state s c g attempt id usage_id a (OperationState.navigation x) = fail unreachable

  abbrev pub settle_assistant :
      Storage V → Current → GenerationContext → ℕ → String → String → Assistant V → Move V
  settle_assistant s c g attempt id usage_id a = settle_state s c g attempt id usage_id a c.state
