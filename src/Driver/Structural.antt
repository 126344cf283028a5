-- ===== src/Driver/Structural.antt =====
-- src/lane.rs: one step of the shared machinery of a compaction, deciding, generating, published.
use reve.Prelude.{
  ℕ, ◌+◌, String, Bool, true, false, ◌&&◌, not, Option, none, some, List, [], ◌∷◌, ltb, ltb_ℤ,
  unwrap_or, if◌then◌else◌,
}
use reve.Namespace.{lane_leaf}
use reve.Entry.{
  Entry, Write, entry, usage, Usage, no_usage, set_write, compaction_entry, with_id, with_parent,
  new_usage_row,
}
use reve.State.{
  LaneConfiguration, StructuralDecision, StructuralStatus, deciding, generating, SummaryGeneration,
  ready, effect_pending, retry_wait, SummaryContext, summary_context, CompactionReason,
  CompactionPreparation, OperationError, preparation_key,
}
use reve.Storage.{Storage}
use reve.Session.Restore.{Current}
use reve.Compaction.{summary_request}
use reve.Driver.World.{
  Env, World, DriverError, preparation_missing, Response, interrupted, answered, failed,
  preparation,
}
use reve.Driver.Clock.{retry_at}
use reve.Driver.Settle.{is_error}

-- What one structural step produced, and the error that `?` passes on.
pub data Structural (V : Type 0) : Type 0 where
  declined : Structural V
  published : Entry V → List (Write V) → Structural V
  next : StructuralDecision → Structural V
  intent : StructuralDecision → SummaryContext → ℕ → String → Structural V
  unknown : SummaryContext → ℕ → Structural V
  waited : Structural V
  retry : StructuralDecision → Write V → Structural V
  failure : OperationError → Option (Write V) → Structural V
  missing : DriverError → Structural V

abbrev pub decision_at : String → SummaryGeneration → StructuralDecision
decision_at task_id generation = record { task_id = task_id; status = generating generation }

-- The summary and its usage, or why there is none and whether to try again.
pub data Summary : Type 0 where
  summary : String → Usage → Summary
  refused : String → Bool → Summary

-- The reserved id of the compaction entry.
abbrev pub reserved_result : StructuralStatus → String → String
reserved_result deciding follower_id = follower_id
reserved_result (generating generation) follower_id = (summary_context generation).result_entry_id

module _ {V : Type 0} (env : Env V) (w : World V) where
  abbrev pub publication_entry :
      Option String → CompactionPreparation V → String → Bool → String → Entry V
  publication_entry leaf p text from_hook id =
      with_parent
        (with_id (compaction_entry env.json "" text p.retained_tail p.tokens_before from_hook) id)
        leaf

  abbrev pub publication_writes : String → Entry V → String → List (Write V)
  publication_writes lane e id =
      entry e ∷ set_write lane_leaf lane (env.codecs.leaf.to_value (some id)) ∷ []

  abbrev pub summary_of : Response V → Summary
  summary_of interrupted = refused "aborted" false
  summary_of (failed why retryable) = refused why retryable
  summary_of (answered a) =
      if is_error a.stop_reason
      then refused (unwrap_or a.error_message "") false
      else if env.is_blank a.text
      then refused "the model returned an empty summary" true
      else summary a.text a.usage

  -- The request has no tools.
  unfoldable pub request_summary : CompactionPreparation V → Option String → Summary
  unfolding summary_request
  request_summary p custom_instructions =
      let (messages, system) =
        summary_request env.json env.show env.is_blank w.scratch_id p custom_instructions in
      summary_of (w.respond messages system [])

  abbrev pub hook_decision :
      Current
      → StructuralDecision
      → CompactionReason
      → String
      → LaneConfiguration
      → CompactionPreparation V
      → Bool
      → Option String
      → Structural V
  hook_decision c d reason id configuration p true text = declined
  hook_decision c d reason id configuration p false (some text) =
      let e = publication_entry c.leaf p text true id in
      published e (publication_writes c.operation.lane e id)
  hook_decision c d reason id configuration p false none = next (
      decision_at d.task_id (
        ready
          (record {
            task_id = d.task_id;
            result_entry_id = id;
            configuration = configuration;
            retry_policy = w.retry;
            reason = reason;
          })
          1))

  abbrev pub generate : StructuralDecision → SummaryGeneration → Structural V
  generate d (ready context next_attempt) =
      intent (decision_at d.task_id (effect_pending context next_attempt w.usage_id)) context
        next_attempt w.usage_id
  generate d (effect_pending context attempt usage_id) = unknown context attempt
  generate d (retry_wait context next_attempt not_before why) =
      if ltb_ℤ w.now not_before
      then waited
      else next (decision_at d.task_id (ready context next_attempt))

  abbrev pub by_status :
      Current
      → StructuralDecision
      → CompactionReason
      → String
      → LaneConfiguration
      → CompactionPreparation V
      → StructuralStatus
      → Structural V
  by_status c d reason id configuration p deciding =
      let hook = w.before_compaction reason p in
      hook_decision c d reason id configuration p hook.decline hook.summary
  by_status c d reason id configuration p (generating generation) = generate d generation

  abbrev pub prepared :
      String
      → Option (CompactionPreparation V)
      → (CompactionPreparation V → Structural V)
      → Structural V
  prepared key none k = missing (preparation_missing key)
  prepared key (some p) k = k p

  unfoldable pub structural_step :
      Storage V
      → Current
      → StructuralDecision
      → CompactionReason
      → String
      → LaneConfiguration
      → Structural V
  unfolding preparation preparation_key compaction_entry with_id with_parent set_write
  structural_step s c d reason id configuration =
      let key = preparation_key c.operation.operation_id d.task_id in
      prepared key (preparation env s key) (λ p. by_status c d reason id configuration p d.status)

  abbrev pub summarised :
      Current
      → String
      → SummaryContext
      → ℕ
      → String
      → String
      → CompactionPreparation V
      → Summary
      → Structural V
  summarised c task_id context attempt usage_id id p (summary text used) =
      let e = publication_entry c.leaf p text false id in
      published e (
        entry e
        ∷ set_write lane_leaf c.operation.lane (env.codecs.leaf.to_value (some id))
        ∷ usage (new_usage_row usage_id used (some id))
        ∷ [])
  summarised c task_id context attempt usage_id id p (refused why retryable) =
      let row : Write V = usage (new_usage_row usage_id no_usage none) in
      if retryable && (ltb attempt context.retry_policy.max_attempts && not w.stopped)
      then retry
          (decision_at task_id
            (retry_wait context (attempt + 1) (retry_at w.now context.retry_policy attempt) why))
          row
      else failure (record { code = "summary_failed"; message = why }) (some row)

  -- After a committed intent: run the request and decide.
  unfoldable pub summary_effect :
      Storage V
      → Current
      → String
      → SummaryContext
      → ℕ
      → String
      → Option String
      → String
      → Structural V
  unfolding request_summary preparation preparation_key compaction_entry with_id with_parent
      set_write new_usage_row retry_at
  summary_effect s c task_id context attempt usage_id custom_instructions id =
      let key = preparation_key c.operation.operation_id task_id in
      prepared key (preparation env s key) (λ p.
        summarised c task_id context attempt usage_id id p (request_summary p custom_instructions))
