-- ===== src/Driver/Sound/Phase.antt =====
-- The invariant of the phases of src/lane.rs, and how the proofs follow it through a move.
use reve.Prelude.{
  ◌+◌, ◌<◌, sym, subst, ℕ, max, ◌≤◌, ◌≡◌, refl, Bool, true, false, List, map, length, if◌then◌else◌,
}
use reve.Entry.{Write}
use reve.State.{
  OperationState, RunState, RunPhase, RetryPolicy, Generation, generation_context, summary_context,
  StructuralStatus, deciding, generating, SummaryGeneration, source_index, ToolBatch,
}
use reve.Storage.{Storage}
use reve.Session.Checks.{range_from}
use reve.Session.Restore.{Current}
use reve.Driver.World.{Move, fail, wait, advance, intend, finish, Ending, DriverError}
use reve.Driver.Graph.{Commits, at_once, intent, effect}

-- The first attempt is always made; after that the policy counts.
abbrev pub Within : ℕ → RetryPolicy → Type 0
Within attempt policy = attempt ≤ max 1 policy.max_attempts

abbrev pub Attempt : Generation → Type 0
Attempt (Generation.ready g n) = Within n g.retry_policy
Attempt (Generation.effect_pending g n id usage_id) = Within n g.retry_policy
Attempt (Generation.retry_wait g n not_before why) = Within n g.retry_policy

abbrev pub SummaryAttempt : StructuralStatus → Type 0
SummaryAttempt deciding = Unit
SummaryAttempt (generating (SummaryGeneration.ready g n)) = Within n g.retry_policy
SummaryAttempt (generating (SummaryGeneration.effect_pending g n usage_id)) =
    Within n g.retry_policy
SummaryAttempt (generating (SummaryGeneration.retry_wait g n not_before why)) =
    Within n g.retry_policy

abbrev pub Covers : ToolBatch → Type 0
Covers batch = map source_index batch.calls ≡ range_from 0 (length batch.calls)

abbrev pub IsSound : RunPhase → Type 0
IsSound (RunPhase.checkpoint cp) = Unit
IsSound (RunPhase.assistant generation) = Attempt generation
IsSound (RunPhase.tools batch) = Covers batch
IsSound (RunPhase.compaction reason structural resume_after) = SummaryAttempt structural.status
IsSound (RunPhase.failure_drain error provenance) = Unit

-- How far the attempts at a response have come: waiting for an attempt, ready for it, started.
abbrev pub stage : Generation → ℕ
stage (Generation.retry_wait g n not_before why) = n + n + n
stage (Generation.ready g n) = n + n + n + 1
stage (Generation.effect_pending g n id usage_id) = n + n + n + 2

-- The same of a summary, which is decided on first.
abbrev pub summary_stage : StructuralStatus → ℕ
summary_stage deciding = 0
summary_stage (generating (SummaryGeneration.retry_wait g n not_before why)) = n + n + n + 1
summary_stage (generating (SummaryGeneration.ready g n)) = n + n + n + 2
summary_stage (generating (SummaryGeneration.effect_pending g n usage_id)) = n + n + n + 3

abbrev pub SameSummary : StructuralStatus → StructuralStatus → Type 0
SameSummary deciding status = Unit
SameSummary (generating g) deciding = ⊥
SameSummary (generating g) (generating g') = summary_context g' ≡ summary_context g

-- A later stage of the same summary.
abbrev pub Later : StructuralStatus → StructuralStatus → Type 0
Later status status' = SameSummary status status' × (summary_stage status < summary_stage status')

abbrev pub AfterResponse : Generation → RunPhase → Type 0
AfterResponse g (RunPhase.checkpoint cp) = Unit
AfterResponse g (RunPhase.assistant g') =
    (generation_context g' ≡ generation_context g) × (stage g < stage g')
AfterResponse g (RunPhase.tools batch) = Unit
AfterResponse g (RunPhase.compaction reason structural resume_after) = Unit
AfterResponse g (RunPhase.failure_drain error provenance) = Unit

abbrev pub AfterCall : ToolBatch → RunPhase → Type 0
AfterCall batch (RunPhase.checkpoint cp) = Unit
AfterCall batch (RunPhase.assistant g) = Unit
AfterCall batch (RunPhase.tools batch') =
    (batch'.assistant_entry_id ≡ batch.assistant_entry_id)
    × (length batch'.calls ≡ length batch.calls)
AfterCall batch (RunPhase.compaction reason structural resume_after) = Unit
AfterCall batch (RunPhase.failure_drain error provenance) = Unit

abbrev pub AfterSummary : StructuralStatus → RunPhase → Type 0
AfterSummary status (RunPhase.checkpoint cp) = Unit
AfterSummary status (RunPhase.assistant g) = Unit
AfterSummary status (RunPhase.tools batch) = Unit
AfterSummary status (RunPhase.compaction reason structural resume_after) =
    Later status structural.status
AfterSummary status (RunPhase.failure_drain error provenance) = Unit

-- What a phase goes to: a later stage of the same response or summary, the same batch, or another phase.
abbrev pub Advances : RunPhase → RunPhase → Type 0
Advances (RunPhase.checkpoint cp) next = Unit
Advances (RunPhase.assistant g) next = AfterResponse g next
Advances (RunPhase.tools batch) next = AfterCall batch next
Advances (RunPhase.compaction reason structural resume_after) next =
    AfterSummary structural.status next
Advances (RunPhase.failure_drain error provenance) next = Unit

-- A state that is a run in a sound phase that the given one goes to.
abbrev pub SoundRun : RunPhase → OperationState → Type 0
SoundRun p next =
    (r : RunState) × (next ≡ OperationState.run r) × IsSound r.phase × Advances p r.phase

module _ {V : Type 0} where
  pub data Keeps : RunPhase → Move V → Type 0 where
    fails : {p : RunPhase} {e : DriverError} → Keeps p (fail e)
    waits : {p : RunPhase} → Keeps p wait
    ends : {p : RunPhase} {e : Ending V} → Keeps p (finish e)
    keeps :
        {p : RunPhase} {r : RunState} {ws : List (Write V)}
        → IsSound r.phase
        → Advances p r.phase
        → Keeps p (advance (OperationState.run r) ws)
    plans :
        {p : RunPhase} {r : RunState} {ws : List (Write V)} {k : Storage V → Current → Move V}
        → IsSound r.phase
        → Advances p r.phase
        → ((s : Storage V) (c : Current) (r' : RunState)
            → c.state ≡ OperationState.run r'
            → r'.phase ≡ r.phase
            → Keeps r.phase (k s c))
        → Keeps p (intend (OperationState.run r) ws k)

  pub Commits-SoundRun :
      (r r' : RunState) (p : RunPhase) (m : Move V) (next : OperationState)
      → r.phase ≡ p
      → Keeps p m
      → Commits r m r' next
      → SoundRun r'.phase next
  Commits-SoundRun r r' p m next q (keeps {r = r1} f a) at_once =
      (_, refl, f, subst (λ x. Advances x r1.phase) (sym q) a)
  Commits-SoundRun r r' p m next q (plans {r = r1} f a g) intent =
      (_, refl, f, subst (λ x. Advances x r1.phase) (sym q) a)
  Commits-SoundRun r r' p m next q (plans f a g) (effect {r' = again} s c own same rest) =
      Commits-SoundRun again r' _ _ next same (g s c again own same) rest
  Commits-SoundRun r r' p _ next q fails h = elim h [ ]
  Commits-SoundRun r r' p _ next q waits h = elim h [ ]
  Commits-SoundRun r r' p _ next q ends h = elim h [ ]

  pub if-Keeps :
      (p : RunPhase) (b : Bool) (m n : Move V)
      → Keeps p m
      → Keeps p n
      → Keeps p (if b then m else n)
  if-Keeps p true m n f g = f
  if-Keeps p false m n f g = g
