-- ===== src/Driver/Graph.antt =====
-- The graph of the phases of a run (docs/harness.md, 3.5), which the driver of src/lane.rs walks.
use reve.Prelude.{String, refl, [], ◌⊎◌, ◌≡◌, Bool, true, false, List, if◌then◌else◌}
use reve.Entry.{Write}
use reve.State.{
  OperationState, RunState, RunPhase, Outcome, completed, aborted, failed, declined, is_cancelled,
}
use reve.Storage.{Storage}
use reve.Session.Restore.{Current}
use reve.Driver.World.{Move, fail, wait, advance, intend, finish, Ending, DriverError}

pub data Place : Type 0 where
  checkpoint assistant tools compaction failure_drain : Place

abbrev pub place : RunPhase → Place
place (RunPhase.checkpoint cp) = checkpoint
place (RunPhase.assistant generation) = assistant
place (RunPhase.tools batch) = tools
place (RunPhase.compaction reason structural resume_after) = compaction
place (RunPhase.failure_drain error provenance) = failure_drain

infix 40 ◌⟶◌
pub data ◌⟶◌ : Place → Place → Type 0 where
  apply_input : checkpoint ⟶ checkpoint
  generate : checkpoint ⟶ assistant
  over_threshold : checkpoint ⟶ compaction
  attempt : assistant ⟶ assistant
  call_tools : assistant ⟶ tools
  overflow : assistant ⟶ compaction
  stop : assistant ⟶ checkpoint
  give_up : assistant ⟶ failure_drain
  settle_call : tools ⟶ tools
  batch_complete : tools ⟶ checkpoint
  decide : compaction ⟶ compaction
  resume : compaction ⟶ checkpoint
  decline : compaction ⟶ failure_drain
  keep_failing : failure_drain ⟶ failure_drain
  revive : failure_drain ⟶ checkpoint

-- Whether a phase skips the inbox once.
abbrev pub skips : RunPhase → Bool
skips (RunPhase.checkpoint cp) = cp.skip_inbox_once
skips (RunPhase.assistant generation) = false
skips (RunPhase.tools batch) = false
skips (RunPhase.compaction reason structural resume_after) = false
skips (RunPhase.failure_drain error provenance) = false

-- Where an abort may end a run, and what it may leave of the deferred writes: nothing where the inbox is
-- drained, and nowhere in a batch of tools.
abbrev pub Stops : Place → List String → Type 0
Stops checkpoint writes = writes ≡ []
Stops assistant writes = Unit
Stops tools writes = ⊥
Stops compaction writes = Unit
Stops failure_drain writes = writes ≡ []

-- When a run may end, and how.
abbrev pub EndsAs : RunState → Outcome → Type 0
EndsAs r completed =
    (place r.phase ≡ checkpoint)
    × (is_cancelled r.control ≡ false)
    × (r.inbox.follow_up ≡ [])
    × ((skips r.phase ≡ true) ⊎ ((r.inbox.writes ≡ []) × (r.inbox.steer ≡ [])))
EndsAs r aborted = (is_cancelled r.control ≡ true) × Stops (place r.phase) r.inbox.writes
EndsAs r failed =
    (place r.phase ≡ failure_drain)
    × (is_cancelled r.control ≡ false)
    × (r.inbox.writes ≡ [])
    × (r.inbox.steer ≡ [])
    × (r.inbox.follow_up ≡ [])
EndsAs r declined = ⊥

-- A state that a run may go to: an edge away, under the same control and settings.
abbrev pub Moves : RunState → OperationState → Type 0
Moves r next =
    (r' : RunState) × (next ≡ OperationState.run r')
    × (place r.phase ⟶ place r'.phase)
    × (r'.control ≡ r.control)
    × (r'.settings ≡ r.settings)

module _ {V : Type 0} where
  -- The states that a move commits, with the run that each is planned from. An effect is planned again, from
  -- the run as it was reloaded: still in the phase of its intent, whatever its inbox and its control.
  pub data Commits : RunState → Move V → RunState → OperationState → Type 0 where
    at_once :
        {r : RunState} {next : OperationState} {ws : List (Write V)}
        → Commits r (advance next ws) r next
    intent :
        {r : RunState} {next : OperationState} {ws : List (Write V)}
        {k : Storage V → Current → Move V}
        → Commits r (intend next ws k) r next
    effect :
        {r r1 r' r'' : RunState} {next : OperationState} {ws : List (Write V)}
        {k : Storage V → Current → Move V} (s : Storage V) (c : Current)
        → c.state ≡ OperationState.run r'
        → r'.phase ≡ r1.phase
        → Commits r' (k s c) r'' next
        → Commits r (intend (OperationState.run r1) ws k) r'' next

  -- The outcomes that a move ends the operation with, before or after its effect, with the run that the
  -- ending is planned from.
  pub data Finishes : RunState → Move V → RunState → Outcome → Type 0 where
    finishes : {r : RunState} {e : Ending V} → Finishes r (finish e) r e.outcome
    later :
        {r r1 r' r'' : RunState} {o : Outcome} {ws : List (Write V)}
        {k : Storage V → Current → Move V} (s : Storage V) (c : Current)
        → c.state ≡ OperationState.run r'
        → r'.phase ≡ r1.phase
        → Finishes r' (k s c) r'' o
        → Finishes r (intend (OperationState.run r1) ws k) r'' o

  -- The same of all that a move may come to, which is what the proofs go by.
  pub data Follows : RunState → Move V → Type 0 where
    fails : {r : RunState} {e : DriverError} → Follows r (fail e)
    waits : {r : RunState} → Follows r wait
    moves :
        {r : RunState} {next : OperationState} {ws : List (Write V)}
        → Moves r next
        → Follows r (advance next ws)
    plans :
        {r r1 : RunState} {ws : List (Write V)} {k : Storage V → Current → Move V}
        → Moves r (OperationState.run r1)
        → ((s : Storage V) (c : Current) (r' : RunState)
            → c.state ≡ OperationState.run r'
            → r'.phase ≡ r1.phase
            → Follows r' (k s c))
        → Follows r (intend (OperationState.run r1) ws k)
    ends : {r : RunState} {e : Ending V} → EndsAs r e.outcome → Follows r (finish e)

  pub Commits-Moves :
      (r r' : RunState) (m : Move V) (next : OperationState)
      → Follows r m
      → Commits r m r' next
      → Moves r' next
  Commits-Moves r r' m next (moves f) at_once = f
  Commits-Moves r r' m next (plans f g) intent = f
  Commits-Moves r r' m next (plans f g) (effect s c p q rest) =
      Commits-Moves _ r' _ next (g s c _ p q) rest
  Commits-Moves r r' _ next fails h = elim h [ ]
  Commits-Moves r r' _ next waits h = elim h [ ]
  Commits-Moves r r' _ next (ends f) h = elim h [ ]

  pub Finishes-EndsAs :
      (r r' : RunState) (m : Move V) (o : Outcome) → Follows r m → Finishes r m r' o → EndsAs r' o
  Finishes-EndsAs r r' m o (ends f) finishes = f
  Finishes-EndsAs r r' m o (plans f g) (later {r' = again} s c own same rest) =
      Finishes-EndsAs again r' _ o (g s c again own same) rest
  Finishes-EndsAs r r' _ o fails h = elim h [ ]
  Finishes-EndsAs r r' _ o waits h = elim h [ ]
  Finishes-EndsAs r r' _ o (moves f) h = elim h [ ]

  -- A branch, with what its test came to.
  pub if_test-Follows :
      (r : RunState) (b : Bool) (m n : Move V)
      → (b ≡ true → Follows r m)
      → (b ≡ false → Follows r n)
      → Follows r (if b then m else n)
  if_test-Follows r true m n f g = f refl
  if_test-Follows r false m n f g = g refl

  pub if-Follows :
      (r : RunState) (b : Bool) (m n : Move V)
      → Follows r m
      → Follows r n
      → Follows r (if b then m else n)
  if-Follows r b m n f g = if_test-Follows r b m n (λ t. f) (λ t. g)
