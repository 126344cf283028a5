-- ===== src/Driver/Inbox.antt =====
-- src/lane.rs: queued content takes its place in the conversation, at a checkpoint or in a failure's drain.
use reve.Prelude.{
  String, Bool, true, false, ◌&&◌, ◌||◌, not, Option, none, some, List, [], ◌∷◌, ◌++◌, take, filter,
  contains, str_eq, ◌⊎◌, inl, inr, if◌then◌else◌,
}
use reve.Namespace.{lane_leaf, pending_entry}
use reve.Entry.{Entry, Write, entry, set_write, delete_write, with_parent, with_id}
use reve.State.{
  aborted, failed, OperationState, RunState, RunPhase, checkpoint, then_assistant, is_cancelled,
  QueueMode, all, one_at_a_time, OperationError, PendingEntry, into_entry, Inbox,
}
use reve.Storage.{Storage}
use reve.Session.Restore.{Current}
use reve.Driver.World.{
  Env, Move, fail, advance, finish, ending, DriverError, pending_missing, pending,
}

pub data InboxKind : Type 0 where
  writes steer follow_up : InboxKind

abbrev pub take_queue : QueueMode → List String → List String
take_queue all queue = queue
take_queue one_at_a_time queue = take 1 queue

abbrev pub without : List String → List String → List String
without ids = filter λ id. not (contains ids id)

-- `remove`, on the queue that the kind names.
abbrev pub removed : InboxKind → List String → Inbox → Inbox
removed writes ids i = record i { writes = without ids i.writes }
removed steer ids i = record i { steer = without ids i.steer }
removed follow_up ids i = record i { follow_up = without ids i.follow_up }

-- What `placement_writes` returns: the writes, the newest id, and the entries.
pub record Placed (V : Type 0) : Type 0 where
  pub placed_writes : List (Write V)
  pub newest : Option String
  pub placed : List (Entry V)

-- `run_with`.
abbrev pub run_with : RunState → RunPhase → OperationState
run_with r phase = OperationState.run (record r { phase = phase })

abbrev pub skip_once : RunPhase → RunPhase
skip_once (checkpoint cp) = checkpoint (record cp { skip_inbox_once = true })
skip_once phase = phase

-- A message restarts the conversation; other content, or a cancelled drain, keeps the phase.
abbrev pub phase_after : Bool → Option String → RunPhase → RunPhase
phase_after restarts none phase = skip_once phase
phase_after false (some newest) phase = skip_once phase
phase_after true (some newest) phase =
    checkpoint (record (then_assistant newest) { skip_inbox_once = true })

abbrev pub abort_finish : {V : Type 0} → Move V
abort_finish = finish (ending aborted none)

module _ {V : Type 0} (env : Env V) where
  abbrev pub also : {E : Type 0} → Entry V → List (Write V) → E ⊎ Placed V → E ⊎ Placed V
  also e ws (inl error) = inl error
  also e ws (inr p) =
      inr (record p { placed_writes = ws ++ p.placed_writes; placed = e ∷ p.placed })

  abbrev pub place_one : String → Option String → Option (PendingEntry V) → DriverError ⊎ Entry V
  place_one id parent none = inl (pending_missing id)
  place_one id parent (some content) = inr (with_parent (into_entry env.json "" content id) parent)

  -- The loop of `placement_writes`.
  unfoldable pub place_all : Storage V → Option String → List String → DriverError ⊎ Placed V
  unfolding pending into_entry with_parent with_id delete_write
  place_all s parent [] = inr (record { placed_writes = []; newest = parent; placed = [] })
  place_all s parent (id ∷ ids) =
      let rest = place_all s (some id) ids in
      elim (place_one id parent (pending env s id)) [
        | inl error ↦ inl error
        | inr e ↦ also e (entry e ∷ delete_write pending_entry id ∷ []) rest
      ]

  abbrev pub with_leaf : String → List String → Placed V → Placed V
  with_leaf lane [] p = p
  with_leaf lane (id ∷ ids) p = record p {
    placed_writes =
        p.placed_writes ++ set_write lane_leaf lane (env.codecs.leaf.to_value p.newest) ∷ [];
  }

  abbrev pub placed_with : String → List String → DriverError ⊎ Placed V → DriverError ⊎ Placed V
  placed_with lane ids (inl error) = inl error
  placed_with lane ids (inr p) = inr (with_leaf lane ids p)

  unfoldable pub placement_writes :
      Storage V → String → Option String → List String → DriverError ⊎ Placed V
  unfolding place_all set_write
  placement_writes s lane leaf ids = placed_with lane ids (place_all s leaf ids)

  abbrev pub projects : List (Entry V) → Bool
  projects [] = false
  projects (e ∷ es) = str_eq e.entry_type "message" || projects es

  abbrev pub applied : RunState → List String → InboxKind → DriverError ⊎ Placed V → Move V
  applied r ids kind (inl error) = fail error
  applied r ids kind (inr p) =
      advance
        (OperationState.run (record r {
          inbox = removed kind ids r.inbox;
          phase = phase_after (projects p.placed && not (is_cancelled r.control)) p.newest r.phase;
        }))
        p.placed_writes

  unfoldable pub apply_inbox : Storage V → Current → RunState → List String → InboxKind → Move V
  unfolding placement_writes
  apply_inbox s c r ids kind = applied r ids kind (placement_writes s c.operation.lane c.leaf ids)

  -- A queue that has content is applied, otherwise what comes next.
  abbrev pub drain : Storage V → Current → RunState → InboxKind → List String → Move V → Move V
  drain s c r kind [] next = next
  drain s c r kind (id ∷ ids) next = apply_inbox s c r (id ∷ ids) kind

  unfoldable pub failure_drain_step : Storage V → Current → RunState → OperationError → Move V
  unfolding apply_inbox
  failure_drain_step s c r error = drain s c r writes r.inbox.writes (
      if is_cancelled r.control
      then abort_finish
      else drain s c r steer (take_queue r.settings.steering_mode r.inbox.steer) (
          drain s c r follow_up (take_queue r.settings.follow_up_mode r.inbox.follow_up)
            (finish (ending failed (some error)))))
