-- ===== src/Harness/Race.antt =====
-- Races between the calls of src/harness.rs.
use reve.Prelude.{ℕ, ◌+◌, ◌<◌, ◌≡◌, ℤ, String, none, some, List, [], ◌∷◌, length, u64_mod}
use reve.Json.{Json}
use reve.Namespace.{RegisterKey, register_key, lane_state, op_state}
use reve.Entry.{Write, CommitResult}
use reve.State.{OperationState, Intent, PendingEntry}
use reve.Storage.{Storage, Wire, Io}
use reve.Storage.Tokens.{Bounded}
use reve.Session.{Owner, Expect, ok, commit_if}
use reve.Session.Race.{loser_writes_nothing}
use reve.Session.Restore.{Codecs, Current, suspended, restore}
use reve.Harness.{submit, Queue, enqueue_plan, abort_plan, start_plan}
use reve.Harness.Claims.{Leases, start_plan-Leases, abort_plan-Leases, enqueue_plan-Leases}

module _ {V : Type 0} (json : Json V) (codecs : Codecs V) (show : ℕ → String) (wire : Wire V) where
  race :
      (outcome outcome' : Io) (now now' : ℤ) (o : Owner V) (k : RegisterKey) (e e' : Expect)
      (tx tx' : List (Write V)) (c : CommitResult)
      → Bounded o.storage
      → o.storage.seq + length tx < u64_mod
      → Leases json codecs show o.storage k e tx
      → Leases json codecs show o.storage k e' tx'
      → (commit_if wire outcome now o (e ∷ []) tx).0 ≡ ok (some c)
      → commit_if wire outcome' now' (commit_if wire outcome now o (e ∷ []) tx).1 (e' ∷ []) tx'
        ≡ (ok none, (commit_if wire outcome now o (e ∷ []) tx).1)
  race outcome outcome' now now' o k e e' tx tx' c b small (r, p, q, hit) (r', p', q', hit') won =
      rw q' (
        loser_writes_nothing wire outcome outcome' now now' o k r' (e ∷ []) [] tx tx' c b small p'
          hit won)

  -- The exclusive claim: of two calls of `start` on one idle lane, of whatever kinds, that have
  -- both read it before either commits, the commit of the second is answered with nothing once
  -- that of the first is accepted. No register is newer than the storage, and the sequence numbers
  -- stay below 2 ^ 64.
  pub one_starter_wins :
      (outcome outcome' : Io) (now now' started started' : ℤ) (o : Owner V)
      (later later' : Storage V) (lane op op' : String) (intent intent' : Intent)
      (state state' : OperationState) (extra extra' : List (Write V)) (e e' : Expect)
      (tx tx' : List (Write V)) (c : CommitResult)
      → Bounded o.storage
      → o.storage.seq + length tx < u64_mod
      → start_plan json codecs show started o.storage later lane op intent state extra ≡ submit e tx
      → start_plan json codecs show started' o.storage later' lane op' intent' state' extra'
        ≡ submit e' tx'
      → (commit_if wire outcome now o (e ∷ []) tx).0 ≡ ok (some c)
      → commit_if wire outcome' now' (commit_if wire outcome now o (e ∷ []) tx).1 (e' ∷ []) tx'
        ≡ (ok none, (commit_if wire outcome now o (e ∷ []) tx).1)
  one_starter_wins outcome outcome' now now' started started' o later later' lane op op' intent
        intent' state state' extra extra' e e' tx tx' c b small p p' won =
      race outcome outcome' now now' o (lane_state, lane) e e' tx tx' c b small
        (start_plan-Leases json codecs show started o.storage later lane op intent state extra e tx
          p)
        (start_plan-Leases json codecs show started' o.storage later' lane op' intent' state' extra'
          e' tx' p')
        won

  -- An abort and an input that have both read the operation's state: once the abort's commit is
  -- accepted, the input's is answered with nothing, so the input does not reach the state behind
  -- the abort. The lane names the operation by the id that its record has, no register is newer
  -- than the storage, and the sequence numbers stay below 2 ^ 64.
  pub abort_beats_input :
      (outcome outcome' : Io) (now now' asked : ℤ) (o : Owner V) (lane id : String) (queue : Queue)
      (content : PendingEntry V) (cur : Current) (e e' : Expect) (tx tx' : List (Write V))
      (c : CommitResult)
      → Bounded o.storage
      → o.storage.seq + length tx < u64_mod
      → restore json codecs show o.storage lane ≡ ok (suspended cur)
      → cur.lane_state.current_operation_id ≡ some cur.operation.operation_id
      → abort_plan json codecs show asked o.storage lane ≡ submit e tx
      → enqueue_plan json codecs show o.storage lane queue content id ≡ submit e' tx'
      → (commit_if wire outcome now o (e ∷ []) tx).0 ≡ ok (some c)
      → commit_if wire outcome' now' (commit_if wire outcome now o (e ∷ []) tx).1 (e' ∷ []) tx'
        ≡ (ok none, (commit_if wire outcome now o (e ∷ []) tx).1)
  abort_beats_input outcome outcome' now now' asked o lane id queue content cur e e' tx tx' c b
        small q own p p' won =
      race outcome outcome' now now' o (op_state, cur.operation.operation_id) e e' tx tx' c b small
        (abort_plan-Leases json codecs show asked o.storage lane cur e tx q own p)
        (enqueue_plan-Leases json codecs show o.storage lane id queue content cur e' tx' q own p')
        won
