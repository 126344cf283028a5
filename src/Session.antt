-- ===== src/Session.antt =====
-- src/session.rs: the task that owns the storage, and what its handle asks of it.
pub mod Tokens
pub mod Race
pub mod Checks
pub mod Restore
pub mod Restored
pub mod Context
pub mod Values
pub mod Lanes
pub mod Examples
use reve.Prelude.{
  ℕ, ℤ, String, Bool, true, false, ◌&&◌, Option, none, some, List, [], ◌∷◌, ◌==◌, if◌then◌else◌,
  is_some,
}
use reve.Map
use reve.Namespace.{Namespace, lane_leaf, lane_config, lane_state, register_key}
use reve.Json.{Serde}
use reve.Entry.{Write, CommitResult, set_write, delete_write}
use reve.State.{
  LaneConfiguration, LaneState, LaneLastResult, Operation, OperationState, PendingEntry,
  default_lane_state,
}
use reve.Storage.{Storage, Wire, Io, StorageError, io, commit}
use reve.Storage

-- What restore finds wrong, with the texts that its messages interpolate.
pub data Damage : Type 0 where
  missing_leaf : Damage
  no_entry : String → String → Damage
  no_anchor : String → Damage
  no_pending : String → Damage
  neither_placed_nor_pending : String → String → Damage
  unconfigured : Damage
  no_meta no_state kind_mismatch : String → Damage
  foreign_meta : String → String → Damage
  next_run_without_pending : String → Damage
  no_preparation no_args : String → Damage
  wrong_response : String → Damage
  uncovered_calls : List ℕ → ℕ → String → Damage
  result_ids_not_unique : Damage
  not_tool_result : String → Damage
  aborted_while_running : String → Damage

pub data SessionError : Type 0 where
  storage : StorageError → SessionError
  closed : SessionError
  faulted : String → SessionError
  corrupt : String → Damage → SessionError

pub data Result {ℓ} (A : Type ℓ) : Type ℓ where
  ok : A → Result A
  err : SessionError → Result A

pub record Expect : Type 0 where
  pub namespace : Namespace
  pub key : String
  pub seq : Option ℕ

-- The variables of the owner's loop.
pub record Owner (V : Type 0) : Type 0 where
  pub storage : Storage V
  pub fault : Option String

abbrev pub same_seq : Option ℕ → Option ℕ → Bool
same_seq none none = true
same_seq (some m) (some n) = m == n
same_seq none (some n) = false
same_seq (some m) none = false

module _ {V : Type 0} where
  abbrev pub seq_at : Storage V → Namespace → String → Option ℕ
  seq_at s namespace key = elim (Map.get s.registers (namespace, key)) [
    | none ↦ none
    | some r ↦ some r.seq
  ]

  abbrev pub holds : Storage V → Expect → Bool
  holds s e = same_seq (seq_at s e.namespace e.key) e.seq

  abbrev pub all_hold : Storage V → List Expect → Bool
  all_hold s [] = true
  all_hold s (e ∷ es) = holds s e && all_hold s es

  -- The owner after the storage has answered a commit.
  abbrev pub settle :
      Owner V → Storage.Result CommitResult × Storage V → Result (Option CommitResult) × Owner V
  settle o (Storage.ok r, s) = (ok (some r), record o { storage = s })
  settle o (Storage.err (io why), s) = (err (faulted why), record { storage = s; fault = some why })
  settle o (Storage.err e, s) = (err (SessionError.storage e), record o { storage = s })

module _ {V : Type 0} (wire : Wire V) where
  -- `Command::Commit`: one message, validated and committed before the next.
  unfoldable pub commit_if :
      Io → ℤ → Owner V → List Expect → List (Write V) → Result (Option CommitResult) × Owner V
  commit_if outcome now o expect tx = elim o.fault [
    | some why ↦ (err (faulted why), o)
    | none ↦
        if all_hold o.storage expect
        then settle o (commit wire outcome now o.storage tx)
        else (ok none, o)
  ]

  -- An unconditional commit: `None` cannot be its answer, and would be `Closed`.
  unfoldable pub commit_always : Io → ℤ → Owner V → List (Write V) → Result CommitResult × Owner V
  unfolding commit_if
  commit_always outcome now o tx =
      let (r, o') = commit_if outcome now o [] tx in
      (elim r [ ok none ↦ err closed | ok (some c) ↦ ok c | err e ↦ err e ], o')
