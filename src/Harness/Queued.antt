-- ===== src/Harness/Queued.antt =====
-- How an input that waits for the next run reaches it (src/harness.rs).
use reve.Prelude.{
  ℕ, ◌≡◌, refl, ◌∙◌, ap, sym, ℤ, String, Option, none, some, List, [], ◌∷◌, ◌++◌, str_eq, eq_iff,
  true,
}
use reve.Json.{Json}
use reve.Namespace.{
  RegisterKey, register_key, lane_state, lane_leaf, op_meta, op_state, pending_entry,
}
use reve.Entry.{Write, CommitResult, set_write}
use reve.State.{LaneState, RunState, OperationState, Intent}
use reve.Storage.{Storage, Wire, Io}
use reve.Storage.Scan.{register_value}
use reve.Storage.Registers.{value_at, written, commit-written}
use reve.Session.{Owner, Expect, ok, commit_if}
use reve.Session.Race.{commit_if-Accepted}
use reve.Session.Restore.{Codecs}
use reve.Session.Lanes.Created.{reads_back}
use reve.Harness.{submit, start_plan, leaf_of}
use reve.Harness.Calls.{next_run_plan, queue_next, user_message}
use reve.Harness.Claims.{submit_token, claim_plan}

module _ {V : Type 0} (json : Json V) (codecs : Codecs V) (show : ℕ → String) (wire : Wire V) where
  next_plan :
      (s : Storage V) (lane message id : String) (ls : LaneState) (seq : ℕ)
      → register_value codecs.state.from_value s lane_state lane ≡ some (ls, seq)
      → next_run_plan json codecs show s lane message id
        ≡ queue_next json codecs show lane
            (user_message json codecs show message)
            id
            (some (ls, seq))
  unfolding next_run_plan
  next_plan s lane message id ls seq q = rw (q, queue_next) refl

  abbrev pub queued : LaneState → String → LaneState
  queued ls id = record ls { pending_next_run = ls.pending_next_run ++ id ∷ [] }

  abbrev pub queue_writes : String → String → String → LaneState → List (Write V)
  queue_writes lane message id ls =
      set_write pending_entry id (codecs.pending.to_value (user_message json codecs show message))
      ∷ set_write lane_state lane (codecs.state.to_value (queued ls id))
      ∷ []

  -- What a key holds once a message for the next run is accepted.
  after_queue :
      (outcome : Io) (now : ℤ) (o : Owner V) (s : Storage V) (lane message id : String)
      (ls : LaneState) (seq : ℕ) (e : Expect) (tx : List (Write V)) (r : CommitResult)
      (k : RegisterKey)
      → register_value codecs.state.from_value s lane_state lane ≡ some (ls, seq)
      → next_run_plan json codecs show s lane message id ≡ submit e tx
      → (commit_if wire outcome now o (e ∷ []) tx).0 ≡ ok (some r)
      → value_at (commit_if wire outcome now o (e ∷ []) tx).1.storage k
        ≡ written k (value_at o.storage k) (queue_writes lane message id ls)
  after_queue outcome now o s lane message id ls seq e tx r k q p h =
      let (accepted, same, quiet) = commit_if-Accepted wire outcome now o (e ∷ []) tx r h in
      let (token, writes) = submit_token (sym (next_plan s lane message id ls seq q) ∙ p) in
      ap (λ (x : Owner V). value_at x.storage k) same
      ∙ commit-written wire outcome now o.storage tx k accepted
      ∙ ap (written k (value_at o.storage k)) (sym writes)

  itself : (id : String) → str_eq id id ≡ true
  itself id = (eq_iff id id).1 refl

  state_after :
      (lane message id : String) (ls : LaneState) (v : Option V)
      → written (lane_state, lane) v (queue_writes lane message id ls)
        ≡ some (codecs.state.to_value (queued ls id))
  unfolding set_write
  state_after lane message id ls v = rw (itself lane) refl

  content_after :
      (lane message id : String) (ls : LaneState) (v : Option V)
      → written (pending_entry, id) v (queue_writes lane message id ls)
        ≡ some (codecs.pending.to_value (user_message json codecs show message))
  unfolding set_write
  content_after lane message id ls v = rw (itself id) refl

  -- The claim of a run that finds inputs waiting: they are its first deferred writes, and the
  -- lane's queue is empty behind it.
  abbrev pub run_claim :
      ℤ
      → String
      → String
      → Option String
      → Intent
      → RunState
      → List String
      → List (Write V)
      → List (Write V)
  run_claim started lane op leaf intent run waiting extra =
      set_write op_meta op (
        codecs.meta.to_value (record {
          operation_id = op;
          lane = lane;
          source_leaf_id = leaf;
          started_at = started;
          intent = intent;
        }))
      ∷ set_write op_state op (
          codecs.program.to_value (
            OperationState.run
              (record run { inbox = record (run.inbox) { writes = waiting ++ run.inbox.writes } })))
      ∷ set_write lane_state lane
          (codecs.state.to_value (record { current_operation_id = some op; pending_next_run = [] }))
      ∷ extra

  -- A message queued for the next run reaches it. Once the commit that queues it on an idle lane is
  -- accepted, its content is pending under the reserved id, and the claim of a run that then starts
  -- from the owner's storage puts the inputs that were waiting and then this one ahead of the run's
  -- own prompts, and empties the queue.
  pub next_run_reaches_run :
      (outcome : Io) (now started : ℤ) (o : Owner V) (s later : Storage V)
      (lane message id op : String) (ls : LaneState) (seq : ℕ) (e : Expect) (tx : List (Write V))
      (r : CommitResult) (intent : Intent) (run : RunState) (extra : List (Write V))
      → register_value codecs.state.from_value s lane_state lane ≡ some (ls, seq)
      → ls.current_operation_id ≡ none
      → next_run_plan json codecs show s lane message id ≡ submit e tx
      → (commit_if wire outcome now o (e ∷ []) tx).0 ≡ ok (some r)
      → (value_at (commit_if wire outcome now o (e ∷ []) tx).1.storage (pending_entry, id)
          ≡ some (codecs.pending.to_value (user_message json codecs show message)))
        × (n : ℕ) × (start_plan json codecs show started
              (commit_if wire outcome now o (e ∷ []) tx).1.storage
              later
              lane
              op
              intent
              (OperationState.run run)
              extra
            ≡ submit
                (record { namespace = lane_state; key = lane; seq = some n })
                (run_claim started lane op
                  (leaf_of json codecs show
                    (register_value codecs.leaf.from_value later lane_leaf lane))
                  intent
                  run
                  (ls.pending_next_run ++ id ∷ [])
                  extra))
  next_run_reaches_run outcome now started o s later lane message id op ls seq e tx r intent run
        extra q free p h =
      let s' = (commit_if wire outcome now o (e ∷ []) tx).1.storage in
      let after : (k : RegisterKey)
          → value_at s' k ≡ written k (value_at o.storage k) (queue_writes lane message id ls) =
        λ k. after_queue outcome now o s lane message id ls seq e tx r k q p h in
      let (n, found) =
        reads_back codecs.state s' lane_state lane (queued ls id)
          (after (lane_state, lane) ∙ state_after lane message id ls _) in
      (
        after (pending_entry, id) ∙ content_after lane message id ls _,
        n,
        claim_plan json codecs show started s' later lane op intent (OperationState.run run) extra
            (queued ls id) n found free,
      )
