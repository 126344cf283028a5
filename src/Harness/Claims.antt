-- ===== src/Harness/Claims.antt =====
-- The commits of src/harness.rs, each conditional on a register that it writes.
use reve.Prelude.{
  ℕ, ◌≡◌, refl, ◌∙◌, ap, sym, subst, inl, inr, ℤ, String, true, false, ◌&&◌, not, Option, none,
  some, List, [], ◌∷◌, arith, Bool-cases, Option-cases, str_eq, eq_iff,
}
use reve.Map
use reve.Json.{Json, Serde}
use reve.Namespace.{
  Namespace, RegisterKey, register_key, lane_state, lane_leaf, op_state, pending_entry,
}
use reve.Entry.{Register, Write, set_write}
use reve.State.{LaneState, RunState, OperationState, Intent, PendingEntry, is_cancelled}
use reve.Storage.{Storage}
use reve.Storage.Scan.{register_value}
use reve.Storage.Tokens.{register_at}
use reve.Storage.Written.{hits_any}
use reve.Session.{Expect, ok}
use reve.Session.Restore.{Codecs, Current, suspended, restore}
use reve.Session.Restored.{program_of, restore-IsOpen}
use reve.Harness.{
  submit, Queue, is_writes, cancel, enqueue_plan, abort_plan, start_plan, claim, start_free,
  start_read, leaf_of, enqueue_restored, enqueue_run, abort_restored, abort_with, op_token,
  set_program, push,
}

str_refl : (s : String) → str_eq s s ≡ true
str_refl s = ground (arith, eq_iff s s)

module _ {V : Type 0} where
  pub submit_token :
      {e e' : Expect} {tx tx' : List (Write V)}
      → submit e tx ≡ submit e' tx'
      → (e ≡ e') × (tx ≡ tx')
  submit_token h = (ground (arith, h), ground (arith, h))

  -- A typed read of a register finds the register.
  register_value-register :
      {A : Type 0} (serde : Serde V A) (s : Storage V) (ns : Namespace) (key : String) (a : A)
      (n : ℕ)
      → register_value serde.from_value s ns key ≡ some (a, n)
      → (r : Register V) × (register_at s (ns, key) ≡ some r) × (r.seq ≡ n)
  unfolding register_value
  register_value-register serde s ns key a n h =
      elim (Option-cases (Map.get s.registers (ns, key))) [
        | inl q ↦ absurd (ground (arith, h, q))
        | inr (r, q) ↦ elim (Option-cases (serde.from_value r.value)) [
          | inl p ↦ absurd (ground (arith, h, q, p))
          | inr (v, p) ↦ (r, q, ground (arith, h, q, p))
        ]
      ]

module _ {V : Type 0} (json : Json V) (codecs : Codecs V) (show : ℕ → String) where
  -- The commit of a plan is conditional on a register as it was read, and writes that register.
  abbrev pub Leases : Storage V → RegisterKey → Expect → List (Write V) → Type 0
  Leases s k e tx =
      (r : Register V) × (register_at s k ≡ some r)
      × (e ≡ record { namespace = k.0; key = k.1; seq = some r.seq })
      × (hits_any k tx ≡ true)

  pub claim_plan :
      (now : ℤ) (s later : Storage V) (lane op : String) (intent : Intent) (state : OperationState)
      (extra : List (Write V)) (ls : LaneState) (seq : ℕ)
      → register_value codecs.state.from_value s lane_state lane ≡ some (ls, seq)
      → ls.current_operation_id ≡ none
      → start_plan json codecs show now s later lane op intent state extra
        ≡ claim json codecs show now lane op intent state extra
            (leaf_of json codecs show (register_value codecs.leaf.from_value later lane_leaf lane))
            (ls, seq)
  unfolding start_plan
  claim_plan now s later lane op intent state extra ls seq q free =
      rw (q, start_read) (rw (free, start_free))

  pub start_plan-Leases :
      (now : ℤ) (s later : Storage V) (lane op : String) (intent : Intent) (state : OperationState)
      (extra : List (Write V)) (e : Expect) (tx : List (Write V))
      → start_plan json codecs show now s later lane op intent state extra ≡ submit e tx
      → Leases s (lane_state, lane) e tx
  unfolding start_plan set_write
  start_plan-Leases now s later lane op intent state extra e tx h =
      elim (Option-cases (register_value codecs.state.from_value s lane_state lane)) [
        | inl q ↦ absurd (ground (arith, h, q))
        | inr ((ls, seq), q) ↦ elim (Option-cases ls.current_operation_id) [
          | inr (running, b) ↦ absurd (ground (arith, h, q, b))
          | inl free ↦
              let (same, txs) =
                submit_token
                  (sym (claim_plan now s later lane op intent state extra ls seq q free) ∙ h) in
              let (r, p, n) = register_value-register codecs.state s lane_state lane ls seq q in
              (
                r,
                p,
                sym same
                    ∙ ap (λ m. record { namespace = lane_state; key = lane; seq = some m }) (sym n),
                subst (λ x. hits_any (lane_state, lane) x ≡ true) txs
                    (ground (arith, str_refl lane)),
              )
        ]
      ]

  enqueue_open :
      (s : Storage V) (lane id : String) (queue : Queue) (content : PendingEntry V) (c : Current)
      → restore json codecs show s lane ≡ ok (suspended c)
      → enqueue_plan json codecs show s lane queue content id
        ≡ enqueue_run json codecs show lane queue content id c c.state
  unfolding enqueue_plan
  enqueue_open s lane id queue content c q = rw (q, enqueue_restored) refl

  abort_open :
      (now : ℤ) (s : Storage V) (lane : String) (c : Current)
      → restore json codecs show s lane ≡ ok (suspended c)
      → abort_plan json codecs show now s lane
        ≡ abort_with json codecs show c (cancel now c.state).state
  unfolding abort_plan
  abort_open now s lane c q = rw (q, abort_restored) refl

  enqueue_live :
      (lane : String) (queue : Queue) (content : PendingEntry V) (id : String) (c : Current)
      (r : RunState)
      → (is_cancelled r.control && not (is_writes queue)) ≡ false
      → enqueue_run json codecs show lane queue content id c (OperationState.run r)
        ≡ submit (op_token json codecs show c) (
            set_write pending_entry id (codecs.pending.to_value content)
            ∷ set_program json codecs show c.operation.operation_id
                (OperationState.run (push queue id r))
            ∷ [])
  enqueue_live lane queue content id c r h = rw h refl

  enqueue_run-token :
      (lane : String) (queue : Queue) (content : PendingEntry V) (id : String) (c : Current)
      (state : OperationState) (e : Expect) (tx : List (Write V))
      → enqueue_run json codecs show lane queue content id c state ≡ submit e tx
      → (e ≡ op_token json codecs show c)
        × (hits_any (op_state, c.operation.operation_id) tx ≡ true)
  unfolding set_write
  enqueue_run-token lane queue content id c (OperationState.compaction x) e tx h =
      absurd (ground arith)
  enqueue_run-token lane queue content id c (OperationState.navigation x) e tx h =
      absurd (ground arith)
  enqueue_run-token lane queue content id c (OperationState.run r) e tx h =
      elim (Bool-cases (is_cancelled r.control && not (is_writes queue))) [
        | inl late ↦ absurd (ground (arith, h, late))
        | inr free ↦
            let (same, txs) =
              submit_token (sym (enqueue_live lane queue content id c r free) ∙ h) in
            (
              sym same,
              subst (λ x. hits_any (op_state, c.operation.operation_id) x ≡ true) txs
                  (ground (arith, str_refl c.operation.operation_id)),
            )
      ]

  abort_with-token :
      (c : Current) (o : Option OperationState) (e : Expect) (tx : List (Write V))
      → abort_with json codecs show c o ≡ submit e tx
      → (e ≡ op_token json codecs show c)
        × (hits_any (op_state, c.operation.operation_id) tx ≡ true)
  unfolding set_write
  abort_with-token c none e tx h = absurd (ground arith)
  abort_with-token c (some next) e tx h =
      let (same, txs) = submit_token h in
      (
        sym same,
        subst (λ x. hits_any (op_state, c.operation.operation_id) x ≡ true) txs
            (ground (arith, str_refl c.operation.operation_id)),
      )

  pub enqueue_plan-Leases :
      (s : Storage V) (lane id : String) (queue : Queue) (content : PendingEntry V) (c : Current)
      (e : Expect) (tx : List (Write V))
      → restore json codecs show s lane ≡ ok (suspended c)
      → c.lane_state.current_operation_id ≡ some c.operation.operation_id
      → enqueue_plan json codecs show s lane queue content id ≡ submit e tx
      → Leases s (op_state, c.operation.operation_id) e tx
  enqueue_plan-Leases s lane id queue content c e tx q own h =
      let opened = restore-IsOpen json codecs show s lane c q in
      let (r, p, n) =
        register_value-register codecs.program s op_state c.operation.operation_id c.state
          c.state_seq (program_of json codecs show s lane c.operation.operation_id c opened own) in
      let (same, hit) =
        enqueue_run-token lane queue content id c c.state e tx
          (sym (enqueue_open s lane id queue content c q) ∙ h) in
      (
        r,
        p,
        same
            ∙ ap
                (λ m. record { namespace = op_state; key = c.operation.operation_id; seq = some m })
                (sym n),
        hit,
      )

  pub abort_plan-Leases :
      (now : ℤ) (s : Storage V) (lane : String) (c : Current) (e : Expect) (tx : List (Write V))
      → restore json codecs show s lane ≡ ok (suspended c)
      → c.lane_state.current_operation_id ≡ some c.operation.operation_id
      → abort_plan json codecs show now s lane ≡ submit e tx
      → Leases s (op_state, c.operation.operation_id) e tx
  abort_plan-Leases now s lane c e tx q own h =
      let opened = restore-IsOpen json codecs show s lane c q in
      let (r, p, n) =
        register_value-register codecs.program s op_state c.operation.operation_id c.state
          c.state_seq (program_of json codecs show s lane c.operation.operation_id c opened own) in
      let (same, hit) =
        abort_with-token c (cancel now c.state).state e tx (sym (abort_open now s lane c q) ∙ h) in
      (
        r,
        p,
        same
            ∙ ap
                (λ m. record { namespace = op_state; key = c.operation.operation_id; seq = some m })
                (sym n),
        hit,
      )
