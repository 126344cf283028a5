-- ===== src/Harness/Begin.antt =====
-- What the claim of a run leaves in the registers (src/harness.rs).
use reve.Prelude.{
  Bool, not, ◌&&◌, ◌++◌, map, append-nil, append_assoc, ℕ, ◌+◌, ◌≡◌, refl, ◌∙◌, ap, sym, inl, inr,
  ℤ, String, true, Option, none, some, List, [], ◌∷◌, arith, Option-cases, subst, false, str_eq,
  eq_iff, contains,
}
use reve.Json.{Json}
use reve.Namespace.{
  Namespace, RegisterKey, register_key, lane_state, lane_leaf, op_meta, op_state, pending_entry,
}
use reve.Entry.{Write, CommitResult, set_write}
use reve.State.{LaneState, OperationState, Intent, PendingEntry, RunSettings, pending_message}
use reve.Storage.{Storage, Wire, Io}
use reve.Storage.Scan.{register_value}
use reve.Storage.Registers.{value_at, written, written_one, commit-written}
use reve.Session.{Owner, Expect, ok, commit_if}
use reve.Session.Race.{commit_if-Accepted}
use reve.Session.Restore.{Codecs}
use reve.Hooks.{Handler, Outcome, BeforeRunEvent, BeforeRunResult, before_run}
use reve.Harness.{HarnessError, invalid, refuse, submit, start_plan, claim, leaf_of}
use reve.Harness.Calls.{
  minted, payload_writes, prompt_values, with_messages, run_state, final, start_prompts,
  start_hooked, start_run_plan,
}
use reve.Harness.Claims.{submit_token, claim_plan}

refused :
    {V : Type 0} (why : HarnessError) (e : Expect) (tx : List (Write V))
    → refuse why ≡ submit e tx
    → ⊥
refused why e tx h = ground arith

abbrev pub distinct : List String → Bool
distinct [] = true
distinct (x ∷ xs) = not (contains xs x) && distinct xs

module _ {V : Type 0} (json : Json V) (codecs : Codecs V) (show : ℕ → String) where
  -- A commit of `start` is the claim on the lane's state as it was read.
  start_claims :
      (now : ℤ) (s later : Storage V) (lane op : String) (intent : Intent) (state : OperationState)
      (extra : List (Write V)) (e : Expect) (tx : List (Write V))
      → start_plan json codecs show now s later lane op intent state extra ≡ submit e tx
      → (ls : LaneState) × (seq : ℕ) × (claim json codecs show now lane op intent state extra
            (leaf_of json codecs show (register_value codecs.leaf.from_value later lane_leaf lane))
            (ls, seq)
          ≡ submit e tx)
  unfolding start_plan
  start_claims now s later lane op intent state extra e tx h =
      elim (Option-cases (register_value codecs.state.from_value s lane_state lane)) [
        | inl q ↦ absurd (ground (arith, h, q))
        | inr ((ls, seq), q) ↦ elim (Option-cases ls.current_operation_id) [
          | inr (running, b) ↦ absurd (ground (arith, h, q, b))
          | inl free ↦ (
            ls,
            seq,
            sym (claim_plan json codecs show now s later lane op intent state extra ls seq q free)
                ∙ h,
          )
        ]
      ]

  payloads_elsewhere :
      (op : String) (v : Option V) (ids : List String) (ps : List (PendingEntry V))
      → written (op_meta, op) v (payload_writes json codecs show ids ps) ≡ v
  unfolding set_write
  payloads_elsewhere op v [] ps = refl
  payloads_elsewhere op v (id ∷ ids) [] = refl
  payloads_elsewhere op v (id ∷ ids) (p ∷ ps) = payloads_elsewhere op v ids ps

  set_hit :
      (ns : Namespace) (id i : String) (v : Option V) (x : V)
      → str_eq i id ≡ true
      → written_one (ns, id) v (set_write ns i x) ≡ some x
  unfolding set_write
  set_hit ns id i v x h = ground (arith, h)

  set_miss :
      (id i : String) (v : Option V) (x : V)
      → str_eq i id ≡ false
      → written_one (pending_entry, id) v (set_write pending_entry i x) ≡ v
  unfolding set_write
  set_miss id i v x h = ground (arith, h)

  -- What a list of ids holds, one id to a prompt, in order.
  abbrev pub Filled : (String → Option V) → List String → List (PendingEntry V) → Type 0
  Filled f [] [] = Unit
  Filled f [] (p ∷ ps) = ⊥
  Filled f (id ∷ ids) [] = ⊥
  Filled f (id ∷ ids) (p ∷ ps) = (f id ≡ some (codecs.pending.to_value p)) × Filled f ids ps

  not_there :
      (id : String) (v : Option V) (ids : List String) (ps : List (PendingEntry V))
      → contains ids id ≡ false
      → written (pending_entry, id) v (payload_writes json codecs show ids ps) ≡ v
  unfolding set_write
  not_there id v [] ps h = refl
  not_there id v (i ∷ ids) [] h = refl
  not_there id v (i ∷ ids) (p ∷ ps) h =
      ap (λ u. written (pending_entry, id) u (payload_writes json codecs show ids ps))
        (set_miss id i v (codecs.pending.to_value p) (ground (arith, h)))
      ∙ not_there id v ids ps (ground (arith, h))

  -- The payloads of distinct ids are written under them, whatever they held.
  filled :
      (mint : ℕ → String) (n : ℕ) (ps : List (PendingEntry V)) (v f : String → Option V)
      → distinct (minted json codecs show mint n ps) ≡ true
      → ((id : String)
          → f id
            ≡ written
                (pending_entry, id)
                (v id)
                (payload_writes json codecs show (minted json codecs show mint n ps) ps))
      → Filled f (minted json codecs show mint n ps) ps
  unfolding set_write
  filled mint n [] v f d h = tt
  filled mint n (p ∷ ps) v f d h =
      let y = codecs.pending.to_value p in
      let ids = minted json codecs show mint (n + 1) ps in
      let rest = payload_writes json codecs show ids ps in
      (
        h (mint n)
            ∙ ap (λ u. written (pending_entry, mint n) u rest)
                (set_hit pending_entry (mint n) (mint n) (v (mint n)) y
                  ((eq_iff (mint n) (mint n)).1 refl))
            ∙ not_there (mint n) (some y) ids ps (ground (arith, d)),
        filled mint (n + 1) ps
            (λ id. written_one (pending_entry, id) (v id) (set_write pending_entry (mint n) y)) f
            (ground (arith, d)) h,
      )

  -- The value of `op.meta` for a run with the prompts of these ids.
  abbrev pub run_meta : ℤ → String → String → Option String → List String → Option String → V
  run_meta now lane op leaf ids override = codecs.meta.to_value (record {
    operation_id = op;
    lane = lane;
    source_leaf_id = leaf;
    started_at = now;
    intent = Intent.run ids override;
  })

  -- The writes of a run's claim, read back from the plan.
  prompts_claim :
      (now : ℤ) (s later : Storage V) (lane op : String) (settings : RunSettings)
      (override : Option String) (mint : ℕ → String) (ps : List (PendingEntry V)) (e : Expect)
      (tx : List (Write V))
      → start_prompts json codecs show now s later lane op settings override
          (minted json codecs show mint 0 ps)
          ps
        ≡ submit e tx
      → (program lane_value : V) × (tx
          ≡ set_write op_meta op (
              run_meta now lane op
                (leaf_of json codecs show
                  (register_value codecs.leaf.from_value later lane_leaf lane))
                (minted json codecs show mint 0 ps)
                override)
            ∷ set_write op_state op program
            ∷ set_write lane_state lane lane_value
            ∷ payload_writes json codecs show (minted json codecs show mint 0 ps) ps)
  prompts_claim now s later lane op settings override mint [] e tx h =
      absurd (refused (invalid "a run needs a prompt") e tx h)
  prompts_claim now s later lane op settings override mint (p ∷ ps) e tx h =
      let ids = minted json codecs show mint 1 ps in
      let (ls, seq, q) =
        start_claims now s later lane op (Intent.run (mint 0 ∷ ids) override)
          (run_state json codecs show settings (final (mint 0) ids) (mint 0 ∷ ids))
          (payload_writes json codecs show (mint 0 ∷ ids) (p ∷ ps)) e tx h in
      let (token, writes) = submit_token q in (_, _, sym writes)

  abbrev pub hooked :
      String
      → String
      → List (Handler (BeforeRunEvent V) (BeforeRunResult V))
      → String
      → List (PendingEntry V)
      → Outcome (BeforeRunResult V)
  hooked lane op hooks system_prompt ps =
      before_run hooks
        (record {
          lane = lane;
          run_id = op;
          prompt = prompt_values json codecs show ps;
          system_prompt = system_prompt;
        })
        (record { messages = []; system_prompt = none })

  -- The prompts of a run: the caller's, then the hooks'.
  abbrev pub prompts_of :
      String
      → String
      → List (Handler (BeforeRunEvent V) (BeforeRunResult V))
      → String
      → List (PendingEntry V)
      → List (PendingEntry V)
  prompts_of lane op hooks system_prompt ps =
      ps ++ map (pending_message json) (hooked lane op hooks system_prompt ps).value.messages

  with_messages_after :
      (ps : List (PendingEntry V)) (vs : List V)
      → with_messages json codecs show ps vs ≡ ps ++ map (pending_message json) vs
  with_messages_after ps [] = sym (append-nil ps)
  with_messages_after ps (v ∷ vs) =
      with_messages_after (ps ++ pending_message json v ∷ []) vs
      ∙ append_assoc ps (pending_message json v ∷ []) (map (pending_message json) vs)

  meta_after :
      (op : String) (v : Option V) (x program lane_value : V) (lane : String) (ids : List String)
      (ps : List (PendingEntry V))
      → written
          (op_meta, op)
          v
          (set_write op_meta op x
            ∷ set_write op_state op program
            ∷ set_write lane_state lane lane_value
            ∷ payload_writes json codecs show ids ps)
        ≡ some x
  unfolding set_write
  meta_after op v x program lane_value lane ids ps =
      ap
        (λ u.
          written (op_meta, op) u
            (set_write op_state op program
              ∷ set_write lane_state lane lane_value
              ∷ payload_writes json codecs show ids ps))
        (set_hit op_meta op op v x ((eq_iff op op).1 refl))
      ∙ payloads_elsewhere op (some x) ids ps

  from_start :
      (now : ℤ) (s later : Storage V) (lane op : String) (settings : RunSettings)
      (mint : ℕ → String) (hooks : List (Handler (BeforeRunEvent V) (BeforeRunResult V)))
      (system_prompt : String) (ps : List (PendingEntry V)) (e : Expect) (tx : List (Write V))
      → start_run_plan json codecs show now s later lane op settings mint hooks system_prompt ps
        ≡ submit e tx
      → start_hooked json codecs show now s later lane op settings mint ps
          (hooked lane op hooks system_prompt ps)
        ≡ submit e tx
  unfolding start_run_plan
  from_start now s later lane op settings mint hooks system_prompt [] e tx h =
      absurd (refused (invalid "a run needs a prompt") e tx h)
  from_start now s later lane op settings mint hooks system_prompt (p ∷ ps) e tx h = h

  -- What the claim of a run with these prompts leaves in the registers.
  abbrev pub Begun :
      ℤ
      → String
      → String
      → Option String
      → Option String
      → (ℕ → String)
      → Storage V
      → List (PendingEntry V)
      → Type 0
  Begun started lane op leaf override mint s ps =
      (value_at s (op_meta, op)
        ≡ some (run_meta started lane op leaf (minted json codecs show mint 0 ps) override))
      × Filled (λ id. value_at s (pending_entry, id)) (minted json codecs show mint 0 ps) ps

  -- A run is never claimed without what it is to say. Once the commit that `start_run` sends is
  -- accepted, and the ids minted for its prompts are distinct, the operation's metadata names these
  -- ids in order, with the hooks' system prompt, and each id holds its prompt's content as a pending
  -- entry: first the caller's prompts, then a message for each that the hooks return, in their order.
  pub run_starts_whole :
      (wire : Wire V) (outcome : Io) (now started : ℤ) (o : Owner V) (s later : Storage V)
      (lane op : String) (settings : RunSettings) (mint : ℕ → String)
      (hooks : List (Handler (BeforeRunEvent V) (BeforeRunResult V))) (system_prompt : String)
      (ps : List (PendingEntry V)) (e : Expect) (tx : List (Write V)) (r : CommitResult)
      → distinct (minted json codecs show mint 0 (prompts_of lane op hooks system_prompt ps)) ≡ true
      → start_run_plan json codecs show started s later lane op settings mint hooks system_prompt ps
        ≡ submit e tx
      → (commit_if wire outcome now o (e ∷ []) tx).0 ≡ ok (some r)
      → Begun started lane op
          (leaf_of json codecs show (register_value codecs.leaf.from_value later lane_leaf lane))
          (hooked lane op hooks system_prompt ps).value.system_prompt
          mint
          (commit_if wire outcome now o (e ∷ []) tx).1.storage
          (prompts_of lane op hooks system_prompt ps)
  run_starts_whole wire outcome now started o s later lane op settings mint hooks system_prompt ps e
        tx r d p h =
      let before = hooked lane op hooks system_prompt ps in
      let leaf =
        leaf_of json codecs show (register_value codecs.leaf.from_value later lane_leaf lane) in
      let s' = (commit_if wire outcome now o (e ∷ []) tx).1.storage in
      let qs = with_messages json codecs show ps before.value.messages in
      let order = with_messages_after ps before.value.messages in
      let (accepted, same, quiet) = commit_if-Accepted wire outcome now o (e ∷ []) tx r h in
      let (program, lane_value, writes) =
        prompts_claim started s later lane op settings before.value.system_prompt mint qs e tx
          (from_start started s later lane op settings mint hooks system_prompt ps e tx p) in
      let after : (k : RegisterKey) → value_at s' k ≡ written k (value_at o.storage k) tx = λ k.
        ap (λ (x : Owner V). value_at x.storage k) same
        ∙ commit-written wire outcome now o.storage tx k accepted in
      subst (Begun started lane op leaf before.value.system_prompt mint s') order (
        after (op_meta, op)
            ∙ ap (written (op_meta, op) _) writes
            ∙ meta_after op _ _ _ _ lane (minted json codecs show mint 0 qs) qs,
        filled mint 0 qs _ (λ id. value_at s' (pending_entry, id))
            (subst (λ l. distinct (minted json codecs show mint 0 l) ≡ true) (sym order) d)
            (λ id. after (pending_entry, id) ∙ ap (written (pending_entry, id) _) writes),
      )
