-- ===== src/Driver/Ended.antt =====
-- What the terminal transaction of src/lane.rs leaves behind.
use reve.Prelude.{
  ◌≡◌, refl, ◌∙◌, sym, ap, String, ◌<>◌, true, Option, none, List, [], ◌∷◌, ◌++◌, contains, str_eq,
  eq_iff, append_assoc, All, arith, Bool-cases, inl, inr,
}
use reve.Namespace.{
  Namespace, RegisterKey, register_key, lane_state, lane_last_result, op_meta, op_state,
  op_tool_args, op_preparation, pending_entry,
}
use reve.Entry.{Write, set_write, delete_write}
use reve.Storage.{Storage}
use reve.Storage.Scan.{list_registers}
use reve.Storage.Registers.{value_at, written, written_one, written-append}
use reve.Session.Restore.{Current}
use reve.Driver.World.{Env, Ending}
use reve.Driver.Terminal.{deletes, keys, owned, move_leaf, last_of, terminal_writes}

listed : (pre : List String) (x : String) (xs : List String) → contains (pre ++ x ∷ xs) x ≡ true
listed [] x xs = ground (arith, eq_iff x x)
listed (y ∷ pre) x xs = ground (arith, listed pre x xs)

pub All-listed :
    (P : String → Type 0) (all pre xs : List String)
    → ((x : String) → contains all x ≡ true → P x)
    → all ≡ pre ++ xs
    → All P xs
All-listed P all pre [] f h = tt
All-listed P all pre (x ∷ xs) f h = (
  f x (rw h (listed pre x xs)),
  All-listed P all (pre ++ x ∷ []) xs f (h ∙ sym (append_assoc pre (x ∷ []) xs)),
)

module _ {V : Type 0} (env : Env V) where
  -- A key that is gone stays gone under deletions.
  delete_none :
      (k : RegisterKey) (ns : Namespace) (id : String)
      → written_one {V = V} k none (delete_write ns id) ≡ none
  unfolding delete_write
  delete_none k ns id = ground arith

  delete_hit :
      (ns : Namespace) (v : Option V) (id x : String)
      → str_eq x id ≡ true
      → written_one (ns, id) v (delete_write ns x) ≡ none
  unfolding delete_write
  delete_hit ns v id x h = ground (arith, h)

  written-deletes-none :
      (k : RegisterKey) (ns : Namespace) (ids : List String)
      → written {V = V} k none (deletes env ns ids) ≡ none
  written-deletes-none k ns [] = refl
  written-deletes-none k ns (id ∷ ids) =
      ap (λ v. written k v (deletes env ns ids)) (delete_none k ns id)
      ∙ written-deletes-none k ns ids

  written-deletes :
      (ns : Namespace) (id : String) (v : Option V) (ids : List String)
      → contains ids id ≡ true
      → written (ns, id) v (deletes env ns ids) ≡ none
  written-deletes ns id v [] h = absurd (ground arith)
  written-deletes ns id v (x ∷ xs) h = elim (Bool-cases (str_eq x id)) [
    | inl same ↦
        ap (λ u. written (ns, id) u (deletes env ns xs)) (delete_hit ns v id x same)
        ∙ written-deletes-none (ns, id) ns xs
    | inr other ↦
        written-deletes ns id (written_one (ns, id) v (delete_write ns x)) xs
          (ground (arith, h, other))
  ]

  -- The transaction from its deletions on, and its last two writes.
  abbrev pub tail : Current → Ending V → List (Write V)
  tail c e =
      set_write lane_last_result c.operation.lane (env.last_result.to_value (last_of env c e))
      ∷ set_write lane_state c.operation.lane
          (env.codecs.state.to_value (record (c.lane_state) { current_operation_id = none }))
      ∷ []

  abbrev pub from_pending : Current → Ending V → List (Write V)
  from_pending c e = deletes env pending_entry (owned env c.state) ++ tail c e

  abbrev pub from_preparation : Storage V → Current → Ending V → List (Write V)
  from_preparation s c e =
      deletes env op_preparation (keys env s op_preparation (c.operation.operation_id <> ":"))
      ++ from_pending c e

  abbrev pub from_args : Storage V → Current → Ending V → List (Write V)
  from_args s c e =
      deletes env op_tool_args (keys env s op_tool_args (c.operation.operation_id <> ":"))
      ++ from_preparation s c e

  -- What a key holds before the operation's own deletions, after the publication and the move of the leaf.
  abbrev pub before : Storage V → Current → Ending V → RegisterKey → Option V
  before s c e k =
      written k (value_at s k) (e.publication ++ move_leaf env c.operation.lane e.new_leaf)

  pub whole :
      (s t : Storage V) (c : Current) (e : Ending V) (k : RegisterKey)
      → written k (value_at t k) (terminal_writes env s c e)
        ≡ written k (before t c e k) (
            delete_write op_meta c.operation.operation_id
            ∷ delete_write op_state c.operation.operation_id
            ∷ from_args s c e)
  unfolding terminal_writes set_write delete_write list_registers
  whole s t c e k =
      ap (written k (value_at t k))
        (sym (append_assoc e.publication (move_leaf env c.operation.lane e.new_leaf) _))
      ∙ written-append k (value_at t k) (e.publication ++ move_leaf env c.operation.lane e.new_leaf)
          _

  abbrev pub all_writes : Storage V → Current → Ending V → List (Write V)
  all_writes s c e =
      delete_write op_meta c.operation.operation_id
      ∷ delete_write op_state c.operation.operation_id
      ∷ from_args s c e

  abbrev pub args_ids : Storage V → Current → List String
  args_ids s c = keys env s op_tool_args (c.operation.operation_id <> ":")

  abbrev pub preparation_ids : Storage V → Current → List String
  preparation_ids s c = keys env s op_preparation (c.operation.operation_id <> ":")

  -- From a key that the operation deletes last of all, its pending content.
  pub pending_gone :
      (s : Storage V) (c : Current) (e : Ending V) (v : Option V) (id : String)
      → contains (owned env c.state) id ≡ true
      → written (pending_entry, id) v (all_writes s c e) ≡ none
  unfolding set_write delete_write
  pending_gone s c e v id h =
      written-append (pending_entry, id) _ (deletes env op_tool_args (args_ids s c))
        (from_preparation s c e)
      ∙ written-append (pending_entry, id) _ (deletes env op_preparation (preparation_ids s c))
          (from_pending c e)
      ∙ written-append (pending_entry, id) _ (deletes env pending_entry (owned env c.state))
          (tail c e)
      ∙ ap (λ u. written (pending_entry, id) u (tail c e))
          (written-deletes pending_entry id _ (owned env c.state) h)

  abbrev pub freed : Current → V
  freed c = env.codecs.state.to_value (record (c.lane_state) { current_operation_id = none })

  abbrev pub Gone : Storage V → Namespace → String → Type 0
  Gone s ns id = value_at s (ns, id) ≡ none
