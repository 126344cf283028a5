-- ===== src/Driver/Deferred.antt =====
-- What src/lane.rs does with the deferred writes of a run that is cancelled while it waits to try again.
use reve.Prelude.{
  ℕ, ℤ, ◌≡◌, refl, ap, sym, subst, ◌∙◌, String, Bool, true, false, none, List, [], ◌∷◌, ◌++◌,
  contains, All, arith,
}
use reve.Namespace.{Namespace, register_key, pending_entry, op_tool_args, op_preparation}
use reve.Entry.{Write, entry, usage, register, set_write, delete_write}
use reve.State.{
  OperationState, RunState, assistant, retry_wait, GenerationContext, aborted, is_cancelled,
}
use reve.Storage.{Storage}
use reve.Storage.Registers.{value_at, written}
use reve.Session.Restore.{Current}
use reve.Driver.World.{Env, World, finish, ending}
use reve.Driver.Terminal.{deletes, drained, owned, terminal_writes}
use reve.Driver.Generate.{assistant_step}
use reve.Driver.Step.{step, state_step, phase_step}
use reve.Driver.Ended.{
  All-listed, before, whole, pending_gone, tail, from_pending, from_preparation, preparation_ids,
  args_ids,
}

abbrev pub is_register : {V : Type 0} → Write V → Bool
is_register (entry e) = false
is_register (usage row) = false
is_register (register w) = true

contains_right :
    (xs ys : List String) (id : String) → contains ys id ≡ true → contains (xs ++ ys) id ≡ true
contains_right [] ys id h = h
contains_right (x ∷ xs) ys id h = ground (arith, contains_right xs ys id h)

contains_left :
    (xs ys : List String) (id : String) → contains xs id ≡ true → contains (xs ++ ys) id ≡ true
contains_left [] ys id h = absurd (ground arith)
contains_left (x ∷ xs) ys id h = ground (arith, contains_left xs ys id)

module _ {V : Type 0} (env : Env V) where
  abbrev pub OnlyRegisters : List (Write V) → Type 0
  OnlyRegisters = All (λ w. is_register w ≡ true)

  registers-append :
      (xs ys : List (Write V)) → OnlyRegisters xs → OnlyRegisters ys → OnlyRegisters (xs ++ ys)
  registers-append [] ys h g = g
  registers-append (x ∷ xs) ys (a, h) g = (a, registers-append xs ys h g)

  registers-deletes : (ns : Namespace) (ids : List String) → OnlyRegisters (deletes env ns ids)
  unfolding delete_write
  registers-deletes ns [] = tt
  registers-deletes ns (id ∷ ids) = (refl, registers-deletes ns ids)

  terminal-OnlyRegisters :
      (s : Storage V) (c : Current) → OnlyRegisters (terminal_writes env s c (ending aborted none))
  unfolding terminal_writes set_write delete_write
  terminal-OnlyRegisters s c =
      let e = ending aborted none in
      let last : OnlyRegisters (tail env c e) = (refl, (refl, tt)) in
      let pending =
        registers-append (deletes env pending_entry (owned env c.state)) (tail env c e)
          (registers-deletes pending_entry (owned env c.state)) last in
      let preparations =
        registers-append (deletes env op_preparation (preparation_ids env s c))
          (from_pending env c e) (registers-deletes op_preparation (preparation_ids env s c))
          pending in
      let args =
        registers-append (deletes env op_tool_args (args_ids env s c)) (from_preparation env s c e)
          (registers-deletes op_tool_args (args_ids env s c)) preparations in
      (refl, (refl, args))

  deferred_owned :
      (r : RunState) (id : String)
      → contains r.inbox.writes id ≡ true
      → contains (owned env (OperationState.run r)) id ≡ true
  deferred_owned r id h = contains_right r.inbox.steer _ id (
      contains_right r.inbox.follow_up _ id
        (contains_left r.inbox.writes (drained env r.control) id h))

  deferred_gone :
      (s t : Storage V) (c : Current) (r : RunState)
      → c.state ≡ OperationState.run r
      → All
          (λ id.
            written
              (pending_entry, id)
              (value_at t (pending_entry, id))
              (terminal_writes env s c (ending aborted none))
            ≡ none)
          r.inbox.writes
  deferred_gone s t c r p =
      All-listed _ r.inbox.writes [] r.inbox.writes
        (λ id m.
          whole env s t c (ending aborted none) (pending_entry, id)
          ∙ pending_gone env s c (ending aborted none)
              (before env t c (ending aborted none) (pending_entry, id)) id
              (subst (λ st. contains (owned env st) id ≡ true) (sym p) (deferred_owned r id m)))
        refl

  -- A run that is cancelled while it waits to try again ends at once, and its deferred writes are lost: the
  -- step is the aborted terminal transaction, which writes registers only, no entry, and deletes
  -- the pending content of every deferred write of the run.
  pub abort_drops_deferred :
      (w : World V) (s t : Storage V) (c : Current) (r : RunState) (g : GenerationContext) (n : ℕ)
      (not_before : ℤ) (why : String)
      → c.state ≡ OperationState.run r
      → r.phase ≡ assistant (retry_wait g n not_before why)
      → is_cancelled r.control ≡ true
      → (step env w s c ≡ finish (ending aborted none))
        × OnlyRegisters (terminal_writes env s c (ending aborted none))
        × All
            (λ id.
              written
                (pending_entry, id)
                (value_at t (pending_entry, id))
                (terminal_writes env s c (ending aborted none))
              ≡ none)
            r.inbox.writes
  unfolding step assistant_step
  abort_drops_deferred w s t c r g n not_before why p q h = (
    ap (state_step env w s c) p ∙ ap (phase_step env w s c r) q ∙ rw h refl,
    terminal-OnlyRegisters s c,
    deferred_gone s t c r p,
  )
