-- ===== src/Harness/Cancel.antt =====
-- What an abort makes of a state (src/harness.rs).
use reve.Prelude.{
  ◌≡◌, refl, ◌∙◌, sym, subst, inl, inr, ℤ, String, true, false, none, some, List, [], arith,
  Bool-cases,
}
use reve.Namespace.{register_key}
use reve.State.{OperationState, is_cancelled, state_kind}
use reve.Harness.{cancelled, cancel, stop_state}

abbrev pub deferred : OperationState → List String
deferred (OperationState.run r) = r.inbox.writes
deferred (OperationState.compaction c) = []
deferred (OperationState.navigation n) = []

some_injective : {A : Type 0} (a b : A) → some a ≡ some b → a ≡ b
some_injective a b h = ground arith

-- A stopped state, next to the one that it was.
abbrev pub Stopped : ℤ → OperationState → OperationState → Type 0
Stopped now s s' =
    (cancelled s' ≡ true)
    × (state_kind s' ≡ state_kind s)
    × (deferred s' ≡ deferred s)
    × ((cancel now s').state ≡ none)

live_cancel :
    (now : ℤ) (s : OperationState)
    → cancelled s ≡ false
    → (cancel now s).state ≡ (stop_state now s).state
unfolding cancel
live_cancel now s h = rw h refl

-- An abort is idempotent: the state that it writes is cancelled, is of the same kind, keeps the deferred
-- writes, and a second abort finds nothing to do.
pub cancel_once :
    (now now' : ℤ) (s s' : OperationState) → (cancel now s).state ≡ some s' → Stopped now' s s'
unfolding cancel
cancel_once now now' (OperationState.run r) s' h = elim (Bool-cases (is_cancelled r.control)) [
  | inl already ↦ absurd (ground (arith, h, already))
  | inr live ↦
      subst (Stopped now' (OperationState.run r))
        (some_injective _ _ (sym (live_cancel now (OperationState.run r) live) ∙ h))
        (refl, refl, refl, refl)
]
cancel_once now now' (OperationState.compaction c) s' h =
    elim (Bool-cases (is_cancelled c.control)) [
      | inl already ↦ absurd (ground (arith, h, already))
      | inr live ↦
          subst (Stopped now' (OperationState.compaction c))
            (some_injective _ _ (sym (live_cancel now (OperationState.compaction c) live) ∙ h))
            (refl, refl, refl, refl)
    ]
cancel_once now now' (OperationState.navigation n) s' h =
    elim (Bool-cases (is_cancelled n.control)) [
      | inl already ↦ absurd (ground (arith, h, already))
      | inr live ↦
          subst (Stopped now' (OperationState.navigation n))
            (some_injective _ _ (sym (live_cancel now (OperationState.navigation n) live) ∙ h))
            (refl, refl, refl, refl)
    ]
