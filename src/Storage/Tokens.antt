-- ===== src/Storage/Tokens.antt =====
-- Registers as src/storage/mod.rs keeps them: the sequence number of the last write is a token that
-- a conditional commit (src/session.rs) can trust.
use native.Mathlib.Nat.{le_refl}
use reve.Prelude.{
  ℕ, ◌+◌, ◌<◌, ◌≤◌, ◌≡◌, refl, subst, ◌⊎◌, inl, inr, ℤ, String, List, [], ◌∷◌, length, u64_mod,
  arith, Option, none, some, if◌then◌else◌, Bool-cases, sym, ◌∙◌,
}
use reve.Map
use reve.Map.{get-insert, get-remove}
use reve.Namespace.{Namespace, RegisterKey, register_key, key_eq}
use reve.Entry.{Register, Write, entry, usage, register, set, delete, write_seq}
use reve.Storage.{Storage, Wire, Io, apply, apply_all, commit}
use reve.Storage.Sequence.{Consecutive, validate-Consecutive}
use reve.Storage.Tree.{seq-apply}
use reve.Storage.Outcome.{extended, commit_all_or_none}

module _ {V : Type 0} where
  abbrev pub register_at : Storage V → RegisterKey → Option (Register V)
  register_at s k = Map.get s.registers k

  -- No register is newer than the storage.
  abbrev pub Bounded : Storage V → Type 0
  Bounded s = (k : RegisterKey) (r : Register V) → register_at s k ≡ some r → r.seq ≤ s.seq

  -- What happened to a register between two storages: it is as it was, or gone, or newer.
  abbrev pub Moved : Storage V → Storage V → Type 0
  Moved s t =
      (k : RegisterKey)
      → (register_at t k ≡ register_at s k)
        ⊎ ((register_at t k ≡ none)
            ⊎ ((r : Register V) × (register_at t k ≡ some r) × (s.seq < r.seq)))

  -- The register map after one write, as one equation.
  pub register-apply :
      (s : Storage V) (n : ℕ) (ns : Namespace) (key : String) (v : V) (k : RegisterKey)
      → register_at (apply s (register (set n ns key v))) k ≡ (
          if key_eq (ns, key) k
          then some (record { namespace = ns; key = key; value = v; seq = n })
          else register_at s k)
  unfolding apply
  register-apply s n ns key v k = get-insert s.registers (ns, key) k _

  pub register-apply_delete :
      (s : Storage V) (n : ℕ) (ns : Namespace) (key : String) (k : RegisterKey)
      → register_at (apply s (register (delete n ns key))) k
        ≡ (if key_eq (ns, key) k then none else register_at s k)
  unfolding apply
  register-apply_delete s n ns key k = get-remove s.registers (ns, key) k

  -- What one write does to a register.
  abbrev pub Touched : Storage V → Write V → RegisterKey → Type 0
  Touched s w k =
      (register_at (apply s w) k ≡ register_at s k)
      ⊎ ((register_at (apply s w) k ≡ none)
          ⊎ ((r : Register V) × (register_at (apply s w) k ≡ some r) × (r.seq ≡ write_seq w)))

  pub apply-Touched : (s : Storage V) (w : Write V) (k : RegisterKey) → Touched s w k
  apply-Touched s (entry e) k = inl (unfold apply in refl)
  apply-Touched s (usage row) k = inl (unfold apply in refl)
  apply-Touched s (register (set n ns key v)) k = elim (Bool-cases (key_eq (ns, key) k)) [
    | inl hit ↦ inr (
        inr (
          record { namespace = ns; key = key; value = v; seq = n },
          rw (register-apply s n ns key v k, hit),
          refl,
        ))
    | inr miss ↦ inl (rw (register-apply s n ns key v k, miss))
  ]
  apply-Touched s (register (delete n ns key)) k = elim (Bool-cases (key_eq (ns, key) k)) [
    | inl hit ↦ inr (inl (rw (register-apply_delete s n ns key k, hit)))
    | inr miss ↦ inl (rw (register-apply_delete s n ns key k, miss))
  ]

  pub apply-Bounded :
      (s : Storage V) (w : Write V) → s.seq < write_seq w → Bounded s → Bounded (apply s w)
  apply-Bounded s w h b k r q = elim (apply-Touched s w k) [
    | inl same ↦ omega (arith, seq-apply s w, b k r (sym same ∙ q))
    | inr (inl gone) ↦ ground arith
    | inr (inr (r', p, e)) ↦ ground (arith, seq-apply s w)
  ]

  -- Writes with rising numbers only move registers forward.
  apply_all-Moved :
      (s t : Storage V) (out : List (Write V))
      → s.seq ≤ t.seq
      → Bounded t
      → Moved s t
      → Consecutive t.seq out
      → Bounded (apply_all t out)
        × Moved s (apply_all t out)
        × ((apply_all t out).seq ≡ t.seq + length out)
  unfolding apply_all
  apply_all-Moved s t [] h b m c = (b, m, omega arith)
  apply_all-Moved s t (w ∷ out) h b m (e, c) =
      let n : (apply t w).seq ≡ t.seq + 1 = omega (arith, seq-apply t w) in
      let (b', m', l) =
        apply_all-Moved s (apply t w) out (omega arith) (apply-Bounded t w (omega arith) b)
          (λ k. elim (apply-Touched t w k) [
            | inl same ↦ rw same (m k)
            | inr (inl gone) ↦ inr (inl gone)
            | inr (inr (r, p, q)) ↦ inr (inr (r, p, omega arith))
          ])
          (subst (λ x. Consecutive x out) (sym n) c) in
      (b', m', omega arith)

module _ {V : Type 0} (wire : Wire V) where
  -- A commit, whatever its outcome: the numbers stay ahead of the registers, and a register is as it
  -- was, or gone, or newer than the storage was.
  commit-Moved :
      (outcome : Io) (now : ℤ) (s : Storage V) (ws : List (Write V))
      → Bounded s
      → s.seq + length ws < u64_mod
      → let t = (commit wire outcome now s ws).1 in
        Bounded t × Moved s t × (s.seq ≤ t.seq) × (t.seq ≤ s.seq + length ws)
  commit-Moved outcome now s ws b h = elim (commit_all_or_none wire outcome now s ws) [
    | inl (e, sink, q) ↦ rw q (b, (λ k. inl refl), le_refl _, omega arith)
    | inr (out, last, ne, v, q) ↦
        let t : Storage V = record s { sink = extended wire out s.sink } in
        let (c, last_eq, len) = validate-Consecutive s now ws h v in
        let (b', m, l) = apply_all-Moved s t out (le_refl _) b (λ k. inl refl) c in
        rw q (b', m, omega arith, omega arith)
  ]

-- A transaction with what the clock and the disk answer when it is committed.
pub record Attempt (V : Type 0) : Type 0 where
  pub outcome : Io
  pub now : ℤ
  pub writes : List (Write V)

module _ {V : Type 0} (wire : Wire V) where
  unfoldable pub run : Storage V → List (Attempt V) → Storage V
  run s [] = s
  run s (a ∷ history) = run (commit wire a.outcome a.now s a.writes).1 history

  -- The writes of a history, refused ones included.
  abbrev pub write_count : List (Attempt V) → ℕ
  write_count [] = 0
  write_count (a ∷ history) = length a.writes + write_count history

  Moved-trans : (s t u : Storage V) → s.seq ≤ t.seq → Moved s t → Moved t u → Moved s u
  Moved-trans s t u h m n k = elim (n k) [
    | inl same ↦ rw same (m k)
    | inr (inl gone) ↦ inr (inl gone)
    | inr (inr (r, p, q)) ↦ inr (inr (r, p, omega arith))
  ]

  run-Moved :
      (s : Storage V) (history : List (Attempt V))
      → Bounded s
      → s.seq + write_count history < u64_mod
      → Moved s (run s history)
  unfolding run
  run-Moved s [] b h = λ k. inl refl
  run-Moved s (a ∷ history) b h =
      let t = (commit wire a.outcome a.now s a.writes).1 in
      let (b', m, l, u) = commit-Moved wire a.outcome a.now s a.writes b (omega arith) in
      Moved-trans s t (run t history) l m (run-Moved t history b' (omega arith))

  -- A register whose sequence number is what it was before any history of commits, refused and
  -- failed ones among them, is the register that it was: no value comes back under an old token.
  -- No register is newer than its storage at the start, and the sequence numbers stay below 2 ^
  -- 64.
  pub token_sound :
      (s : Storage V) (history : List (Attempt V)) (k : RegisterKey) (r r' : Register V)
      → Bounded s
      → s.seq + write_count history < u64_mod
      → register_at s k ≡ some r
      → register_at (run s history) k ≡ some r'
      → r'.seq ≡ r.seq
      → r' ≡ r
  token_sound s history k r r' b h p q e = elim (run-Moved s history b h k) [
    | inl same ↦ cc
    | inr (inl gone) ↦ cc
    | inr (inr (x, g, l)) ↦ absurd (ground (arith, b k r p))
  ]
