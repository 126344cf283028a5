-- ===== src/Storage/Registers.antt =====
-- The registers of src/storage/mod.rs as a plain map from keys to values, which transactions update.
use reve.Prelude.{
  ℕ, ◌+◌, ◌≡◌, refl, ◌∙◌, ap, ◌⊎◌, inl, inr, ℤ, String, Option, none, some, List, [], ◌∷◌, ◌++◌,
  wrap64, if◌then◌else◌, Bool-cases,
}
use reve.Namespace.{RegisterKey, register_key, key_eq}
use reve.Entry.{Register, Write, entry, usage, register, set, delete, CommitResult}
use reve.Storage.{Storage, Wire, Io, apply, apply_all, stamp, commit, note_entry, note_usage}
use reve.Storage
use reve.Storage.Sequence.{Stamped, validate-Stamped}
use reve.Storage.Outcome.{extended, Accepted, commit_all_or_none}
use reve.Storage.Tokens.{register_at, register-apply, register-apply_delete}

module _ {V : Type 0} where
  -- The abstract view: what a key holds, its token forgotten.
  abbrev pub value_of : Option (Register V) → Option V
  value_of none = none
  value_of (some r) = some r.value

  abbrev pub value_at : Storage V → RegisterKey → Option V
  value_at s k = value_of (register_at s k)

  -- What a write, and then a transaction, makes of what a key held.
  abbrev pub written_one : RegisterKey → Option V → Write V → Option V
  written_one k v (entry e) = v
  written_one k v (usage row) = v
  written_one k v (register (set n ns key x)) = if key_eq (ns, key) k then some x else v
  written_one k v (register (delete n ns key)) = if key_eq (ns, key) k then none else v

  abbrev pub written : RegisterKey → Option V → List (Write V) → Option V
  written k v [] = v
  written k v (w ∷ ws) = written k (written_one k v w) ws

  pub written-append :
      (k : RegisterKey) (v : Option V) (xs ys : List (Write V))
      → written k v (xs ++ ys) ≡ written k (written k v xs) ys
  written-append k v [] ys = refl
  written-append k v (x ∷ xs) ys = written-append k (written_one k v x) xs ys

  value-apply :
      (s : Storage V) (w : Write V) (k : RegisterKey)
      → value_at (apply s w) k ≡ written_one k (value_at s k) w
  value-apply s (entry e) k = unfold apply in refl
  value-apply s (usage row) k = unfold apply in refl
  value-apply s (register (set n ns key v)) k = elim (Bool-cases (key_eq (ns, key) k)) [
    | inl hit ↦ rw (register-apply s n ns key v k, hit) refl
    | inr miss ↦ rw (register-apply s n ns key v k, miss) refl
  ]
  value-apply s (register (delete n ns key)) k = elim (Bool-cases (key_eq (ns, key) k)) [
    | inl hit ↦ rw (register-apply_delete s n ns key k, hit) refl
    | inr miss ↦ rw (register-apply_delete s n ns key k, miss) refl
  ]

  pub value-apply_all :
      (s : Storage V) (ws : List (Write V)) (k : RegisterKey)
      → value_at (apply_all s ws) k ≡ written k (value_at s k) ws
  unfolding apply_all
  value-apply_all s [] k = refl
  value-apply_all s (w ∷ ws) k =
      value-apply_all (apply s w) ws k ∙ ap (λ v. written k v ws) (value-apply s w k)

  written_one-stamp :
      (now : ℤ) (seq : ℕ) (k : RegisterKey) (v : Option V) (w : Write V)
      → written_one k v (stamp now seq w) ≡ written_one k v w
  unfolding stamp
  written_one-stamp now seq k v (entry e) = refl
  written_one-stamp now seq k v (usage row) = refl
  written_one-stamp now seq k v (register (set n ns key x)) = refl
  written_one-stamp now seq k v (register (delete n ns key)) = refl

  written-Stamped :
      (s : Storage V) (now : ℤ) (seq : ℕ) (es us : List String) (k : RegisterKey) (v : Option V)
      (ws out : List (Write V)) (last : ℕ)
      → Stamped s now seq es us ws out last
      → written k v out ≡ written k v ws
  written-Stamped s now seq es us k v [] out last (e, l) = rw e refl
  written-Stamped s now seq es us k v (w ∷ ws) out last (rest, c, r, e) = rw e (
      written-Stamped s now (wrap64 (seq + 1)) (note_entry w es) (note_usage w us) k
        (written_one k v (stamp now (wrap64 (seq + 1)) w)) ws rest last r
      ∙ ap (λ x. written k x ws) (written_one-stamp now (wrap64 (seq + 1)) k v w))

module _ {V : Type 0} (wire : Wire V) where
  -- An accepted transaction does to the registers what its writes say, in their order.
  pub commit-written :
      (outcome : Io) (now : ℤ) (s : Storage V) (ws : List (Write V)) (k : RegisterKey)
      → Accepted wire now s ws (commit wire outcome now s ws)
      → value_at (commit wire outcome now s ws).1 k ≡ written k (value_at s k) ws
  commit-written outcome now s ws k (out, last, ne, v, q) =
      ap (λ (r : Storage.Result CommitResult × Storage V). value_at r.1 k) q
      ∙ value-apply_all (record s { sink = extended wire out s.sink }) out k
      ∙ written-Stamped s now s.seq [] [] k (value_at s k) ws out last
          (validate-Stamped s now s.seq [] [] ws v)

  -- The storage implements a map with transactions. A commit that reports an error leaves what every key
  -- holds as it was. A commit that is answered has done all its writes, and to no other key, and a
  -- later write of a key wins over an earlier one.
  pub commit_refines_map :
      (outcome : Io) (now : ℤ) (s : Storage V) (ws : List (Write V))
      → ((e : Storage.StorageError) × ((commit wire outcome now s ws).0 ≡ Storage.err e)
          × ((k : RegisterKey) → value_at (commit wire outcome now s ws).1 k ≡ value_at s k))
        ⊎ ((c : CommitResult) × ((commit wire outcome now s ws).0 ≡ Storage.ok c)
            × ((k : RegisterKey)
                → value_at (commit wire outcome now s ws).1 k ≡ written k (value_at s k) ws))
  commit_refines_map outcome now s ws = elim (commit_all_or_none wire outcome now s ws) [
    | inl (e, sink, p) ↦ inl (
      e,
      ap (λ (r : Storage.Result CommitResult × Storage V). r.0) p,
      λ k. ap (λ (r : Storage.Result CommitResult × Storage V). value_at r.1 k) p,
    )
    | inr (out, last, ne, v, p) ↦ inr (
      record { first_seq = wrap64 (s.seq + 1); last_seq = last; timestamp = now },
      ap (λ (r : Storage.Result CommitResult × Storage V). r.0) p,
      λ k. commit-written outcome now s ws k (out, last, ne, v, p),
    )
  ]
