-- ===== src/Storage/Written.antt =====
-- A register that a commit of src/storage/mod.rs writes has another token afterwards.
use native.Mathlib.Nat.{le_refl}
use reve.Prelude.{
  ℕ, ◌+◌, ◌<◌, ◌≤◌, ◌≡◌, refl, ◌∙◌, sym, subst, ◌⊎◌, inl, inr, ℤ, String, Bool, true, false, ◌||◌,
  none, some, List, [], ◌∷◌, length, u64_mod, arith, wrap64, Bool-cases,
}
use reve.Namespace.{RegisterKey, register_key, key_eq}
use reve.Entry.{Register, Write, entry, usage, register, set, delete, write_seq}
use reve.Storage.{Storage, Wire, Io, apply, apply_all, stamp, commit, note_entry, note_usage}
use reve.Storage.Sequence.{Consecutive, Stamped, validate-Stamped, validate-Consecutive}
use reve.Storage.Tree.{seq-apply}
use reve.Storage.Outcome.{extended, Accepted}
use reve.Storage.Tokens.{register_at, register-apply, register-apply_delete, apply-Touched}

module _ {V : Type 0} where
  -- Does the write set or delete this register?
  abbrev pub hits : RegisterKey → Write V → Bool
  hits k (entry e) = false
  hits k (usage row) = false
  hits k (register (set n ns key v)) = key_eq (ns, key) k
  hits k (register (delete n ns key)) = key_eq (ns, key) k

  abbrev pub hits_any : RegisterKey → List (Write V) → Bool
  hits_any k [] = false
  hits_any k (w ∷ ws) = hits k w || hits_any k ws

  -- The register is gone or newer than the storage `s`.
  abbrev pub Superseded : Storage V → Storage V → RegisterKey → Type 0
  Superseded s t k =
      (register_at t k ≡ none) ⊎ ((r : Register V) × (register_at t k ≡ some r) × (s.seq < r.seq))

  hit-Superseded :
      (s t : Storage V) (w : Write V) (k : RegisterKey)
      → hits k w ≡ true
      → s.seq < write_seq w
      → Superseded s (apply t w) k
  hit-Superseded s t (entry e) k h l = absurd (ground arith)
  hit-Superseded s t (usage row) k h l = absurd (ground arith)
  hit-Superseded s t (register (set n ns key v)) k h l = inr (
    record { namespace = ns; key = key; value = v; seq = n },
    rw (register-apply t n ns key v k, h),
    l,
  )
  hit-Superseded s t (register (delete n ns key)) k h l =
      inl (rw (register-apply_delete t n ns key k, h))

  apply-Superseded :
      (s t : Storage V) (w : Write V) (k : RegisterKey)
      → s.seq < write_seq w
      → Superseded s t k
      → Superseded s (apply t w) k
  apply-Superseded s t w k l h = elim (apply-Touched t w k) [
    | inl same ↦ rw same h
    | inr (inl gone) ↦ inl gone
    | inr (inr (r, p, q)) ↦ inr (r, p, omega arith)
  ]

  apply_all-Superseded :
      (s t : Storage V) (out : List (Write V)) (k : RegisterKey)
      → s.seq ≤ t.seq
      → Consecutive t.seq out
      → Superseded s t k ⊎ (hits_any k out ≡ true)
      → Superseded s (apply_all t out) k
  unfolding apply_all
  apply_all-Superseded s t [] k h c (inl x) = x
  apply_all-Superseded s t [] k h c (inr x) = absurd (ground arith)
  apply_all-Superseded s t (w ∷ out) k h (e, c) x =
      let n : (apply t w).seq ≡ t.seq + 1 = omega (arith, seq-apply t w) in
      let c' = subst (λ m. Consecutive m out) (sym n) c in
      apply_all-Superseded s (apply t w) out k (omega arith) c' (elim (Bool-cases (hits k w)) [
        | inl hit ↦ inl (hit-Superseded s t w k hit (omega arith))
        | inr miss ↦ elim x [
          | inl old ↦ inl (apply-Superseded s t w k (omega arith) old)
          | inr later ↦ inr (ground (arith, miss, later))
        ]
      ])

  hits-stamp :
      (now : ℤ) (seq : ℕ) (k : RegisterKey) (w : Write V) → hits k (stamp now seq w) ≡ hits k w
  unfolding stamp
  hits-stamp now seq k (entry e) = refl
  hits-stamp now seq k (usage row) = refl
  hits-stamp now seq k (register (set n ns key v)) = refl
  hits-stamp now seq k (register (delete n ns key)) = refl

  hits_any-Stamped :
      (s : Storage V) (now : ℤ) (seq : ℕ) (es us : List String) (k : RegisterKey)
      (ws out : List (Write V)) (last : ℕ)
      → Stamped s now seq es us ws out last
      → hits_any k out ≡ hits_any k ws
  hits_any-Stamped s now seq es us k [] out last (e, l) = rw e
  hits_any-Stamped s now seq es us k (w ∷ ws) out last (rest, c, r, e) =
      let ih =
        hits_any-Stamped s now (wrap64 (seq + 1)) (note_entry w es) (note_usage w us) k ws rest last
          r in
      rw e (rw (hits-stamp now (wrap64 (seq + 1)) k w, ih))

module _ {V : Type 0} (wire : Wire V) where
  -- After an accepted transaction each register that it writes is gone, or has a sequence number above
  -- all that the storage had given out before.
  pub commit-Superseded :
      (outcome : Io) (now : ℤ) (s : Storage V) (ws : List (Write V)) (k : RegisterKey)
      → s.seq + length ws < u64_mod
      → hits_any k ws ≡ true
      → Accepted wire now s ws (commit wire outcome now s ws)
      → Superseded s (commit wire outcome now s ws).1 k
  commit-Superseded outcome now s ws k small hit (out, last, ne, v, q) =
      let t : Storage V = record s { sink = extended wire out s.sink } in
      let (c, last_eq, len) = validate-Consecutive s now ws small v in
      rw q (
        apply_all-Superseded s t out k (le_refl _) c (
          inr (
            hits_any-Stamped s now s.seq [] [] k ws out last
              (validate-Stamped s now s.seq [] [] ws v)
            ∙ hit)))
