-- ===== src/Storage/Sequence.antt =====
-- The sequence numbers that `Storage::commit` (src/storage/mod.rs) assigns.
use reve.Prelude.{
  ℕ, ◌+◌, ◌<◌, ◌≡◌, refl, ap, suc, subst, ◌∙◌, ℤ, String, List, [], ◌∷◌, length, wrap64, u64_mod,
  arith,
}
use reve.Entry.{Write, entry, usage, register, set, delete, write_seq}
use reve.Storage.{Storage, Result, ok, >>=-eq-ok, stamp, check, validate, note_entry, note_usage}

module _ {V : Type 0} where
  -- One more than the number before, from write to write.
  abbrev pub Consecutive : ℕ → List (Write V) → Type 0
  Consecutive seq [] = Unit
  Consecutive seq (w ∷ ws) = (write_seq w ≡ seq + 1) × Consecutive (seq + 1) ws

  pub write_seq-stamp : (now : ℤ) (seq : ℕ) (w : Write V) → write_seq (stamp now seq w) ≡ seq
  unfolding stamp
  write_seq-stamp now seq (entry e) = refl
  write_seq-stamp now seq (usage row) = refl
  write_seq-stamp now seq (register (set n namespace key v)) = refl
  write_seq-stamp now seq (register (delete n namespace key)) = refl

  -- What a validation that succeeds has checked, write by write.
  abbrev pub Stamped :
      Storage V → ℤ → ℕ → List String → List String → List (Write V) → List (Write V) → ℕ → Type 0
  Stamped s now seq es us [] out last = (out ≡ []) × (last ≡ seq)
  Stamped s now seq es us (w ∷ ws) out last =
      (rest : List (Write V)) × (check s es us (stamp now (wrap64 (seq + 1)) w) ≡ ok tt)
      × Stamped s now (wrap64 (seq + 1)) (note_entry w es) (note_usage w us) ws rest last
      × (out ≡ stamp now (wrap64 (seq + 1)) w ∷ rest)

  pub validate-Stamped :
      (s : Storage V) (now : ℤ) (seq : ℕ) (es us : List String) (ws : List (Write V))
      {out : List (Write V)} {last : ℕ}
      → validate s now seq es us ws ≡ ok (out, last)
      → Stamped s now seq es us ws out last
  unfolding validate
  validate-Stamped s now seq es us [] h = (ground arith, ground arith)
  validate-Stamped s now seq es us (w ∷ ws) h =
      let (u, c, h') = >>=-eq-ok (check s es us (stamp now (wrap64 (seq + 1)) w)) _ h in
      let (r, v, e) =
        >>=-eq-ok (validate s now (wrap64 (seq + 1)) (note_entry w es) (note_usage w us) ws) _ h' in
      (
        r.0,
        c,
        subst (λ n. Stamped s now (wrap64 (seq + 1)) (note_entry w es) (note_usage w us) ws r.0 n)
            (last_eq e)
            (validate-Stamped s now (wrap64 (seq + 1)) (note_entry w es) (note_usage w us) ws v),
        out_eq e,
      )
    where
      last_eq :
          {a b : List (Write V)} {m n : ℕ}
          → ◌≡◌ {A = Result (List (Write V) × ℕ)} (ok (a, m)) (ok (b, n))
          → m ≡ n
      last_eq h = ground arith

      out_eq :
          {a b : List (Write V)} {m n : ℕ}
          → ◌≡◌ {A = Result (List (Write V) × ℕ)} (ok (a, m)) (ok (b, n))
          → b ≡ a
      out_eq h = ground arith

  Stamped-Consecutive :
      (s : Storage V) (now : ℤ) (seq : ℕ) (es us : List String) (ws out : List (Write V)) (last : ℕ)
      → seq + length ws < u64_mod
      → Stamped s now seq es us ws out last
      → Consecutive seq out × (last ≡ seq + length ws) × (length out ≡ length ws)
  Stamped-Consecutive s now seq es us [] out last h (e, l) = (rw e tt, omega arith, rw e)
  Stamped-Consecutive s now seq es us (w ∷ ws) out last h (rest, c, r, e) =
      let n : wrap64 (seq + 1) ≡ seq + 1 = omega arith in
      let ih =
        Stamped-Consecutive s now (wrap64 (seq + 1)) (note_entry w es) (note_usage w us) ws rest
          last (omega arith) r in
      (
        rw e (write_seq-stamp now (wrap64 (seq + 1)) w ∙ n, subst (λ k. Consecutive k rest) n ih.0),
        omega (arith, ih.1),
        rw e (ap suc ih.2),
      )

  -- Where the sequence numbers stay below 2 ^ 64, a transaction that validates comes out with as many
  -- writes, numbered one by one from the storage's last number on.
  pub validate-Consecutive :
      (s : Storage V) (now : ℤ) (ws : List (Write V)) {out : List (Write V)} {last : ℕ}
      → s.seq + length ws < u64_mod
      → validate s now s.seq [] [] ws ≡ ok (out, last)
      → Consecutive s.seq out × (last ≡ s.seq + length ws) × (length out ≡ length ws)
  validate-Consecutive s now ws {out} {last} h v =
      Stamped-Consecutive s now s.seq [] [] ws out last h (validate-Stamped s now s.seq [] [] ws v)
