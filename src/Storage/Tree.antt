-- ===== src/Storage/Tree.antt =====
-- The conversation tree in the entry map of src/storage/mod.rs: entries are write-once, keyed by
-- their id, and every parent is there with an earlier sequence number.
use reve.Prelude.{
  ℕ, ◌+◌, ◌<◌, ◌≤◌, max, ◌≡◌, refl, subst, ◌∙◌, sym, ap, ◌≢◌, ◌⊎◌, ℤ, ◌||◌, String, List, [], ◌∷◌,
  length, wrap64, u64_mod, arith, Option, none, some, true, false, eq_iff, is_some, contains, inl,
  inr, All,
}
use reve.Map.{string_key, get-insert}
use reve.Map
use reve.Entry.{Entry, Write, entry, usage, register, set, delete, write_seq}
use reve.Storage.{
  Storage, Wire, Io, ok, stamp, check, check_entry, parent_missing, note_entry, note_usage, apply,
  apply_all, commit, has_entry,
}
use native.Mathlib.Nat.{le_refl}
use reve.Storage.Outcome.{extended, commit_all_or_none}
use reve.Storage.Sequence.{write_seq-stamp, Stamped, validate-Stamped}

found : {A : Type 0} (o : Option A) → is_some o ≡ true → (a : A) × (o ≡ some a)
found none h = cc
found (some a) h = (a, refl)

missing : {A : Type 0} (o : Option A) → is_some o ≡ false → o ≡ none
missing none h = refl
missing (some a) h = cc

module _ {V : Type 0} where
  pub record IsValid (s : Storage V) : Type 0 where
    pub keyed : (id : String) (e : Entry V) → Map.get s.entries id ≡ some e → e.id ≡ id
    pub bounded : (id : String) (e : Entry V) → Map.get s.entries id ≡ some e → e.seq ≤ s.seq
    pub rooted :
        (id p : String) (e : Entry V)
        → Map.get s.entries id ≡ some e
        → e.parent_id ≡ some p
        → (a : Entry V) × (Map.get s.entries p ≡ some a) × (a.seq < e.seq)

  -- What an applied entry must find: its id free and its parent there.
  abbrev pub Fits : Storage V → Write V → Type 0
  Fits s (entry e) =
      (Map.get s.entries e.id ≡ none)
      × ((p : String) → e.parent_id ≡ some p → (a : Entry V) × (Map.get s.entries p ≡ some a))
  Fits s (usage row) = Unit
  Fits s (register r) = Unit

  -- Entries that are there stay as they are.
  pub get-apply :
      (s : Storage V) (w : Write V)
      → Fits s w
      → (id : String) (e : Entry V) → Map.get s.entries id ≡ some e
      → Map.get (apply s w).entries id ≡ some e
  unfolding apply
  get-apply s (entry x) f id e h =
      rw (get-insert s.entries x.id id x) (ground (arith, eq_iff x.id id, f.0))
  get-apply s (usage row) f id e h = h
  get-apply s (register (set n ns k v)) f id e h = h
  get-apply s (register (delete n ns k)) f id e h = h

  pub seq-apply : (s : Storage V) (w : Write V) → (apply s w).seq ≡ max s.seq (write_seq w)
  unfolding apply
  seq-apply s (entry x) = refl
  seq-apply s (usage row) = refl
  seq-apply s (register (set n ns k v)) = refl
  seq-apply s (register (delete n ns k)) = refl

  -- An entry that is there after an entry write is the new one or an old one.
  entry-apply :
      (s : Storage V) (x : Entry V) (id : String) (e : Entry V)
      → Map.get (apply s (entry x)).entries id ≡ some e
      → ((x.id ≡ id) × (e ≡ x)) ⊎ (Map.get s.entries id ≡ some e)
  unfolding apply
  entry-apply s x id e h = ground (arith, get-insert s.entries x.id id x, eq_iff x.id id)

  kept-IsValid : (s t : Storage V) → IsValid s → t.entries ≡ s.entries → s.seq ≤ t.seq → IsValid t
  kept-IsValid s t v q h = record {
    keyed = λ id e g. v.keyed id e (subst (λ m. Map.get m id ≡ some e) q g);
    bounded = λ id e g. omega (arith, v.bounded id e (subst (λ m. Map.get m id ≡ some e) q g));
    rooted = λ id p e g r.
        let (a, b, c) = v.rooted id p e (subst (λ m. Map.get m id ≡ some e) q g) r in
        (a, subst (λ m. Map.get m p ≡ some a) (sym q) b, c);
  }

  pub apply-IsValid :
      (s : Storage V) (w : Write V)
      → IsValid s
      → s.seq < write_seq w
      → Fits s w
      → IsValid (apply s w)
  apply-IsValid s (entry x) v h f = record {
    keyed =
        λ id e g. elim (entry-apply s x id e g) [ inl n ↦ ground arith | inr o ↦ v.keyed id e o ];
    bounded = λ id e g. elim (entry-apply s x id e g) [
      | inl n ↦ ground (arith, seq-apply s (entry x))
      | inr o ↦ ground (arith, seq-apply s (entry x), v.bounded id e o)
    ];
    rooted = λ id p e g q. elim (entry-apply s x id e g) [
      | inl n ↦
          let (a, b) = f.1 p (ground arith) in
          (a, get-apply s (entry x) f p a b, ground (arith, v.bounded p a b))
      | inr o ↦ let (a, b, c) = v.rooted id p e o q in (a, get-apply s (entry x) f p a b, c)
    ];
  }
  apply-IsValid s (usage row) v h f =
      kept-IsValid s (apply s (usage row)) v (unfold apply in refl)
        (omega (arith, seq-apply s (usage row)))
  apply-IsValid s (register (set n ns k x)) v h f =
      kept-IsValid s (apply s (register (set n ns k x))) v (unfold apply in refl)
        (omega (arith, seq-apply s (register (set n ns k x))))
  apply-IsValid s (register (delete n ns k)) v h f =
      kept-IsValid s (apply s (register (delete n ns k))) v (unfold apply in refl)
        (omega (arith, seq-apply s (register (delete n ns k))))

  -- The writes that the storage would take for their own parents.
  abbrev pub OwnParentFree : Write V → Type 0
  OwnParentFree (entry e) = e.parent_id ≢ some e.id
  OwnParentFree (usage row) = Unit
  OwnParentFree (register r) = Unit

  -- `t` is the storage `s` after the entries `es` of the transaction.
  abbrev pub Sees : Storage V → List String → Storage V → Type 0
  Sees s es t = (id : String) → has_entry t id ≡ (has_entry s id || contains es id)

  check_entry-facts :
      (s : Storage V) (es us : List String) (e : Entry V)
      → check_entry s es us e ≡ ok tt
      → (has_entry s e.id ≡ false)
        × (contains es e.id ≡ false)
        × (parent_missing s (e.id ∷ es) e.parent_id ≡ none)
  unfolding check_entry
  check_entry-facts s es us e h = ground arith

  parent_missing-facts :
      (s : Storage V) (ids : List String) (o : Option String) (p : String)
      → parent_missing s ids o ≡ none
      → o ≡ some p
      → (has_entry s p || contains ids p) ≡ true
  unfolding parent_missing
  parent_missing-facts s ids o p h q = ground arith

  check-Fits :
      (s t : Storage V) (es us : List String) (w : Write V)
      → check s es us w ≡ ok tt
      → Sees s es t
      → OwnParentFree w
      → Fits t w
  unfolding check
  check-Fits s t es us (entry e) c sees own =
      let (a, b, d) = check_entry-facts s es us e c in
      (
        missing (Map.get t.entries e.id) (ground (arith, sees e.id)),
        λ p q. found (Map.get t.entries p) (
            ground
              (arith, sees p, parent_missing-facts s (e.id ∷ es) e.parent_id p d q, eq_iff e.id p)),
      )
  check-Fits s t es us (usage row) c sees own = tt
  check-Fits s t es us (register r) c sees own = tt

  has_entry-apply :
      (s t : Storage V) (es : List String) (w : Write V)
      → Sees s es t
      → Sees s (note_entry w es) (apply t w)
  unfolding apply
  has_entry-apply s t es (entry e) sees id = ground (arith, sees id, get-insert t.entries e.id id e)
  has_entry-apply s t es (usage row) sees id = sees id
  has_entry-apply s t es (register (set n ns k v)) sees id = sees id
  has_entry-apply s t es (register (delete n ns k)) sees id = sees id

  note_entry-stamp :
      (now : ℤ) (seq : ℕ) (w : Write V) (es : List String)
      → note_entry (stamp now seq w) es ≡ note_entry w es
  unfolding stamp
  note_entry-stamp now seq (entry e) es = refl
  note_entry-stamp now seq (usage row) es = refl
  note_entry-stamp now seq (register (set n ns k v)) es = refl
  note_entry-stamp now seq (register (delete n ns k)) es = refl

  OwnParentFree-stamp :
      (now : ℤ) (seq : ℕ) (w : Write V) → OwnParentFree w → OwnParentFree (stamp now seq w)
  unfolding stamp
  OwnParentFree-stamp now seq (entry e) h = h
  OwnParentFree-stamp now seq (usage row) h = tt
  OwnParentFree-stamp now seq (register (set n ns k v)) h = tt
  OwnParentFree-stamp now seq (register (delete n ns k)) h = tt

  Stamped-IsValid :
      (s t : Storage V) (now : ℤ) (seq : ℕ) (es us : List String) (ws out : List (Write V))
      (last : ℕ)
      → Stamped s now seq es us ws out last
      → seq + length ws < u64_mod
      → All OwnParentFree ws
      → Sees s es t
      → t.seq ≡ seq
      → IsValid t
      → IsValid (apply_all t out)
  unfolding apply_all
  Stamped-IsValid s t now seq es us [] out last (e, l) b own sees q v = rw e v
  Stamped-IsValid s t now seq es us (w ∷ ws) out last (rest, c, r, e) b own sees q v =
      let x = stamp now (wrap64 (seq + 1)) w in
      let n : write_seq x ≡ seq + 1 = omega (arith, write_seq-stamp now (wrap64 (seq + 1)) w) in
      let f = check-Fits s t es us x c sees (OwnParentFree-stamp now (wrap64 (seq + 1)) w own.0) in
      rw e (
        Stamped-IsValid s (apply t x) now (wrap64 (seq + 1)) (note_entry w es) (note_usage w us) ws
          rest last r (omega arith) own.1
          (λ id.
            has_entry-apply s t es x sees id
            ∙ ap (λ l. has_entry s id || contains l id)
                (note_entry-stamp now (wrap64 (seq + 1)) w es))
          (omega (arith, seq-apply t x)) (apply-IsValid t x v (omega arith) f))

module _ {V : Type 0} (wire : Wire V) where
  -- A commit keeps the tree well formed, whatever its outcome, unless an entry of it names itself as
  -- its parent or the sequence numbers run out.
  pub commit-IsValid :
      (outcome : Io) (now : ℤ) (s : Storage V) (ws : List (Write V))
      → IsValid s
      → All OwnParentFree ws
      → s.seq + length ws < u64_mod
      → IsValid (commit wire outcome now s ws).1
  commit-IsValid outcome now s ws v own b = elim (commit_all_or_none wire outcome now s ws) [
    | inl (e, sink, q) ↦ rw q (kept-IsValid s (record s { sink = sink }) v refl (le_refl _))
    | inr (out, last, ne, h, q) ↦ rw q (
        Stamped-IsValid s (record s { sink = extended wire out s.sink }) now s.seq [] [] ws out last
          (validate-Stamped s now s.seq [] [] ws h) b own (λ id. ground arith) refl
          (kept-IsValid s (record s { sink = extended wire out s.sink }) v refl (le_refl _)))
  ]
