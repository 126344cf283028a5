-- ===== src/Storage/Branch.antt =====
-- `Storage::scan_branch` (src/storage/mod.rs): the walk towards the root ends on a well-formed tree.
use reve.Prelude.{
  ℕ, zero, suc, ◌+◌, ◌<◌, ◌≡◌, refl, ◌⊎◌, inl, inr, String, true, false, List, [], ◌∷◌, Option,
  none, some, arith, Option-cases, Bool-cases, filter, contains, wrap64, ℤ, eq_iff, str_eq, is_some,
}
use reve.Map
use reve.Map.{string_key, get-insert_self}
use reve.Entry.{Entry, entry}
use reve.Storage.{
  Storage, bool_eq, Wire, done, ok, has_entry, commit, check_entry, parent_missing, validate, apply,
  apply_all,
}
use reve.Storage.Scan.{Order, oriented, selects, limited, BranchScan, stops, walk, scan_branch}
use reve.Storage.Outcome.{commit_done, extended}
use reve.Storage.Tree.{IsValid}

module _ {V : Type 0} (s : Storage V) (scan : BranchScan) where
  -- The entries from the cursor on, parent by parent: up to the first that stops the scan, or to a
  -- place where there is no entry.
  abbrev pub IsBranch : Option String → List (Entry V) → Type 0
  IsBranch cursor [] =
      (cursor ≡ none) ⊎ ((id : String) × (cursor ≡ some id) × (Map.get s.entries id ≡ none))
  IsBranch cursor (e ∷ es) =
      (id : String) × (cursor ≡ some id)
      × (Map.get s.entries id ≡ some e)
      × (((stops scan e ≡ true) × (es ≡ [])) ⊎ ((stops scan e ≡ false) × IsBranch e.parent_id es))

  -- The sequence numbers fall, so no entry comes twice.
  abbrev pub Descending : ℕ → List (Entry V) → Type 0
  Descending n [] = Unit
  Descending n (e ∷ es) = (e.seq < n) × Descending e.seq es

  walk_total :
      IsValid s
      → (fuel bound : ℕ) (cursor : Option String) → bound < fuel
      → ((id : String) (e : Entry V)
          → cursor ≡ some id
          → Map.get s.entries id ≡ some e
          → e.seq < bound)
      → (path : List (Entry V)) × (walk fuel s scan cursor ≡ some path)
        × IsBranch cursor path
        × Descending bound path
  unfolding walk
  walk_total v zero bound cursor h f = absurd (omega arith)
  walk_total v (suc fuel) bound none h f = ([], refl, inl refl, tt)
  walk_total v (suc fuel) bound (some id) h f = elim (Option-cases (Map.get s.entries id)) [
    | inl q ↦ ([], rw (q, walk), inr (id, refl, q), tt)
    | inr (e, q) ↦ elim (Bool-cases (stops scan e)) [
      | inl stop ↦
          (e ∷ [], rw (q, walk) (rw stop), (id, refl, q, inl (stop, refl)), (f id e refl q, tt))
      | inr go ↦
          let lt = f id e refl q in
          let (path, w, b, d) =
            walk_total v fuel e.seq e.parent_id (omega arith)
              (λ p a r g. let (a', g', l) = v.rooted id p e q r in ground arith) in
          (e ∷ path, rw (q, walk) (rw go (rw w)), (id, refl, q, inr (go, b)), (lt, d))
    ]
  ]

-- The whole branch of an entry.
abbrev pub from_entry : String → BranchScan
from_entry id = record {
  start = some id;
  stop_at_type = none;
  stop_at_id = none;
  entry_type = none;
  custom_type = none;
  order = Order.newest_first;
  limit = none;
}

module _ {V : Type 0} where
  -- On a well-formed tree every branch scan ends, with fuel one above the next sequence number. It
  -- returns the branch of its start, ordered, filtered and limited; no entry comes twice.
  pub scan_branch_total :
      (s : Storage V) (scan : BranchScan) (fuel : ℕ)
      → IsValid s
      → s.seq + 1 < fuel
      → (path : List (Entry V)) × IsBranch s scan scan.start path
        × Descending s scan (s.seq + 1) path
        × (scan_branch fuel s scan
            ≡ some (limited scan.limit (filter (selects scan) (oriented scan.order path))))
  scan_branch_total s scan fuel v h =
      let (path, w, b, d) =
        walk_total s scan v fuel (s.seq + 1) scan.start h
          (λ id e q g. omega (arith, v.bounded id e g)) in
      (path, b, d, unfold scan_branch in rw (w, scan_branch))

  own_parent_walk :
      (s : Storage V) (id : String) (e : Entry V) (fuel : ℕ)
      → Map.get s.entries id ≡ some e
      → e.parent_id ≡ some id
      → walk fuel s (from_entry id) (some id) ≡ none
  unfolding walk stops
  own_parent_walk s id e zero g p = refl
  own_parent_walk s id e (suc fuel) g p = ground (arith, own_parent_walk s id e fuel g p)

  own_parent_check :
      (s : Storage V) (e : Entry V)
      → has_entry s e.id ≡ false
      → contains s.usage_ids e.id ≡ false
      → e.parent_id ≡ some e.id
      → str_eq e.entry_type "" ≡ false
      → bool_eq (str_eq e.entry_type "custom") (is_some e.custom_type) ≡ true
      → check_entry s [] [] e ≡ ok tt
  unfolding check_entry parent_missing
  own_parent_check s e fresh unused own kind plain = ground (arith, eq_iff e.id e.id)

  own_parent_validate :
      (now : ℤ) (s : Storage V) (e : Entry V)
      → has_entry s e.id ≡ false
      → contains s.usage_ids e.id ≡ false
      → e.parent_id ≡ some e.id
      → str_eq e.entry_type "" ≡ false
      → bool_eq (str_eq e.entry_type "custom") (is_some e.custom_type) ≡ true
      → validate s now s.seq [] [] (entry e ∷ [])
        ≡ ok (
          entry (record e { seq = wrap64 (s.seq + 1); timestamp = now }) ∷ [],
          wrap64 (s.seq + 1),
        )
  unfolding validate
  own_parent_validate now s e fresh unused own kind plain = rw (
      own_parent_check s (record e { seq = wrap64 (s.seq + 1); timestamp = now }) fresh unused own
        kind plain)

  -- An entry with a fresh id and a proper type that names itself as its parent is committed, though
  -- nothing was there under that id; a branch scan from it then ends on no fuel at all.
  pub own_parent_diverges :
      (wire : Wire V) (now : ℤ) (s : Storage V) (e : Entry V) (fuel : ℕ)
      → has_entry s e.id ≡ false
      → contains s.usage_ids e.id ≡ false
      → e.parent_id ≡ some e.id
      → str_eq e.entry_type "" ≡ false
      → bool_eq (str_eq e.entry_type "custom") (is_some e.custom_type) ≡ true
      → let r = commit wire done now s (entry e ∷ []) in
        (r.0
          ≡ ok (record {
            first_seq = wrap64 (s.seq + 1);
            last_seq = wrap64 (s.seq + 1);
            timestamp = now;
          }))
        × (scan_branch fuel r.1 (from_entry e.id) ≡ none)
  unfolding apply
  own_parent_diverges wire now s e fuel fresh unused own kind plain =
      let e' : Entry V = record e { seq = wrap64 (s.seq + 1); timestamp = now } in
      let t : Storage V =
        apply (record s { sink = extended wire (entry e' ∷ []) s.sink }) (entry e') in
      rw
        (commit_done wire now s (entry e) [] (entry e' ∷ []) (wrap64 (s.seq + 1))
          (own_parent_validate now s e fresh unused own kind plain))
        (
          refl,
          unfold apply_all scan_branch in
              rw (
                own_parent_walk t e.id e' fuel (get-insert_self s.entries e.id e') own,
                scan_branch,
              ),
        )
