-- ===== src/Jsonl/Reopen.antt =====
-- `Storage::open` (src/storage/jsonl.rs) on a file of whole transactions and a torn tail.
use mathlib.Core.List.{flatten}
use reve.Prelude.{
  ℕ, ◌≡◌, refl, ◌∙◌, ap, sym, ℤ, String, true, false, Option, some, List, [], ◌∷◌, ◌++◌, ltb, leb,
  ◌==◌, ◌&&◌, length, length-append, take, if◌then◌else◌, All, arith, Bool-cases, inl, inr,
  append-nil,
}
use reve.Entry.{Header, Write, entry, usage, register, set, delete, format_version, storage_version}
use reve.Storage.{Storage, Sink, Wire, Io, ok, newline, with_header, apply, apply_all}
use reve.Storage.Scan.{register_count}
use reve.Jsonl.Read.{Replay}
use reve.Jsonl.Open.{
  rewritten, lines_bytes, compact_bytes, open_existing, open_checked, open_replay, open_file,
  compact_dead_writes,
}
use reve.Jsonl.Bytes.{Readable, read_lines-torn}
use reve.Jsonl.Recover.{Rising, file_lines, read_lines-Rising}

take-length-append : (xs ys : List ℕ) → take (length xs) (xs ++ ys) ≡ xs
take-length-append [] ys = refl
take-length-append (x ∷ xs) ys = ap (◌∷◌ x) (take-length-append xs ys)

-- The bytes that are left when the valid prefix `xs` is all that counts.
kept_prefix :
    (xs ys : List ℕ)
    → (if ltb (length xs) (length (xs ++ ys)) then take (length xs) (xs ++ ys) else xs ++ ys) ≡ xs
kept_prefix xs [] = elim (Bool-cases (ltb (length xs) (length (xs ++ [])))) [
  | inl longer ↦ rw longer (take-length-append xs [])
  | inr same ↦ rw same (append-nil xs)
]
kept_prefix xs (y ∷ ys) = elim (Bool-cases (ltb (length xs) (length (xs ++ y ∷ ys)))) [
  | inl longer ↦ rw longer (take-length-append xs (y ∷ ys))
  | inr same ↦ absurd (ground (arith, length-append xs (y ∷ ys)))
]

-- This build reads the header.
pub record IsCurrent (h : Header) : Type 0 where
  pub same_format : (h.v == format_version) ≡ true
  pub known_storage : ltb storage_version h.storage_version ≡ false

module _ {V : Type 0} where
  apply-sink :
      (s : Storage V) (o : Option Sink) (w : Write V)
      → apply (record s { sink = o }) w ≡ record (apply s w) { sink = o }
  unfolding apply
  apply-sink s o (entry e) = refl
  apply-sink s o (usage row) = refl
  apply-sink s o (register (set n ns k v)) = refl
  apply-sink s o (register (delete n ns k)) = refl

  pub apply_all-sink :
      (s : Storage V) (o : Option Sink) (ws : List (Write V))
      → apply_all (record s { sink = o }) ws ≡ record (apply_all s ws) { sink = o }
  unfolding apply_all
  apply_all-sink s o [] = refl
  apply_all-sink s o (w ∷ ws) = rw (apply-sink s o w) (apply_all-sink (apply s w) o ws)

  pub apply_all-append :
      (s : Storage V) (ws vs : List (Write V))
      → apply_all s (ws ++ vs) ≡ apply_all (apply_all s ws) vs
  unfolding apply_all
  apply_all-append s [] vs = refl
  apply_all-append s (w ∷ ws) vs = apply_all-append (apply s w) ws vs

module _ {V : Type 0} (wire : Wire V) where
  open_existing_ok :
      (s : Storage V) (sink : Sink) (dead : ℕ)
      → s.sink ≡ some sink
      → (sink' : Sink) × ((open_existing wire rewritten s sink dead).0
          ≡ ok (record s { sink = some sink' }))
  unfolding open_existing
  open_existing_ok s sink dead q =
      elim (Bool-cases (leb compact_dead_writes dead && ltb (register_count s) dead)) [
        | inl many ↦ (record sink { file = compact_bytes wire s }, rw many)
        | inr few ↦ (sink, rw few (λ i. ok (record s { sink = q i })))
      ]

  sink-replay :
      (h : Header) (sink : Sink) (ws : List (Write V))
      → (apply_all (with_header h (some sink)) ws).sink ≡ some sink
  unfolding with_header
  sink-replay h sink ws =
      ap (λ (s : Storage V). s.sink) (apply_all-sink (with_header h (some sink)) (some sink) ws)

  pub replay_sink :
      (h : Header) (sink sink' : Sink) (ws : List (Write V))
      → apply_all (with_header h (some sink')) ws
        ≡ record (apply_all (with_header h (some sink)) ws) { sink = some sink' }
  unfolding with_header
  replay_sink h sink sink' ws = apply_all-sink (with_header h (some sink)) (some sink') ws

  open_checked_ok :
      (outcome : Io) (h : Header) (replay : Replay V) (sink : Sink)
      → IsCurrent h
      → (open_checked wire outcome rewritten h true replay sink).0
        ≡ (open_existing wire rewritten
            (apply_all (with_header h (some sink)) replay.writes)
            sink
            replay.dead_writes).0
  unfolding open_checked
  open_checked_ok outcome h replay sink c = rw (c.same_format, c.known_storage)

  open_replay_ok :
      (outcome : Io) (now : ℤ) (path id : String) (cwd : Option String) (xs ys : List ℕ)
      (h : Header) (writes : List (Write V)) (dead : ℕ)
      → IsCurrent h
      → (sink' : Sink) × ((open_replay wire outcome rewritten now path id cwd (xs ++ ys) (record {
        header = some h;
        writes = writes;
        valid_len = length xs;
        dead_writes = dead;
      })).0
          ≡ ok (apply_all (with_header h (some sink')) writes))
  unfolding open_replay
  open_replay_ok outcome now path id cwd xs ys h writes dead c =
      let sink : Sink = record { file = xs; path = path } in
      let s : Storage V = apply_all (with_header h (some sink)) writes in
      let (sink', q) = open_existing_ok s sink dead (sink-replay h sink writes) in
      (
        sink',
        rw (kept_prefix xs ys) (
            open_checked_ok outcome h
              (record {
                header = some h;
                writes = writes;
                valid_len = length xs;
                dead_writes = dead;
              })
              sink c
            ∙ q
            ∙ ap ok (sym (replay_sink h sink sink' writes))),
      )

  -- Opening what a crash left: whole transactions, perhaps a torn line. The result is the replay of the
  -- whole ones.
  pub open_file_torn :
      (outcome : Io) (now : ℤ) (path id : String) (cwd : Option String) (h : Header)
      (txs : List (List (Write V))) (torn : List ℕ)
      → IsCurrent h
      → All (Readable wire) (file_lines wire h txs)
      → Rising 0 (flatten txs)
      → All (λ b. (b == newline) ≡ false) torn
      → (sink : Sink) × ((open_file wire false outcome rewritten now path id cwd
            (lines_bytes wire (file_lines wire h txs) ++ torn)).0
          ≡ ok (apply_all (with_header h (some sink)) (flatten txs)))
  open_file_torn outcome now path id cwd h txs torn c good up t =
      let (dead, q) = read_lines-Rising wire h txs good up in
      let (sink, p) =
        open_replay_ok outcome now path id cwd (lines_bytes wire (file_lines wire h txs)) torn h
          (flatten txs) dead c in
      (
        sink,
        unfold open_file in rw (read_lines-torn wire (file_lines wire h txs) torn good t ∙ q) p,
      )
