-- ===== src/Jsonl/Crash.antt =====
-- What a crash inside `Storage::commit` (src/storage/mod.rs) leaves for `Storage::open`
-- (src/storage/jsonl.rs).
use reve.Prelude.{
  ℕ, zero, suc, ◌+◌, ◌<◌, ◌≡◌, refl, ◌∙◌, ap, sym, subst, ◌⊎◌, inl, inr, ℤ, String, false, Option,
  none, some, List, [], ◌∷◌, ◌++◌, length, take, All, append-nil, ◌==◌, u64_mod,
}
use reve.Entry.{Write, CommitResult, commit_line}
use reve.Storage.{
  Storage, Sink, Wire, Io, done, failed, Result, ok, newline, apply_all, line_bytes, validate,
  commit,
}
use reve.Storage.Sequence.{validate-Consecutive}
use reve.Storage.Outcome.{extended, commit_done, commit_failed}
use reve.Jsonl.Open.{rewritten, open_file}
use reve.Jsonl.Bytes.{IsPlain, Readable}
use reve.Jsonl.Reopen.{open_file_torn, apply_all-sink}
use reve.Jsonl.Durable.{IsDurable, replayed, extended-IsDurable}

no_bytes : (n : ℕ) → newline ∷ take n [] ≡ newline ∷ []
no_bytes zero = refl
no_bytes (suc n) = refl

-- The first bytes of a line hold no newline, or they are the line.
take_line_bytes :
    (n : ℕ) (xs : List ℕ)
    → All IsPlain xs
    → All (λ b. (b == newline) ≡ false) (take n (xs ++ newline ∷ []))
      ⊎ (take n (xs ++ newline ∷ []) ≡ xs ++ newline ∷ [])
take_line_bytes zero xs h = inl tt
take_line_bytes (suc n) [] h = inr (no_bytes n)
take_line_bytes (suc n) (x ∷ xs) ((a, b), h) = elim (take_line_bytes n xs h) [
  | inl few ↦ inl (a, few)
  | inr whole ↦ inr (ap (◌∷◌ x) whole)
]

file_of : Option Sink → List ℕ
file_of none = []
file_of (some sink) = sink.file

module _ {V : Type 0} (wire : Wire V) where
  -- The file of a durable session, with any bytes behind it that hold no newline, opens as that
  -- session, where the lock is free and a rewrite on opening succeeds.
  pub reopen_durable :
      (outcome : Io) (now : ℤ) (path id : String) (cwd : Option String) (s : Storage V)
      (d : IsDurable wire s) (torn : List ℕ)
      → All (λ b. (b == newline) ≡ false) torn
      → (sink : Sink) × ((open_file wire false outcome rewritten now path id cwd
            (d.sink.file ++ torn)).0
          ≡ ok (record s { sink = some sink }))
  reopen_durable outcome now path id cwd s d torn t =
      let (sink, q) =
        open_file_torn wire outcome now path id cwd s.header d.txs torn d.current d.readable
          d.rising t in
      (
        sink,
        ap (λ f. (open_file wire false outcome rewritten now path id cwd (f ++ torn)).0) d.bytes
            ∙ q
            ∙ ap ok (replayed wire s d sink),
      )

  -- The state behind a line that was written whole is the one that the commit gives.
  extended_commit :
      (now : ℤ) (s : Storage V) (w : Write V) (ws out : List (Write V)) (last : ℕ)
      (d : IsDurable wire s)
      → validate s now s.seq [] [] (w ∷ ws) ≡ ok (out, last)
      → apply_all
          (record s {
            sink =
                some (record (d.sink) { file = d.sink.file ++ line_bytes wire (commit_line out) });
          })
          out
        ≡ (commit wire done now s (w ∷ ws)).1
  extended_commit now s w ws out last d q =
      ap (λ o. apply_all (record s { sink = extended wire out o }) out) (sym d.held)
      ∙ ap (λ (r : Result CommitResult × Storage V). r.1)
          (sym (commit_done wire now s w ws out last q))

  -- A transaction that validates and that the disk takes leaves a durable session durable, when its
  -- line reads back and the sequence numbers stay below 2 ^ 64.
  pub commit-IsDurable :
      (now : ℤ) (s : Storage V) (w : Write V) (ws out : List (Write V)) (last : ℕ)
      → IsDurable wire s
      → validate s now s.seq [] [] (w ∷ ws) ≡ ok (out, last)
      → Readable wire (commit_line out)
      → s.seq + length (w ∷ ws) < u64_mod
      → IsDurable wire ((commit wire done now s (w ∷ ws)).1)
  commit-IsDurable now s w ws out last d q g b =
      let (c, l, n) = validate-Consecutive s now (w ∷ ws) b q in
      subst (IsDurable wire) (extended_commit now s w ws out last d q)
        (extended-IsDurable wire s d out c g)

  -- The whole line in the file, whatever the caller was told.
  reopen_whole :
      (outcome : Io) (now later : ℤ) (path id : String) (cwd : Option String) (s : Storage V)
      (w : Write V) (ws out : List (Write V)) (last : ℕ) (d : IsDurable wire s)
      → validate s now s.seq [] [] (w ∷ ws) ≡ ok (out, last)
      → Readable wire (commit_line out)
      → s.seq + length (w ∷ ws) < u64_mod
      → (sink : Sink) × ((open_file wire false outcome rewritten later path id cwd
            (d.sink.file ++ line_bytes wire (commit_line out))).0
          ≡ ok (record ((commit wire done now s (w ∷ ws)).1) { sink = some sink }))
  unfolding file_of
  reopen_whole outcome now later path id cwd s w ws out last d q g b =
      let (c, l, n) = validate-Consecutive s now (w ∷ ws) b q in
      let dur = extended-IsDurable wire s d out c g in
      let full : Sink = record (d.sink) {
        file = d.sink.file ++ line_bytes wire (commit_line out);
      } in
      let same = sym dur.held ∙ ap (λ (x : Storage V). x.sink) (apply_all-sink s (some full) out) in
      let (sink, p) = reopen_durable outcome later path id cwd _ dur [] tt in
      (
        sink,
        ap (λ f. (open_file wire false outcome rewritten later path id cwd f).0)
              (sym (append-nil full.file) ∙ ap (λ o. file_of o ++ []) (sym same))
            ∙ p
            ∙ ap (λ (t : Storage V). ok (record t { sink = some sink }))
                (extended_commit now s w ws out last d q),
      )

  -- A commit to a durable session that the disk breaks off after any number of bytes, of a
  -- transaction that validates, whose line reads back and whose sequence numbers stay below 2 ^
  -- 64: the next start opens the file as the state before the transaction, or as the state that
  -- the whole transaction gives.
  pub crash_atomic :
      (n : ℕ) (why : String) (outcome : Io) (now later : ℤ) (path id : String) (cwd : Option String)
      (s : Storage V) (w : Write V) (ws out : List (Write V)) (last : ℕ)
      → IsDurable wire s
      → validate s now s.seq [] [] (w ∷ ws) ≡ ok (out, last)
      → Readable wire (commit_line out)
      → s.seq + length (w ∷ ws) < u64_mod
      → (left sink : Sink) × ((commit wire (failed n why) now s (w ∷ ws)).1.sink ≡ some left)
        × (((open_file wire false outcome rewritten later path id cwd left.file).0
              ≡ ok (record s { sink = some sink }))
            ⊎ ((open_file wire false outcome rewritten later path id cwd left.file).0
                ≡ ok (record ((commit wire done now s (w ∷ ws)).1) { sink = some sink })))
  crash_atomic n why outcome now later path id cwd s w ws out last d q g b =
      let cut : List ℕ = take n (line_bytes wire (commit_line out)) in
      let left : Sink = record (d.sink) { file = d.sink.file ++ cut } in
      let e =
        ap (λ (r : Result CommitResult × Storage V). r.1.sink)
          (commit_failed wire n why now s w ws out last d.sink q d.held) in
      elim (take_line_bytes n (wire.encode (commit_line out)) g.plain) [
        | inl few ↦
            let (sink, p) = reopen_durable outcome later path id cwd s d cut few in
            (left, sink, e, inl p)
        | inr whole ↦
            let (sink, p) = reopen_whole outcome now later path id cwd s w ws out last d q g b in
            (
              left,
              sink,
              e,
              inr (
                  ap
                    (λ c.
                      (open_file wire false outcome rewritten later path id cwd
                        (d.sink.file ++ c)).0)
                    whole
                  ∙ p),
            )
      ]
