-- ===== src/Storage/Outcome.antt =====
-- The outcomes of `Storage::commit` (src/storage/mod.rs): all of a transaction, or none of it.
use reve.Prelude.{
  ℕ, String, ◌+◌, ◌≡◌, ◌≢◌, refl, ◌⊎◌, inl, inr, ℤ, List, [], ◌∷◌, ◌++◌, Option, none, some, wrap64,
  take,
}
use reve.Entry.{Write, CommitResult, commit_line}
use reve.Storage.{
  Storage, Wire, Io, done, failed, Sink, Result, ok, err, StorageError, io, invalid, publish,
  validate, commit, apply_all, line_bytes,
}

module _ {V : Type 0} (wire : Wire V) where
  -- The sink after a transaction that was written whole.
  abbrev pub extended : List (Write V) → Option Sink → Option Sink
  extended out none = none
  extended out (some sink) =
      some (record sink { file = sink.file ++ line_bytes wire (commit_line out) })

  -- An error, and only the sink may have changed.
  abbrev pub Refused : Storage V → Result CommitResult × Storage V → Type 0
  Refused s r = (e : StorageError) × (sink : Option Sink) × (r ≡ (err e, record s { sink = sink }))

  -- Every write of the transaction, stamped, in order; its line is in the file.
  abbrev pub Accepted : ℤ → Storage V → List (Write V) → Result CommitResult × Storage V → Type 0
  Accepted now s ws r =
      (out : List (Write V)) × (last : ℕ) × (ws ≢ [])
      × (validate s now s.seq [] [] ws ≡ ok (out, last))
      × (r ≡ (
        ok (record { first_seq = wrap64 (s.seq + 1); last_seq = last; timestamp = now }),
        apply_all (record s { sink = extended out s.sink }) out,
      ))

  publish_outcome :
      (outcome : Io) (s : Storage V) (out : List (Write V)) (c : CommitResult) (o : Option Sink)
      → s.sink ≡ o
      → Refused s (publish wire outcome s out c)
        ⊎ (publish wire outcome s out c
            ≡ (ok c, apply_all (record s { sink = extended out s.sink }) out))
  unfolding publish
  publish_outcome outcome s out c none q =
      inr (rw (q, publish) (λ i. (ok c, apply_all (record s { sink = q i }) out)))
  publish_outcome done s out c (some sink) q = inr (rw (q, publish))
  publish_outcome (failed n why) s out c (some sink) q = inl (
    io why,
    some (record sink { file = sink.file ++ take n (line_bytes wire (commit_line out)) }),
    rw (q, publish),
  )

  validated :
      (outcome : Io) (now : ℤ) (s : Storage V) (w : Write V) (ws : List (Write V))
      (r : Result (List (Write V) × ℕ))
      → validate s now s.seq [] [] (w ∷ ws) ≡ r
      → Refused s (commit wire outcome now s (w ∷ ws))
        ⊎ Accepted now s (w ∷ ws) (commit wire outcome now s (w ∷ ws))
  unfolding commit
  validated outcome now s w ws (err e) q = inl (e, s.sink, rw (q, commit))
  validated outcome now s w ws (ok (out, last)) q =
      let c : CommitResult = record {
        first_seq = wrap64 (s.seq + 1);
        last_seq = last;
        timestamp = now;
      } in
      elim (publish_outcome outcome s out c s.sink refl) [
        | inl (e, sink, p) ↦ inl (e, sink, rw (q, commit) p)
        | inr p ↦ inr (out, last, (λ h. cc), q, rw (q, commit) p)
      ]

  -- A commit either reports an error and changes nothing but the sink, or applies every write of
  -- the transaction as validated, and has put their line at the end of the file.
  pub commit_all_or_none :
      (outcome : Io) (now : ℤ) (s : Storage V) (ws : List (Write V))
      → Refused s (commit wire outcome now s ws) ⊎ Accepted now s ws (commit wire outcome now s ws)
  unfolding commit
  commit_all_or_none outcome now s [] = inl (invalid "empty transaction", s.sink, refl)
  commit_all_or_none outcome now s (w ∷ ws) = validated outcome now s w ws _ refl

  publish_done :
      (s : Storage V) (out : List (Write V)) (c : CommitResult) (o : Option Sink)
      → s.sink ≡ o
      → publish wire done s out c ≡ (ok c, apply_all (record s { sink = extended out s.sink }) out)
  unfolding publish
  publish_done s out c none q =
      rw (q, publish) (λ i. (ok c, apply_all (record s { sink = q i }) out))
  publish_done s out c (some sink) q = rw (q, publish)

  -- Where the disk takes the line, a transaction that validates is accepted.
  pub commit_done :
      (now : ℤ) (s : Storage V) (w : Write V) (ws out : List (Write V)) (last : ℕ)
      → validate s now s.seq [] [] (w ∷ ws) ≡ ok (out, last)
      → commit wire done now s (w ∷ ws) ≡ (
        ok (record { first_seq = wrap64 (s.seq + 1); last_seq = last; timestamp = now }),
        apply_all (record s { sink = extended out s.sink }) out,
      )
  unfolding commit
  commit_done now s w ws out last q = rw (q, commit) (publish_done s out _ s.sink refl)

  -- A transaction that does not validate leaves the storage and its file alone.
  pub commit_refused :
      (outcome : Io) (now : ℤ) (s : Storage V) (w : Write V) (ws : List (Write V))
      (e : StorageError)
      → validate s now s.seq [] [] (w ∷ ws) ≡ err e
      → commit wire outcome now s (w ∷ ws) ≡ (err e, s)
  unfolding commit
  commit_refused outcome now s w ws e q = rw (q, commit)

  publish_failed :
      (n : ℕ) (why : String) (s : Storage V) (out : List (Write V)) (c : CommitResult) (sink : Sink)
      → s.sink ≡ some sink
      → publish wire (failed n why) s out c ≡ (
        err (io why),
        record s {
          sink =
              some (record sink { file = sink.file ++ take n (line_bytes wire (commit_line out)) });
        },
      )
  unfolding publish
  publish_failed n why s out c sink q = rw (q, publish)

  -- A disk that fails has taken the first bytes of the line, and nothing is visible.
  pub commit_failed :
      (n : ℕ) (why : String) (now : ℤ) (s : Storage V) (w : Write V) (ws out : List (Write V))
      (last : ℕ) (sink : Sink)
      → validate s now s.seq [] [] (w ∷ ws) ≡ ok (out, last)
      → s.sink ≡ some sink
      → commit wire (failed n why) now s (w ∷ ws) ≡ (
        err (io why),
        record s {
          sink =
              some (record sink { file = sink.file ++ take n (line_bytes wire (commit_line out)) });
        },
      )
  unfolding commit
  commit_failed n why now s w ws out last sink q p =
      rw (q, commit) (publish_failed n why s out _ sink p)
