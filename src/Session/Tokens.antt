-- ===== src/Session/Tokens.antt =====
-- Conditional commits of src/session.rs: what a register token is worth.
use reve.Prelude.{
  ℕ, ◌+◌, ◌<◌, ◌≤◌, ◌≡◌, ◌≢◌, refl, ◌∙◌, ap, sym, ◌⊎◌, inl, inr, ℤ, true, none, some, List, [], ◌∷◌,
  length, arith, u64_mod, Bool-cases, Option-cases,
}
use reve.Namespace.{RegisterKey, register_key}
use reve.Entry.{Register, Write, CommitResult}
use reve.Storage.{Storage, Wire, Io, StorageError, io, commit}
use reve.Storage
use reve.Storage.Tokens.{register_at, Bounded, Attempt, run, write_count, token_sound}
use reve.Session.{Owner, Expect, SessionError, faulted, ok, err, all_hold, settle, commit_if}

-- A message to the owner that is a commit, with what the clock and the disk answer.
pub record Message (V : Type 0) : Type 0 where
  pub outcome : Io
  pub now : ℤ
  pub expect : List Expect
  pub writes : List (Write V)

module _ {V : Type 0} (wire : Wire V) where
  -- The owner after a run of messages. Reads change nothing and are left out.
  unfoldable pub serve : Owner V → List (Message V) → Owner V
  unfolding commit_if
  serve o [] = o
  serve o (m ∷ ms) = serve (commit_if wire m.outcome m.now o m.expect m.writes).1 ms

  abbrev pub message_count : List (Message V) → ℕ
  message_count [] = 0
  message_count (m ∷ ms) = length m.writes + message_count ms

  pub settle-storage :
      (o : Owner V) (r : Storage.Result CommitResult × Storage V) → (settle o r).1.storage ≡ r.1
  settle-storage o (Storage.ok c, s) = refl
  settle-storage o (Storage.err (io why), s) = refl
  settle-storage o (Storage.err (StorageError.corrupt n why), s) = refl
  settle-storage o (Storage.err (StorageError.version a b), s) = refl
  settle-storage o (Storage.err (StorageError.storage_version a b), s) = refl
  settle-storage o (Storage.err (StorageError.locked p), s) = refl
  settle-storage o (Storage.err (StorageError.duplicate_id id), s) = refl
  settle-storage o (Storage.err (StorageError.missing_parent c p), s) = refl
  settle-storage o (Storage.err (StorageError.invalid why), s) = refl

  -- What the storage of the owner becomes: it stays, or it is what its own commit gives.
  commit_if-storage :
      (outcome : Io) (now : ℤ) (o : Owner V) (expect : List Expect) (tx : List (Write V))
      → ((commit_if wire outcome now o expect tx).1.storage ≡ o.storage)
        ⊎ ((commit_if wire outcome now o expect tx).1.storage
            ≡ (commit wire outcome now o.storage tx).1)
  unfolding commit_if
  commit_if-storage outcome now o expect tx = elim (Option-cases o.fault) [
    | inr (why, q) ↦ inl (rw (q, commit_if))
    | inl q ↦ elim (Bool-cases (all_hold o.storage expect)) [
      | inl h ↦ inr (rw (q, commit_if) (rw h (settle-storage o _)))
      | inr h ↦ inl (rw (q, commit_if) (rw h))
    ]
  ]

  run-nil : (s : Storage V) → run wire s [] ≡ s
  unfolding run
  run-nil s = refl

  run-cons :
      (s : Storage V) (m : Message V) (history : List (Attempt V))
      → run wire s (record { outcome = m.outcome; now = m.now; writes = m.writes } ∷ history)
        ≡ run wire (commit wire m.outcome m.now s m.writes).1 history
  unfolding run
  run-cons s m history = refl

  -- The messages that reached the storage, as a history of its commits.
  serve-run :
      (o : Owner V) (ms : List (Message V))
      → (history : List (Attempt V)) × ((serve o ms).storage ≡ run wire o.storage history)
        × (write_count wire history ≤ message_count ms)
  unfolding serve
  serve-run o [] = ([], sym (run-nil o.storage), omega arith)
  serve-run o (m ∷ ms) =
      let (history, q, l) = serve-run (commit_if wire m.outcome m.now o m.expect m.writes).1 ms in
      elim (commit_if-storage m.outcome m.now o m.expect m.writes) [
        | inl same ↦ (history, q ∙ ap (λ s. run wire s history) same, omega arith)
        | inr done ↦ (
          record { outcome = m.outcome; now = m.now; writes = m.writes } ∷ history,
          q ∙ ap (λ s. run wire s history) done ∙ sym (run-cons o.storage m history),
          omega arith,
        )
      ]

  pub not_ok : {A : Type 0} (a : A) (e : SessionError) → ok a ≢ err e
  not_ok a e h = ground arith

  not_none : (c : CommitResult) → ok (some c) ≢ ok none
  not_none c h = ground arith

  pub accepted-holds :
      (outcome : Io) (now : ℤ) (o : Owner V) (expect : List Expect) (tx : List (Write V))
      (c : CommitResult)
      → (commit_if wire outcome now o expect tx).0 ≡ ok (some c)
      → all_hold o.storage expect ≡ true
  unfolding commit_if
  accepted-holds outcome now o expect tx c h = elim (Option-cases o.fault) [
    | inr (why, q) ↦ absurd (not_ok (some c) (faulted why) (sym h ∙ rw (q, commit_if)))
    | inl q ↦ elim (Bool-cases (all_hold o.storage expect)) [
      | inl met ↦ met
      | inr unmet ↦ absurd (not_none c (sym h ∙ rw (q, commit_if) (rw unmet)))
    ]
  ]

  -- A commit under a token: when a commit that expects the sequence number a caller has read of a
  -- register is accepted, then the register is, at that moment, the one that the caller has read,
  -- whatever commits the owner has served in between. No register is newer than its storage at the
  -- read, and the sequence numbers stay below 2 ^ 64.
  pub lease_sound :
      (o : Owner V) (ms : List (Message V)) (k : RegisterKey) (r : Register V) (outcome : Io)
      (now : ℤ) (expect : List Expect) (tx : List (Write V)) (c : CommitResult)
      → Bounded o.storage
      → o.storage.seq + message_count ms < u64_mod
      → register_at o.storage k ≡ some r
      → (commit_if wire outcome now
          (serve o ms)
          (record { namespace = k.0; key = k.1; seq = some r.seq } ∷ expect)
          tx).0
        ≡ ok (some c)
      → register_at (serve o ms).storage k ≡ some r
  lease_sound o ms k r outcome now expect tx c b small read accepted =
      let e : Expect = record { namespace = k.0; key = k.1; seq = some r.seq } in
      let held = accepted-holds outcome now (serve o ms) (e ∷ expect) tx c accepted in
      let (history, q, l) = serve-run o ms in
      elim (Option-cases (register_at (serve o ms).storage k)) [
        | inl gone ↦ absurd (ground (arith, held, gone))
        | inr (r', p) ↦
            let same : r'.seq ≡ r.seq = ground (arith, held, p) in
            p
            ∙ ap some (
                token_sound wire o.storage history k r r' b (omega arith) read
                  (sym (ap (λ s. register_at s k) q) ∙ p) same)
      ]
