-- ===== src/Session/Race.antt =====
-- Two callers of src/session.rs that race for a register, and a session after a write that failed.
use reve.Prelude.{
  ◌+◌, ◌<◌, ◌≤◌, ◌≡◌, ◌≢◌, refl, ◌∙◌, ap, sym, inl, inr, ℤ, String, true, false, Option, none, some,
  List, [], ◌∷◌, length, arith, u64_mod, Option-cases,
}
use reve.Namespace.{RegisterKey, register_key}
use reve.Entry.{Register, Write, CommitResult}
use reve.Storage.{Storage, Sink, Wire, Io, StorageError, io, commit}
use reve.Storage
use reve.Storage.Outcome.{Accepted, commit_all_or_none}
use reve.Storage.Tokens.{register_at, Bounded}
use reve.Storage.Written.{hits_any, Superseded, commit-Superseded}
use reve.Session.{Owner, Expect, faulted, Result, ok, err, all_hold, settle, commit_if}
use reve.Session.Tokens.{Message, serve, accepted-holds, not_ok}

module _ {V : Type 0} (wire : Wire V) where
  settle-ok :
      (o : Owner V) (e : StorageError) (s : Storage V) (c : CommitResult)
      → (settle o (Storage.err e, s)).0 ≢ ok (some c)
  settle-ok o (StorageError.io why) s c h = ground arith
  settle-ok o (StorageError.corrupt n why) s c h = ground arith
  settle-ok o (StorageError.version a b) s c h = ground arith
  settle-ok o (StorageError.storage_version a b) s c h = ground arith
  settle-ok o (StorageError.locked p) s c h = ground arith
  settle-ok o (StorageError.duplicate_id id) s c h = ground arith
  settle-ok o (StorageError.missing_parent a b) s c h = ground arith
  settle-ok o (StorageError.invalid why) s c h = ground arith

  commit_if-faulted :
      (outcome : Io) (now : ℤ) (o : Owner V) (why : String) (expect : List Expect)
      (tx : List (Write V))
      → o.fault ≡ some why
      → commit_if wire outcome now o expect tx ≡ (err (faulted why), o)
  unfolding commit_if
  commit_if-faulted outcome now o why expect tx q =
      rw (q, commit_if) (λ i. (err (faulted why), record o { fault = q i }))

  commit_if-open :
      (outcome : Io) (now : ℤ) (o : Owner V) (expect : List Expect) (tx : List (Write V))
      → o.fault ≡ none
      → all_hold o.storage expect ≡ true
      → commit_if wire outcome now o expect tx ≡ settle o (commit wire outcome now o.storage tx)
  unfolding commit_if
  commit_if-open outcome now o expect tx q h =
      rw (q, commit_if)
        (rw h (λ i. settle (record o { fault = q i }) (commit wire outcome now o.storage tx)))

  pub commit_if-unmet :
      (outcome : Io) (now : ℤ) (o : Owner V) (expect : List Expect) (tx : List (Write V))
      → o.fault ≡ none
      → all_hold o.storage expect ≡ false
      → commit_if wire outcome now o expect tx ≡ (ok none, o)
  unfolding commit_if
  commit_if-unmet outcome now o expect tx q h =
      rw (q, commit_if) (rw h (λ i. (ok none, record o { fault = q i })))

  -- What an accepting answer says of the storage underneath.
  pub commit_if-Accepted :
      (outcome : Io) (now : ℤ) (o : Owner V) (expect : List Expect) (tx : List (Write V))
      (c : CommitResult)
      → (commit_if wire outcome now o expect tx).0 ≡ ok (some c)
      → Accepted wire now o.storage tx (commit wire outcome now o.storage tx)
        × ((commit_if wire outcome now o expect tx).1
            ≡ record o { storage = (commit wire outcome now o.storage tx).1 })
        × (o.fault ≡ none)
  commit_if-Accepted outcome now o expect tx c h =
      let held = accepted-holds wire outcome now o expect tx c h in
      elim (Option-cases o.fault) [
        | inr (why, q) ↦ absurd (
            not_ok wire (some c) (faulted why) (
              sym h
              ∙ ap (λ (r : Result (Option CommitResult) × Owner V). r.0)
                  (commit_if-faulted outcome now o why expect tx q)))
        | inl q ↦
            let p = commit_if-open outcome now o expect tx q held in
            elim (commit_all_or_none wire outcome now o.storage tx) [
              | inl (e, sink, x) ↦ absurd (
                  settle-ok o e (record (o.storage) { sink = sink }) c
                    (sym (
                        ap (λ (r : Result (Option CommitResult) × Owner V). r.0)
                          (p ∙ ap (settle o) x))
                      ∙ h))
              | inr (out, last, ne, v, x) ↦ (
                (out, last, ne, v, x),
                ap (λ (r : Result (Option CommitResult) × Owner V). r.1) (p ∙ ap (settle o) x)
                    ∙ ap
                        (λ (r : Storage.Result CommitResult × Storage V). record o {
                          storage = r.1;
                        })
                        (sym x),
                q,
              )
            ]
      ]

  moved_token :
      (s s' : Storage V) (k : RegisterKey) (r : Register V) (expect : List Expect)
      → r.seq ≤ s.seq
      → Superseded s s' k
      → all_hold s' (record { namespace = k.0; key = k.1; seq = some r.seq } ∷ expect) ≡ false
  moved_token s s' k r expect h (inl gone) = ground (arith, gone)
  moved_token s s' k r expect h (inr (r', p, l)) = ground (arith, p)

  -- Of two commits under one token the second loses: once a transaction that writes a register has
  -- been accepted, a commit that expects the sequence number which the register had before is
  -- answered with nothing, and leaves the owner as it is. No register is newer than the storage,
  -- and the sequence numbers stay below 2 ^ 64.
  pub loser_writes_nothing :
      (outcome outcome' : Io) (now now' : ℤ) (o : Owner V) (k : RegisterKey) (r : Register V)
      (expect expect' : List Expect) (tx tx' : List (Write V)) (c : CommitResult)
      → Bounded o.storage
      → o.storage.seq + length tx < u64_mod
      → register_at o.storage k ≡ some r
      → hits_any k tx ≡ true
      → (commit_if wire outcome now o expect tx).0 ≡ ok (some c)
      → commit_if wire outcome' now'
          (commit_if wire outcome now o expect tx).1
          (record { namespace = k.0; key = k.1; seq = some r.seq } ∷ expect')
          tx'
        ≡ (ok none, (commit_if wire outcome now o expect tx).1)
  loser_writes_nothing outcome outcome' now now' o k r expect expect' tx tx' c b small read hit
        won =
      let (acc, after, q) = commit_if-Accepted outcome now o expect tx c won in
      let s' = (commit wire outcome now o.storage tx).1 in
      let o' : Owner V = record o { storage = s' } in
      rw after (
        commit_if-unmet outcome' now' o'
          (record { namespace = k.0; key = k.1; seq = some r.seq } ∷ expect') tx' q
          (moved_token o.storage s' k r expect' (b k r read)
            (commit-Superseded wire outcome now o.storage tx k small hit acc)))

  commit_if-broken :
      (outcome : Io) (now : ℤ) (o : Owner V) (expect : List Expect) (tx : List (Write V))
      (why : String) (sink : Option Sink)
      → o.fault ≡ none
      → all_hold o.storage expect ≡ true
      → commit wire outcome now o.storage tx
        ≡ (Storage.err (io why), record (o.storage) { sink = sink })
      → commit_if wire outcome now o expect tx ≡ (
        err (faulted why),
        record { storage = record (o.storage) { sink = sink }; fault = some why },
      )
  unfolding commit_if
  commit_if-broken outcome now o expect tx why sink q h p = rw (q, commit_if) (rw (h, p))

  broken-Refused :
      (outcome : Io) (now : ℤ) (s : Storage V) (tx : List (Write V)) (why : String)
      → (commit wire outcome now s tx).0 ≡ Storage.err (io why)
      → (sink : Option Sink) × (commit wire outcome now s tx
          ≡ (Storage.err (io why), record s { sink = sink }))
  broken-Refused outcome now s tx why h = elim (commit_all_or_none wire outcome now s tx) [
    | inl (e, sink, p) ↦
        let same : Storage.err e ≡ Storage.err (io why) =
          sym (ap (λ (r : Storage.Result CommitResult × Storage V). r.0) p) ∙ h in
        (sink, p ∙ λ i. (same i, record s { sink = sink }))
    | inr (out, last, ne, v, p) ↦
        let apart : Storage.ok _ ≡ Storage.err (io why) =
          sym (ap (λ (r : Storage.Result CommitResult × Storage V). r.0) p) ∙ h in
        absurd (ground arith)
  ]

  serve-faulted :
      (o : Owner V) (ms : List (Message V)) (why : String)
      → o.fault ≡ some why
      → serve wire o ms ≡ o
  unfolding serve
  serve-faulted o [] why q = refl
  serve-faulted o (m ∷ ms) why q =
      rw (commit_if-faulted m.outcome m.now o why m.expect m.writes q) (serve-faulted o ms why q)

  -- A write that the disk fails, of a commit whose expectations hold, ends the session: the caller
  -- is told, nothing of the transaction is visible, and whatever commit is sent afterwards is
  -- refused and changes nothing.
  pub fault_is_final :
      (outcome outcome' : Io) (now now' : ℤ) (o : Owner V) (expect expect' : List Expect)
      (tx tx' : List (Write V)) (ms : List (Message V)) (why : String)
      → o.fault ≡ none
      → all_hold o.storage expect ≡ true
      → (commit wire outcome now o.storage tx).0 ≡ Storage.err (io why)
      → (sink : Option Sink) × (commit_if wire outcome now o expect tx ≡ (
        err (faulted why),
        record { storage = record (o.storage) { sink = sink }; fault = some why },
      ))
        × (commit_if wire outcome' now'
              (serve wire (commit_if wire outcome now o expect tx).1 ms)
              expect'
              tx'
            ≡ (err (faulted why), (commit_if wire outcome now o expect tx).1))
  fault_is_final outcome outcome' now now' o expect expect' tx tx' ms why q h broken =
      let (sink, p) = broken-Refused outcome now o.storage tx why broken in
      let e = commit_if-broken outcome now o expect tx why sink q h p in
      let o' : Owner V = record {
        storage = record (o.storage) { sink = sink };
        fault = some why;
      } in
      (
        sink,
        e,
        rw e (
            rw (serve-faulted o' ms why refl)
              (commit_if-faulted outcome' now' o' why expect' tx' refl)),
      )
