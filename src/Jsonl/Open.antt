-- ===== src/Jsonl/Open.antt =====
-- src/storage/jsonl.rs: opening a session file and rewriting it. The locks and the disk answer as the
-- arguments of each operation say.
use reve.Prelude.{
  ℕ, ℤ, String, Bool, not, ◌&&◌, ◌||◌, Option, none, some, List, [], ◌∷◌, ◌++◌, map, ltb, leb, ◌==◌,
  is_some, is_empty, length, take, if◌then◌else◌,
}
use reve.Namespace.{register_key}
use reve.Entry.{
  Header, new_header, set, Write, entry, usage, register, Line, header, single, format_version,
  storage_version,
}
use reve.Storage.{
  Storage, Sink, Wire, Io, Result, ok, err, storage_version as newer_storage, io, corrupt, version,
  locked, missing_header, with_header, line_bytes, append, apply_all,
}
use reve.Storage.Scan.{Order, scan_entries, all_registers, register_count}
use reve.Jsonl.Read.{Replay, read_lines}

abbrev pub compact_dead_writes : ℕ
compact_dead_writes = 64

-- How the rewrite of `compact_file` ends: done, refused by the disk before the rename, unable to open the new
-- file behind it, or without the lock on the new file.
pub data Rewrite : Type 0 where
  rewritten : Rewrite
  temp_failed : String → Rewrite
  reopen_failed : String → Rewrite
  lock_lost : Rewrite

module _ {V : Type 0} (wire : Wire V) where
  -- The lines of a snapshot: header, entries, usage rows and live registers, one write to a line.
  abbrev pub snapshot_writes : Storage V → List (Write V)
  snapshot_writes s =
      map entry (scan_entries s Order.oldest_first)
      ++ (map usage s.usage
          ++ map (λ r. register (set r.seq r.namespace r.key r.value)) (all_registers s))

  abbrev pub lines_bytes : List (Line V) → List ℕ
  lines_bytes [] = []
  lines_bytes (l ∷ ls) = line_bytes wire l ++ lines_bytes ls

  unfoldable pub compact_bytes : Storage V → List ℕ
  compact_bytes s = lines_bytes (header s.header ∷ map single (snapshot_writes s))

  -- The rewrite through a temporary file: the result, the storage, and the bytes at the path.
  unfoldable pub compact_sink : Rewrite → Storage V → Sink → Result (Unit {0}) × Storage V × List ℕ
  unfolding compact_bytes
  compact_sink rewritten s sink =
      (ok tt, record s { sink = some (record sink { file = compact_bytes s }) }, compact_bytes s)
  compact_sink (temp_failed why) s sink = (err (io why), s, sink.file)
  compact_sink (reopen_failed why) s sink = (err (io why), s, compact_bytes s)
  compact_sink lock_lost s sink = (err (locked sink.path), s, compact_bytes s)

  unfoldable pub compact_file : Rewrite → Storage V → Result (Unit {0}) × Storage V
  unfolding compact_sink
  compact_file outcome s = elim s.sink [
    | none ↦ (ok tt, s)
    | some sink ↦ let (r, t, file) = compact_sink outcome s sink in (r, t)
  ]

  -- Reopening replays the writes, and rewrites a file with many dead ones.
  unfoldable pub replay_all : Storage V → List (Write V) → Storage V
  replay_all = apply_all

  unfoldable pub opened : Result (Unit {0}) → Storage V → List ℕ → Result (Storage V) × List ℕ
  opened (ok _) s file = (ok s, file)
  opened (err e) s file = (err e, file)

  unfoldable pub open_existing : Rewrite → Storage V → Sink → ℕ → Result (Storage V) × List ℕ
  unfolding compact_sink opened
  open_existing outcome s sink dead_writes =
      if leb compact_dead_writes dead_writes && ltb (register_count s) dead_writes
      then (let (r, t, file) = compact_sink outcome s sink in opened r t file)
      else (ok s, sink.file)

  unfoldable pub open_new : Io → Storage V → Sink → Result (Storage V) × List ℕ
  unfolding append opened
  open_new outcome s sink =
      let (r, sink') = append wire outcome sink (header s.header) in
      opened r (record s { sink = some sink' }) sink'.file

  unfoldable pub open_checked :
      Io → Rewrite → Header → Bool → Replay V → Sink → Result (Storage V) × List ℕ
  unfolding open_existing open_new replay_all
  open_checked outcome rewrite h existed replay sink =
      if not (h.v == format_version)
      then (err (version h.v format_version), sink.file)
      else if ltb storage_version h.storage_version
      then (err (newer_storage h.storage_version storage_version), sink.file)
      else if existed
      then open_existing rewrite (replay_all (with_header h (some sink)) replay.writes) sink
          replay.dead_writes
      else open_new outcome (with_header h (some sink)) sink

  -- A torn tail goes before anything else is decided.
  unfoldable pub open_replay :
      Io
      → Rewrite
      → ℤ
      → String
      → String
      → Option String
      → List ℕ
      → Replay V
      → Result (Storage V) × List ℕ
  unfolding open_checked
  open_replay outcome rewrite now path id cwd file replay =
      let existed = is_some replay.header || not (is_empty replay.writes) in
      let kept = if ltb replay.valid_len (length file) then take replay.valid_len file else file in
      let sink : Sink = record { file = kept; path = path } in
      elim replay.header [
        | some h ↦ open_checked outcome rewrite h existed replay sink
        | none ↦
            if existed
            then (err (corrupt 1 missing_header), kept)
            else open_checked outcome rewrite (new_header now id cwd) existed replay sink
      ]

  -- `Storage::open`: the result and the bytes that the file is left with. `held` tells whether another
  -- process holds the lock.
  unfoldable pub open_file :
      Bool
      → Io
      → Rewrite
      → ℤ
      → String
      → String
      → Option String
      → List ℕ
      → Result (Storage V) × List ℕ
  unfolding open_replay read_lines
  open_file held outcome rewrite now path id cwd file =
      if held then (err (locked path), file) else elim (read_lines wire file) [
        | err e ↦ (err e, file)
        | ok replay ↦ open_replay outcome rewrite now path id cwd file replay
      ]
