-- ===== src/Jsonl/Snapshot.antt =====
-- What `Storage::compact_file` writes (src/storage/jsonl.rs), read back by `Storage::open`.
use mathlib.Core.List.{flatten}
use reve.Prelude.{
  ℕ, suc, ◌+◌, ◌≤◌, ◌≡◌, refl, ◌∙◌, ap, sym, subst, ℤ, String, true, false, Option, some, List, [],
  ◌∷◌, ◌++◌, map, length, leb, All, filter_map, arith, append-nil,
}
use reve.Entry.{
  Write, entry, usage, register, set, delete, write_seq, Line, header, single, commit_line,
}
use reve.Storage.{
  Storage, Sink, Wire, Io, ok, err, corrupt, not_increasing, with_header, apply_all, line_bytes,
}
use reve.Storage.Scan.{scan_entries, all_registers}
use reve.Jsonl.Read.{
  Reading, go_on, fail, note_writes, count_write, take_writes, take_line, start_reading, read_lines,
}
use reve.Jsonl.Open.{
  Rewrite, rewritten, lines_bytes, snapshot_writes, compact_bytes, compact_sink, compact_file,
  open_file,
}
use reve.Jsonl.Bytes.{Readable, take_lines, finish, read_lines-whole, take_lines-cons}
use reve.Jsonl.Recover.{Rising, final_seq, file_lines}
use reve.Jsonl.Kept.{IsCoherent, SameSession, snapshot_keeps}
use reve.Jsonl.Reopen.{IsCurrent, open_file_torn}

module _ {V : Type 0} where
  alone : Write V → List (Write V)
  alone w = w ∷ []

  flatten-alone : (ws : List (Write V)) → flatten (map alone ws) ≡ ws
  unfolding flatten alone
  flatten-alone [] = refl
  flatten-alone (w ∷ ws) = ap (◌∷◌ w) (flatten-alone ws)

  single-alone : (ws : List (Write V)) → map commit_line (map alone ws) ≡ map single ws
  unfolding alone
  single-alone [] = refl
  single-alone (w ∷ ws) = ap (◌∷◌ (single w)) (single-alone ws)

  -- The loop's variables after the write of such a line.
  taken : Write V → ℕ → Reading V → Reading V
  unfolding count_write
  taken w len r =
      let c = count_write w (record r { last_seq = write_seq w }) in
      record c {
        replay = record (c.replay) {
          writes = c.replay.writes ++ w ∷ [];
          valid_len = c.replay.valid_len + len;
        };
      }

  -- The loop after a line that is one write with a higher number.
  take_single_rising :
      (w : Write V) (len : ℕ) (r : Reading V)
      → leb (write_seq w) r.last_seq ≡ false
      → (t : Reading V) × (take_line (single w) len r ≡ go_on t)
        × (t.number ≡ r.number)
        × (t.last_seq ≡ write_seq w)
  unfolding take_line note_writes take_writes count_write taken
  take_single_rising (entry e) len r q = (taken (entry e) len r, rw q, refl, refl)
  take_single_rising (usage row) len r q = (taken (usage row) len r, rw q, refl, refl)
  take_single_rising (register (set n ns k v)) len r q =
      (taken (register (set n ns k v)) len r, rw q, refl, refl)
  take_single_rising (register (delete n ns k)) len r q =
      (taken (register (delete n ns k)) len r, rw q, refl, refl)

  take_single_broken :
      (w : Write V) (len : ℕ) (r : Reading V)
      → leb (write_seq w) r.last_seq ≡ true
      → take_line (single w) len r
        ≡ fail (corrupt r.number (not_increasing (write_seq w) r.last_seq))
  unfolding take_line note_writes take_writes
  take_single_broken w len r q = rw q

module _ {V : Type 0} (wire : Wire V) where
  -- Lines of one write each, up to the first whose number does not rise.
  take_lines_broken :
      (ws : List (Write V)) (w : Write V) (vs : List (Write V)) (r : Reading V)
      → Rising r.last_seq ws
      → leb (write_seq w) (final_seq r.last_seq ws) ≡ true
      → take_lines wire (map single (ws ++ w ∷ vs)) r
        ≡ err (
            corrupt
              (r.number + 1 + length ws)
              (not_increasing (write_seq w) (final_seq r.last_seq ws)))
  take_lines_broken [] w vs r up low =
      let e : r.number + 1 + 0 ≡ r.number + 1 = omega arith in
      take_lines-cons wire (single w) (map single vs) r _
        (take_single_broken w _ (record r { number = r.number + 1 }) low)
      ∙ ap (λ n. err (corrupt n (not_increasing (write_seq w) r.last_seq))) (sym e)
  take_lines_broken (x ∷ ws) w vs r (a, up) low =
      let n : Reading V = record r { number = r.number + 1 } in
      let high : leb (write_seq x) r.last_seq ≡ false = ground arith in
      let (t, q, k, l) = take_single_rising x (length (line_bytes wire (single x))) n high in
      let ih =
        take_lines_broken ws w vs t (subst (λ m. Rising m ws) (sym l) up)
          (ap (λ m. leb (write_seq w) (final_seq m ws)) l ∙ low) in
      let e : t.number + 1 + length ws ≡ r.number + 1 + suc (length ws) = omega arith in
      take_lines-cons wire (single x) (map single (ws ++ w ∷ vs)) r (go_on t) q ∙ ih ∙ λ i.
      err (corrupt (e i) (not_increasing (write_seq w) (final_seq (l i) ws)))

  -- The file that a snapshot leaves at the path.
  compact_file-rewritten :
      (s : Storage V) (sink : Sink)
      → s.sink ≡ some sink
      → compact_file wire rewritten s
        ≡ (ok tt, record s { sink = some (record sink { file = compact_bytes wire s }) })
  unfolding compact_file compact_sink compact_bytes scan_entries filter_map all_registers
  compact_file-rewritten s sink q = rw (q, compact_file)

  snapshot_bytes :
      (s : Storage V)
      → compact_bytes wire s
        ≡ lines_bytes wire (file_lines wire s.header (map alone (snapshot_writes wire s))) ++ []
  unfolding compact_bytes
  snapshot_bytes s =
      ap (λ ls. lines_bytes wire (header s.header ∷ ls))
        (sym (single-alone (snapshot_writes wire s)))
      ∙ sym (append-nil _)

  read_snapshot_broken :
      (s : Storage V) (ws : List (Write V)) (w : Write V) (vs : List (Write V))
      → snapshot_writes wire s ≡ ws ++ w ∷ vs
      → Rising 0 ws
      → write_seq w ≤ final_seq 0 ws
      → All (Readable wire) (header s.header ∷ map single (ws ++ w ∷ vs))
      → read_lines wire (compact_bytes wire s)
        ≡ err (corrupt (2 + length ws) (not_increasing (write_seq w) (final_seq 0 ws)))
  unfolding compact_bytes
  read_snapshot_broken s ws w vs shape up low good =
      let ls : List (Line V) = map single (ws ++ w ∷ vs) in
      let t : Reading V = record (start_reading) {
        number = 1;
        replay = record {
          header = some s.header;
          writes = [];
          valid_len = 0 + length (line_bytes wire (header s.header));
          dead_writes = 0;
        };
      } in
      ap (λ x. read_lines wire (lines_bytes wire (header s.header ∷ map single x))) shape
      ∙ read_lines-whole wire (header s.header ∷ ls) good
      ∙ ap (finish wire []) (
          take_lines-cons wire (header s.header) ls start_reading (go_on t)
            (unfold take_line in refl)
          ∙ take_lines_broken ws w vs t up (ground arith))
      ∙ (unfold finish in refl)

  -- A compaction whose lines do not rise, such as one of an entry and an older usage row or register,
  -- leaves a file that no process can open again: the reader takes it for corrupt.
  pub compaction_corrupts :
      (outcome : Io) (rewriting : Rewrite) (now : ℤ) (path id : String) (cwd : Option String)
      (s : Storage V) (sink : Sink) (ws : List (Write V)) (w : Write V) (vs : List (Write V))
      → s.sink ≡ some sink
      → snapshot_writes wire s ≡ ws ++ w ∷ vs
      → Rising 0 ws
      → write_seq w ≤ final_seq 0 ws
      → All (Readable wire) (header s.header ∷ map single (ws ++ w ∷ vs))
      → (file : List ℕ) × (compact_file wire rewritten s
          ≡ (ok tt, record s { sink = some (record sink { file = file }) }))
        × (open_file wire false outcome rewriting now path id cwd file
            ≡ (err (corrupt (2 + length ws) (not_increasing (write_seq w) (final_seq 0 ws))), file))
  compaction_corrupts outcome rewriting now path id cwd s sink ws w vs held shape up low good = (
    compact_bytes wire s,
    compact_file-rewritten s sink held,
    unfold open_file in rw (read_snapshot_broken s ws w vs shape up low good) refl,
  )

  -- A compaction whose lines rise keeps the session. When the lines of the snapshot rise and are readable,
  -- this build reads the header, and the maps of the session agree with its order of entries and with
  -- the names in its registers, a rewrite that the disk takes leaves a file that opens, with the lock
  -- free, as the same session: the header, every entry and their order, the usage rows in order, and
  -- the value under every register key.
  pub compaction_reopens :
      (outcome : Io) (now : ℤ) (path id : String) (cwd : Option String) (s : Storage V)
      (sink : Sink)
      → s.sink ≡ some sink
      → IsCurrent s.header
      → IsCoherent s
      → Rising 0 (snapshot_writes wire s)
      → All (Readable wire) (header s.header ∷ map single (snapshot_writes wire s))
      → (file : List ℕ) × (t : Storage V) × (compact_file wire rewritten s
          ≡ (ok tt, record s { sink = some (record sink { file = file }) }))
        × ((open_file wire false outcome rewritten now path id cwd file).0 ≡ ok t)
        × SameSession s t
  compaction_reopens outcome now path id cwd s sink held c whole up good =
      let ws = snapshot_writes wire s in
      let lines : file_lines wire s.header (map alone ws) ≡ header s.header ∷ map single ws =
        ap (◌∷◌ (header s.header)) (single-alone ws) in
      let (sink', q) =
        open_file_torn wire outcome now path id cwd s.header (map alone ws) [] c
          (subst (All (Readable wire)) (sym lines) good)
          (subst (Rising 0) (sym (flatten-alone ws)) up) tt in
      (
        compact_bytes wire s,
        apply_all (with_header s.header (some sink')) ws,
        compact_file-rewritten s sink held,
        ap (λ f. (open_file wire false outcome rewritten now path id cwd f).0) (snapshot_bytes s)
            ∙ q
            ∙ ap (λ x. ok (apply_all (with_header s.header (some sink')) x)) (flatten-alone ws),
        snapshot_keeps wire s (some sink') whole,
      )
