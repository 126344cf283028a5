-- ===== src/Jsonl/Examples.antt =====
-- Small session files of src/storage/jsonl.rs, read, broken off and rewritten.
use mathlib.Core.List.{flatten}
use reve.Prelude.{
  eq_iff, ℕ, ◌+◌, ◌<◌, ◌≡◌, refl, ◌⊎◌, inl, inr, ℤ, String, false, none, some, List, [], ◌∷◌, ◌++◌,
  arith, length, All, map, u64_mod, subst, sym, ◌==◌, filter_map, if◌then◌else◌,
}
use reve.Map
use reve.Entry.{
  new_header, Header, Entry, UsageRow, Write, entry, usage, register, Line, header, batch, single,
}
use reve.Storage.{
  Storage, Sink, Wire, done, failed, ok, err, corrupt, not_increasing, with_header, newline, commit,
  validate, check, check_entry, parent_missing, stamp, apply_all, apply, apply_entry, apply_usage,
}
use reve.Storage.Scan.{scan_entries, all_registers}
use reve.Jsonl.Read.{read_lines}
use reve.Jsonl.Open.{rewritten, lines_bytes, snapshot_writes, compact_file, open_file}
use reve.Jsonl.Bytes.{Readable, read_lines-torn}
use reve.Jsonl.Recover.{Rising, file_lines, read_lines-Rising}
use reve.Jsonl.Reopen.{IsCurrent}
use reve.Jsonl.Durable.{IsDurable}
use reve.Jsonl.Crash.{reopen_durable, commit-IsDurable, crash_atomic}
use reve.Jsonl.Create.{create-IsDurable}
use reve.Jsonl.Kept.{IsCoherent, SameSession}
use reve.Jsonl.Snapshot.{compaction_corrupts, compaction_reopens}

abbrev session : Header
session = record { v = 4; id = "s"; storage_version = 1; cwd = none; created_at = none }

abbrev first : Entry (Unit {0})
first = record {
  id = "a";
  parent_id = none;
  seq = 0;
  entry_type = "message";
  custom_type = none;
  timestamp = ℤ.pos 0;
  payload = [];
}

abbrev placed : Entry (Unit {0})
placed = record first { seq = 1; timestamp = ℤ.pos 7 }

abbrev answer : Entry (Unit {0})
answer = record first { id = "b"; parent_id = some "a"; seq = 3; timestamp = ℤ.pos 7 }

abbrev second : Entry (Unit {0})
second = record answer { seq = 2 }

abbrev bill : UsageRow (Unit {0})
bill = record {
  id = "u";
  seq = 2;
  usage = record { input = 10; output = 4; cached_input = 0 };
  entry_id = some "a";
  adjustment = false;
  details = none;
}

-- A letter for each of the lines of these files, by its kind and, for an entry, its number.
abbrev letters : Line (Unit {0}) → List ℕ
letters (header h) = 72 ∷ []
letters (batch ws) = 66 ∷ []
letters (single (entry e)) = 69 ∷ (64 + e.seq) ∷ []
letters (single (usage row)) = 85 ∷ []
letters (single (register w)) = 82 ∷ []

abbrev read_letters : List ℕ → Line (Unit {0}) ⊎ String
read_letters (b ∷ []) =
    if b == 72
    then inl (header session)
    else if b == 85
    then inl (single (usage bill))
    else inr "no line"
read_letters (b ∷ c ∷ []) =
    if c == 65
    then inl (single (entry placed))
    else if c == 66
    then inl (single (entry second))
    else if c == 67
    then inl (single (entry answer))
    else inr "no line"
read_letters bs = inr "no line"

abbrev wire : Wire (Unit {0})
wire = record { encode = letters; parse = read_letters }

header-Readable : Readable wire (header session)
header-Readable = record { plain = ((refl, refl), tt); inhabited = refl; parses = refl }

placed-Readable : Readable wire (single (entry placed))
placed-Readable = record {
  plain = ((refl, refl), ((refl, refl), tt));
  inhabited = refl;
  parses = refl;
}

answer-Readable : Readable wire (single (entry answer))
answer-Readable = record {
  plain = ((refl, refl), ((refl, refl), tt));
  inhabited = refl;
  parses = refl;
}

bill-Readable : Readable wire (single (usage bill))
bill-Readable = record { plain = ((refl, refl), tt); inhabited = refl; parses = refl }

session-IsCurrent : IsCurrent session
session-IsCurrent = record { same_format = refl; known_storage = refl }

abbrev one : List (List (Write (Unit {0})))
one = (entry placed ∷ []) ∷ []

one-Readable : All (Readable wire) (file_lines wire session one)
one-Readable = (header-Readable, (placed-Readable, tt))

one-Rising : Rising 0 (flatten one)
unfolding flatten
one-Rising = (omega arith, tt)

-- A torn line that is also a whole JSON text: `E` and `A` without the newline.
abbrev torn : List ℕ
torn = 69 ∷ 67 ∷ []

torn-plain : All (λ b. (b == newline) ≡ false) torn
torn-plain = (refl, (refl, tt))

read_lines-torn_example :
    read_lines wire (lines_bytes wire (file_lines wire session one) ++ torn)
    ≡ read_lines wire (lines_bytes wire (file_lines wire session one))
read_lines-torn_example =
    read_lines-torn wire (file_lines wire session one) torn one-Readable torn-plain

-- The session after its first entry.
abbrev sink : Sink
sink = record { file = lines_bytes wire (file_lines wire session one); path = "s.jsonl" }

abbrev live : Storage (Unit {0})
unfolding with_header apply_all apply apply_entry
live = apply_all (with_header session (some sink)) (entry placed ∷ [])

live-IsDurable : IsDurable wire live
unfolding live with_header apply_all apply apply_entry
live-IsDurable = record {
  sink = sink;
  txs = one;
  held = refl;
  bytes = refl;
  state = unfold flatten in refl;
  rising = one-Rising;
  final = unfold flatten in refl;
  readable = one-Readable;
  current = session-IsCurrent;
}

read_lines-Rising_example :
    (dead : ℕ) × (read_lines wire (lines_bytes wire (file_lines wire session one))
      ≡ ok (record {
        header = some session;
        writes = flatten one;
        valid_len = length (lines_bytes wire (file_lines wire session one));
        dead_writes = dead;
      }))
read_lines-Rising_example = read_lines-Rising wire session one one-Readable one-Rising

abbrev asked : Write (Unit {0})
asked = entry (record answer { seq = 0; timestamp = ℤ.pos 0 })

asked-valid : validate live (ℤ.pos 7) live.seq [] [] (asked ∷ []) ≡ ok (entry second ∷ [], 2)
unfolding validate check check_entry parent_missing stamp with_header apply_all apply apply_entry
    Map.get Map.insert
asked-valid = refl

second-Readable : Readable wire (single (entry second))
second-Readable = record {
  plain = ((refl, refl), ((refl, refl), tt));
  inhabited = refl;
  parses = refl;
}

live_small : live.seq + 1 < u64_mod
unfolding with_header apply_all apply apply_entry
live_small = omega arith

reopen_durable_example :
    (s : Sink) × ((open_file wire false done rewritten
        (ℤ.pos 9)
        "s.jsonl"
        "s"
        none
        (live-IsDurable.sink.file ++ torn)).0
      ≡ ok (record live { sink = some s }))
reopen_durable_example =
    reopen_durable wire done (ℤ.pos 9) "s.jsonl" "s" none live live-IsDurable torn torn-plain

commit-IsDurable_example : IsDurable wire ((commit wire done (ℤ.pos 7) live (asked ∷ [])).1)
commit-IsDurable_example =
    commit-IsDurable wire (ℤ.pos 7) live asked [] (entry second ∷ []) 2 live-IsDurable asked-valid
      second-Readable live_small

crash_atomic_example :
    (left s : Sink) × ((commit wire (failed 1 "full") (ℤ.pos 7) live (asked ∷ [])).1.sink
      ≡ some left)
    × (((open_file wire false done rewritten (ℤ.pos 9) "s.jsonl" "s" none left.file).0
          ≡ ok (record live { sink = some s }))
        ⊎ ((open_file wire false done rewritten (ℤ.pos 9) "s.jsonl" "s" none left.file).0
            ≡ ok (record ((commit wire done (ℤ.pos 7) live (asked ∷ [])).1) { sink = some s })))
crash_atomic_example =
    crash_atomic wire 1 "full" done (ℤ.pos 7) (ℤ.pos 9) "s.jsonl" "s" none live asked []
      (entry second ∷ []) 2 live-IsDurable asked-valid second-Readable live_small

-- An entry, a usage row and another entry, as three transactions.
abbrev billed : Storage (Unit {0})
unfolding with_header apply_all apply apply_entry apply_usage
billed = apply_all (with_header session (some sink)) (entry placed ∷ usage bill ∷ entry answer ∷ [])

billed-snapshot :
    snapshot_writes wire billed ≡ (entry placed ∷ entry answer ∷ []) ++ usage bill ∷ []
unfolding with_header apply_all apply apply_entry apply_usage scan_entries all_registers filter_map
    Map.get Map.insert
billed-snapshot = refl

compaction_corrupts_example :
    (file : List ℕ) × (compact_file wire rewritten billed
      ≡ (ok tt, record billed { sink = some (record sink { file = file }) }))
    × (open_file wire false done rewritten (ℤ.pos 9) "s.jsonl" "s" none file
        ≡ (err (corrupt 4 (not_increasing 2 3)), file))
unfolding billed
compaction_corrupts_example =
    compaction_corrupts wire done rewritten (ℤ.pos 9) "s.jsonl" "s" none billed sink
      (entry placed ∷ entry answer ∷ []) (usage bill) []
      (unfold with_header apply_all apply apply_entry apply_usage in refl) billed-snapshot
      (omega arith, (omega arith, tt)) (omega arith)
      (header-Readable, (placed-Readable, (answer-Readable, (bill-Readable, tt))))

live-snapshot : snapshot_writes wire live ≡ entry placed ∷ []
unfolding with_header apply_all apply apply_entry scan_entries all_registers filter_map Map.get
    Map.insert
live-snapshot = refl

live-IsCoherent : IsCoherent live
unfolding live with_header apply_all apply apply_entry Map.get Map.insert
live-IsCoherent = record {
  keyed = λ id e h. ground (arith, eq_iff "a" id);
  ordered = λ id e h. ground (arith, eq_iff "a" id);
  found = ((placed, refl), tt);
  registers = tt;
}

compaction_reopens_example :
    (file : List ℕ) × (t : Storage (Unit {0})) × (compact_file wire rewritten live
      ≡ (ok tt, record live { sink = some (record sink { file = file }) }))
    × ((open_file wire false done rewritten (ℤ.pos 9) "s.jsonl" "s" none file).0 ≡ ok t)
    × SameSession live t
unfolding live
compaction_reopens_example =
    compaction_reopens wire done (ℤ.pos 9) "s.jsonl" "s" none live sink
      (unfold with_header apply_all apply apply_entry in refl) session-IsCurrent live-IsCoherent
      (subst (Rising 0) (sym live-snapshot) (omega arith, tt))
      (subst (λ ws. All (Readable wire) (header session ∷ map single ws)) (sym live-snapshot)
        one-Readable)

abbrev header_wire : Wire (Unit {0})
header_wire = record {
  encode = λ l. 72 ∷ [];
  parse = λ bytes. inl (header (new_header (ℤ.pos 7) "s" none));
}

create-IsDurable_example :
    (s : Storage (Unit {0})) × ((open_file header_wire false done rewritten
        (ℤ.pos 7)
        "s.jsonl"
        "s"
        none
        []).0
      ≡ ok s)
    × IsDurable header_wire s
create-IsDurable_example =
    create-IsDurable header_wire rewritten (ℤ.pos 7) "s.jsonl" "s" none
      (record { plain = ((refl, refl), tt); inhabited = refl; parses = refl })
