-- ===== src/Storage.antt =====
-- src/storage/mod.rs: the in-memory maps of one session and the write primitive. The sink is the
-- session file as its bytes; an append meets the outcome `Io` that the operating system gives it.
mod Error
pub mod Sequence
pub mod Scan
pub mod Outcome
pub mod Tree
pub mod Branch
pub mod Tokens
pub mod Written
pub mod Registers
pub mod Examples
pub use Error.*
use reve.Prelude.{
  ℕ, ◌+◌, max, ℤ, ◌⊎◌, String, ◌<>◌, Bool, true, false, ◌&&◌, ◌||◌, Option, none, some, List, [],
  ◌∷◌, ◌++◌, str_eq, wrap64, contains, is_some, take, if◌then◌else◌,
}
use reve.Map.{Map, string_key}
use reve.Map
use reve.Namespace.{RegisterKey, register_key}
use reve.Entry.{
  Header, Entry, Usage, UsageRow, Register, RegisterWrite, set, delete, Write, entry, usage,
  register, Line, CommitResult, no_usage, add_usage, new_header, set_seq, write_seq, commit_line,
}

pub record Stats : Type 0 where
  pub message_count : ℕ
  pub usage : Usage

pub record Sink : Type 0 where
  pub file : List ℕ
  pub path : String

pub record Storage (V : Type 0) : Type 0 where
  pub header : Header
  pub seq : ℕ
  pub entries : Map String (Entry V)
  pub entry_order : List String
  pub registers : Map RegisterKey (Register V)
  pub usage : List (UsageRow V)
  pub usage_ids : List String
  pub stats : Stats
  pub sink : Option Sink

-- The text that serde_json prints for a line, and its parser, which reads the line's bytes.
pub record Wire (V : Type 0) : Type 0 where
  pub encode : Line V → List ℕ
  pub parse : List ℕ → (Line V) ⊎ String

-- `write_all` and `flush`: done, or failed with this many bytes in the file.
pub data Io : Type 0 where
  done : Io
  failed : ℕ → String → Io

abbrev pub newline : ℕ
newline = 10

abbrev pub bool_eq : Bool → Bool → Bool
bool_eq true b = b
bool_eq false true = false
bool_eq false false = true

module _ {V : Type 0} where
  unfoldable pub with_header : Header → Option Sink → Storage V
  with_header header sink = record {
    header = header;
    seq = 0;
    entries = [];
    entry_order = [];
    registers = [];
    usage = [];
    usage_ids = [];
    stats = record { message_count = 0; usage = no_usage };
    sink = sink;
  }

  -- `Storage::memory`: nothing is written anywhere.
  unfoldable pub memory : ℤ → String → Storage V
  unfolding with_header new_header
  memory now id = with_header (new_header now id none) none

  abbrev pub has_entry : Storage V → String → Bool
  has_entry s id = is_some (Map.get s.entries id)

  unfoldable pub parent_missing : Storage V → List String → Option String → Option String
  parent_missing s new_entries none = none
  parent_missing s new_entries (some parent) =
      if has_entry s parent || contains new_entries parent then none else some parent

  -- What an entry write must satisfy; its own id is among `new_entries` when its parent is looked up.
  unfoldable pub check_entry : Storage V → List String → List String → Entry V → Result (Unit {0})
  check_entry s new_entries new_usage e =
      if has_entry s e.id
        || contains s.usage_ids e.id
        || contains new_entries e.id
        || contains new_usage e.id
      then err (duplicate_id e.id)
      else elim (parent_missing s (e.id ∷ new_entries) e.parent_id) [
        | some parent ↦ err (missing_parent e.id parent)
        | none ↦
            if str_eq e.entry_type ""
            then err (invalid ("entry " <> e.id <> " has no type"))
            else if bool_eq (str_eq e.entry_type "custom") (is_some e.custom_type)
            then ok tt
            else err (invalid ("entry " <> e.id <> ": customType is set exactly on custom entries"))
      ]

  unfoldable pub check_usage :
      Storage V → List String → List String → UsageRow V → Result (Unit {0})
  check_usage s new_entries new_usage row =
      if contains s.usage_ids row.id
        || has_entry s row.id
        || contains new_usage row.id
        || contains new_entries row.id
      then err (duplicate_id row.id)
      else ok tt

  unfoldable pub check : Storage V → List String → List String → Write V → Result (Unit {0})
  unfolding check_entry check_usage parent_missing
  check s new_entries new_usage (entry e) = check_entry s new_entries new_usage e
  check s new_entries new_usage (usage row) = check_usage s new_entries new_usage row
  check s new_entries new_usage (register r) = ok tt

  -- The sequence number, and on an entry the time of the commit.
  unfoldable pub stamp : ℤ → ℕ → Write V → Write V
  stamp now seq (entry e) = entry (record e { seq = seq; timestamp = now })
  stamp now seq (usage row) = set_seq (usage row) seq
  stamp now seq (register r) = set_seq (register r) seq

  abbrev pub note_entry : Write V → List String → List String
  note_entry (entry e) ids = e.id ∷ ids
  note_entry (usage row) ids = ids
  note_entry (register r) ids = ids

  abbrev pub note_usage : Write V → List String → List String
  note_usage (entry e) ids = ids
  note_usage (usage row) ids = row.id ∷ ids
  note_usage (register r) ids = ids

  -- The validation loop: the stamped writes and the last sequence number, or the first error.
  unfoldable pub validate :
      Storage V → ℤ → ℕ → List String → List String → List (Write V) → Result (List (Write V) × ℕ)
  unfolding stamp check
  validate s now seq new_entries new_usage [] = ok ([], seq)
  validate s now seq new_entries new_usage (w ∷ ws) =
      check s new_entries new_usage (stamp now (wrap64 (seq + 1)) w) >>= λ _.
      validate s now (wrap64 (seq + 1)) (note_entry w new_entries) (note_usage w new_usage) ws
      >>= λ r. ok (stamp now (wrap64 (seq + 1)) w ∷ r.0, r.1)

  unfoldable pub apply_entry : Storage V → Entry V → Storage V
  apply_entry s e = record s {
    entries = Map.insert s.entries e.id e;
    entry_order = s.entry_order ++ e.id ∷ [];
    stats = record (s.stats) {
      message_count =
          if str_eq e.entry_type "message"
          then wrap64 (s.stats.message_count + 1)
          else s.stats.message_count;
    };
  }

  unfoldable pub apply_usage : Storage V → UsageRow V → Storage V
  apply_usage s row = record s {
    usage = s.usage ++ row ∷ [];
    usage_ids = row.id ∷ s.usage_ids;
    stats = record (s.stats) { usage = add_usage s.stats.usage row.usage };
  }

  unfoldable pub apply_register : Storage V → RegisterWrite V → Storage V
  apply_register s (set seq namespace key value) = record s {
    registers =
        Map.insert s.registers (namespace, key)
          (record { namespace = namespace; key = key; value = value; seq = seq });
  }
  apply_register s (delete seq namespace key) = record s {
    registers = Map.remove s.registers (namespace, key);
  }

  -- Shared by commit and replay; assigns nothing.
  unfoldable pub apply : Storage V → Write V → Storage V
  unfolding apply_entry apply_usage apply_register
  apply s (entry e) = apply_entry (record s { seq = max s.seq e.seq }) e
  apply s (usage row) = apply_usage (record s { seq = max s.seq row.seq }) row
  apply s (register r) = apply_register (record s { seq = max s.seq (write_seq (register r)) }) r

  unfoldable pub apply_all : Storage V → List (Write V) → Storage V
  apply_all s [] = s
  apply_all s (w ∷ ws) = apply_all (apply s w) ws

module _ {V : Type 0} (wire : Wire V) where
  -- The line's text and a newline.
  abbrev pub line_bytes : Line V → List ℕ
  line_bytes line = wire.encode line ++ newline ∷ []

  unfoldable pub append : Io → Sink → Line V → Result (Unit {0}) × Sink
  append done sink line = (ok tt, record sink { file = sink.file ++ line_bytes line })
  append (failed n why) sink line =
      (err (io why), record sink { file = sink.file ++ take n (line_bytes line) })

  -- Durable first, then visible.
  unfoldable pub publish :
      Io → Storage V → List (Write V) → CommitResult → Result CommitResult × Storage V
  unfolding append
  publish outcome s writes r = elim s.sink [
    | none ↦ (ok r, apply_all s writes)
    | some sink ↦
        let (res, sink') = append outcome sink (commit_line writes) in
        elim res [
          | ok _ ↦ (ok r, apply_all (record s { sink = some sink' }) writes)
          | err e ↦ (err e, record s { sink = some sink' })
        ]
  ]

  unfoldable pub commit : Io → ℤ → Storage V → List (Write V) → Result CommitResult × Storage V
  unfolding publish
  commit outcome now s [] = (err (invalid "empty transaction"), s)
  commit outcome now s (w ∷ ws) = elim (validate s now s.seq [] [] (w ∷ ws)) [
    | err e ↦ (err e, s)
    | ok (writes, last) ↦
        publish outcome s writes
          (record { first_seq = wrap64 (s.seq + 1); last_seq = last; timestamp = now })
  ]
