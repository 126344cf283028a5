-- ===== src/Jsonl/Read.antt =====
-- src/storage/jsonl.rs: reading a session file, which is its bytes, line by line.
use reve.Prelude.{
  ℕ, ◌+◌, ◌⊎◌, inl, inr, String, Bool, true, false, ◌&&◌, ◌||◌, Option, none, some, List, [], ◌∷◌,
  ◌++◌, leb, ◌==◌, is_some, is_empty, length, if◌then◌else◌,
}
use reve.Map
use reve.Map.{Map}
use reve.Namespace.{RegisterKey, register_key}
use reve.Entry.{
  Header, RegisterWrite, set, delete, Write, entry, usage, register, Line, header, batch, single,
  write_seq,
}
use reve.Storage.{
  Wire, Result, ok, err, StorageError, corrupt, malformed, second_header, not_increasing, newline,
}

pub record Replay (V : Type 0) : Type 0 where
  pub header : Option Header
  pub writes : List (Write V)
  pub valid_len : ℕ
  pub dead_writes : ℕ

-- The variables of the reading loop.
pub record Reading (V : Type 0) : Type 0 where
  pub replay : Replay V
  pub number : ℕ
  pub last_seq : ℕ
  pub live : Map RegisterKey (Unit {0})

-- What one physical line makes of the loop: go on, `break`, or return an error.
pub data Verdict (V : Type 0) : Type 0 where
  go_on : Reading V → Verdict V
  stop : Verdict V
  fail : StorageError → Verdict V

prepend : ℕ → List (List ℕ) → List (List ℕ)
prepend b [] = (b ∷ []) ∷ []
prepend b (raw ∷ raws) = (b ∷ raw) ∷ raws

-- The successive results of `read_until(b'\n')`: each ends with its newline, but for a torn last one.
unfoldable pub raw_lines : List ℕ → List (List ℕ)
unfolding prepend
raw_lines [] = []
raw_lines (b ∷ bs) =
    let rest = raw_lines bs in if b == newline then (b ∷ []) ∷ rest else prepend b rest

unfoldable pub is_complete : List ℕ → Bool
is_complete [] = false
is_complete (b ∷ []) = b == newline
is_complete (b ∷ c ∷ bs) = is_complete (c ∷ bs)

-- `trim_end_matches(['\n', '\r'])`.
unfoldable pub trim_end : List ℕ → List ℕ
trim_end [] = []
trim_end (b ∷ bs) =
    let rest = trim_end bs in if is_empty rest && (b == newline || b == 13) then [] else b ∷ rest

module _ {V : Type 0} where
  abbrev pub register_key_of : RegisterWrite V → RegisterKey
  register_key_of (set seq namespace key value) = (namespace, key)
  register_key_of (delete seq namespace key) = (namespace, key)

  abbrev pub is_set : RegisterWrite V → Bool
  is_set (set seq namespace key value) = true
  is_set (delete seq namespace key) = false

  -- The liveness count of one write: a set kills the live one before it, a delete that one and itself.
  unfoldable pub count_write : Write V → Reading V → Reading V
  count_write (entry e) r = r
  count_write (usage row) r = r
  count_write (register w) r =
      let key = register_key_of w in
      let killed = if is_some (Map.get r.live key) then 1 else 0 in
      let left = Map.remove r.live key in
      record r {
        live = if is_set w then Map.insert left key tt else left;
        replay = record (r.replay) {
          dead_writes = r.replay.dead_writes + killed + (if is_set w then 0 else 1);
        };
      }

  unfoldable pub note_writes : List (Write V) → Reading V → Result (Reading V)
  unfolding count_write
  note_writes [] r = ok r
  note_writes (w ∷ ws) r =
      let rest = note_writes ws (count_write w (record r { last_seq = write_seq w })) in
      if leb (write_seq w) r.last_seq
      then err (corrupt r.number (not_increasing (write_seq w) r.last_seq))
      else rest

  -- The writes of a line that is no header.
  unfoldable pub take_writes : List (Write V) → ℕ → Result (Reading V) → Verdict V
  take_writes ws len (err e) = fail e
  take_writes ws len (ok r) = go_on (record r {
    replay = record (r.replay) {
      writes = r.replay.writes ++ ws;
      valid_len = r.replay.valid_len + len;
    };
  })

  unfoldable pub take_header : Header → ℕ → Reading V → Verdict V
  take_header h len r =
      if is_some r.replay.header
      then fail (corrupt r.number second_header)
      else go_on (record r {
        replay = record (r.replay) { header = some h; valid_len = r.replay.valid_len + len };
      })

  unfoldable pub take_line : Line V → ℕ → Reading V → Verdict V
  unfolding take_writes take_header note_writes
  take_line (header h) len r = take_header h len r
  take_line (single w) len r = take_writes (w ∷ []) len (note_writes (w ∷ []) r)
  take_line (batch ws) len r = take_writes ws len (note_writes ws r)

  abbrev pub start_reading : Reading V
  start_reading = record {
    replay = record { header = none; writes = []; valid_len = 0; dead_writes = 0 };
    number = 0;
    last_seq = 0;
    live = [];
  }

module _ {V : Type 0} (wire : Wire V) where
  -- One pass of the loop; `at_eof` tells whether the reader has nothing left.
  unfoldable pub parsed_line : (Line V ⊎ String) → List ℕ → Bool → Reading V → Verdict V
  unfolding take_line is_complete
  parsed_line (inl line) raw at_eof r =
      if is_complete raw then take_line line (length raw) r else stop
  parsed_line (inr e) raw at_eof r = if at_eof then stop else fail (corrupt r.number (malformed e))

  unfoldable pub read_line : List ℕ → Bool → Reading V → Verdict V
  unfolding parsed_line is_complete trim_end
  read_line raw at_eof r =
      let numbered : Reading V = record r { number = r.number + 1 } in
      if is_empty (trim_end raw)
      then go_on (record numbered {
        replay = record (r.replay) {
          valid_len =
              if is_complete raw then r.replay.valid_len + length raw else r.replay.valid_len;
        };
      })
      else parsed_line (wire.parse (trim_end raw)) raw at_eof numbered

  unfoldable pub read_raws : List (List ℕ) → Reading V → Result (Replay V)
  unfolding read_line
  read_raws [] r = ok r.replay
  read_raws (raw ∷ raws) r = elim (read_line raw (is_empty raws) r) [
    | go_on r' ↦ read_raws raws r'
    | stop ↦ ok r.replay
    | fail e ↦ err e
  ]

  unfoldable pub read_lines : List ℕ → Result (Replay V)
  unfolding raw_lines read_raws
  read_lines file = read_raws (raw_lines file) start_reading
