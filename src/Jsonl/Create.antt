-- ===== src/Jsonl/Create.antt =====
-- A new session file (src/storage/jsonl.rs).
use mathlib.Core.List.{flatten}
use reve.Prelude.{◌≡◌, refl, sym, ℤ, String, false, Option, none, some, [], ◌++◌, append-nil}
use reve.Entry.{new_header, header}
use reve.Storage.{Storage, Wire, done, ok, with_header, append, apply_all, line_bytes}
use reve.Jsonl.Read.{read_lines, read_raws, raw_lines}
use reve.Jsonl.Open.{Rewrite, open_new, opened, open_checked, open_replay, open_file}
use reve.Jsonl.Bytes.{Readable}
use reve.Jsonl.Durable.{IsDurable}

module _ {V : Type 0} (wire : Wire V) where
  -- Opening a path where nothing was yet, on a disk that takes the header's line, gives a durable
  -- session, when that line reads back.
  pub create-IsDurable :
      (rewriting : Rewrite) (now : ℤ) (path id : String) (cwd : Option String)
      → Readable wire (header (new_header now id cwd))
      → (s : Storage V) × ((open_file wire false done rewriting now path id cwd []).0 ≡ ok s)
        × IsDurable wire s
  unfolding open_file read_lines read_raws raw_lines open_replay open_checked open_new opened append
      new_header with_header
  create-IsDurable rewriting now path id cwd g = (
    record (with_header (new_header now id cwd) none) {
      sink =
          some
            (record { file = [] ++ line_bytes wire (header (new_header now id cwd)); path = path });
    },
    refl,
    record {
      sink = record { file = [] ++ line_bytes wire (header (new_header now id cwd)); path = path };
      txs = [];
      held = refl;
      bytes = sym (append-nil _);
      state = unfold flatten apply_all in refl;
      rising = unfold flatten in tt;
      final = unfold flatten in refl;
      readable = (g, tt);
      current = record { same_format = refl; known_storage = refl };
    },
  )
