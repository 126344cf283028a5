-- ===== src/Entry.antt =====
-- src/entry.rs: entries, usage rows, registers, transactions and the lines of a session file.
-- Ids are texts; a payload is a map of JSON values `V`.
use reve.Prelude.{
  ℕ, ◌+◌, ℤ, String, ◌<>◌, Bool, false, Option, none, some, List, [], ◌∷◌, str_eq, wrap64,
}
use reve.Map.{Map, string_key}
use reve.Map
use reve.Json.{Json}
use reve.Namespace.{Namespace}

abbrev pub format_version : ℕ
format_version = 4

abbrev pub storage_version : ℕ
storage_version = 1

abbrev pub main_lane : String
main_lane = "main"

abbrev pub reserved_keys : List String
reserved_keys = "kind" ∷ "id" ∷ "parentId" ∷ "seq" ∷ "type" ∷ "customType" ∷ "timestamp" ∷ []

pub record Header : Type 0 where
  pub v : ℕ
  pub id : String
  pub storage_version : ℕ
  pub cwd : Option String
  pub created_at : Option ℤ

-- `now` is the clock's reading, `now_ms()`.
unfoldable pub new_header : ℤ → String → Option String → Header
new_header now id cwd = record {
  v = format_version;
  id = id;
  storage_version = storage_version;
  cwd = cwd;
  created_at = some now;
}

pub record Entry (V : Type 0) : Type 0 where
  pub id : String
  pub parent_id : Option String
  pub seq : ℕ
  pub entry_type : String
  pub custom_type : Option String
  pub timestamp : ℤ
  pub payload : Map String V

pub record Usage : Type 0 where
  pub input : ℕ
  pub output : ℕ
  pub cached_input : ℕ

abbrev pub no_usage : Usage
no_usage = record { input = 0; output = 0; cached_input = 0 }

unfoldable pub add_usage : Usage → Usage → Usage
add_usage a b = record {
  input = wrap64 (a.input + b.input);
  output = wrap64 (a.output + b.output);
  cached_input = wrap64 (a.cached_input + b.cached_input);
}

pub record UsageRow (V : Type 0) : Type 0 where
  pub id : String
  pub seq : ℕ
  pub usage : Usage
  pub entry_id : Option String
  pub adjustment : Bool
  pub details : Option V

unfoldable pub new_usage_row : {V : Type 0} → String → Usage → Option String → UsageRow V
new_usage_row id usage entry_id = record {
  id = id;
  seq = 0;
  usage = usage;
  entry_id = entry_id;
  adjustment = false;
  details = none;
}

pub record Register (V : Type 0) : Type 0 where
  pub namespace : Namespace
  pub key : String
  pub value : V
  pub seq : ℕ

pub data RegisterWrite (V : Type 0) : Type 0 where
  set : ℕ → Namespace → String → V → RegisterWrite V
  delete : ℕ → Namespace → String → RegisterWrite V

pub data Write (V : Type 0) : Type 0 where
  entry : Entry V → Write V
  usage : UsageRow V → Write V
  register : RegisterWrite V → Write V

pub data Line (V : Type 0) : Type 0 where
  header : Header → Line V
  batch : List (Write V) → Line V
  single : Write V → Line V

pub record CommitResult : Type 0 where
  pub first_seq : ℕ
  pub last_seq : ℕ
  pub timestamp : ℤ

module _ {V : Type 0} where
  -- `Write::set` and `Write::delete`: the sequence number is assigned by the commit.
  unfoldable pub set_write : Namespace → String → V → Write V
  set_write namespace key value = register (set 0 namespace key value)

  unfoldable pub delete_write : Namespace → String → Write V
  delete_write namespace key = register (delete 0 namespace key)

  abbrev pub write_seq : Write V → ℕ
  write_seq (entry e) = e.seq
  write_seq (usage u) = u.seq
  write_seq (register (set seq namespace key value)) = seq
  write_seq (register (delete seq namespace key)) = seq

  abbrev pub set_seq : Write V → ℕ → Write V
  set_seq (entry e) value = entry (record e { seq = value })
  set_seq (usage u) value = usage (record u { seq = value })
  set_seq (register (set seq namespace key v)) value = register (set value namespace key v)
  set_seq (register (delete seq namespace key)) value = register (delete value namespace key)

  -- One write is an object line, any other number an array line.
  abbrev pub commit_line : List (Write V) → Line V
  commit_line (w ∷ []) = single w
  commit_line ws = batch ws

  -- A payload key that an entry line uses itself is renamed.
  move_key : Map String V → String → Map String V
  move_key payload key = elim (Map.get payload key) [
    | none ↦ payload
    | some value ↦ Map.insert (Map.remove payload key) ("payload_" <> key) value
  ]

  move_keys : List String → Map String V → Map String V
  move_keys [] payload = payload
  move_keys (key ∷ keys) payload = move_keys keys (move_key payload key)

  unfoldable pub sanitize : Map String V → Map String V
  unfolding move_keys move_key
  sanitize = move_keys reserved_keys

  -- `Entry::base`; the id is the fresh one that `EntryId::new` mints.
  unfoldable pub base_entry : String → String → Map String V → Entry V
  unfolding sanitize
  base_entry id entry_type payload = record {
    id = id;
    parent_id = none;
    seq = 0;
    entry_type = entry_type;
    custom_type = none;
    timestamp = ℤ.pos 0;
    payload = sanitize payload;
  }

  unfoldable pub message_entry : String → V → Entry V
  unfolding base_entry
  message_entry id message = base_entry id "message" (Map.insert [] "message" message)

  unfoldable pub custom_entry : String → String → Option V → Entry V
  unfolding base_entry
  custom_entry id custom_type none = record (base_entry id "custom" []) {
    custom_type = some custom_type;
  }
  custom_entry id custom_type (some value) =
      record (base_entry id "custom" (Map.insert [] "data" value)) {
        custom_type = some custom_type;
      }

  unfoldable pub with_id : Entry V → String → Entry V
  with_id e id = record e { id = id }

  unfoldable pub with_parent : Entry V → Option String → Entry V
  with_parent e parent = record e { parent_id = parent }

  unfoldable pub message_value : Entry V → Option V
  message_value e = Map.get e.payload "message"

  unfoldable pub is_compaction : Entry V → Bool
  is_compaction e = str_eq e.entry_type "compaction"

module _ {V : Type 0} (json : Json V) where
  unfoldable pub compaction_entry : String → String → List V → ℕ → Bool → Entry V
  unfolding base_entry
  compaction_entry id summary retained_tail tokens_before from_hook = base_entry id "compaction" (
      Map.insert
        (Map.insert
          (Map.insert (Map.insert [] "summary" (json.text summary)) "retainedTail"
            (json.array retained_tail))
          "tokensBefore" (json.number tokens_before))
        "fromHook" (json.boolean from_hook))

  -- A text field of the message, `None` if any part of the path is missing.
  message_field : Entry V → String → Option String
  message_field e field = elim (message_value e) [
    | none ↦ none
    | some m ↦ elim (json.get m field) [ none ↦ none | some v ↦ json.as_str v ]
  ]

  unfoldable pub role : Entry V → Option String
  unfolding message_field message_value
  role e = message_field e "role"

  unfoldable pub stop_reason : Entry V → Option String
  unfolding message_field message_value
  stop_reason e = message_field e "stopReason"
