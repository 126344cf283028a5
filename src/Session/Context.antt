-- ===== src/Session/Context.antt =====
-- src/session.rs: `project_context`, how a provider request is built from a branch.
use reve.Prelude.{
  ℕ, suc, ◌+◌, ◌/◌, ◌≡◌, ◌⊎◌, String, ◌<>◌, Bool, true, false, ◌&&◌, ◌||◌, not, Option, none, some,
  List, [], ◌∷◌, ◌++◌, str_eq, unwrap_or, if◌then◌else◌,
}
use reve.Map
use reve.Map.{string_key}
use reve.Json.{Json}
use reve.Entry.{Entry, message_entry, with_id, is_compaction, role, stop_reason}
use reve.Storage.{Storage}
use reve.Storage.Scan.{BranchScan, oldest_first, scan_branch}
use reve.Model.{and_then}

-- The scan of a lane's window, down to the newest compaction.
abbrev pub window : Option String → BranchScan
window leaf = record {
  start = leaf;
  stop_at_type = some "compaction";
  stop_at_id = none;
  entry_type = none;
  custom_type = none;
  order = oldest_first;
  limit = none;
}

module _ {V : Type 0} (json : Json V) (show : ℕ → String) where
  abbrev pub summary_text : String → String
  summary_text summary =
      "<summary>\nThe conversation so far was compacted. Summary of the earlier work:\n\n"
      <> summary <> "\n</summary>"

  abbrev pub summary_message : String → V
  summary_message summary = json.object (
      Map.insert (Map.insert [] "role" (json.text "user")) "content"
        (json.text (summary_text summary)))

  -- The entries that a compaction stands for: its summary, then the messages of its retained tail. The
  -- ids that the constructors mint are replaced at once.
  abbrev pub tail_entries : String → ℕ → List V → List (Entry V)
  tail_entries id index [] = []
  tail_entries id index (message ∷ tail) =
      with_id (message_entry "" message) (id <> ":tail:" <> show index)
      ∷ tail_entries id (suc index) tail

  abbrev pub compaction_entries : Entry V → List (Entry V)
  compaction_entries e =
      with_id
        (message_entry ""
          (summary_message (unwrap_or (and_then (Map.get e.payload "summary") json.as_str) "")))
        (e.id <> ":summary")
      ∷ tail_entries e.id 0
          (unwrap_or (and_then (Map.get e.payload "retainedTail") json.as_array) [])

  abbrev is_one_of : Option String → List String → Bool
  is_one_of o [] = false
  is_one_of none (t ∷ ts) = is_one_of none ts
  is_one_of (some a) (t ∷ ts) = str_eq a t || is_one_of (some a) ts

  -- An assistant's response that errored or was aborted.
  abbrev pub is_broken : Entry V → Bool
  is_broken e =
      is_one_of (role json e) ("assistant" ∷ [])
      && is_one_of (stop_reason json e) ("error" ∷ "aborted" ∷ [])

  abbrev pub project_entry : Entry V → List (Entry V)
  project_entry e =
      if is_compaction e
      then compaction_entries e
      else if not (str_eq e.entry_type "message")
      then []
      else if is_broken e
      then []
      else e ∷ []

  abbrev pub project : List (Entry V) → List (Entry V)
  project [] = []
  project (e ∷ es) = project_entry e ++ project es

  unfoldable pub project_context : ℕ → Storage V → Option String → Option (List (Entry V))
  unfolding scan_branch with_id message_entry is_compaction role stop_reason
  project_context fuel s leaf = elim (scan_branch fuel s (window leaf)) [
    | none ↦ none
    | some path ↦ some (project path)
  ]

  -- A cheap estimate: characters divided by four.
  abbrev payload_chars : List (Entry V) → ℕ
  payload_chars [] = 0
  payload_chars (e ∷ es) = json.text_len e.payload + payload_chars es

  unfoldable pub estimate_tokens : List (Entry V) → ℕ
  estimate_tokens entries = payload_chars entries / 4

  -- What may stand in a context: messages.
  abbrev pub IsMessage : Entry V → Type 0
  IsMessage e = e.entry_type ≡ "message"

  abbrev pub AtMostOne : List (Entry V) → Type 0
  AtMostOne base = (base ≡ []) ⊎ ((e : Entry V) × (base ≡ e ∷ []) × (is_compaction e ≡ true))
