-- ===== src/Compaction.antt =====
-- src/compaction.rs: what a compaction summarises and what it keeps.
pub mod Split
pub mod Examples
use text.Mathlib.Text.{starts_with}
use reve.Prelude.{
  ℕ, zero, suc, ◌+◌, ◌-◌, min, String, ◌<>◌, Bool, true, false, ◌&&◌, ◌||◌, not, Option, none, some,
  List, [], ◌∷◌, ◌++◌, map, ltb, ◌==◌, str_eq, length, take, get_elem?, filter_map, u64_mod,
  if◌then◌else◌,
}
use mathlib.Core.List.{reverse}
use reve.Map
use reve.Map.{string_key}
use reve.Json.{Json}
use reve.Entry.{Entry, message_value, message_entry, role}
use reve.State.{CompactionSettings, CompactionPreparation}
use reve.Session.Context.{estimate_tokens}
use reve.Model.{and_then, field_str}

-- Would the next request cross the threshold? The sum saturates.
unfoldable pub over_threshold : ℕ → ℕ → CompactionSettings → Bool
over_threshold tokens context_window settings =
    settings.enabled && ltb context_window (min (tokens + settings.reserve_tokens) (u64_mod - 1))

abbrev pub drop : {A : Type 0} → ℕ → List A → List A
drop zero xs = xs
drop (suc n) [] = []
drop (suc n) (x ∷ xs) = drop n xs

abbrev pub summary_system : String
summary_system =
    "You are compacting a coding-agent conversation so it can continue in a smaller context. Write a faithful, dense summary of the conversation you are given: the user's goals, decisions taken, files and commands touched, what was learned, what is still open, and anything the assistant must remember to finish the work. Use plain prose and short lists. Do not invent detail and do not address the user."

abbrev pub instruction_text : String
instruction_text =
    "Summarise the conversation above for a continuation in a fresh context. Be specific about file paths, commands, errors, and decisions."

module _ {V : Type 0} (json : Json V) (show : ℕ → String) where
  -- The loop from the end: the entries before `start`, the last one first, what is left of the budget, and
  -- whether `start` is still the end. The result is where the tail starts.
  unfoldable pub tail_start : List (Entry V) → ℕ → Bool → ℕ
  tail_start [] budget at_end = 0
  tail_start (e ∷ back) budget at_end =
      let cost = estimate_tokens json show (e ∷ []) in
      let further = tail_start back (budget - cost) false in
      if ltb budget cost && not at_end then suc (length back) else further

  abbrev pub is_user : Option (Entry V) → Bool
  is_user none = false
  is_user (some e) = is_user_role (role json e)
    where
      is_user_role : Option String → Bool
      is_user_role none = false
      is_user_role (some r) = str_eq r "user"

  -- Backwards to a user turn; an empty tail is left alone.
  unfoldable pub widen : List (Entry V) → ℕ → ℕ
  widen context zero = zero
  widen context (suc n) =
      let further = widen context n in
      if ltb (suc n) (length context) && not (is_user (get_elem? context (suc n)))
      then further
      else suc n

  abbrev pub messages : List (Entry V) → List V
  messages = filter_map message_value

  abbrev only_summary : Option String → Option String
  only_summary none = none
  only_summary (some c) = if starts_with c "<summary>" then some c else none

  -- The summary that the head starts with, if it is a compacted context itself.
  abbrev pub previous_summary : List (Entry V) → Option String
  previous_summary [] = none
  previous_summary (e ∷ es) =
      only_summary (and_then (message_value e) (λ m. field_str json m "content"))

  abbrev pub preparation_at : List (Entry V) → ℕ → CompactionPreparation V
  preparation_at context start = record {
    messages_to_summarize = messages (take start context);
    retained_tail = messages (drop start context);
    tokens_before = estimate_tokens json show context;
    previous_summary = previous_summary (take start context);
  }

  unfoldable pub start_of : List (Entry V) → CompactionSettings → ℕ
  unfolding tail_start widen role
  start_of context settings =
      widen context (tail_start (reverse context) settings.keep_recent_tokens true)

  unfoldable pub prepare : List (Entry V) → CompactionSettings → Option (CompactionPreparation V)
  unfolding start_of message_value estimate_tokens
  prepare context settings =
      if ltb (length context) 2
      then none
      else if start_of context settings == 0
      then none
      else some (preparation_at context (start_of context settings))

  -- `custom_instructions.filter(|s| !s.trim().is_empty())`: `is_blank` is the test on the trimmed text.
  abbrev pub instruction : (String → Bool) → Option String → String
  instruction is_blank none = instruction_text
  instruction is_blank (some extra) =
      if is_blank extra
      then instruction_text
      else instruction_text <> "\n\nAdditional instructions: " <> extra

  -- Each message under the next id that is minted.
  abbrev pub scratch : (ℕ → String) → ℕ → List V → List (Entry V)
  scratch mint i [] = []
  scratch mint i (m ∷ ms) = message_entry (mint i) m ∷ scratch mint (suc i) ms

  -- The context of the request: the messages to summarise, then an instruction turn.
  unfoldable pub summary_request :
      (String → Bool)
      → (ℕ → String)
      → CompactionPreparation V
      → Option String
      → List (Entry V) × String
  unfolding message_entry
  summary_request is_blank mint p custom_instructions = (
    scratch mint 0 p.messages_to_summarize
        ++ message_entry (mint (length p.messages_to_summarize)) (
            json.object (
              Map.insert (Map.insert [] "role" (json.text "user")) "content"
                (json.text (instruction is_blank custom_instructions))))
          ∷ [],
    summary_system,
  )
