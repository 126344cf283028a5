-- ===== src/Compaction/Examples.antt =====
-- A small context, prepared for compaction (src/compaction.rs).
use reve.Prelude.{ℕ, ◌≡◌, ◌≢◌, refl, ℤ, String, true, none, some, List, [], ◌∷◌, ◌++◌}
use reve.Map
use reve.Entry.{Entry, role, message_value}
use reve.State.{CompactionSettings}
use reve.Session.Context.{estimate_tokens}
use reve.Session.Values.{Value, text, object, field, no_field, json}
use reve.Compaction.{prepare, start_of, tail_start, widen, messages, preparation_at}
use reve.Compaction.Split.{prepare_split}

abbrev digits : ℕ → String
digits n = "0"

abbrev turn : String → String → Entry Value
turn id who = record {
  id = id;
  parent_id = none;
  seq = 1;
  entry_type = "message";
  custom_type = none;
  timestamp = ℤ.pos 1;
  payload = ("message", object (field "role" (text who) no_field)) ∷ [];
}

abbrev talk : List (Entry Value)
talk = turn "a" "user" ∷ turn "b" "assistant" ∷ turn "c" "user" ∷ turn "d" "assistant" ∷ []

abbrev tight : CompactionSettings
tight = record { enabled = true; reserve_tokens = 0; keep_recent_tokens = 15 }

talk-prepared : prepare json digits talk tight ≡ some (preparation_at json digits talk 2)
unfolding prepare start_of tail_start widen estimate_tokens role message_value Map.get
talk-prepared = refl

prepare_split_example :
    (head tail : List (Entry Value)) × (next : Entry Value) × (talk ≡ head ++ (next ∷ tail))
    × (head ≢ [])
    × (role json next ≡ some "user")
    × ((preparation_at json digits talk 2).messages_to_summarize ≡ messages json digits head)
    × ((preparation_at json digits talk 2).retained_tail ≡ messages json digits (next ∷ tail))
    × ((preparation_at json digits talk 2).tokens_before ≡ estimate_tokens json digits talk)
prepare_split_example =
    prepare_split json digits talk tight (preparation_at json digits talk 2) talk-prepared
