-- ===== src/Session/Examples.antt =====
-- Small runs of the owner of src/session.rs, of a restore and of a context.
use reve.Prelude.{ℕ, ◌≡◌, refl, ℤ, String, Option, none, some, List, [], ◌∷◌, arith, inr}
use reve.Map
use reve.Namespace.{
  Namespace, fact_name, lane_state, lane_leaf, lane_config, op_meta, op_state, pending_entry,
  register_key,
}
use reve.Entry.{Entry, Write, CommitResult, Register, register, set, no_usage}
use reve.State.{
  LaneConfiguration, LaneState, Operation, OperationState, Intent, Control, RunPhase,
  default_run_settings, empty_inbox, then_assistant,
}
use reve.Storage.{
  Storage, Sink, Wire, Io, done, failed, io, commit, with_header, validate, check, stamp, publish,
  append, apply, apply_all, apply_register,
}
use reve.Storage
use reve.Storage.Scan.{register_value}
use reve.Storage.Tokens.{register_at, Bounded}
use reve.Session.{Owner, Expect, ok, err, faulted, commit_if}
use reve.Session.Tokens.{Message, serve, lease_sound}
use reve.Session.Race.{loser_writes_nothing, fault_is_final}
use reve.Session.Restore.{Current, suspended, restore, validate_current}
use reve.Session.Checks.{need, pass, unless}
use reve.Session.Restored.{IsOpen, restore-IsOpen}
use reve.Session.Values.{
  Value, text, leaf, state, config, meta, program, pending_full, json, codecs,
}
use reve.Model.{Assistant, from_message, message, from_message-message, tool_use}

abbrev pub wire : Wire Value
wire = record { encode = λ l. 76 ∷ []; parse = λ bytes. inr "unread" }

abbrev pub reg : Namespace → String → Value → ℕ → Register Value
reg ns key v n = record { namespace = ns; key = key; value = v; seq = n }

-- A session with a name and a file.
abbrev pub named : Storage Value
named = record {
  header = record { v = 4; id = "s"; storage_version = 1; cwd = none; created_at = none };
  seq = 3;
  entries = [];
  entry_order = [];
  registers = ((fact_name, ""), reg fact_name "" (text "one") 3) ∷ [];
  usage = [];
  usage_ids = [];
  stats = record { message_count = 0; usage = no_usage };
  sink = some (record { file = []; path = "s.jsonl" });
}

abbrev pub owner : Owner Value
owner = record { storage = named; fault = none }

abbrev pub renamed : List (Write Value)
renamed = register (set 0 fact_name "" (text "two")) ∷ []

abbrev token : Expect
token = record { namespace = fact_name; key = ""; seq = some 3 }

abbrev answer : CommitResult
answer = record { first_seq = 4; last_seq = 4; timestamp = ℤ.pos 7 }

named-Bounded : Bounded named
unfolding Map.get
named-Bounded k r h = ground arith

first_wins : (commit_if wire done (ℤ.pos 7) owner (token ∷ []) renamed).0 ≡ ok (some answer)
unfolding commit_if commit validate check stamp publish append Map.get
first_wins = refl

loser_writes_nothing_example :
    commit_if wire done
      (ℤ.pos 8)
      (commit_if wire done (ℤ.pos 7) owner (token ∷ []) renamed).1
      (token ∷ [])
      renamed
    ≡ (ok none, (commit_if wire done (ℤ.pos 7) owner (token ∷ []) renamed).1)
loser_writes_nothing_example =
    loser_writes_nothing wire done done (ℤ.pos 7) (ℤ.pos 8) owner (fact_name, "")
      (reg fact_name "" (text "one") 3) (token ∷ []) [] renamed renamed answer named-Bounded
      (omega arith) (unfold Map.get in refl) refl first_wins

abbrev message_between : Message Value
message_between = record {
  outcome = failed 0 "full";
  now = ℤ.pos 5;
  expect = record token { seq = none } ∷ [];
  writes = renamed;
}

after_message :
    (commit_if wire done (ℤ.pos 7) (serve wire owner (message_between ∷ [])) (token ∷ []) renamed).0
    ≡ ok (some answer)
unfolding serve commit_if commit validate check stamp publish append Map.get
after_message = refl

lease_sound_example :
    register_at (serve wire owner (message_between ∷ [])).storage (fact_name, "")
    ≡ some (reg fact_name "" (text "one") 3)
lease_sound_example =
    lease_sound wire owner (message_between ∷ []) (fact_name, "") (reg fact_name "" (text "one") 3)
      done (ℤ.pos 7) [] renamed answer named-Bounded (omega arith) (unfold Map.get in refl)
      after_message

broken : (commit wire (failed 1 "full") (ℤ.pos 7) named renamed).0 ≡ Storage.err (io "full")
unfolding commit validate check stamp publish append
broken = refl

fault_is_final_example :
    (sink : Option Sink) × (commit_if wire (failed 1 "full") (ℤ.pos 7) owner [] renamed ≡ (
      err (faulted "full"),
      record { storage = record named { sink = sink }; fault = some "full" },
    ))
    × (commit_if wire done
          (ℤ.pos 8)
          (serve wire
            (commit_if wire (failed 1 "full") (ℤ.pos 7) owner [] renamed).1
            (message_between ∷ []))
          []
          renamed
        ≡ (err (faulted "full"), (commit_if wire (failed 1 "full") (ℤ.pos 7) owner [] renamed).1))
fault_is_final_example =
    fault_is_final wire (failed 1 "full") done (ℤ.pos 7) (ℤ.pos 8) owner [] [] renamed renamed
      (message_between ∷ []) "full" refl refl broken

abbrev turn : Assistant Value
turn = record {
  text = "I will look.";
  tool_calls = record { id = "tc_1"; name = "read"; arguments = ("path", text "a.txt") ∷ [] } ∷ [];
  stop_reason = tool_use;
  usage = no_usage;
  error_message = none;
}

from_message-message_example :
    from_message json codecs.stop codecs.usage (message json codecs.stop codecs.usage turn)
    ≡ some turn
from_message-message_example = from_message-message json codecs.stop codecs.usage turn

-- A run that was accepted and has not placed its prompt.
abbrev pub lane_config_value : LaneConfiguration
lane_config_value = record {
  model = record { provider = "p"; model_id = "m" };
  thinking_level = "off";
  active_tool_names = [];
}

abbrev pub lane_state_value : LaneState
lane_state_value = record { current_operation_id = some "op"; pending_next_run = [] }

abbrev pub accepted : Operation
accepted = record {
  operation_id = "op";
  lane = "main";
  source_leaf_id = none;
  started_at = ℤ.pos 5;
  intent = Intent.run ("p" ∷ []) none;
}

abbrev pub counter : OperationState
counter = OperationState.run (record {
  control = Control.running;
  settings = default_run_settings;
  phase = RunPhase.checkpoint (then_assistant "p");
  inbox = empty_inbox;
  latest_assistant_entry_id = none;
})

abbrev pub interrupted : Storage Value
interrupted = record named {
  registers =
      ((lane_leaf, "main"), reg lane_leaf "main" (leaf none) 1)
      ∷ ((lane_config, "main"), reg lane_config "main" (config lane_config_value) 2)
      ∷ ((lane_state, "main"), reg lane_state "main" (state lane_state_value) 3)
      ∷ ((op_meta, "op"), reg op_meta "op" (meta accepted) 4)
      ∷ ((op_state, "op"), reg op_state "op" (program counter) 5)
      ∷ ((pending_entry, "p"), reg pending_entry "p" (pending_full "message" none (text "hi")) 6)
      ∷ [];
  seq = 6;
}

abbrev pub digits : ℕ → String
digits n = "0"

abbrev pub found : Current
found = record {
  operation = accepted;
  state = counter;
  state_seq = 5;
  lane_state = lane_state_value;
  lane_state_seq = 3;
  leaf = none;
  configuration = lane_config_value;
  configuration_seq = 2;
}

pub interrupted-restored : restore json codecs digits interrupted "main" ≡ ok (suspended found)
unfolding restore validate_current need pass unless register_value Map.get
interrupted-restored = refl

restore-IsOpen_example : IsOpen json codecs digits interrupted "main" found
restore-IsOpen_example =
    restore-IsOpen json codecs digits interrupted "main" found interrupted-restored

-- A branch of a compaction and the entry after it.
abbrev note : Entry Value
note = record {
  id = "a";
  parent_id = none;
  seq = 1;
  entry_type = "compaction";
  custom_type = none;
  timestamp = ℤ.pos 1;
  payload = ("summary", text "earlier") ∷ [];
}

abbrev question : Entry Value
question = record note {
  id = "b";
  parent_id = some "a";
  seq = 2;
  entry_type = "message";
  payload = [];
}

abbrev talk : Storage Value
talk = record named { entries = ("a", note) ∷ ("b", question) ∷ [] }
