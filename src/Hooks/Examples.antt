-- ===== src/Hooks/Examples.antt =====
-- Small handlers for src/hooks.rs.
use reve.Prelude.{◌≡◌, refl, true, false, none, some, List, [], ◌∷◌}
use reve.State.{RunPhase, ToolBatch, planned, safe, manual}
use reve.Session.Values.{Value, text}
use reve.Session.Examples.{found, lane_config_value}
use reve.Model.{ToolCall}
use reve.Driver.World.{World, BeforeTool, BeforeCompaction}
use reve.Driver.Examples.{env, world, running_in}
use reve.Hooks.{
  silent, replied, threw, Handler, BeforeToolEvent, before_tool, BeforeCompactionEvent,
  before_compaction,
}
use reve.Hooks.Policy.{Passes, Admitted, Decides, tool_runs_past_policy, before_compaction-Decides}

abbrev read_file : ToolCall Value
read_file = record { id = "c1"; name = "read"; arguments = ("path", text "a") ∷ [] }

abbrev event : BeforeToolEvent Value
event = record {
  lane = "main";
  run_id = "op";
  tool_call_id = "c1";
  tool_name = "read";
  args = read_file.arguments;
}

-- One handler that is silent and one that replaces the arguments.
abbrev policies : List (Handler (BeforeToolEvent Value) (BeforeTool Value))
policies =
    (λ e. silent)
    ∷ (λ e. replied (record { args = some (("path", text "b") ∷ []); block = none }))
    ∷ []

abbrev guarded : World Value
guarded = record world {
  replay = λ name. some safe;
  before_tool = λ call. (before_tool policies event false).value;
}

abbrev batch : ToolBatch
batch = record {
  assistant_entry_id = "a";
  configuration = lane_config_value;
  turn_id = "s";
  calls = planned 0 "r" ∷ [];
}

tool_runs_past_policy_example :
    Admitted env guarded (running_in (RunPhase.tools batch)) false read_file
    × (e' : BeforeToolEvent Value) × Passes policies event e'
tool_runs_past_policy_example =
    tool_runs_past_policy env guarded found (running_in (RunPhase.tools batch)) batch false
      read_file 0 "r" policies event refl (unfold before_tool in refl)

blocked :
    (before_tool ((λ e. threw "down") ∷ policies) event false).value.block
    ≡ some (record { reason = "before_tool hook failed: down"; terminate = false })
unfolding before_tool
blocked = refl

abbrev compaction_event : BeforeCompactionEvent Value
compaction_event = record {
  lane = "main";
  run_id = "op";
  reason = manual;
  preparation = record {
    messages_to_summarize = [];
    retained_tail = [];
    tokens_before = 0;
    previous_summary = none;
  };
}

abbrev torn : List (Handler (BeforeCompactionEvent Value) BeforeCompaction)
torn = (λ e. replied (record { decline = true; summary = some "x" })) ∷ []

before_compaction-Decides_example : Decides (before_compaction torn compaction_event)
before_compaction-Decides_example = before_compaction-Decides torn compaction_event
