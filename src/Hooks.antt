-- ===== src/Hooks.antt =====
-- src/hooks.rs: the interception points. The handlers of a hook run in their order, each on what the ones before it
-- made of the event.
pub mod Policy
pub mod Examples
use reve.Prelude.{
  String, ◌<>◌, Bool, true, false, ◌&&◌, ◌||◌, Option, none, some, List, [], ◌∷◌, ◌++◌, is_some,
  if◌then◌else◌,
}
use reve.Map.{Map}
use reve.Entry.{Entry}
use reve.State.{CompactionReason, CompactionPreparation}
use reve.Driver.World.{Block, BeforeTool, AfterTool, BeforeCompaction}

-- What a handler's future comes to: nothing, a result, or an error.
pub data Answer (R : Type 0) : Type 0 where
  silent : Answer R
  replied : R → Answer R
  threw : String → Answer R

abbrev pub Handler : Type 0 → Type 0 → Type 0
Handler E R = E → Answer R

pub record HandlerError : Type 0 where
  pub hook : String
  pub error : String

pub record Outcome (T : Type 0) : Type 0 where
  pub value : T
  pub errors : List HandlerError

abbrev pub report : {T : Type 0} → String → String → Outcome T → Outcome T
report hook error o = record o { errors = record { hook = hook; error = error } ∷ o.errors }

pub record BeforeRunEvent (V : Type 0) : Type 0 where
  pub lane : String
  pub run_id : String
  pub prompt : List V
  pub system_prompt : String

pub record BeforeRunResult (V : Type 0) : Type 0 where
  pub messages : List V
  pub system_prompt : Option String

pub record BeforeToolEvent (V : Type 0) : Type 0 where
  pub lane : String
  pub run_id : String
  pub tool_call_id : String
  pub tool_name : String
  pub args : Map String V

pub record AfterToolEvent (V : Type 0) : Type 0 where
  pub lane : String
  pub run_id : String
  pub tool_call_id : String
  pub tool_name : String
  pub args : Map String V
  pub content : String
  pub is_error : Bool

pub record BeforeRunEndEvent (V : Type 0) : Type 0 where
  pub lane : String
  pub run_id : String
  pub messages : List V

pub record BeforeRunEndResult : Type 0 where
  pub follow_up : Option String

pub record BeforeCompactionEvent (V : Type 0) : Type 0 where
  pub lane : String
  pub run_id : String
  pub reason : CompactionReason
  pub preparation : CompactionPreparation V

pub record TransformContextEvent (V : Type 0) : Type 0 where
  pub lane : String
  pub run_id : String
  pub messages : List (Entry V)

-- The later value where there is one.
abbrev pub later_or : {A : Type 0} → Option A → Option A → Option A
later_or before none = before
later_or before (some a) = some a

abbrev pub patch_result : AfterTool → AfterTool → AfterTool
patch_result aggregate r = record {
  content = later_or aggregate.content r.content;
  is_error = later_or aggregate.is_error r.is_error;
  terminate = later_or aggregate.terminate r.terminate;
}

abbrev pub undecided : BeforeCompaction
undecided = record { decline = false; summary = none }

abbrev pub compaction_answer :
    Outcome BeforeCompaction → Answer BeforeCompaction → Outcome BeforeCompaction
compaction_answer rest silent = rest
compaction_answer rest (replied r) =
    if r.decline && is_some r.summary
    then report "before_compaction" "returned both decline and a summary" rest
    else if r.decline || is_some r.summary
    then record { value = r; errors = [] }
    else rest
compaction_answer rest (threw error) = report "before_compaction" error rest

module _ {V : Type 0} where
  abbrev extend_run : BeforeRunResult V → BeforeRunResult V → BeforeRunResult V
  extend_run aggregate r = record {
    messages = aggregate.messages ++ r.messages;
    system_prompt = later_or aggregate.system_prompt r.system_prompt;
  }

  -- Messages append, the latest defined system prompt wins; every handler sees the same event.
  unfoldable pub before_run :
      List (Handler (BeforeRunEvent V) (BeforeRunResult V))
      → BeforeRunEvent V
      → BeforeRunResult V
      → Outcome (BeforeRunResult V)
  before_run [] e aggregate = record { value = aggregate; errors = [] }
  before_run (h ∷ hs) e aggregate =
      let rest = before_run hs e in
      elim (h e) [
        | silent ↦ rest aggregate
        | replied r ↦ rest (extend_run aggregate r)
        | threw error ↦ report "before_run" error (rest aggregate)
      ]

  abbrev pub args_if : Bool → Map String V → Option (Map String V)
  args_if changed args = if changed then some args else none

  abbrev pub blocked_by : String → BeforeTool V
  blocked_by error = record {
    args = none;
    block = some (record { reason = "before_tool hook failed: " <> error; terminate = false });
  }

  -- The arguments that a handler leaves, and whether they have changed.
  abbrev pub replace_args : BeforeToolEvent V → Option (Map String V) → BeforeToolEvent V
  replace_args e none = e
  replace_args e (some args) = record e { args = args }

  abbrev pub tool_reply :
      (BeforeToolEvent V → Bool → Outcome (BeforeTool V))
      → BeforeToolEvent V
      → Bool
      → BeforeTool V
      → Option Block
      → Outcome (BeforeTool V)
  tool_reply rest e changed r (some block) = record {
    value = record { args = args_if changed e.args; block = some block };
    errors = [];
  }
  tool_reply rest e changed r none = rest (replace_args e r.args) (changed || is_some r.args)

  abbrev pub tool_answer :
      (BeforeToolEvent V → Bool → Outcome (BeforeTool V))
      → BeforeToolEvent V
      → Bool
      → Answer (BeforeTool V)
      → Outcome (BeforeTool V)
  tool_answer rest e changed silent = rest e changed
  tool_answer rest e changed (replied r) = tool_reply rest e changed r r.block
  tool_answer rest e changed (threw error) = record {
    value = blocked_by error;
    errors = record { hook = "before_tool"; error = error } ∷ [];
  }

  -- Argument replacements chain; the first block is terminal; a handler that throws blocks the tool.
  unfoldable pub before_tool :
      List (Handler (BeforeToolEvent V) (BeforeTool V))
      → BeforeToolEvent V
      → Bool
      → Outcome (BeforeTool V)
  before_tool [] e changed = record {
    value = record { args = args_if changed e.args; block = none };
    errors = [];
  }
  before_tool (h ∷ hs) e changed = let rest = before_tool hs in tool_answer rest e changed (h e)

  abbrev pub patch_event : AfterToolEvent V → AfterTool → AfterToolEvent V
  patch_event e r = record e {
    content = elim r.content [ none ↦ e.content | some content ↦ content ];
    is_error = elim r.is_error [ none ↦ e.is_error | some is_error ↦ is_error ];
  }

  -- Patches merge field by field.
  unfoldable pub after_tool :
      List (Handler (AfterToolEvent V) AfterTool) → AfterToolEvent V → AfterTool → Outcome AfterTool
  after_tool [] e aggregate = record { value = aggregate; errors = [] }
  after_tool (h ∷ hs) e aggregate =
      let rest = after_tool hs in
      elim (h e) [
        | silent ↦ rest e aggregate
        | replied r ↦ rest (patch_event e r) (patch_result aggregate r)
        | threw error ↦ report "after_tool" error (rest e aggregate)
      ]

  -- The latest defined follow-up wins.
  unfoldable pub before_run_end :
      List (Handler (BeforeRunEndEvent V) BeforeRunEndResult)
      → BeforeRunEndEvent V
      → BeforeRunEndResult
      → Outcome BeforeRunEndResult
  before_run_end [] e aggregate = record { value = aggregate; errors = [] }
  before_run_end (h ∷ hs) e aggregate =
      let rest = before_run_end hs e in
      elim (h e) [
        | silent ↦ rest aggregate
        | replied r ↦ rest (record { follow_up = later_or aggregate.follow_up r.follow_up })
        | threw error ↦ report "before_run_end" error (rest aggregate)
      ]

  -- Stops at the first decline or supplied summary; an answer that is both is an error and is passed over.
  unfoldable pub before_compaction :
      List (Handler (BeforeCompactionEvent V) BeforeCompaction)
      → BeforeCompactionEvent V
      → Outcome BeforeCompaction
  before_compaction [] e = record { value = undecided; errors = [] }
  before_compaction (h ∷ hs) e = let rest = before_compaction hs e in compaction_answer rest (h e)

  -- Ephemeral: it shapes what the provider sees.
  unfoldable pub transform_context :
      List (Handler (TransformContextEvent V) (List (Entry V)))
      → TransformContextEvent V
      → Outcome (List (Entry V))
  transform_context [] e = record { value = e.messages; errors = [] }
  transform_context (h ∷ hs) e =
      let rest = transform_context hs in
      elim (h e) [
        | silent ↦ rest e
        | replied messages ↦ rest (record e { messages = messages })
        | threw error ↦ report "transform_context" error (rest e)
      ]
