-- ===== src/Harness/Calls.antt =====
-- src/harness.rs: what each call that starts an operation makes of its arguments, and the queue for
-- the next run. The ids that a call mints are arguments.
pub mod Examples
use reve.Prelude.{
  ℕ, ℤ, String, ◌<>◌, false, Option, none, some, List, [], ◌∷◌, ◌++◌, if◌then◌else◌, unwrap_or,
  str_eq, ◌+◌,
}
use reve.Map.{string_key}
use reve.Map
use reve.Json.{Json, Serde}
use reve.Namespace.{lane_state, lane_leaf, op_preparation, pending_entry}
use reve.Entry.{Write, set_write}
use reve.State.{
  LaneState, OperationState, RunSettings, RunPhase, Control, Intent, PendingEntry, pending_message,
  CompactionPreparation, StructuralStatus, preparation_key, then_assistant,
}
use reve.Storage.{Storage, has_entry}
use reve.Storage.Scan.{register_value}
use reve.Session
use reve.Session.Context.{project_context}
use reve.Session.Restore.{Codecs, Current, Restored, idle, suspended}
use reve.Compaction.{prepare}
use reve.Hooks.{Handler, Outcome, BeforeRunEvent, BeforeRunResult, before_run}
use reve.Harness.{
  HarnessError, session, vanished, invalid, disappeared, Plan, refuse, submit, leaf_of, start_plan,
}

-- An operation to drive, nothing to drive, or an error.
pub data Started : Type 0 where
  driving : Current → Started
  at_rest : Started
  failed : HarnessError → Started

-- `restore` behind an accepted claim.
abbrev pub claimed_as : String → Session.Result Restored → Started
claimed_as op (Session.err e) = failed (session e)
claimed_as op (Session.ok (idle l)) = failed (disappeared op)
claimed_as op (Session.ok (suspended c)) =
    if str_eq c.operation.operation_id op then driving c else failed (disappeared op)

-- What `resume` drives: the operation that the lane has open, if any.
abbrev pub resume_with : Session.Result Restored → Started
resume_with (Session.err e) = failed (session e)
resume_with (Session.ok (idle l)) = at_rest
resume_with (Session.ok (suspended c)) = driving c

-- The last of a list with a first.
abbrev pub final : String → List String → String
final id [] = id
final id (x ∷ xs) = final x xs

module _ {V : Type 0} (json : Json V) (codecs : Codecs V) (show : ℕ → String) where
  abbrev pub user_message : String → PendingEntry V
  user_message text = pending_message json (
      json.object (Map.insert (Map.insert [] "role" (json.text "user")) "content" (json.text text)))

  abbrev pub queue_next : String → PendingEntry V → String → Option (LaneState × ℕ) → Plan V
  queue_next lane content id none = refuse (vanished lane)
  queue_next lane content id (some (ls, seq)) =
      submit (record { namespace = lane_state; key = lane; seq = some seq })
        (set_write pending_entry id (codecs.pending.to_value content)
          ∷ set_write lane_state lane (
              codecs.state.to_value
                (record ls { pending_next_run = ls.pending_next_run ++ id ∷ [] }))
          ∷ [])

  -- One pass of `next_run`; `id` is the reserved id.
  unfoldable pub next_run_plan : Storage V → String → String → String → Plan V
  unfolding set_write register_value
  next_run_plan s lane text id =
      queue_next lane (user_message text) id
        (register_value codecs.state.from_value s lane_state lane)

  -- The payloads of pending entries that are still there.
  unfoldable pub payloads : Storage V → List String → List V
  unfolding register_value
  payloads s [] = []
  payloads s (id ∷ ids) =
      let rest = payloads s ids in
      elim (register_value codecs.pending.from_value s pending_entry id) [
        | none ↦ rest
        | some (p, seq) ↦ elim p.payload [ none ↦ rest | some v ↦ v ∷ rest ]
      ]

  abbrev pub prompt_values : List (PendingEntry V) → List V
  prompt_values [] = []
  prompt_values (p ∷ ps) =
      let rest = prompt_values ps in elim p.payload [ none ↦ rest | some v ↦ v ∷ rest ]

  -- The prompts with what the hook adds, and an id from `mint` for each.
  abbrev pub with_messages : List (PendingEntry V) → List V → List (PendingEntry V)
  with_messages ps [] = ps
  with_messages ps (v ∷ vs) = with_messages (ps ++ pending_message json v ∷ []) vs

  abbrev pub minted : (ℕ → String) → ℕ → List (PendingEntry V) → List String
  minted mint n [] = []
  minted mint n (p ∷ ps) = mint n ∷ minted mint (n + 1) ps

  abbrev pub payload_writes : List String → List (PendingEntry V) → List (Write V)
  payload_writes [] ps = []
  payload_writes (id ∷ ids) [] = []
  payload_writes (id ∷ ids) (p ∷ ps) =
      set_write pending_entry id (codecs.pending.to_value p) ∷ payload_writes ids ps

  -- The program counter that a run starts at: its prompts are deferred writes for the first checkpoint.
  abbrev pub run_state : RunSettings → String → List String → OperationState
  run_state settings trigger ids = OperationState.run (record {
    control = Control.running;
    settings = settings;
    phase = RunPhase.checkpoint (then_assistant trigger);
    inbox = record { steer = []; follow_up = []; writes = ids };
    latest_assistant_entry_id = none;
  })

  -- `start_run` behind the hook.
  abbrev pub start_prompts :
      ℤ
      → Storage V
      → Storage V
      → String
      → String
      → RunSettings
      → Option String
      → List String
      → List (PendingEntry V)
      → Plan V
  start_prompts now s later lane op settings override [] ps =
      refuse (invalid "a run needs a prompt")
  start_prompts now s later lane op settings override (id ∷ ids) ps =
      start_plan json codecs show now s later lane op (Intent.run (id ∷ ids) override)
        (run_state settings (final id ids) (id ∷ ids)) (payload_writes (id ∷ ids) ps)

  abbrev pub start_hooked :
      ℤ
      → Storage V
      → Storage V
      → String
      → String
      → RunSettings
      → (ℕ → String)
      → List (PendingEntry V)
      → Outcome (BeforeRunResult V)
      → Plan V
  start_hooked now s later lane op settings mint prompts before =
      let ps = with_messages prompts before.value.messages in
      start_prompts now s later lane op settings before.value.system_prompt (minted mint 0 ps) ps

  -- `start_run`: a hook sees the run before its intent is committed.
  unfoldable pub start_run_plan :
      ℤ
      → Storage V
      → Storage V
      → String
      → String
      → RunSettings
      → (ℕ → String)
      → List (Handler (BeforeRunEvent V) (BeforeRunResult V))
      → String
      → List (PendingEntry V)
      → Plan V
  unfolding set_write start_plan before_run pending_message
  start_run_plan now s later lane op settings mint hooks system_prompt [] =
      refuse (invalid "a run needs a prompt")
  start_run_plan now s later lane op settings mint hooks system_prompt (p ∷ ps) =
      start_hooked now s later lane op settings mint (p ∷ ps) (
        before_run hooks
          (record {
            lane = lane;
            run_id = op;
            prompt = prompt_values (p ∷ ps);
            system_prompt = system_prompt;
          })
          (record { messages = []; system_prompt = none }))

  abbrev pub compact_prepared :
      Serde V (CompactionPreparation V)
      → ℤ
      → Storage V
      → Storage V
      → String
      → String
      → String
      → Option String
      → Option (CompactionPreparation V)
      → Plan V
  compact_prepared serde now s later lane op task instructions none =
      refuse (invalid "there is not enough history to compact: the retained tail is everything")
  compact_prepared serde now s later lane op task instructions (some p) =
      start_plan json codecs show now s later lane op (Intent.compaction instructions)
        (OperationState.compaction (record {
          control = Control.running;
          custom_instructions = instructions;
          structural = record { task_id = task; status = StructuralStatus.deciding };
        }))
        (set_write op_preparation (preparation_key op task) (serde.to_value p) ∷ [])

  -- `compact`: the context is read from a storage before those that the claim reads.
  unfoldable pub compact_plan :
      Serde V (CompactionPreparation V)
      → ℤ
      → Storage V
      → Storage V
      → Storage V
      → String
      → String
      → String
      → RunSettings
      → Option String
      → Plan V
  unfolding set_write start_plan preparation_key prepare project_context register_value
  compact_plan serde now earlier s later lane op task settings instructions =
      compact_prepared serde now s later lane op task instructions (
        prepare json show
          (unwrap_or
            (project_context json show (earlier.seq + 2) earlier (
              leaf_of json codecs show
                (register_value codecs.leaf.from_value earlier lane_leaf lane)))
            [])
          settings.compaction)

  abbrev pub navigate_to :
      ℤ → Storage V → Storage V → String → String → Option String → Option String → Plan V
  navigate_to now s later lane op target label =
      start_plan json codecs show now s later lane op (Intent.navigation target false label)
        (OperationState.navigation
          (record { control = Control.running; target_id = target; label = label }))
        []

  -- `navigate`: the target is looked up before the claim.
  unfoldable pub navigate_plan :
      ℤ
      → Storage V
      → Storage V
      → Storage V
      → String
      → String
      → Option String
      → Option String
      → Plan V
  unfolding set_write start_plan
  navigate_plan now earlier s later lane op none label = navigate_to now s later lane op none label
  navigate_plan now earlier s later lane op (some target) label =
      if has_entry earlier target
      then navigate_to now s later lane op (some target) label
      else refuse (invalid ("navigation target " <> target <> " does not exist"))
