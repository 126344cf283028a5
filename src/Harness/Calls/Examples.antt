-- ===== src/Harness/Calls/Examples.antt =====
-- A message for the next run, and a run with a hook, on an idle lane (src/harness.rs).
use reve.Prelude.{ℕ, zero, suc, ◌≡◌, refl, ℤ, String, none, some, List, [], ◌∷◌}
use reve.Map
use reve.Map.{string_key}
use reve.Namespace.{lane_state, op_meta, op_state, pending_entry, register_key}
use reve.Entry.{Write, register, set, set_write, CommitResult}
use reve.State.{
  default_lane_state, OperationState, RunState, Intent, Control, PendingEntry, pending_message,
  RunPhase, default_run_settings, then_assistant,
}
use reve.Storage.{done, commit, validate, check, stamp, publish, append}
use reve.Storage.Scan.{register_value}
use reve.Storage.Registers.{value_at}
use reve.Session.{ok, commit_if}
use reve.Session.Values.{Value, state, meta, program, text, json, codecs}
use reve.Session.Examples.{wire, digits}
use reve.Hooks.{Handler, replied, BeforeRunEvent, BeforeRunResult, before_run}
use reve.Harness.{submit, start_plan}
use reve.Harness.Examples.{quiet, quiet_owner, claim_token}
use reve.Harness.Calls.{next_run_plan, user_message, start_run_plan}
use reve.Harness.Queued.{next_run_reaches_run, run_claim}
use reve.Harness.Begin.{run_starts_whole, Begun}

abbrev hello : PendingEntry Value
hello = user_message json codecs digits "hello"

abbrev queue_writes : List (Write Value)
queue_writes =
    register (set 0 pending_entry "x" (codecs.pending.to_value hello))
    ∷ register (
        set 0 lane_state "main"
          (state (record { current_operation_id = none; pending_next_run = "x" ∷ [] })))
    ∷ []

queue_planned :
    next_run_plan json codecs digits quiet "main" "hello" "x" ≡ submit claim_token queue_writes
unfolding next_run_plan set_write register_value Map.get pending_message
queue_planned = refl

abbrev queued_at : CommitResult
queued_at = record { first_seq = 4; last_seq = 5; timestamp = ℤ.pos 7 }

queue_accepted :
    (commit_if wire done (ℤ.pos 7) quiet_owner (claim_token ∷ []) queue_writes).0
    ≡ ok (some queued_at)
unfolding commit_if commit validate check stamp publish append Map.get
queue_accepted = refl

abbrev bare_run : RunState
bare_run = record {
  control = Control.running;
  settings = default_run_settings;
  phase = RunPhase.checkpoint (then_assistant "p");
  inbox = record { steer = []; follow_up = []; writes = "p" ∷ [] };
  latest_assistant_entry_id = none;
}

next_run_reaches_run_example :
    (value_at
        (commit_if wire done (ℤ.pos 7) quiet_owner (claim_token ∷ []) queue_writes).1.storage
        (pending_entry, "x")
      ≡ some (codecs.pending.to_value hello))
    × (n : ℕ) × (start_plan json codecs digits
          (ℤ.pos 8)
          (commit_if wire done (ℤ.pos 7) quiet_owner (claim_token ∷ []) queue_writes).1.storage
          quiet
          "main"
          "op1"
          (Intent.run ("p" ∷ []) none)
          (OperationState.run bare_run)
          []
        ≡ submit
            (record { namespace = lane_state; key = "main"; seq = some n })
            (run_claim json codecs digits wire
              (ℤ.pos 8)
              "main"
              "op1"
              none
              (Intent.run ("p" ∷ []) none)
              bare_run
              ("x" ∷ [])
              []))
unfolding register_value Map.get
next_run_reaches_run_example =
    next_run_reaches_run json codecs digits wire done (ℤ.pos 7) (ℤ.pos 8) quiet_owner quiet quiet
      "main" "hello" "x" "op1" default_lane_state 3 claim_token queue_writes queued_at
      (Intent.run ("p" ∷ []) none) bare_run [] refl refl queue_planned queue_accepted

abbrev ids : ℕ → String
ids zero = "a"
ids (suc n) = "b"

abbrev briefed : List (Handler (BeforeRunEvent Value) (BeforeRunResult Value))
briefed =
    (λ e. replied (record { messages = text "note" ∷ []; system_prompt = some "be brief" })) ∷ []

abbrev note : PendingEntry Value
note = record { entry_type = "message"; custom_type = none; payload = some (text "note") }

abbrev started_run : RunState
started_run = record {
  control = Control.running;
  settings = default_run_settings;
  phase = RunPhase.checkpoint (then_assistant "b");
  inbox = record { steer = []; follow_up = []; writes = "a" ∷ "b" ∷ [] };
  latest_assistant_entry_id = none;
}

abbrev run_writes : List (Write Value)
run_writes =
    register (
      set 0 op_meta "op1" (
        meta (record {
          operation_id = "op1";
          lane = "main";
          source_leaf_id = none;
          started_at = ℤ.pos 5;
          intent = Intent.run ("a" ∷ "b" ∷ []) (some "be brief");
        })))
    ∷ register (set 0 op_state "op1" (program (OperationState.run started_run)))
    ∷ register (
        set 0 lane_state "main"
          (state (record { current_operation_id = some "op1"; pending_next_run = [] })))
    ∷ register (set 0 pending_entry "a" (codecs.pending.to_value hello))
    ∷ register (set 0 pending_entry "b" (codecs.pending.to_value note))
    ∷ []

run_planned :
    start_run_plan json codecs digits
      (ℤ.pos 5)
      quiet
      quiet
      "main"
      "op1"
      default_run_settings
      ids
      briefed
      "be careful"
      (hello ∷ [])
    ≡ submit claim_token run_writes
unfolding start_run_plan start_plan before_run set_write register_value Map.get pending_message
run_planned = refl

abbrev started_at : CommitResult
started_at = record { first_seq = 4; last_seq = 8; timestamp = ℤ.pos 7 }

run_accepted :
    (commit_if wire done (ℤ.pos 7) quiet_owner (claim_token ∷ []) run_writes).0
    ≡ ok (some started_at)
unfolding commit_if commit validate check stamp publish append Map.get
run_accepted = refl

run_starts_whole_example :
    Begun json codecs digits
      (ℤ.pos 5)
      "main"
      "op1"
      none
      (some "be brief")
      ids
      (commit_if wire done (ℤ.pos 7) quiet_owner (claim_token ∷ []) run_writes).1.storage
      (hello ∷ note ∷ [])
unfolding register_value Map.get before_run pending_message
run_starts_whole_example =
    run_starts_whole json codecs digits wire done (ℤ.pos 7) (ℤ.pos 5) quiet_owner quiet quiet "main"
      "op1" default_run_settings ids briefed "be careful" (hello ∷ []) claim_token run_writes
      started_at refl run_planned run_accepted
