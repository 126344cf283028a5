-- ===== src/Harness/Examples.antt =====
-- Two starters, and an abort and an input, on small sessions (src/harness.rs).
use reve.Prelude.{◌≡◌, refl, ℤ, String, false, none, some, List, [], ◌∷◌, arith}
use reve.Map
use reve.Namespace.{lane_state, lane_leaf, op_meta, op_state, pending_entry, register_key}
use reve.Entry.{Write, register, set, set_write, CommitResult}
use reve.State.{
  OperationState, Intent, Control, cancel_requested, PendingEntry, RunPhase, default_run_settings,
  then_assistant,
}
use reve.Storage.{Storage, done, commit, validate, check, stamp, publish, append}
use reve.Storage.Scan.{register_value}
use reve.Storage.Tokens.{Bounded}
use reve.Session.{Owner, Expect, ok, commit_if}
use reve.Session.Values.{Value, leaf, state, meta, program, pending_full, text, json, codecs}
use reve.Session.Examples.{wire, reg, named, interrupted, digits, found, interrupted-restored}
use reve.Harness.{submit, steer, cancel, start_plan, abort_plan, enqueue_plan}
use reve.Harness.Cancel.{Stopped, cancel_once}
use reve.Harness.Race.{one_starter_wins, abort_beats_input}

abbrev pub quiet : Storage Value
quiet = record named {
  registers =
      ((lane_leaf, "main"), reg lane_leaf "main" (leaf none) 1)
      ∷ (
        (lane_state, "main"),
        reg lane_state "main"
            (state (record { current_operation_id = none; pending_next_run = [] })) 3,
      )
      ∷ [];
}

abbrev pub quiet_owner : Owner Value
quiet_owner = record { storage = quiet; fault = none }

abbrev rewind : OperationState
rewind =
    OperationState.navigation (record { control = Control.running; target_id = none; label = none })

abbrev go_back : Intent
go_back = Intent.navigation none false none

abbrev pub claim_token : Expect
claim_token = record { namespace = lane_state; key = "main"; seq = some 3 }

abbrev claim_writes : String → List (Write Value)
claim_writes op =
    register (
      set 0 op_meta op (
        meta (record {
          operation_id = op;
          lane = "main";
          source_leaf_id = none;
          started_at = ℤ.pos 5;
          intent = go_back;
        })))
    ∷ register (set 0 op_state op (program rewind))
    ∷ register (
        set 0 lane_state "main"
          (state (record { current_operation_id = some op; pending_next_run = [] })))
    ∷ []

quiet-Bounded : Bounded quiet
unfolding Map.get
quiet-Bounded k r h = ground arith

planned :
    (op : String)
    → start_plan json codecs digits (ℤ.pos 5) quiet quiet "main" op go_back rewind []
      ≡ submit claim_token (claim_writes op)
unfolding start_plan set_write register_value Map.get
planned op = refl

abbrev claimed : CommitResult
claimed = record { first_seq = 4; last_seq = 6; timestamp = ℤ.pos 7 }

claim_accepted :
    (commit_if wire done (ℤ.pos 7) quiet_owner (claim_token ∷ []) (claim_writes "op1")).0
    ≡ ok (some claimed)
unfolding commit_if commit validate check stamp publish append Map.get
claim_accepted = refl

one_starter_wins_example :
    commit_if wire done
      (ℤ.pos 8)
      (commit_if wire done (ℤ.pos 7) quiet_owner (claim_token ∷ []) (claim_writes "op1")).1
      (claim_token ∷ [])
      (claim_writes "op2")
    ≡ (
      ok none,
      (commit_if wire done (ℤ.pos 7) quiet_owner (claim_token ∷ []) (claim_writes "op1")).1,
    )
one_starter_wins_example =
    one_starter_wins json codecs digits wire done done (ℤ.pos 7) (ℤ.pos 8) (ℤ.pos 5) (ℤ.pos 5)
      quiet_owner quiet quiet "main" "op1" "op2" go_back go_back rewind rewind [] [] claim_token
      claim_token (claim_writes "op1") (claim_writes "op2") claimed quiet-Bounded (omega arith)
      (planned "op1") (planned "op2") claim_accepted

abbrev stopped : OperationState
stopped =
    OperationState.navigation
      (record { control = cancel_requested (ℤ.pos 6) [] []; target_id = none; label = none })

cancel_once_example : Stopped (ℤ.pos 9) rewind stopped
cancel_once_example = cancel_once (ℤ.pos 6) (ℤ.pos 9) rewind stopped (unfold cancel in refl)

abbrev busy_owner : Owner Value
busy_owner = record { storage = interrupted; fault = none }

abbrev program_token : Expect
program_token = record { namespace = op_state; key = "op"; seq = some 5 }

abbrev hint : PendingEntry Value
hint = record { entry_type = "message"; custom_type = none; payload = some (text "wait") }

abbrev run_with : Control → List String → OperationState
run_with c steers = OperationState.run (record {
  control = c;
  settings = default_run_settings;
  phase = RunPhase.checkpoint (then_assistant "p");
  inbox = record { steer = steers; follow_up = []; writes = [] };
  latest_assistant_entry_id = none;
})

abbrev abort_writes : List (Write Value)
abort_writes =
    register (set 0 op_state "op" (program (run_with (cancel_requested (ℤ.pos 6) [] []) []))) ∷ []

abbrev hint_writes : List (Write Value)
hint_writes =
    register (set 0 pending_entry "x" (pending_full "message" none (text "wait")))
    ∷ register (set 0 op_state "op" (program (run_with Control.running ("x" ∷ []))))
    ∷ []

interrupted-Bounded : Bounded interrupted
unfolding Map.get
interrupted-Bounded k r h = ground arith

abort_planned :
    abort_plan json codecs digits (ℤ.pos 6) interrupted "main" ≡ submit program_token abort_writes
unfolding abort_plan cancel set_write
abort_planned = rw interrupted-restored refl

hint_planned :
    enqueue_plan json codecs digits interrupted "main" steer hint "x"
    ≡ submit program_token hint_writes
unfolding enqueue_plan set_write
hint_planned = rw interrupted-restored refl

abbrev aborted_at : CommitResult
aborted_at = record { first_seq = 7; last_seq = 7; timestamp = ℤ.pos 7 }

abort_accepted :
    (commit_if wire done (ℤ.pos 7) busy_owner (program_token ∷ []) abort_writes).0
    ≡ ok (some aborted_at)
unfolding commit_if commit validate check stamp publish append Map.get
abort_accepted = refl

abort_beats_input_example :
    commit_if wire done
      (ℤ.pos 8)
      (commit_if wire done (ℤ.pos 7) busy_owner (program_token ∷ []) abort_writes).1
      (program_token ∷ [])
      hint_writes
    ≡ (ok none, (commit_if wire done (ℤ.pos 7) busy_owner (program_token ∷ []) abort_writes).1)
abort_beats_input_example =
    abort_beats_input json codecs digits wire done done (ℤ.pos 7) (ℤ.pos 8) (ℤ.pos 6) busy_owner
      "main" "x" steer hint found program_token program_token abort_writes hint_writes aborted_at
      interrupted-Bounded (omega arith) interrupted-restored refl abort_planned hint_planned
      abort_accepted
