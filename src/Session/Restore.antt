-- ===== src/Session/Restore.antt =====
-- src/session.rs: `restore` and `validate_current`, the bounded checks over what a lane's state names.
use reve.Prelude.{
  ℕ, String, Bool, false, ◌||◌, not, Option, none, some, ◌++◌, map, str_eq, str_lt, leb, ◌==◌,
  is_some, length, unwrap_or,
}
use reve.Map
use reve.Map.{string_key}
use reve.Json.{Json, Codec, Serde}
use reve.Namespace.{
  Namespace, lane_leaf, lane_config, lane_state, op_meta, op_state, op_tool_args, op_preparation,
  pending_entry, register_key,
}
use reve.Entry.{Entry, role, stop_reason, message_value, Usage}
use reve.State.{
  LaneConfiguration, LaneState, Operation, OperationState, RunState, PendingEntry, Intent, Control,
  cancel_requested, RunPhase, ToolBatch, ToolCallState, Generation, FailureProvenance, intent_kind,
  state_kind, is_cancelled, source_index, result_entry_id, generation_context, preparation_key,
  args_key,
}
use reve.Storage.{Storage, has_entry}
use reve.Storage.Scan.{register_value}
use reve.Model.{StopReason, from_message}
use reve.Session
use reve.Session.Checks.{
  Check, first_of, each, unless, sort, dedup, range_from, same_list, kind_eq, need, pass,
}

pub record Current : Type 0 where
  pub operation : Operation
  pub state : OperationState
  pub state_seq : ℕ
  pub lane_state : LaneState
  pub lane_state_seq : ℕ
  pub leaf : Option String
  pub configuration : LaneConfiguration
  pub configuration_seq : ℕ

pub data Restored : Type 0 where
  idle : String → Restored
  suspended : Current → Restored

-- The register types, as serde writes and reads them.
pub record Codecs (V : Type 0) : Type 0 where
  pub leaf : Serde V (Option String)
  pub state : Serde V LaneState
  pub config : Serde V LaneConfiguration
  pub meta : Serde V Operation
  pub program : Serde V OperationState
  pub pending : Codec V (PendingEntry V)
  pub stop : Serde V StopReason
  pub usage : Serde V Usage

module _ {V : Type 0} (json : Json V) (codecs : Codecs V) (show : ℕ → String) (s : Storage V) where
  abbrev pub has_register : Namespace → String → Bool
  has_register namespace key = is_some (Map.get s.registers (namespace, key))

  abbrev pub must_exist : String → String → Check
  must_exist what id = unless (has_entry s id) (Session.no_entry what id)

  abbrev pub pending_exists : String → Check
  pending_exists id = unless (has_register pending_entry id) (Session.no_pending id)

  -- A reserved id is an entry already, or still waits as a pending payload.
  abbrev pub placed_or_pending : String → String → Check
  placed_or_pending what id =
      unless (has_entry s id || has_register pending_entry id)
        (Session.neither_placed_nor_pending what id)

  abbrev pub preparation_exists : String → String → Check
  preparation_exists operation_id task_id =
      unless (has_register op_preparation (preparation_key operation_id task_id))
        (Session.no_preparation (preparation_key operation_id task_id))

  abbrev pub check_source : Option String → Check
  check_source none = none
  check_source (some source) = must_exist "sourceLeafId" source

  abbrev pub check_intent : Intent → Check
  check_intent (Intent.run prompt_entry_ids system_prompt_override) =
      each (placed_or_pending "prompt entry") prompt_entry_ids
  check_intent (Intent.compaction custom_instructions) = none
  check_intent (Intent.navigation none summarize label) = none
  check_intent (Intent.navigation (some target) summarize label) =
      must_exist "navigation target" target

  abbrev pub check_latest : Option String → Check
  check_latest none = none
  check_latest (some latest) = must_exist "latestAssistantEntryId" latest

  abbrev pub check_drained : Control → Check
  check_drained Control.running = none
  check_drained (cancel_requested requested_at drained_steer drained_follow_up) =
      each pending_exists (drained_steer ++ drained_follow_up)

  abbrev has_text : Option String → String → Bool
  has_text none t = false
  has_text (some a) t = str_eq a t

  -- A reserved response that is there already is an assistant's message.
  abbrev pub check_response : Generation → Check
  check_response (Generation.ready context next_attempt) = none
  check_response (Generation.retry_wait context next_attempt not_before error_message) = none
  check_response (Generation.effect_pending context attempt id usage_id) =
      elim (Map.get s.entries id) [
        | none ↦ none
        | some e ↦ unless (has_text (role json e) "assistant") (Session.wrong_response id)
      ]

  abbrev pub check_call : Operation → ToolBatch → ToolCallState → Check
  check_call operation batch (ToolCallState.planned i id) = none
  check_call operation batch (ToolCallState.effect_pending i id replay) =
      let key = args_key show operation.operation_id batch.turn_id i in
      unless (has_register op_tool_args key) (Session.no_args key)
  check_call operation batch (ToolCallState.completed i id terminate) =
      elim (Map.get s.entries id) [
        | none ↦ some (Session.no_entry "completed result" id)
        | some e ↦ unless (has_text (role json e) "toolResult") (Session.not_tool_result id)
      ]

  -- How many calls the assistant's message makes.
  abbrev pub call_count : Entry V → ℕ
  call_count e =
      elim (from_message json codecs.stop codecs.usage (unwrap_or (message_value e) json.null)) [
        | none ↦ 0
        | some a ↦ length a.tool_calls
      ]

  abbrev pub check_batch : Operation → ToolBatch → Check
  check_batch operation batch = elim (Map.get s.entries batch.assistant_entry_id) [
    | none ↦ some (Session.no_entry "batch assistant" batch.assistant_entry_id)
    | some e ↦
        let calls = call_count e in
        let indices = sort leb (map source_index batch.calls) in
        let result_ids = dedup (sort (λ a b. not (str_lt b a)) (map result_entry_id batch.calls)) in
        first_of
          (unless (same_list indices (range_from 0 calls))
            (Session.uncovered_calls indices calls batch.assistant_entry_id))
          (first_of (unless (length result_ids == length batch.calls) Session.result_ids_not_unique)
            (each (check_call operation batch) batch.calls))
  ]

  abbrev pub check_provenance : FailureProvenance → Check
  check_provenance (FailureProvenance.response entry_id) = must_exist "failure provenance" entry_id
  check_provenance (FailureProvenance.structural task_id) = none

  abbrev pub check_phase : Operation → RunPhase → Check
  check_phase operation (RunPhase.checkpoint cp) =
      placed_or_pending "triggerEntryId" cp.trigger_entry_id
  check_phase operation (RunPhase.assistant generation) =
      first_of (placed_or_pending "triggerEntryId" (generation_context generation).trigger_entry_id)
        (check_response generation)
  check_phase operation (RunPhase.tools batch) = check_batch operation batch
  check_phase operation (RunPhase.compaction reason structural resume_after) =
      first_of (must_exist "resumeAfter trigger" resume_after.trigger_entry_id)
        (preparation_exists operation.operation_id structural.task_id)
  check_phase operation (RunPhase.failure_drain error provenance) = check_provenance provenance

  -- A settled `aborted` response has its cancellation durable.
  abbrev pub check_aborted : RunState → Check
  check_aborted run = elim run.latest_assistant_entry_id [
    | none ↦ none
    | some latest ↦ elim (Map.get s.entries latest) [
      | none ↦ none
      | some e ↦
          unless (not (has_text (stop_reason json e) "aborted") || is_cancelled run.control)
            (Session.aborted_while_running latest)
    ]
  ]

  abbrev pub check_run : Operation → RunState → Check
  check_run operation run = first_of (check_latest run.latest_assistant_entry_id) (
      first_of (each pending_exists (run.inbox.steer ++ (run.inbox.follow_up ++ run.inbox.writes)))
        (first_of (check_drained run.control)
          (first_of (check_phase operation run.phase) (check_aborted run))))

  abbrev pub check_state : Operation → OperationState → Check
  check_state operation (OperationState.run r) = check_run operation r
  check_state operation (OperationState.compaction c) =
      preparation_exists operation.operation_id c.structural.task_id
  check_state operation (OperationState.navigation n) = none

  unfoldable pub validate_current : Operation → OperationState → Check
  unfolding unless preparation_key args_key from_message message_value role stop_reason
  validate_current operation state =
      first_of (check_source operation.source_leaf_id)
        (first_of (check_intent operation.intent) (check_state operation state))

  abbrev pub check_leaf : Option String → Check
  check_leaf none = none
  check_leaf (some leaf) = must_exist "leaf" leaf

  abbrev pub check_next_run : String → Check
  check_next_run id =
      unless (is_some (register_value codecs.pending.from_value s pending_entry id))
        (Session.next_run_without_pending id)

  abbrev pub restore_open :
      String → LaneState × ℕ → Option String → String → Session.Result Restored
  restore_open lane (state, state_seq) leaf op_id =
      need lane (register_value codecs.config.from_value s lane_config lane) Session.unconfigured
        λ c.
          need lane (register_value codecs.meta.from_value s op_meta op_id) (Session.no_meta op_id)
            λ m.
              need lane (register_value codecs.program.from_value s op_state op_id)
                (Session.no_state op_id)
                λ p.
                  pass lane (unless (str_eq m.0.lane lane) (Session.foreign_meta op_id m.0.lane)) (
                    pass lane
                      (unless (kind_eq (intent_kind m.0.intent) (state_kind p.0))
                        (Session.kind_mismatch op_id))
                      (pass lane (validate_current m.0 p.0) (
                        Session.ok (
                          suspended (record {
                            operation = m.0;
                            state = p.0;
                            state_seq = p.1;
                            lane_state = state;
                            lane_state_seq = state_seq;
                            leaf = leaf;
                            configuration = c.0;
                            configuration_seq = c.1;
                          })))))

  abbrev pub restore_named : String → LaneState × ℕ → Session.Result Restored
  restore_named lane state =
      need lane (register_value codecs.leaf.from_value s lane_leaf lane) Session.missing_leaf
        λ leaf. pass lane (check_leaf leaf.0) (
          pass lane (each check_next_run state.0.pending_next_run)
            (elim state.0.current_operation_id [
              | none ↦ Session.ok (idle lane)
              | some op_id ↦ restore_open lane state leaf.0 op_id
            ]))

  unfoldable pub restore : String → Session.Result Restored
  unfolding validate_current register_value need pass unless
  restore lane = elim (register_value codecs.state.from_value s lane_state lane) [
    | none ↦ Session.ok (idle lane)
    | some state ↦ restore_named lane state
  ]
