-- ===== src/Driver/Sound/Calls.antt =====
-- The batch of tools and the compaction inside a run (src/lane.rs) keep the phase sound.
use reve.Prelude.{
  ℕ, suc, ap, ◌≡◌, refl, String, Bool, ◌&&◌, ◌||◌, Option, none, some, List, [], ◌∷◌, inl, inr, map,
  length, ◌==◌, ==→eq, get_elem?, arith, sym, subst, ◌∙◌, Bool-cases,
}
use reve.Map.{Map}
use reve.Entry.{Entry}
use reve.Storage.Scan.{entry}
use reve.State.{
  RunState, RunPhase, ToolBatch, ToolCallState, planned, source_index, is_cancelled, Replay,
}
use reve.Storage.{Storage}
use reve.Session.Checks.{range_from}
use reve.Session.Restore.{Current}
use reve.Model.{Assistant, ToolCall}
use reve.Driver.World.{Env, World, Block}
use reve.Driver.Tools.{
  commit_tool_result, commit_batch, batch_of, Verdict, execute_tool, execute_committed,
  unless_blocked, declared, repeat, dispatch, dispatch_found, next_call, with_assistant, with_entry,
  tools_step, start_tool, is_safe, is_length, complete_call, start_call,
}
use reve.Driver.Sound.Phase.{Covers, IsSound, Keeps, fails, keeps, plans, if-Keeps}

same_sources :
    (f : ToolCallState → ToolCallState)
    → ((y : ToolCallState) → source_index (f y) ≡ source_index y)
    → (ys : List ToolCallState) → map source_index (map f ys) ≡ map source_index ys
same_sources f h [] = refl
same_sources f h (y ∷ ys) = λ i. h y i ∷ same_sources f h ys i

same_length :
    (f : ToolCallState → ToolCallState) (ys : List ToolCallState) → length (map f ys) ≡ length ys
same_length f [] = refl
same_length f (y ∷ ys) = ap suc (same_length f ys)

Covers-map :
    (f : ToolCallState → ToolCallState) (b : ToolBatch)
    → ((y : ToolCallState) → source_index (f y) ≡ source_index y)
    → Covers b
    → Covers (record b { calls = map f b.calls })
Covers-map f b h cov =
    same_sources f h b.calls ∙ cov ∙ ap (range_from 0) (sym (same_length f b.calls))

source_complete :
    (id : String) (t : Bool) (y : ToolCallState)
    → source_index (complete_call id t y) ≡ source_index y
source_complete id t y = ground arith

source_start :
    (i : ℕ) (id : String) (replay : Replay) (y : ToolCallState)
    → source_index (start_call i id replay y) ≡ source_index y
source_start i id replay y = elim (Bool-cases (source_index y == i)) [
  | inl same ↦ rw same (sym (==→eq (source_index y) i same))
  | inr other ↦ rw other refl
]

module _ {V : Type 0} (env : Env V) (w : World V) where
  commit_batch-Keeps :
      (c : Current) (r : RunState) (call : ToolCall V) (id : String) (v : Verdict) (b : ToolBatch)
      → Covers b
      → Keeps (RunPhase.tools b) (commit_batch env w c r call id v (some b))
  commit_batch-Keeps c r call id v b h =
      keeps (Covers-map (complete_call id v.terminate) b (source_complete id v.terminate) h)
        (refl, same_length (complete_call id v.terminate) b.calls)

  commit_tool_result-Keeps :
      (c : Current) (r : RunState) (call : ToolCall V) (id : String) (v : Verdict)
      → IsSound r.phase
      → Keeps r.phase (commit_tool_result env w c r call id v)
  unfolding commit_tool_result
  commit_tool_result-Keeps c r call id v h = by_phase r.phase h
    where
      by_phase :
          (p : RunPhase) → IsSound p → Keeps p (commit_batch env w c r call id v (batch_of p))
      by_phase (RunPhase.checkpoint cp) h' = fails
      by_phase (RunPhase.assistant g) h' = fails
      by_phase (RunPhase.tools b) h' = commit_batch-Keeps c r call id v b h'
      by_phase (RunPhase.compaction a b d) h' = fails
      by_phase (RunPhase.failure_drain a b) h' = fails

  execute_tool-Keeps :
      (c : Current) (r : RunState) (call : ToolCall V) (args : Map String V) (id : String)
      → IsSound r.phase
      → Keeps r.phase (execute_tool env w c r call args id)
  unfolding execute_tool
  execute_tool-Keeps c r call args id h = commit_tool_result-Keeps c r call id _ h

  -- The result of a call of the batch that the run is in.
  settled-Keeps :
      (c : Current) (r : RunState) (b : ToolBatch) (call : ToolCall V) (id : String) (v : Verdict)
      → Covers b
      → r.phase ≡ RunPhase.tools b
      → Keeps (RunPhase.tools b) (commit_tool_result env w c r call id v)
  settled-Keeps c r b call id v h q =
      subst (λ p. Keeps p (commit_tool_result env w c r call id v)) q
        (commit_tool_result-Keeps c r call id v (subst IsSound (sym q) h))

  start_tool-Keeps :
      (c : Current) (r : RunState) (b : ToolBatch) (call : ToolCall V) (i : ℕ) (id : String)
      (replay : Replay) (args : Map String V)
      → Covers b
      → Keeps (RunPhase.tools b) (start_tool env w c r b call i id replay args)
  start_tool-Keeps c r b call i id replay args h =
      let started = Covers-map (start_call i id replay) b (source_start i id replay) h in
      plans started (refl, same_length (start_call i id replay) b.calls)
        (λ later c' r' p same.
          subst
            (λ st.
              Keeps (RunPhase.tools (record b { calls = map (start_call i id replay) b.calls }))
                (execute_committed env w call args id c' st))
            (sym p)
            (subst (λ x. Keeps x (execute_tool env w c' r' call args id)) same
              (execute_tool-Keeps c' r' call args id (subst IsSound (sym same) started))))

  unless_blocked-Keeps :
      (c : Current) (r : RunState) (b : ToolBatch) (call : ToolCall V) (i : ℕ) (id : String)
      (replay : Replay) (args : Option (Map String V)) (block : Option Block)
      → Covers b
      → r.phase ≡ RunPhase.tools b
      → Keeps (RunPhase.tools b) (unless_blocked env w c r b call i id replay args block)
  unless_blocked-Keeps c r b call i id replay args none h h' =
      start_tool-Keeps c r b call i id replay _ h
  unless_blocked-Keeps c r b call i id replay args (some block) h h' =
      settled-Keeps c r b call id _ h h'

  declared-Keeps :
      (c : Current) (r : RunState) (b : ToolBatch) (call : ToolCall V) (i : ℕ) (id : String)
      (replay : Option Replay)
      → Covers b
      → r.phase ≡ RunPhase.tools b
      → Keeps (RunPhase.tools b) (declared env w c r b call i id replay)
  declared-Keeps c r b call i id none h h' = settled-Keeps c r b call id _ h h'
  declared-Keeps c r b call i id (some replay) h h' =
      unless_blocked-Keeps c r b call i id replay (w.before_tool call).args
        (w.before_tool call).block h h'

  repeat-Keeps :
      (c : Current) (r : RunState) (b : ToolBatch) (call : ToolCall V) (id key : String)
      (args : Option (Map String V))
      → Covers b
      → r.phase ≡ RunPhase.tools b
      → Keeps (RunPhase.tools b) (repeat env w c r call id key args)
  repeat-Keeps c r b call id key none h h' = fails
  repeat-Keeps c r b call id key (some args) h q =
      subst (λ p. Keeps p (execute_tool env w c r call args id)) q
        (execute_tool-Keeps c r call args id (subst IsSound (sym q) h))

  dispatch-Keeps :
      (s : Storage V) (c : Current) (r : RunState) (b : ToolBatch) (truncated : Bool)
      (call : ToolCall V) (x : ToolCallState)
      → Covers b
      → r.phase ≡ RunPhase.tools b
      → Keeps (RunPhase.tools b) (dispatch env w s c r b truncated call x)
  dispatch-Keeps s c r b truncated call (planned i id) h h' =
      if-Keeps _ (is_cancelled r.control || w.signalled) _ _ (settled-Keeps c r b call id _ h h') (
        if-Keeps _ truncated _ _ (settled-Keeps c r b call id _ h h')
          (declared-Keeps c r b call i id (w.replay call.name) h h'))
  dispatch-Keeps s c r b truncated call (ToolCallState.effect_pending i id replay) h h' =
      if-Keeps _ (is_cancelled r.control || w.signalled) _ _ (settled-Keeps c r b call id _ h h') (
        if-Keeps _ (is_safe (some replay) && is_safe (w.replay call.name)) _ _
          (repeat-Keeps c r b call id _ _ h h') (settled-Keeps c r b call id _ h h'))
  dispatch-Keeps s c r b truncated call (ToolCallState.completed i id terminate) h h' = fails

  next_call-Keeps :
      (s : Storage V) (c : Current) (r : RunState) (b : ToolBatch) (a : Assistant V)
      (o : Option ToolCallState)
      → Covers b
      → r.phase ≡ RunPhase.tools b
      → Keeps (RunPhase.tools b) (next_call env w s c r b a o)
  next_call-Keeps s c r b a none h h' = keeps tt tt
  next_call-Keeps s c r b a (some x) h h' = by_call (get_elem? a.tool_calls (source_index x))
    where
      by_call :
          (o : Option (ToolCall V))
          → Keeps (RunPhase.tools b) (dispatch_found env w s c r b (is_length a.stop_reason) x o)
      by_call none = fails
      by_call (some call) = dispatch-Keeps s c r b _ call x h h'

  pub tools_step-Keeps :
      (s : Storage V) (c : Current) (r : RunState) (b : ToolBatch)
      → Covers b
      → r.phase ≡ RunPhase.tools b
      → Keeps (RunPhase.tools b) (tools_step env w s c r b)
  unfolding tools_step
  tools_step-Keeps s c r b h h' = by_entry (entry s b.assistant_entry_id)
    where
      by_turn :
          (o : Option (Assistant V)) → Keeps (RunPhase.tools b) (with_assistant env w s c r b o)
      by_turn none = fails
      by_turn (some a) = next_call-Keeps s c r b a _ h h'

      by_entry : (o : Option (Entry V)) → Keeps (RunPhase.tools b) (with_entry env w s c r b o)
      by_entry none = fails
      by_entry (some e) = by_turn _
