-- ===== src/Hooks/Policy.antt =====
-- What the handlers of src/hooks.rs can and cannot let through.
use reve.Prelude.{
  ℕ, ◌<>◌, ◌≡◌, refl, ◌∙◌, sym, ap, ◌⊎◌, inl, inr, String, Bool, true, false, ◌||◌, Option, none,
  some, List, [], ◌∷◌, is_some, arith, if◌then◌else◌,
}
use reve.Map.{Map}
use reve.State.{RunState, ToolBatch, Replay, is_cancelled}
use reve.Session.Restore.{Current}
use reve.Model.{ToolCall}
use reve.Driver.World.{Env, World, Move, intend, Block, BeforeTool, BeforeCompaction}
use reve.Driver.Tools.{
  Verdict, refusal, batch_of, commit_batch, commit_tool_result, unless_blocked, declared,
  planned_call,
}
use reve.Hooks.{
  Answer, silent, replied, threw, Handler, Outcome, BeforeToolEvent, before_tool, replace_args,
  BeforeCompactionEvent, before_compaction, tool_reply, tool_answer, compaction_answer,
}

module _ {V : Type 0} where
  -- Every handler let the call pass, each having seen what the ones before it left: `e'` is the event that the
  -- last one leaves.
  pub data Passes
      : List (Handler (BeforeToolEvent V) (BeforeTool V))
        → BeforeToolEvent V
        → BeforeToolEvent V
        → Type 0 where
    end : {e : BeforeToolEvent V} → Passes [] e e
    nothing_said :
        {h : Handler (BeforeToolEvent V) (BeforeTool V)}
        {hs : List (Handler (BeforeToolEvent V) (BeforeTool V))} {e e' : BeforeToolEvent V}
        → h e ≡ silent
        → Passes hs e e'
        → Passes (h ∷ hs) e e'
    not_blocked :
        {h : Handler (BeforeToolEvent V) (BeforeTool V)}
        {hs : List (Handler (BeforeToolEvent V) (BeforeTool V))} {e e' : BeforeToolEvent V}
        (r : BeforeTool V)
        → h e ≡ replied r
        → r.block ≡ none
        → Passes hs (replace_args e r.args) e'
        → Passes (h ∷ hs) e e'

  reply-Passes :
      (hs : List (Handler (BeforeToolEvent V) (BeforeTool V))) (e : BeforeToolEvent V)
      (changed : Bool) (r : BeforeTool V) (b : Option Block)
      → ((e1 : BeforeToolEvent V) (c : Bool)
          → (before_tool hs e1 c).value.block ≡ none
          → (e' : BeforeToolEvent V) × Passes hs e1 e')
      → (tool_reply (before_tool hs) e changed r b).value.block ≡ none
      → (b ≡ none) × (e' : BeforeToolEvent V) × Passes hs (replace_args e r.args) e'
  reply-Passes hs e changed r (some block) ih q = absurd (ground arith)
  reply-Passes hs e changed r none ih q =
      let (e', rest) = ih (replace_args e r.args) _ q in (refl, e', rest)

  answer-Passes :
      (h : Handler (BeforeToolEvent V) (BeforeTool V))
      (hs : List (Handler (BeforeToolEvent V) (BeforeTool V))) (e : BeforeToolEvent V)
      (changed : Bool) (a : Answer (BeforeTool V))
      → h e ≡ a
      → ((e1 : BeforeToolEvent V) (c : Bool)
          → (before_tool hs e1 c).value.block ≡ none
          → (e' : BeforeToolEvent V) × Passes hs e1 e')
      → (tool_answer (before_tool hs) e changed a).value.block ≡ none
      → (e' : BeforeToolEvent V) × Passes (h ∷ hs) e e'
  answer-Passes h hs e changed silent p ih q =
      let (e', rest) = ih e changed q in (e', nothing_said p rest)
  answer-Passes h hs e changed (replied r) p ih q =
      let (free, e', rest) = reply-Passes hs e changed r r.block ih q in
      (e', not_blocked r p free rest)
  answer-Passes h hs e changed (threw error) p ih q = absurd (ground arith)

  -- A tool runs only past every policy: if `before_tool` does not block, each handler in its order answered,
  -- without an error and without a block, on the event with the arguments that the handlers
  -- before it left.
  pub before_tool_fails_closed :
      (hs : List (Handler (BeforeToolEvent V) (BeforeTool V))) (e : BeforeToolEvent V)
      (changed : Bool)
      → (before_tool hs e changed).value.block ≡ none
      → (e' : BeforeToolEvent V) × Passes hs e e'
  unfolding before_tool
  before_tool_fails_closed [] e changed q = (e, end)
  before_tool_fails_closed (h ∷ hs) e changed q =
      answer-Passes h hs e changed (h e) refl (before_tool_fails_closed hs) q

abbrev pub Decides : Outcome BeforeCompaction → Type 0
Decides o = (o.value.decline ≡ false) ⊎ (o.value.summary ≡ none)

answer-Decides :
    (rest : Outcome BeforeCompaction) (a : Answer BeforeCompaction)
    → Decides rest
    → Decides (compaction_answer rest a)
answer-Decides rest silent h = h
answer-Decides rest (threw error) h = h
answer-Decides rest (replied r) h = by_fields r.decline r.summary refl refl
  where
    by_fields :
        (d : Bool) (s : Option String)
        → r.decline ≡ d
        → r.summary ≡ s
        → Decides (compaction_answer rest (replied r))
    by_fields true none p q = rw (p, q) (inr refl)
    by_fields true (some t) p q = rw (p, q) h
    by_fields false none p q = rw (p, q) h
    by_fields false (some t) p q = rw (p, q) (inl refl)

module _ {V : Type 0} where
  -- The hook never asks for both: an outcome either does not decline, or has no summary.
  pub before_compaction-Decides :
      (hs : List (Handler (BeforeCompactionEvent V) BeforeCompaction)) (e : BeforeCompactionEvent V)
      → Decides (before_compaction hs e)
  unfolding before_compaction
  before_compaction-Decides [] e = inr refl
  before_compaction-Decides (h ∷ hs) e =
      answer-Decides (before_compaction hs e) (h e) (before_compaction-Decides hs e)

-- Does the move start an effect?
abbrev pub is_intend : {V : Type 0} → Move V → Bool
is_intend (intend upcoming ws k) = true
is_intend _ = false

module _ {V : Type 0} (env : Env V) (w : World V) where
  settled_call :
      (c : Current) (r : RunState) (call : ToolCall V) (id : String) (v : Verdict)
      → is_intend (commit_tool_result env w c r call id v) ≡ false
  unfolding commit_tool_result
  settled_call c r call id v = by_batch (batch_of r.phase)
    where
      by_batch : (b : Option ToolBatch) → is_intend (commit_batch env w c r call id v b) ≡ false
      by_batch none = refl
      by_batch (some b) = refl

  -- What must hold before a tool runs.
  abbrev pub Admitted : RunState → Bool → ToolCall V → Type 0
  Admitted r truncated call =
      (is_cancelled r.control ≡ false)
      × (w.signalled ≡ false)
      × (truncated ≡ false)
      × (is_some (w.replay call.name) ≡ true)
      × ((w.before_tool call).block ≡ none)

  past_block :
      (c : Current) (r : RunState) (b : ToolBatch) (call : ToolCall V) (i : ℕ) (id : String)
      (replay : Replay) (args : Option (Map String V)) (block : Option Block)
      → is_intend (unless_blocked env w c r b call i id replay args block) ≡ true
      → block ≡ none
  past_block c r b call i id replay args none h = refl
  past_block c r b call i id replay args (some block) h = absurd (
      ground (
        arith,
        h,
        settled_call c r call id (record (refusal ("Blocked: " <> block.reason) "blocked") {
          terminate = block.terminate;
        }),
      ))

  past_declaration :
      (c : Current) (r : RunState) (b : ToolBatch) (call : ToolCall V) (i : ℕ) (id : String)
      (replay : Option Replay)
      → is_intend (declared env w c r b call i id replay) ≡ true
      → (is_some replay ≡ true) × ((w.before_tool call).block ≡ none)
  past_declaration c r b call i id none h = absurd (
      ground (
        arith,
        h,
        settled_call c r call id (refusal ("no tool named " <> env.quote call.name) "unknown_tool"),
      ))
  past_declaration c r b call i id (some replay) h = (
    refl,
    past_block c r b call i id replay (w.before_tool call).args (w.before_tool call).block h,
  )

  past_test :
      (b : Bool) (m n : Move V)
      → is_intend m ≡ false
      → is_intend (if b then m else n) ≡ true
      → (b ≡ false) × (is_intend n ≡ true)
  past_test true m n p q = absurd (ground (arith, p, q))
  past_test false m n p q = (refl, q)

  neither : (x y : Bool) → (x || y) ≡ false → (x ≡ false) × (y ≡ false)
  neither x y h = (ground (arith, h), ground (arith, h))

  planned-Admitted :
      (c : Current) (r : RunState) (b : ToolBatch) (truncated : Bool) (call : ToolCall V) (i : ℕ)
      (id : String)
      → is_intend (planned_call env w c r b truncated call i id) ≡ true
      → Admitted r truncated call
  planned-Admitted c r b truncated call i id h =
      let (quiet, h1) =
        past_test (is_cancelled r.control || w.signalled) _ _
          (settled_call c r call id
            (refusal "Aborted: the user interrupted this run before the tool started." "aborted"))
          h in
      let (complete, h2) =
        past_test truncated _ _
          (settled_call c r call id (
            refusal
              "The response hit the output limit while emitting this call; its arguments may be truncated, so it was not executed."
              "truncated"))
          h1 in
      let (running, unsignalled) = neither (is_cancelled r.control) w.signalled quiet in
      let (known, free) = past_declaration c r b call i id (w.replay call.name) h2 in
      (running, unsignalled, complete, known, free)

  -- A planned call reaches its tool only past every guard and every policy. Where the hook's answer is that of
  -- its handlers, on an event with the call's arguments, a step that starts the effect shows that
  -- the run is not cancelled nor signalled, that the response was not truncated, that the tool is
  -- declared, and that each handler let the call pass.
  pub tool_runs_past_policy :
      (c : Current) (r : RunState) (b : ToolBatch) (truncated : Bool) (call : ToolCall V) (i : ℕ)
      (id : String) (hs : List (Handler (BeforeToolEvent V) (BeforeTool V))) (e : BeforeToolEvent V)
      → w.before_tool call ≡ (before_tool hs e false).value
      → is_intend (planned_call env w c r b truncated call i id) ≡ true
      → Admitted r truncated call × (e' : BeforeToolEvent V) × Passes hs e e'
  tool_runs_past_policy c r b truncated call i id hs e p h =
      let a = planned-Admitted c r b truncated call i id h in
      let (e', passed) =
        before_tool_fails_closed hs e false (sym (ap (λ (x : BeforeTool V). x.block) p) ∙ a.4) in
      (a, e', passed)
