-- ===== src/Session/Restored.antt =====
-- What `restore` of src/session.rs has made sure of when it returns an open operation.
use reve.Prelude.{
  List, [], ◌∷◌, ◌++◌, All, is_some, ℕ, ◌≡◌, ◌≢◌, refl, ◌∙◌, sym, subst, inl, inr, String, Bool,
  true, false, Option, none, some, arith, str_eq, eq_iff, Option-cases,
}
use reve.Json.{Json}
use reve.Namespace.{lane_state, lane_config, lane_leaf, op_meta, op_state, pending_entry}
use reve.State.{LaneState, OpKind, intent_kind, state_kind, Operation, OperationState}
use reve.Storage.{Storage, has_entry}
use reve.Storage.Scan.{register_value}
use reve.Session
use reve.Session.Restore.{
  Codecs, Current, idle, suspended, validate_current, restore, restore_open, restore_named,
  has_register, pending_exists, check_source, check_intent, check_latest, check_leaf,
  check_next_run,
}
use reve.Session.Checks.{Check, first_of, each, kind_eq, unless, need, pass}

kind_eq-eq : (a b : OpKind) → kind_eq a b ≡ true → a ≡ b
kind_eq-eq OpKind.run OpKind.run h = refl
kind_eq-eq OpKind.run OpKind.compaction h = absurd (ground arith)
kind_eq-eq OpKind.run OpKind.navigation h = absurd (ground arith)
kind_eq-eq OpKind.compaction OpKind.run h = absurd (ground arith)
kind_eq-eq OpKind.compaction OpKind.compaction h = refl
kind_eq-eq OpKind.compaction OpKind.navigation h = absurd (ground arith)
kind_eq-eq OpKind.navigation OpKind.run h = absurd (ground arith)
kind_eq-eq OpKind.navigation OpKind.compaction h = absurd (ground arith)
kind_eq-eq OpKind.navigation OpKind.navigation h = refl

text_eq : (a b : String) → str_eq a b ≡ true → a ≡ b
text_eq a b h = ground (arith, eq_iff a b)

need-ok :
    {A B : Type 0} (lane : String) (o : Option A) (d : Session.Damage) (next : A → Session.Result B)
    (b : B)
    → need lane o d next ≡ Session.ok b
    → (a : A) × (o ≡ some a) × (next a ≡ Session.ok b)
unfolding need
need-ok lane none d next b h = absurd (ground arith)
need-ok lane (some a) d next b h = (a, refl, h)

pass-ok :
    {B : Type 0} (lane : String) (c : Check) (next : Session.Result B) (b : B)
    → pass lane c next ≡ Session.ok b
    → (c ≡ none) × (next ≡ Session.ok b)
unfolding pass
pass-ok lane none next b h = (refl, h)
pass-ok lane (some d) next b h = absurd (ground arith)

suspended_injective : (a b : Current) → Session.ok (suspended a) ≡ Session.ok (suspended b) → a ≡ b
suspended_injective a b h = ground arith

idle_ne : (lane : String) (c : Current) → Session.ok (idle lane) ≢ Session.ok (suspended c)
idle_ne lane c h = ground arith

unless-none : (b : Bool) (d : Session.Damage) → unless b d ≡ none → b ≡ true
unfolding unless
unless-none true d h = refl
unless-none false d h = absurd (ground arith)

module _ {V : Type 0} (json : Json V) (codecs : Codecs V) (show : ℕ → String) (s : Storage V) where
  first_of-none : (a b : Check) → first_of a b ≡ none → (a ≡ none) × (b ≡ none)
  first_of-none none b h = (refl, h)
  first_of-none (some d) b h = absurd (ground (arith, h))

  each-none :
      {A : Type 0} (f : A → Check) (P : A → Type 0)
      → ((a : A) → f a ≡ none → P a)
      → (xs : List A) → each f xs ≡ none
      → All P xs
  each-none f P k [] h = tt
  each-none f P k (x ∷ xs) h =
      let (a, b) = first_of-none (f x) (each f xs) h in (k x a, each-none f P k xs b)

  -- An id whose content waits, and one of an entry that is there.
  abbrev pub Waits : String → Type 0
  Waits id = has_register json codecs show s pending_entry id ≡ true

  abbrev pub IsEntry : String → Type 0
  IsEntry id = has_entry s id ≡ true

  abbrev pub Reads : String → Type 0
  Reads id = is_some (register_value codecs.pending.from_value s pending_entry id) ≡ true

  each-Waits :
      (ids : List String) → each (pending_exists json codecs show s) ids ≡ none → All Waits ids
  each-Waits ids h =
      each-none (pending_exists json codecs show s) Waits
        (λ id. unless-none _ (Session.no_pending id)) ids h

  -- Every input that a run has queued waits under its id.
  abbrev pub InputsWait : OperationState → Type 0
  InputsWait (OperationState.run r) =
      All Waits (r.inbox.steer ++ (r.inbox.follow_up ++ r.inbox.writes))
  InputsWait (OperationState.compaction c) = Unit
  InputsWait (OperationState.navigation n) = Unit

  inputs_wait :
      (operation : Operation) (state : OperationState)
      → validate_current json codecs show s operation state ≡ none
      → InputsWait state
  unfolding validate_current
  inputs_wait operation (OperationState.run r) h =
      let (a, b) = first_of-none (check_source json codecs show s operation.source_leaf_id) _ h in
      let (c, d) = first_of-none (check_intent json codecs show s operation.intent) _ b in
      let (e, f) =
        first_of-none (check_latest json codecs show s r.latest_assistant_entry_id) _ d in
      let (g, k) =
        first_of-none
          (each (pending_exists json codecs show s)
            (r.inbox.steer ++ (r.inbox.follow_up ++ r.inbox.writes)))
          _ f in
      each-Waits (r.inbox.steer ++ (r.inbox.follow_up ++ r.inbox.writes)) g
  inputs_wait operation (OperationState.compaction c) h = tt
  inputs_wait operation (OperationState.navigation n) h = tt

  -- An entry that is named is there.
  abbrev pub Present : Option String → Type 0
  Present none = Unit
  Present (some id) = IsEntry id

  leaf-Present : (leaf : Option String) → check_leaf json codecs show s leaf ≡ none → Present leaf
  leaf-Present none h = tt
  leaf-Present (some id) h = unless-none (has_entry s id) _ h

  source-Present :
      (source : Option String) → check_source json codecs show s source ≡ none → Present source
  source-Present none h = tt
  source-Present (some id) h = unless-none (has_entry s id) _ h

  -- What holds of an open operation that restore returns.
  pub record IsOpen (lane : String) (c : Current) : Type 0 where
    pub id : String
    pub state_read :
        register_value codecs.state.from_value s lane_state lane
        ≡ some (c.lane_state, c.lane_state_seq)
    pub named : c.lane_state.current_operation_id ≡ some id
    pub meta_seq : ℕ
    pub meta_read :
        register_value codecs.meta.from_value s op_meta id ≡ some (c.operation, meta_seq)
    pub program_read :
        register_value codecs.program.from_value s op_state id ≡ some (c.state, c.state_seq)
    pub config_read :
        register_value codecs.config.from_value s lane_config lane
        ≡ some (c.configuration, c.configuration_seq)
    pub leaf_seq : ℕ
    pub leaf_read : register_value codecs.leaf.from_value s lane_leaf lane ≡ some (c.leaf, leaf_seq)
    pub leaf_there : Present c.leaf
    pub source_there : Present c.operation.source_leaf_id
    pub next_run_reads : All Reads c.lane_state.pending_next_run
    pub inputs : InputsWait c.state
    pub own_lane : c.operation.lane ≡ lane
    pub own_kind : intent_kind c.operation.intent ≡ state_kind c.state
    pub valid : validate_current json codecs show s c.operation c.state ≡ none

  -- The program counter is read under whatever id the lane's state has.
  pub program_of :
      (lane id : String) (c : Current)
      → IsOpen lane c
      → c.lane_state.current_operation_id ≡ some id
      → register_value codecs.program.from_value s op_state id ≡ some (c.state, c.state_seq)
  program_of lane id c opened own =
      let same : opened.id ≡ id = ground (arith, opened.named, own) in
      subst
        (λ i. register_value codecs.program.from_value s op_state i ≡ some (c.state, c.state_seq))
        same opened.program_read

  restore_open-IsOpen :
      (lane : String) (state : LaneState) (seq : ℕ) (leaf : Option String) (n : ℕ) (op_id : String)
      (c : Current)
      → register_value codecs.state.from_value s lane_state lane ≡ some (state, seq)
      → register_value codecs.leaf.from_value s lane_leaf lane ≡ some (leaf, n)
      → Present leaf
      → All Reads state.pending_next_run
      → state.current_operation_id ≡ some op_id
      → restore_open json codecs show s lane (state, seq) leaf op_id ≡ Session.ok (suspended c)
      → IsOpen lane c
  restore_open-IsOpen lane state seq leaf leaf_seq op_id c r l at_leaf next n h =
      let (config, q₁, h₁) = need-ok lane _ _ _ _ h in
      let (m, q₂, h₂) = need-ok lane _ _ _ _ h₁ in
      let (p, q₃, h₃) = need-ok lane _ _ _ _ h₂ in
      let (own, h₄) = pass-ok lane _ _ _ h₃ in
      let (kind, h₅) = pass-ok lane _ _ _ h₄ in
      let (valid, h₆) = pass-ok lane _ _ _ h₅ in
      let whole : IsOpen lane (record {
        operation = m.0;
        state = p.0;
        state_seq = p.1;
        lane_state = state;
        lane_state_seq = seq;
        leaf = leaf;
        configuration = config.0;
        configuration_seq = config.1;
      }) =
        record {
          id = op_id;
          state_read = r;
          named = n;
          meta_seq = m.1;
          meta_read = q₂;
          program_read = q₃;
          config_read = q₁;
          leaf_seq = leaf_seq;
          leaf_read = l;
          leaf_there = at_leaf;
          source_there = source-Present m.0.source_leaf_id (
              unfold validate_current in
              (first_of-none (check_source json codecs show s m.0.source_leaf_id) _ valid).0);
          next_run_reads = next;
          inputs = inputs_wait m.0 p.0 valid;
          own_lane = text_eq m.0.lane lane (unless-none _ _ own);
          own_kind = kind_eq-eq _ _ (unless-none _ _ kind);
          valid = valid;
        } in
      subst (IsOpen lane) (suspended_injective _ _ h₆) whole

  unread :
      (lane : String)
      → register_value codecs.state.from_value s lane_state lane ≡ none
      → restore json codecs show s lane ≡ Session.ok (idle lane)
  unfolding restore
  unread lane q = rw (q, restore)

  read :
      (lane : String) (state : LaneState × ℕ)
      → register_value codecs.state.from_value s lane_state lane ≡ some state
      → restore json codecs show s lane ≡ restore_named json codecs show s lane state
  unfolding restore
  read lane state q = rw (q, restore)

  -- The last choice: the lane names an operation, or it is idle.
  named_or_idle :
      (lane : String) (state : LaneState × ℕ) (leaf : Option String) (n : ℕ) (c : Current)
      (o : Option String)
      → register_value codecs.state.from_value s lane_state lane ≡ some state
      → register_value codecs.leaf.from_value s lane_leaf lane ≡ some (leaf, n)
      → Present leaf
      → All Reads state.0.pending_next_run
      → state.0.current_operation_id ≡ o
      → elim o [
        | none ↦ Session.ok (idle lane)
        | some op_id ↦ restore_open json codecs show s lane state leaf op_id
      ]
        ≡ Session.ok (suspended c)
      → IsOpen lane c
  named_or_idle lane state leaf m c none r l at_leaf next n h = absurd (idle_ne lane c h)
  named_or_idle lane state leaf m c (some op_id) r l at_leaf next n h =
      restore_open-IsOpen lane state.0 state.1 leaf m op_id c r l at_leaf next n h

  -- An open operation that `restore` returns is the one that its lane names: under the id in the
  -- lane's state, the metadata and the program counter are the registers' values, and so are the
  -- lane's configuration and leaf, the counter, the state and the configuration with their tokens;
  -- it was accepted on this lane, and its kind is the program counter's. The leaf and the leaf that
  -- the operation started from are entries, every input queued for the next run and every input in
  -- the run's inbox has its content pending, and every check of `validate_current` has passed.
  pub restore-IsOpen :
      (lane : String) (c : Current)
      → restore json codecs show s lane ≡ Session.ok (suspended c)
      → IsOpen lane c
  restore-IsOpen lane c h =
      elim (Option-cases (register_value codecs.state.from_value s lane_state lane)) [
        | inl q ↦ absurd (idle_ne lane c (sym (unread lane q) ∙ h))
        | inr (state, q) ↦
            let (leaf, l, h₁) = need-ok lane _ _ _ _ (sym (read lane state q) ∙ h) in
            let (a, h₂) = pass-ok lane _ _ _ h₁ in
            let (b, h₃) = pass-ok lane _ _ _ h₂ in
            named_or_idle lane state leaf.0 leaf.1 c state.0.current_operation_id q l
              (leaf-Present leaf.0 a)
              (each-none (check_next_run json codecs show s) Reads
                (λ id. unless-none _ (Session.next_run_without_pending id)) state.0.pending_next_run
                b)
              refl h₃
      ]
