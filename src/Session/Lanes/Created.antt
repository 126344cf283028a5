-- ===== src/Session/Lanes/Created.antt =====
-- A lane that `ensure_lane` has created (src/session.rs).
use reve.Prelude.{
  subst, false, ℕ, ◌≡◌, refl, ◌∙◌, ap, sym, inl, inr, ℤ, String, true, Option, none, some, List, [],
  ◌∷◌, arith, Option-cases, Bool-cases, str_eq, eq_iff,
}
use reve.Map
use reve.Json.{Serde}
use reve.Namespace.{Namespace, RegisterKey, register_key, lane_state, lane_leaf, lane_config}
use reve.Entry.{Write, CommitResult, set_write}
use reve.State.{LaneConfiguration, LaneState, default_lane_state}
use reve.Storage.{Storage, Wire, Io, has_entry}
use reve.Storage.Scan.{register_value}
use reve.Storage.Registers.{value_at, written, commit-written}
use reve.Session.{Owner, Expect, ok, commit_if, all_hold}
use reve.Session.Tokens.{accepted-holds}
use reve.Session.Race.{commit_if-unmet, commit_if-Accepted}
use reve.Session.Restore.{Codecs}
use reve.Session.Lanes.{
  provided, absent, ensure_lane, ensure_read, ensure_configured, create_lane, lane_writes, nothing,
}

module _ {V : Type 0} where
  -- A key that holds the text of a value reads as the value.
  pub reads_back :
      {A : Type 0} (serde : Serde V A) (s : Storage V) (ns : Namespace) (key : String) (a : A)
      → value_at s (ns, key) ≡ some (serde.to_value a)
      → (n : ℕ) × (register_value serde.from_value s ns key ≡ some (a, n))
  unfolding register_value
  reads_back serde s ns key a h = elim (Option-cases (Map.get s.registers (ns, key))) [
    | inl q ↦ absurd (ground (arith, h, q))
    | inr (r, q) ↦ (r.seq, ground (arith, h, q, serde.from_to a))
  ]

  provided_token :
      {e e' : Expect} {tx tx' : List (Write V)} → provided e tx ≡ provided e' tx' → e ≡ e'
  provided_token h = ground (arith, h)

  provided_writes :
      {e e' : Expect} {tx tx' : List (Write V)} → provided e tx ≡ provided e' tx' → tx ≡ tx'
  provided_writes h = ground (arith, h)

module _ {V : Type 0} (codecs : Codecs V) where
  create_parts :
      (s : Storage V) (lane : String) (at : Option String) (seed : LaneConfiguration) (e : Expect)
      (tx : List (Write V))
      → create_lane codecs s lane at seed ≡ provided e tx
      → provided (absent codecs lane) (lane_writes codecs lane at seed) ≡ provided e tx
  create_parts s lane none seed e tx h = h
  create_parts s lane (some anchor) seed e tx h = elim (Bool-cases (has_entry s anchor)) [
    | inl found ↦ rw found at h
    | inr gone ↦ absurd (ground (arith, h, gone))
  ]

  not_provided :
      (c : Option (LaneConfiguration × ℕ)) (lane : String) (seed : LaneConfiguration) (e : Expect)
      (tx : List (Write V))
      → ensure_configured codecs lane seed c ≡ provided e tx
      → ⊥
  not_provided none lane seed e tx h = ground (arith, h)
  not_provided (some c) lane seed e tx h = ground (arith, h)

  -- The only commit under an expectation that `ensure_lane` sends is the creation.
  creates :
      (s later : Storage V) (lane : String) (at : Option String) (seed : LaneConfiguration)
      (e : Expect) (tx : List (Write V))
      → ensure_lane codecs s later lane at seed ≡ provided e tx
      → provided (absent codecs lane) (lane_writes codecs lane at seed) ≡ provided e tx
  unfolding ensure_lane
  creates s later lane at seed e tx h =
      elim (Option-cases (register_value codecs.state.from_value s lane_state lane)) [
        | inl q ↦ create_parts later lane at seed e tx (sym (rw (q, ensure_read) refl) ∙ h)
        | inr (ls, q) ↦ absurd (
            not_provided (register_value codecs.config.from_value later lane_config lane) lane seed
              e tx (sym (rw (q, ensure_read) refl) ∙ h))
      ]

  itself : (id : String) → str_eq id id ≡ true
  itself id = (eq_iff id id).1 refl

  config_after :
      (lane : String) (at : Option String) (seed : LaneConfiguration) (v : Option V)
      → written (lane_config, lane) v (lane_writes codecs lane at seed)
        ≡ some (codecs.config.to_value seed)
  unfolding set_write
  config_after lane at seed v = rw (itself lane) refl

  leaf_after :
      (lane : String) (at : Option String) (seed : LaneConfiguration) (v : Option V)
      → written (lane_leaf, lane) v (lane_writes codecs lane at seed)
        ≡ some (codecs.leaf.to_value at)
  unfolding set_write
  leaf_after lane at seed v = rw (itself lane) refl

  state_after :
      (lane : String) (at : Option String) (seed : LaneConfiguration) (v : Option V)
      → written (lane_state, lane) v (lane_writes codecs lane at seed)
        ≡ some (codecs.state.to_value default_lane_state)
  unfolding set_write
  state_after lane at seed v = rw (itself lane) refl

  asks_nothing :
      (s : Storage V) (lane : String) (at : Option String) (seed : LaneConfiguration)
      (ls : LaneState × ℕ) (c : LaneConfiguration × ℕ)
      → register_value codecs.state.from_value s lane_state lane ≡ some ls
      → register_value codecs.config.from_value s lane_config lane ≡ some c
      → ensure_lane codecs s s lane at seed ≡ nothing
  unfolding ensure_lane
  asks_nothing s lane at seed ls c p q = rw (p, ensure_read) (rw (q, ensure_configured) refl)

  -- An absence expectation holds of a storage without the register, and of no other.
  absent_register :
      (s : Storage V) (lane : String)
      → all_hold s (absent codecs lane ∷ []) ≡ true
      → value_at s (lane_state, lane) ≡ none
  absent_register s lane h = elim (Option-cases (Map.get s.registers (lane_state, lane))) [
    | inl q ↦ ground (arith, q)
    | inr (r, q) ↦ absurd (ground (arith, h, q))
  ]

  present_register :
      (s : Storage V) (lane : String) (v : V)
      → value_at s (lane_state, lane) ≡ some v
      → all_hold s (absent codecs lane ∷ []) ≡ false
  present_register s lane v h = elim (Option-cases (Map.get s.registers (lane_state, lane))) [
    | inl q ↦ absurd (ground (arith, h, q))
    | inr (r, q) ↦ ground (arith, q)
  ]

  -- A lane as its creator left it.
  abbrev pub Created : Storage V → String → Option String → LaneConfiguration → Type 0
  Created s lane at seed =
      ((n : ℕ) × (register_value codecs.config.from_value s lane_config lane ≡ some (seed, n)))
      × ((n : ℕ) × (register_value codecs.leaf.from_value s lane_leaf lane ≡ some (at, n)))
      × ((n : ℕ) × (register_value codecs.state.from_value s lane_state lane
            ≡ some (default_lane_state, n)))

  created_value :
      (wire : Wire V) (outcome : Io) (now : ℤ) (o : Owner V) (s later : Storage V) (lane : String)
      (at : Option String) (seed : LaneConfiguration) (e : Expect) (tx : List (Write V))
      (r : CommitResult) (k : RegisterKey)
      → ensure_lane codecs s later lane at seed ≡ provided e tx
      → (commit_if wire outcome now o (e ∷ []) tx).0 ≡ ok (some r)
      → value_at (commit_if wire outcome now o (e ∷ []) tx).1.storage k
        ≡ written k (value_at o.storage k) (lane_writes codecs lane at seed)
  created_value wire outcome now o s later lane at seed e tx r k p h =
      let (accepted, same, quiet) = commit_if-Accepted wire outcome now o (e ∷ []) tx r h in
      ap (λ (x : Owner V). value_at x.storage k) same
      ∙ commit-written wire outcome now o.storage tx k accepted
      ∙ ap (written k (value_at o.storage k))
          (sym (provided_writes (creates s later lane at seed e tx p)))

  -- A lane is created only where there is none, and only once. When the creation that `ensure_lane`
  -- sends is accepted, whatever storages it was planned from, the owner held no state of the lane;
  -- behind it the lane reads with the given configuration and leaf and the state of an idle lane; a
  -- creation that another caller had planned, from whatever storages and with whatever anchor and
  -- configuration, is then answered with nothing and leaves the owner as it is; and an `ensure_lane`
  -- that reads what the creation left asks for nothing.
  pub ensure_lane_once :
      (wire : Wire V) (outcome outcome' : Io) (now now' : ℤ) (o : Owner V)
      (s s' later later' : Storage V) (lane : String) (at at' : Option String)
      (seed seed' : LaneConfiguration) (e e' : Expect) (tx tx' : List (Write V)) (r : CommitResult)
      → ensure_lane codecs s later lane at seed ≡ provided e tx
      → ensure_lane codecs s' later' lane at' seed' ≡ provided e' tx'
      → (commit_if wire outcome now o (e ∷ []) tx).0 ≡ ok (some r)
      → (value_at o.storage (lane_state, lane) ≡ none)
        × Created (commit_if wire outcome now o (e ∷ []) tx).1.storage lane at seed
        × (commit_if wire outcome' now' (commit_if wire outcome now o (e ∷ []) tx).1 (e' ∷ []) tx'
            ≡ (ok none, (commit_if wire outcome now o (e ∷ []) tx).1))
        × (ensure_lane codecs
              (commit_if wire outcome now o (e ∷ []) tx).1.storage
              (commit_if wire outcome now o (e ∷ []) tx).1.storage
              lane
              at'
              seed'
            ≡ nothing)
  ensure_lane_once wire outcome outcome' now now' o s s' later later' lane at at' seed seed' e e' tx
        tx' r p p' h =
      let o1 = (commit_if wire outcome now o (e ∷ []) tx).1 in
      let (accepted, same, quiet) = commit_if-Accepted wire outcome now o (e ∷ []) tx r h in
      let token = provided_token (creates s later lane at seed e tx p) in
      let token' = provided_token (creates s' later' lane at' seed' e' tx' p') in
      let after : (k : RegisterKey)
          → value_at o1.storage k
            ≡ written k (value_at o.storage k) (lane_writes codecs lane at seed) =
        λ k. created_value wire outcome now o s later lane at seed e tx r k p h in
      let there = after (lane_state, lane) ∙ state_after lane at seed _ in
      let (n, configured) =
        reads_back codecs.config o1.storage lane_config lane seed
          (after (lane_config, lane) ∙ config_after lane at seed _) in
      let (m, idle) = reads_back codecs.state o1.storage lane_state lane default_lane_state there in
      (
        absent_register o.storage lane (
            subst (λ x. all_hold o.storage (x ∷ []) ≡ true) (sym token)
              (accepted-holds wire outcome now o (e ∷ []) tx r h)),
        (
          (n, configured),
          reads_back codecs.leaf o1.storage lane_leaf lane at
              (after (lane_leaf, lane) ∙ leaf_after lane at seed _),
          (m, idle),
        ),
        commit_if-unmet wire outcome' now' o1 (e' ∷ []) tx'
            (ap (λ (x : Owner V). x.fault) same ∙ quiet)
            (subst (λ x. all_hold o1.storage (x ∷ []) ≡ false) token'
              (present_register o1.storage lane (codecs.state.to_value default_lane_state) there)),
        asks_nothing o1.storage lane at' seed' (default_lane_state, m) (seed, n) idle configured,
      )
