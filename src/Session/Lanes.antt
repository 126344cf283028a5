-- ===== src/Session/Lanes.antt =====
-- src/session.rs: the calls of the handle that create a lane and that set a fact. What a call reads
-- and what it asks the owner to commit are messages of their own.
pub mod Created
pub mod Examples
use reve.Prelude.{ℕ, String, Option, none, some, List, [], ◌∷◌, if◌then◌else◌}
use reve.Json.{Serde}
use reve.Namespace.{Namespace, lane_state, lane_leaf, lane_config}
use reve.Entry.{Write, set_write, delete_write}
use reve.State.{LaneConfiguration, LaneState, default_lane_state}
use reve.Storage.{Storage, has_entry}
use reve.Storage.Scan.{register_value}
use reve.Session.{Expect, SessionError, corrupt, no_anchor}
use reve.Session.Restore.{Codecs}

-- What a call asks for after its reads: nothing, a commit, or a commit under an expectation.
pub data Request (V : Type 0) : Type 0 where
  refused : SessionError → Request V
  nothing : Request V
  always : List (Write V) → Request V
  provided : Expect → List (Write V) → Request V

module _ {V : Type 0} (codecs : Codecs V) where
  -- The lane exists; its configuration is never overridden.
  abbrev pub ensure_configured :
      String → LaneConfiguration → Option (LaneConfiguration × ℕ) → Request V
  ensure_configured lane seed none =
      always (set_write lane_config lane (codecs.config.to_value seed) ∷ [])
  ensure_configured lane seed (some c) = nothing

  abbrev pub lane_writes : String → Option String → LaneConfiguration → List (Write V)
  lane_writes lane at seed =
      set_write lane_config lane (codecs.config.to_value seed)
      ∷ set_write lane_leaf lane (codecs.leaf.to_value at)
      ∷ set_write lane_state lane (codecs.state.to_value default_lane_state)
      ∷ []

  abbrev pub absent : String → Expect
  absent lane = record { namespace = lane_state; key = lane; seq = none }

  abbrev pub create_lane : Storage V → String → Option String → LaneConfiguration → Request V
  create_lane s lane none seed = provided (absent lane) (lane_writes lane none seed)
  create_lane s lane (some anchor) seed =
      if has_entry s anchor
      then provided (absent lane) (lane_writes lane (some anchor) seed)
      else refused (corrupt lane (no_anchor anchor))

  abbrev pub ensure_read :
      Storage V → String → Option String → LaneConfiguration → Option (LaneState × ℕ) → Request V
  ensure_read s lane at seed none = create_lane s lane at seed
  ensure_read s lane at seed (some ls) =
      ensure_configured lane seed (register_value codecs.config.from_value s lane_config lane)

  -- `ensure_lane`: the lane's state is read from one storage, its configuration or its anchor from a
  -- later one.
  unfoldable pub ensure_lane :
      Storage V → Storage V → String → Option String → LaneConfiguration → Request V
  unfolding set_write register_value
  ensure_lane s later lane at seed =
      ensure_read later lane at seed (register_value codecs.state.from_value s lane_state lane)

-- `set_fact`: `none` deletes.
abbrev pub fact_writes : {V : Type 0} → Namespace → String → Option V → List (Write V)
fact_writes namespace key none = delete_write namespace key ∷ []
fact_writes namespace key (some v) = set_write namespace key v ∷ []
