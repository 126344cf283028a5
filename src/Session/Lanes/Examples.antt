-- ===== src/Session/Lanes/Examples.antt =====
-- A lane created in a session that has none (src/session.rs).
use reve.Prelude.{◌≡◌, refl, ℤ, none, some, List, [], ◌∷◌}
use reve.Map
use reve.Namespace.{lane_state, lane_leaf, lane_config, register_key}
use reve.Entry.{Write, register, set, set_write, CommitResult}
use reve.State.{LaneConfiguration, default_lane_state}
use reve.Storage.{done, commit, validate, check, stamp, publish, append}
use reve.Storage.Scan.{register_value}
use reve.Storage.Registers.{value_at}
use reve.Session.{ok, commit_if}
use reve.Session.Values.{Value, leaf, state, config, codecs}
use reve.Session.Examples.{wire, named, owner, lane_config_value}
use reve.Session.Lanes.{provided, absent, nothing, ensure_lane}
use reve.Session.Lanes.Created.{Created, ensure_lane_once}

abbrev other_config : LaneConfiguration
other_config = record lane_config_value { thinking_level = "other" }

abbrev creation : List (Write Value)
creation =
    register (set 0 lane_config "main" (config lane_config_value))
    ∷ register (set 0 lane_leaf "main" (leaf none))
    ∷ register (set 0 lane_state "main" (state default_lane_state))
    ∷ []

asked :
    ensure_lane codecs named named "main" none lane_config_value
    ≡ provided (absent codecs "main") creation
unfolding ensure_lane set_write register_value Map.get
asked = refl

abbrev created_at : CommitResult
created_at = record { first_seq = 4; last_seq = 6; timestamp = ℤ.pos 7 }

accepted :
    (commit_if wire done (ℤ.pos 7) owner (absent codecs "main" ∷ []) creation).0
    ≡ ok (some created_at)
unfolding commit_if commit validate check stamp publish append Map.get
accepted = refl

abbrev other_creation : List (Write Value)
other_creation =
    register (set 0 lane_config "main" (config other_config))
    ∷ register (set 0 lane_leaf "main" (leaf none))
    ∷ register (set 0 lane_state "main" (state default_lane_state))
    ∷ []

other_asked :
    ensure_lane codecs named named "main" none other_config
    ≡ provided (absent codecs "main") other_creation
unfolding ensure_lane set_write register_value Map.get
other_asked = refl

ensure_lane_once_example :
    (value_at named (lane_state, "main") ≡ none)
    × Created codecs
        (commit_if wire done (ℤ.pos 7) owner (absent codecs "main" ∷ []) creation).1.storage
        "main"
        none
        lane_config_value
    × (commit_if wire done
          (ℤ.pos 8)
          (commit_if wire done (ℤ.pos 7) owner (absent codecs "main" ∷ []) creation).1
          (absent codecs "main" ∷ [])
          other_creation
        ≡ (ok none, (commit_if wire done (ℤ.pos 7) owner (absent codecs "main" ∷ []) creation).1))
    × (ensure_lane codecs
          (commit_if wire done (ℤ.pos 7) owner (absent codecs "main" ∷ []) creation).1.storage
          (commit_if wire done (ℤ.pos 7) owner (absent codecs "main" ∷ []) creation).1.storage
          "main"
          none
          other_config
        ≡ nothing)
ensure_lane_once_example =
    ensure_lane_once codecs wire done done (ℤ.pos 7) (ℤ.pos 8) owner named named named named "main"
      none none lane_config_value other_config (absent codecs "main") (absent codecs "main")
      creation other_creation created_at asked other_asked accepted
