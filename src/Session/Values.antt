-- ===== src/Session/Values.antt =====
-- A concrete type of values for the tests: JSON, and one constructor for each register type of src/state.rs.
use reve.Prelude.{ℕ, ◌≡◌, refl, ap, String, Bool, Option, none, some, List, [], ◌∷◌}
use reve.Map.{Map, string_key, get}
use reve.Json.{Json, Serde}
use reve.Entry.{Usage}
use reve.State.{
  LaneConfiguration, LaneState, LaneLastResult, Operation, OperationState, PendingEntry,
  CompactionPreparation,
}
use reve.Model.{StopReason}
use reve.Session.Restore.{Codecs}

mutual
  pub data Value : Type 0 where
    null : Value
    boolean : Bool → Value
    number : ℕ → Value
    text : String → Value
    array : Values → Value
    object : Fields → Value
    leaf : Option String → Value
    state : LaneState → Value
    config : LaneConfiguration → Value
    meta : Operation → Value
    program : OperationState → Value
    pending_empty : String → Option String → Value
    pending_full : String → Option String → Value → Value
    stop : StopReason → Value
    usage : Usage → Value
    last : LaneLastResult → Value
    prepared : Values → Values → ℕ → Option String → Value

  pub data Values : Type 0 where
    nil : Values
    cons : Value → Values → Values

  pub data Fields : Type 0 where
    no_field : Fields
    field : String → Value → Fields → Fields

abbrev values : List Value → Values
values [] = nil
values (v ∷ vs) = cons v (values vs)

abbrev list : Values → List Value
list nil = []
list (cons v vs) = v ∷ list vs

pub list-values : (vs : List Value) → list (values vs) ≡ vs
list-values [] = refl
list-values (v ∷ vs) = ap (◌∷◌ v) (list-values vs)

abbrev fields : Map String Value → Fields
fields [] = no_field
fields ((k, v) ∷ m) = field k v (fields m)

abbrev map_of : Fields → Map String Value
map_of no_field = []
map_of (field k v fs) = (k, v) ∷ map_of fs

pub map_of-fields : (m : Map String Value) → map_of (fields m) ≡ m
map_of-fields [] = refl
map_of-fields ((k, v) ∷ m) = ap (◌∷◌ (k, v)) (map_of-fields m)

abbrev get_field : Value → String → Option Value
get_field (object fs) k = get (map_of fs) k
get_field _ k = none

abbrev text_of : Value → Option String
text_of (text s) = some s
text_of _ = none

abbrev array_of : Value → Option (List Value)
array_of (array vs) = some (list vs)
array_of _ = none

abbrev object_of : Value → Option (Map String Value)
object_of (object fs) = some (map_of fs)
object_of _ = none

abbrev pub json : Json Value
json = record {
  null = null;
  boolean = boolean;
  number = number;
  text = text;
  array = λ vs. array (values vs);
  object = λ m. object (fields m);
  get = get_field;
  as_str = text_of;
  as_array = array_of;
  as_object = object_of;
  text_len = λ m. 40;
  get_object = λ m k. ap (λ x. get x k) (map_of-fields m);
  as_str_text = λ s. refl;
  as_array_array = λ vs. ap some (list-values vs);
  as_object_object = λ m. ap some (map_of-fields m);
}

abbrev leaf_of : Value → Option (Option String)
leaf_of (leaf l) = some l
leaf_of _ = none

abbrev state_of : Value → Option LaneState
state_of (state l) = some l
state_of _ = none

abbrev config_of : Value → Option LaneConfiguration
config_of (config l) = some l
config_of _ = none

abbrev meta_of : Value → Option Operation
meta_of (meta l) = some l
meta_of _ = none

abbrev program_of : Value → Option OperationState
program_of (program l) = some l
program_of _ = none

abbrev stop_of : Value → Option StopReason
stop_of (stop l) = some l
stop_of _ = none

abbrev usage_of : Value → Option Usage
usage_of (usage l) = some l
usage_of _ = none

abbrev pending_of : Value → Option (PendingEntry Value)
pending_of (pending_empty t c) = some (record { entry_type = t; custom_type = c; payload = none })
pending_of (pending_full t c v) =
    some (record { entry_type = t; custom_type = c; payload = some v })
pending_of _ = none

abbrev pending_value : String → Option String → Option Value → Value
pending_value t c none = pending_empty t c
pending_value t c (some v) = pending_full t c v

abbrev pub codecs : Codecs Value
codecs = record {
  leaf = record { to_value = leaf; from_value = leaf_of; from_to = λ a. refl };
  state = record { to_value = state; from_value = state_of; from_to = λ a. refl };
  config = record { to_value = config; from_value = config_of; from_to = λ a. refl };
  meta = record { to_value = meta; from_value = meta_of; from_to = λ a. refl };
  program = record { to_value = program; from_value = program_of; from_to = λ a. refl };
  pending = record {
    to_value = λ p. pending_value p.entry_type p.custom_type p.payload;
    from_value = pending_of;
  };
  stop = record { to_value = stop; from_value = stop_of; from_to = λ a. refl };
  usage = record { to_value = usage; from_value = usage_of; from_to = λ a. refl };
}

abbrev last_of : Value → Option LaneLastResult
last_of (last r) = some r
last_of _ = none

abbrev pub last_codec : Serde Value LaneLastResult
last_codec = record { to_value = last; from_value = last_of; from_to = λ a. refl }

abbrev prepared_of : Value → Option (CompactionPreparation Value)
prepared_of (prepared a b n t) = some (record {
  messages_to_summarize = list a;
  retained_tail = list b;
  tokens_before = n;
  previous_summary = t;
})
prepared_of _ = none

pub prepared-back :
    (p : CompactionPreparation Value)
    → prepared_of (
        prepared
          (values p.messages_to_summarize)
          (values p.retained_tail)
          p.tokens_before
          p.previous_summary)
      ≡ some p
prepared-back p = λ i. some (record p {
  messages_to_summarize = list-values p.messages_to_summarize i;
  retained_tail = list-values p.retained_tail i;
})

abbrev pub preparation_codec : Serde Value (CompactionPreparation Value)
preparation_codec = record {
  to_value = λ p.
      prepared (values p.messages_to_summarize) (values p.retained_tail) p.tokens_before
        p.previous_summary;
  from_value = prepared_of;
  from_to = prepared-back;
}
