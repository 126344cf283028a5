-- ===== src/Json.antt =====
-- `serde_json::Value` and what the code asks of it. The crate is not part of this repository, so
-- its values are a parameter `V` and its calls an interface with the documented laws.
use reve.Prelude.{ℕ, String, ◌≡◌, Bool, Option, some, List}
use reve.Map.{Map, string_key}
use reve.Map

pub record Json (V : Type 0) : Type 0 where
  pub null : V
  pub boolean : Bool → V
  pub number : ℕ → V
  pub text : String → V
  pub array : List V → V
  pub object : Map String V → V
  pub get : V → String → Option V
  pub as_str : V → Option String
  pub as_array : V → Option (List V)
  pub as_object : V → Option (Map String V)
  -- the length of the compact text of a payload, `serde_json::to_string(..).len()`
  pub text_len : Map String V → ℕ
  pub get_object : (m : Map String V) (k : String) → get (object m) k ≡ Map.get m k
  pub as_str_text : (s : String) → as_str (text s) ≡ some s
  pub as_array_array : (vs : List V) → as_array (array vs) ≡ some vs
  pub as_object_object : (m : Map String V) → as_object (object m) ≡ some m

-- A register value's `Serialize` and `DeserializeOwned`. A value that serde skips or folds may read back as
-- another: a pending payload that is JSON null reads back as no payload.
pub record Codec (V A : Type 0) : Type 0 where
  pub to_value : A → V
  pub from_value : V → Option A

-- A register value's `Serialize` and `DeserializeOwned`, derived by serde: what was written reads back.
pub record Serde (V A : Type 0) : Type 0 where
  pub to_value : A → V
  pub from_value : V → Option A
  pub from_to : (a : A) → from_value (to_value a) ≡ some a
