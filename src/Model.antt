-- ===== src/Model.antt =====
-- src/model.rs: one turn of the model, and the message it is kept as.
use reve.Prelude.{
  ◌≡◌, ◌∙◌, ap, sym, String, ◌<>◌, true, Option, none, some, List, [], ◌∷◌, ◌++◌, map, str_eq,
  unwrap_or, append-nil, append_assoc, Bool-cases, inl, inr, eq_iff, arith, if◌then◌else◌,
}
use text.Mathlib.TextLemmas.{nil-append}
use reve.Map
use reve.Map.{Map, string_key}
use reve.Json.{Json, Serde}
use reve.Entry.{Usage, no_usage}

pub record ToolCall (V : Type 0) : Type 0 where
  pub id : String
  pub name : String
  pub arguments : Map String V

pub data StopReason : Type 0 where
  stop tool_use length error aborted : StopReason

pub record Assistant (V : Type 0) : Type 0 where
  pub text : String
  pub tool_calls : List (ToolCall V)
  pub stop_reason : StopReason
  pub usage : Usage
  pub error_message : Option String

-- `Assistant::text` and `Assistant::error`.
abbrev pub text_turn : {V : Type 0} → String → Assistant V
text_turn text = record {
  text = text;
  tool_calls = [];
  stop_reason = stop;
  usage = no_usage;
  error_message = none;
}

abbrev pub error_turn : {V : Type 0} → String → Assistant V
error_turn message = record (text_turn "") { stop_reason = error; error_message = some message }

-- `Option::and_then`.
abbrev pub and_then : {A B : Type 0} → Option A → (A → Option B) → Option B
and_then none f = none
and_then (some a) f = f a

is_blank : (text : String) → str_eq text "" ≡ true → text ≡ ""
is_blank text h = ground (arith, eq_iff text "")

module _ {V : Type 0} (json : Json V) where
  abbrev pub field_str : V → String → Option String
  field_str v k = and_then (json.get v k) json.as_str

  abbrev tool_call_of : V → ToolCall V
  tool_call_of part = record {
    id = unwrap_or (field_str part "id") "";
    name = unwrap_or (field_str part "name") "";
    arguments = unwrap_or (and_then (json.get part "arguments") json.as_object) [];
  }

  -- The two variables of the loop over the parts of the content.
  abbrev Parts : Type 0
  Parts = String × List (ToolCall V)

  abbrev read_part : Parts → V → Option String → Parts
  read_part (text, calls) part none = (text, calls)
  read_part (text, calls) part (some kind) =
      if str_eq kind "text"
      then (text <> unwrap_or (field_str part "text") "", calls)
      else if str_eq kind "toolCall"
      then (text, calls ++ tool_call_of part ∷ [])
      else (text, calls)

  abbrev read_parts : Parts → List V → Parts
  read_parts acc [] = acc
  read_parts acc (part ∷ parts) = read_parts (read_part acc part (field_str part "type")) parts

  module _ (stop_reason : Serde V StopReason) (usage : Serde V Usage) where
    abbrev assistant_of : V → Parts → Assistant V
    assistant_of message (text, calls) = record {
      text = text;
      tool_calls = calls;
      stop_reason =
          unwrap_or (and_then (json.get message "stopReason") stop_reason.from_value) stop;
      usage = unwrap_or (and_then (json.get message "usage") usage.from_value) no_usage;
      error_message = field_str message "errorMessage";
    }

    unfoldable pub from_message : V → Option (Assistant V)
    from_message message = and_then (field_str message "role") λ role.
        if str_eq role "assistant"
        then and_then (and_then (json.get message "content") json.as_array)
            (λ parts. some (assistant_of message (read_parts ("", []) parts)))
        else none

    abbrev call_part : ToolCall V → V
    call_part call = json.object (
        Map.insert
          (Map.insert
            (Map.insert (Map.insert [] "type" (json.text "toolCall")) "id" (json.text call.id))
            "name" (json.text call.name))
          "arguments" (json.object call.arguments))

    abbrev text_part : String → List V
    text_part text =
        if str_eq text ""
        then []
        else json.object
            (Map.insert (Map.insert [] "type" (json.text "text")) "text" (json.text text))
          ∷ []

    abbrev base_message : Assistant V → Map String V
    base_message a =
        Map.insert
          (Map.insert
            (Map.insert (Map.insert [] "role" (json.text "assistant")) "content"
              (json.array (text_part a.text ++ map call_part a.tool_calls)))
            "stopReason" (stop_reason.to_value a.stop_reason))
          "usage" (usage.to_value a.usage)

    abbrev with_error : Option String → Map String V → Map String V
    with_error none m = m
    with_error (some e) m = Map.insert m "errorMessage" (json.text e)

    unfoldable pub message : Assistant V → V
    message a = json.object (with_error a.error_message (base_message a))

    field-text :
        (m : Map String V) (k s : String)
        → Map.get m k ≡ some (json.text s)
        → field_str (json.object m) k ≡ some s
    field-text m k s q = rw (json.get_object m k, q) (json.as_str_text s)

    read-call :
        (call : ToolCall V) (text : String) (calls : List (ToolCall V))
        → read_part (text, calls) (call_part call) (field_str (call_part call) "type")
          ≡ (text, calls ++ call ∷ [])
    unfolding Map.get Map.insert
    read-call call text calls = simp (json.get_object, json.as_str_text, json.as_object_object)

    read-calls :
        (cs : List (ToolCall V)) (text : String) (calls : List (ToolCall V))
        → read_parts (text, calls) (map call_part cs) ≡ (text, calls ++ cs)
    read-calls [] text calls = ap (λ x. (text, x)) (sym (append-nil calls))
    read-calls (c ∷ cs) text calls =
        ap (λ p. read_parts p (map call_part cs)) (read-call c text calls)
        ∙ (read-calls cs text (calls ++ c ∷ [])
            ∙ ap (λ x. (text, x)) (append_assoc calls (c ∷ []) cs))

    read-text :
        (text : String) (rest : List V) (calls : List (ToolCall V))
        → read_parts ("", calls) (text_part text ++ rest) ≡ read_parts (text, calls) rest
    unfolding Map.get Map.insert
    read-text text rest calls = elim (Bool-cases (str_eq text "")) [
      | inl blank ↦ rw blank (ap (λ t. read_parts (t, calls) rest) (sym (is_blank text blank)))
      | inr full ↦ rw full (
          simp (json.get_object, json.as_str_text)
            (ap (λ t. read_parts (t, calls) rest) (nil-append text)))
    ]

    parts-back :
        (a : Assistant V)
        → read_parts ("", []) (text_part a.text ++ map call_part a.tool_calls)
          ≡ (a.text, a.tool_calls)
    parts-back a =
        read-text a.text (map call_part a.tool_calls) [] ∙ read-calls a.tool_calls a.text []

    from_message-error :
        (a : Assistant V) (o : Option String)
        → from_message (message (record a { error_message = o }))
          ≡ some (record a { error_message = o })
    unfolding from_message message Map.get Map.insert
    from_message-error a none =
        simp
          (
            json.get_object, json.as_str_text, json.as_array_array, stop_reason.from_to,
            usage.from_to,
          )
          (λ i. some (record a {
            text = (parts-back a i).0;
            tool_calls = (parts-back a i).1;
            error_message = none;
          }))
    from_message-error a (some e) =
        simp
          (
            json.get_object, json.as_str_text, json.as_array_array, stop_reason.from_to,
            usage.from_to,
          )
          (λ i. some (record a {
            text = (parts-back a i).0;
            tool_calls = (parts-back a i).1;
            error_message = some e;
          }))

    -- A settled turn survives being kept as a message: what `message` writes, `from_message` reads back as
    -- the same turn, its tool calls in order.
    pub from_message-message : (a : Assistant V) → from_message (message a) ≡ some a
    from_message-message a = from_message-error a a.error_message
