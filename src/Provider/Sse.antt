-- ===== src/Provider/Sse.antt =====
-- src/provider/sse.rs: the decoder of server-sent events. A text is the list of its characters' code points.
pub mod Chunks
pub mod Examples
use reve.Prelude.{
  ℕ, zero, suc, ◌+◌, Bool, true, false, ◌&&◌, not, Option, none, some, List, [], ◌∷◌, ◌++◌, ◌==◌,
  length, is_empty, is_some, if◌then◌else◌,
}

abbrev pub Text : Type 0
Text = List ℕ

abbrev pub line_feed : ℕ
line_feed = 10

abbrev pub colon : ℕ
colon = 58

abbrev pub event_field : Text
event_field = 101 ∷ 118 ∷ 101 ∷ 110 ∷ 116 ∷ []

abbrev pub data_field : Text
data_field = 100 ∷ 97 ∷ 116 ∷ 97 ∷ []

abbrev pub same_text : Text → Text → Bool
same_text [] [] = true
same_text [] (b ∷ bs) = false
same_text (a ∷ rest) [] = false
same_text (a ∷ rest) (b ∷ bs) = (a == b) && same_text rest bs

pub record Event : Type 0 where
  pub name : Option Text
  pub data_text : Text

pub record Decoder : Type 0 where
  pub buffer : Text
  pub name : Option Text
  pub lines : List Text

-- `Decoder::new`.
abbrev pub new_decoder : Decoder
new_decoder = record { buffer = []; name = none; lines = [] }

-- `trim_end_matches('\r')`: a carriage return goes when all that follows it goes.
abbrev pub trim_return : Text → Text
trim_return [] = []
trim_return (c ∷ cs) =
    let rest = trim_return cs in if (c == 13) && is_empty rest then [] else c ∷ rest

-- `split_once`, and the same at a line feed: what stands before the first such character and after it.
unfoldable pub split_at : ℕ → Text → Option (Text × Text)
split_at mark [] = none
split_at mark (c ∷ cs) =
    let rest = split_at mark cs in
    if c == mark then some ([], cs) else elim rest [ none ↦ none | some (a, b) ↦ some (c ∷ a, b) ]

abbrev pub strip_space : Text → Text
strip_space [] = []
strip_space (c ∷ cs) = if c == 32 then cs else c ∷ cs

-- `join("\n")`.
abbrev pub join_lines : List Text → Text
join_lines [] = []
join_lines (t ∷ []) = t
join_lines (t ∷ u ∷ ts) = t ++ line_feed ∷ join_lines (u ∷ ts)

abbrev pub set_field : Decoder → Text → Text → Decoder
set_field d field value =
    if same_text field event_field
    then record d { name = some value }
    else if same_text field data_field
    then record d { lines = d.lines ++ value ∷ [] }
    else d

abbrev pub read_field : Decoder → Text → Option (Text × Text) → Decoder
read_field d line none = set_field d line []
read_field d line (some (field, value)) = set_field d field (strip_space value)

abbrev pub starts_with_colon : Text → Bool
starts_with_colon [] = false
starts_with_colon (c ∷ cs) = c == colon

-- The method `line`: a blank line dispatches, unless there is nothing to dispatch.
unfoldable pub read_line : Decoder → Text → Option Event × Decoder
unfolding split_at
read_line d [] = if is_empty d.lines && not (is_some d.name) then (none, d) else (
  some (record { name = d.name; data_text = join_lines d.lines }),
  record d { name = none; lines = [] },
)
read_line d (c ∷ cs) =
    if starts_with_colon (c ∷ cs)
    then (none, d)
    else (none, read_field d (c ∷ cs) (split_at colon (c ∷ cs)))

abbrev pub emit : Option Event → List Event × Decoder → List Event × Decoder
emit none (events, d) = (events, d)
emit (some e) (events, d) = (e ∷ events, d)

-- The loop of `push`, on fuel: a line at a time while the buffer has one.
unfoldable pub take_lines : ℕ → Decoder → List Event × Decoder
unfolding read_line split_at
take_lines zero d = ([], d)
take_lines (suc fuel) d =
    let rest = take_lines fuel in
    elim (split_at line_feed d.buffer) [
      | none ↦ ([], d)
      | some (line, after) ↦
          let (event, d') = read_line (record d { buffer = after }) (trim_return line) in
          emit event (rest d')
    ]

-- Every line takes a character off the buffer, so its length is fuel enough.
unfoldable pub push : Decoder → Text → List Event × Decoder
unfolding take_lines
push d chunk =
    let d' : Decoder = record d { buffer = d.buffer ++ chunk } in take_lines (length d'.buffer) d'

abbrev pub then_push : List Event → List Event × Decoder → List Event × Decoder
then_push events (more, d) = (events ++ more, d)

-- The chunks of a stream, one push each.
unfoldable pub push_all : Decoder → List Text → List Event × Decoder
unfolding push
push_all d [] = ([], d)
push_all d (chunk ∷ chunks) =
    let (events, d') = push d chunk in then_push events (push_all d' chunks)
