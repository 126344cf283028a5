-- ===== src/Provider/Sse/Chunks.antt =====
-- How the bytes of a stream are cut into chunks does not matter to src/provider/sse.rs.
use reve.Prelude.{
  ℕ, zero, suc, ◌≤◌, ◌≡◌, refl, sym, ap, ◌∙◌, subst, Bool, true, false, Option, none, some, List,
  [], ◌∷◌, ◌++◌, append-nil, append_assoc, ◌==◌, length, length-append, All, arith, Bool-cases,
  is_empty, is_some, ◌&&◌, not, inl, inr, if◌then◌else◌,
}
use reve.Provider.Sse.{
  Text, line_feed, Event, Decoder, new_decoder, trim_return, split_at, read_line, emit, take_lines,
  push, then_push, push_all, set_field, same_text, event_field, data_field, read_field, strip_space,
  colon,
}

-- The reference: a machine that reads one character after another. The buffer is the line so far.
abbrev finish_line : Decoder → Option Event × Decoder
finish_line d = read_line (record d { buffer = [] }) (trim_return d.buffer)

abbrev after_line : Option Event × Decoder → (Decoder → List Event × Decoder) → List Event × Decoder
after_line (event, d) next = emit event (next d)

unfoldable pub decode : Decoder → Text → List Event × Decoder
decode d [] = ([], d)
decode d (c ∷ cs) =
    let line_end = after_line (finish_line d) (λ d'. decode d' cs) in
    let go_on = decode (record d { buffer = d.buffer ++ c ∷ [] }) cs in
    if c == line_feed then line_end else go_on

abbrev NoFeed : Text → Type 0
NoFeed = All (λ c. (c == line_feed) ≡ false)

NoFeed-snoc : (xs : Text) (c : ℕ) → NoFeed xs → (c == line_feed) ≡ false → NoFeed (xs ++ c ∷ [])
NoFeed-snoc [] c h p = (p, tt)
NoFeed-snoc (x ∷ xs) c (a, h) p = (a, NoFeed-snoc xs c h p)

split_none : (b : Text) → NoFeed b → split_at line_feed b ≡ none
unfolding split_at
split_none [] h = refl
split_none (x ∷ b) (a, h) = rw (a, split_none b h) refl

split_some :
    (b cs : Text) (c : ℕ)
    → NoFeed b
    → (c == line_feed) ≡ true
    → split_at line_feed (b ++ c ∷ cs) ≡ some (b, cs)
unfolding split_at
split_some [] cs c h p = rw p refl
split_some (x ∷ b) cs c (a, h) p = rw (a, split_some b cs c h p) refl

-- Reading a line leaves the buffer alone.
buffer-read_line : (d : Decoder) (line : Text) → (read_line d line).1.buffer ≡ d.buffer
unfolding read_line
buffer-read_line d [] = ground arith
buffer-read_line d (c ∷ cs) = ground arith

-- What a line does, with any buffer, is what it does with an empty one.
abbrev with_buffer : Text → Decoder → Decoder
with_buffer b d = record d { buffer = b }

set_field-buffer :
    (b : Text) (d : Decoder) (field value : Text)
    → set_field (with_buffer b d) field value
      ≡ with_buffer b (set_field (with_buffer [] d) field value)
set_field-buffer b d field value = elim (Bool-cases (same_text field event_field)) [
  | inl is_event ↦ rw is_event refl
  | inr other ↦ elim (Bool-cases (same_text field data_field)) [
    | inl is_data ↦ rw (other, is_data) refl
    | inr neither ↦ rw (other, neither) refl
  ]
]

read_field-buffer :
    (b : Text) (d : Decoder) (line : Text) (o : Option (Text × Text))
    → read_field (with_buffer b d) line o ≡ with_buffer b (read_field (with_buffer [] d) line o)
read_field-buffer b d line none = set_field-buffer b d line []
read_field-buffer b d line (some (field, value)) = set_field-buffer b d field (strip_space value)

abbrev field_line : Bool → Decoder → Text → Option (Text × Text) → Option Event × Decoder
field_line comment d line o = if comment then (none, d) else (none, read_field d line o)

field_line-buffer :
    (comment : Bool) (b : Text) (d : Decoder) (line : Text) (o : Option (Text × Text))
    → field_line comment (with_buffer b d) line o ≡ (
      (field_line comment (with_buffer [] d) line o).0,
      with_buffer b (field_line comment (with_buffer [] d) line o).1,
    )
field_line-buffer true b d line o = refl
field_line-buffer false b d line o = λ i. (none, read_field-buffer b d line o i)

read_line-buffer :
    (b : Text) (d : Decoder) (line : Text)
    → read_line (with_buffer b d) line
      ≡ ((read_line (with_buffer [] d) line).0, with_buffer b (read_line (with_buffer [] d) line).1)
unfolding read_line
read_line-buffer b d [] = elim (Bool-cases (is_empty d.lines && not (is_some d.name))) [
  | inl nothing ↦ rw nothing refl
  | inr something ↦ rw something refl
]
read_line-buffer b d (c ∷ cs) =
    field_line-buffer (c == colon) b d (c ∷ cs) (split_at colon (c ∷ cs))

take_none :
    (n : ℕ) (d : Decoder) (b : Text)
    → split_at line_feed b ≡ none
    → take_lines (suc n) (with_buffer b d) ≡ ([], with_buffer b d)
unfolding take_lines
take_none n d b q = rw (q, take_lines) refl

take_some :
    (n : ℕ) (d : Decoder) (b line after : Text)
    → split_at line_feed b ≡ some (line, after)
    → take_lines (suc n) (with_buffer b d)
      ≡ after_line (read_line (with_buffer after d) (trim_return line)) (take_lines n)
unfolding take_lines
take_some n d b line after q = rw (q, take_lines) refl

with_own : (b : Text) (d : Decoder) → d.buffer ≡ b → with_buffer b d ≡ d
with_own b d p = λ i. with_buffer (sym p i) d

-- The loop over the buffer is the machine run over what the buffer has past its first line's start.
take_lines-decode :
    (cs : Text) (n : ℕ) (d : Decoder) (b : Text)
    → NoFeed b
    → length (b ++ cs) ≤ n
    → take_lines n (with_buffer (b ++ cs) d) ≡ decode (with_buffer b d) cs
unfolding take_lines decode
take_lines-decode [] zero d b h l = λ i. ([], with_buffer (append-nil b i) d)
take_lines-decode [] (suc n) d b h l =
    ap (λ x. take_lines (suc n) (with_buffer x d)) (append-nil b) ∙ take_none n d b (split_none b h)
take_lines-decode (c ∷ cs) zero d b h l = absurd (omega (arith, length-append b (c ∷ cs), l))
take_lines-decode (c ∷ cs) (suc n) d b h l = elim (Bool-cases (c == line_feed)) [
  | inl feed ↦
      let r = read_line (with_buffer [] d) (trim_return b) in
      let ih = take_lines-decode cs n r.1 [] tt (omega (arith, length-append b (c ∷ cs), l)) in
      let clean = with_own [] r.1 (buffer-read_line (with_buffer [] d) (trim_return b)) in
      rw feed (
        take_some n d (b ++ c ∷ cs) b cs (split_some b cs c h feed)
        ∙ ap (λ x. after_line x (take_lines n)) (read_line-buffer cs d (trim_return b))
        ∙ ap (emit r.0) (ih ∙ ap (λ x. decode x cs) clean))
  | inr go_on ↦ rw go_on (
      ap (λ x. take_lines (suc n) (with_buffer x d)) (sym (append_assoc b (c ∷ []) cs))
      ∙ take_lines-decode cs (suc n) d (b ++ c ∷ []) (NoFeed-snoc b c h go_on) (
          omega (
            arith,
            length-append b (c ∷ cs),
            length-append (b ++ c ∷ []) cs,
            length-append b (c ∷ []),
            l,
          )))
]

push-decode : (d : Decoder) (chunk : Text) → NoFeed d.buffer → push d chunk ≡ decode d chunk
unfolding push
push-decode d chunk h =
    take_lines-decode chunk (length (d.buffer ++ chunk)) d d.buffer h (omega arith)

decoder_of : (e : Option Event) (r : List Event × Decoder) → (emit e r).1 ≡ r.1
decoder_of none r = refl
decoder_of (some e) r = refl

emit-then_push :
    (e : Option Event) (x r : List Event × Decoder)
    → emit e (then_push x.0 r) ≡ then_push (emit e x).0 r
emit-then_push none x r = refl
emit-then_push (some e) x r = refl

-- The machine keeps no complete line in its buffer.
decode-NoFeed : (cs : Text) (d : Decoder) → NoFeed d.buffer → NoFeed (decode d cs).1.buffer
unfolding decode
decode-NoFeed [] d h = h
decode-NoFeed (c ∷ cs) d h = elim (Bool-cases (c == line_feed)) [
  | inl feed ↦
      let r = finish_line d in
      let clean = buffer-read_line (with_buffer [] d) (trim_return d.buffer) in
      rw feed (
        subst (λ (x : Decoder). NoFeed x.buffer) (sym (decoder_of r.0 (decode r.1 cs)))
          (decode-NoFeed cs r.1 (subst NoFeed (sym clean) tt)))
  | inr go_on ↦
      rw go_on (
        decode-NoFeed cs (record d { buffer = d.buffer ++ c ∷ [] })
          (NoFeed-snoc d.buffer c h go_on))
]

-- The machine may stop anywhere and go on.
decode-append :
    (xs ys : Text) (d : Decoder)
    → decode d (xs ++ ys) ≡ then_push (decode d xs).0 (decode (decode d xs).1 ys)
unfolding decode
decode-append [] ys d = refl
decode-append (c ∷ xs) ys d = elim (Bool-cases (c == line_feed)) [
  | inl feed ↦
      let r = finish_line d in
      let first = decode r.1 xs in
      rw feed (
        ap (emit r.0) (decode-append xs ys r.1)
        ∙ emit-then_push r.0 first (decode first.1 ys)
        ∙ ap (λ x. then_push (emit r.0 first).0 (decode x ys)) (sym (decoder_of r.0 first)))
  | inr go_on ↦ rw go_on (decode-append xs ys (record d { buffer = d.buffer ++ c ∷ [] }))
]

abbrev pub whole : List Text → Text
whole [] = []
whole (chunk ∷ chunks) = chunk ++ whole chunks

push_all-decode :
    (chunks : List Text) (d : Decoder)
    → NoFeed d.buffer
    → push_all d chunks ≡ decode d (whole chunks)
unfolding push_all decode
push_all-decode [] d h = refl
push_all-decode (chunk ∷ chunks) d h =
    ap (λ x. then_push x.0 (push_all x.1 chunks)) (push-decode d chunk h)
    ∙ ap (then_push (decode d chunk).0)
        (push_all-decode chunks (decode d chunk).1 (decode-NoFeed chunk d h))
    ∙ sym (decode-append chunk (whole chunks) d)

-- The decoder does not see how a stream is cut into chunks: pushing the chunks one after another gives the
-- events, and leaves the decoder, that one push of the whole text gives, which are those of the
-- machine that reads the text one character after another.
pub chunks_do_not_matter :
    (chunks : List Text)
    → (push_all new_decoder chunks ≡ push new_decoder (whole chunks))
      × (push new_decoder (whole chunks) ≡ decode new_decoder (whole chunks))
chunks_do_not_matter chunks =
    let once = push-decode new_decoder (whole chunks) tt in
    (push_all-decode chunks new_decoder tt ∙ sym once, once)
