-- ===== src/Provider/Sse/Examples.antt =====
-- A small stream for src/provider/sse.rs.
use reve.Prelude.{◌≡◌, refl, none, List, [], ◌∷◌}
use reve.Provider.Sse.{Text, new_decoder, push, push_all, take_lines, read_line, split_at}
use reve.Provider.Sse.Chunks.{decode, whole, chunks_do_not_matter}

-- `data: x`, its line feed and the blank line, cut inside the field's name and before the blank line.
abbrev cut : List Text
cut = (100 ∷ 97 ∷ []) ∷ (116 ∷ 97 ∷ 58 ∷ 32 ∷ 120 ∷ 13 ∷ 10 ∷ []) ∷ (10 ∷ []) ∷ []

one_event :
    push_all new_decoder cut ≡ (record { name = none; data_text = 120 ∷ [] } ∷ [], new_decoder)
unfolding push_all push take_lines read_line split_at
one_event = refl

chunks_do_not_matter_example :
    (push_all new_decoder cut ≡ push new_decoder (whole cut))
    × (push new_decoder (whole cut) ≡ decode new_decoder (whole cut))
chunks_do_not_matter_example = chunks_do_not_matter cut
