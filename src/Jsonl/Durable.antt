-- ===== src/Jsonl/Durable.antt =====
-- The session file (src/storage/jsonl.rs) as the replay recipe of the maps (src/storage/mod.rs).
use mathlib.Core.List.{flatten, map-append}
use reve.Prelude.{
  ℕ, ◌+◌, ◌≡◌, refl, ◌∙◌, ap, sym, subst, some, List, [], ◌∷◌, ◌++◌, length, All, arith,
  append_assoc, append-nil,
}
use reve.Entry.{Header, Write, entry, usage, register, set, delete, write_seq, Line, commit_line}
use reve.Storage.{Storage, Sink, Wire, with_header, apply, apply_all, line_bytes}
use reve.Storage.Sequence.{Consecutive}
use reve.Storage.Tree.{seq-apply}
use reve.Jsonl.Open.{lines_bytes}
use reve.Jsonl.Bytes.{Readable}
use reve.Jsonl.Recover.{Rising, final_seq, file_lines}
use reve.Jsonl.Reopen.{IsCurrent, apply_all-sink, apply_all-append, replay_sink}

module _ {V : Type 0} where
  flatten_snoc :
      (txs : List (List (Write V))) (out : List (Write V))
      → flatten (txs ++ out ∷ []) ≡ flatten txs ++ out
  unfolding flatten
  flatten_snoc [] out = append-nil out
  flatten_snoc (ws ∷ txs) out = rw (flatten_snoc txs out) (sym (append_assoc ws (flatten txs) out))

  Rising-append_join :
      (n : ℕ) (ws vs : List (Write V))
      → Rising n ws
      → Rising (final_seq n ws) vs
      → Rising n (ws ++ vs)
  Rising-append_join n [] vs h g = g
  Rising-append_join n (w ∷ ws) vs (a, h) g = (a, Rising-append_join (write_seq w) ws vs h g)

  final_seq-append :
      (n : ℕ) (ws vs : List (Write V)) → final_seq n (ws ++ vs) ≡ final_seq (final_seq n ws) vs
  final_seq-append n [] vs = refl
  final_seq-append n (w ∷ ws) vs = final_seq-append (write_seq w) ws vs

  Consecutive-Rising :
      (n : ℕ) (ws : List (Write V))
      → Consecutive n ws
      → Rising n ws × (final_seq n ws ≡ n + length ws)
  Consecutive-Rising n [] c = (tt, omega arith)
  Consecutive-Rising n (w ∷ ws) (q, c) =
      let (r, f) = Consecutive-Rising (write_seq w) ws (subst (λ k. Consecutive k ws) (sym q) c) in
      ((omega arith, r), omega arith)

  header-apply : (s : Storage V) (w : Write V) → (apply s w).header ≡ s.header
  unfolding apply
  header-apply s (entry e) = refl
  header-apply s (usage row) = refl
  header-apply s (register (set n ns k v)) = refl
  header-apply s (register (delete n ns k)) = refl

  header-apply_all : (s : Storage V) (ws : List (Write V)) → (apply_all s ws).header ≡ s.header
  unfolding apply_all
  header-apply_all s [] = refl
  header-apply_all s (w ∷ ws) = header-apply_all (apply s w) ws ∙ header-apply s w

  seq-apply_all :
      (s : Storage V) (ws : List (Write V))
      → Consecutive s.seq ws
      → (apply_all s ws).seq ≡ s.seq + length ws
  unfolding apply_all
  seq-apply_all s [] c = omega arith
  seq-apply_all s (w ∷ ws) (q, c) =
      let n : (apply s w).seq ≡ s.seq + 1 = omega (arith, seq-apply s w) in
      omega (arith, seq-apply_all (apply s w) ws (subst (λ k. Consecutive k ws) (sym n) c))

module _ {V : Type 0} (wire : Wire V) where
  lines_bytes-snoc :
      (ls : List (Line V)) (l : Line V)
      → lines_bytes wire (ls ++ l ∷ []) ≡ lines_bytes wire ls ++ line_bytes wire l
  lines_bytes-snoc [] l = append-nil _
  lines_bytes-snoc (k ∷ ls) l =
      rw (lines_bytes-snoc ls l)
        (sym (append_assoc (line_bytes wire k) (lines_bytes wire ls) (line_bytes wire l)))

  file_lines-snoc :
      (h : Header) (txs : List (List (Write V))) (out : List (Write V))
      → lines_bytes wire (file_lines wire h (txs ++ out ∷ []))
        ≡ lines_bytes wire (file_lines wire h txs) ++ line_bytes wire (commit_line out)
  file_lines-snoc h txs out =
      rw (map-append commit_line txs (out ∷ []))
        (lines_bytes-snoc (file_lines wire h txs) (commit_line out))

  All-snoc :
      (ls : List (Line V)) (l : Line V)
      → All (Readable wire) ls
      → Readable wire l
      → All (Readable wire) (ls ++ l ∷ [])
  All-snoc [] l h g = (g, tt)
  All-snoc (k ∷ ls) l (a, h) g = (a, All-snoc ls l h g)

  -- The file holds the header and whole transactions; the maps are what their replay gives.
  pub record IsDurable (s : Storage V) : Type 0 where
    pub sink : Sink
    pub txs : List (List (Write V))
    pub held : s.sink ≡ some sink
    pub bytes : sink.file ≡ lines_bytes wire (file_lines wire s.header txs)
    pub state : s ≡ apply_all (with_header s.header (some sink)) (flatten txs)
    pub rising : Rising 0 (flatten txs)
    pub final : final_seq 0 (flatten txs) ≡ s.seq
    pub readable : All (Readable wire) (file_lines wire s.header txs)
    pub current : IsCurrent s.header

  -- The replay under another sink.
  pub replayed :
      (s : Storage V) (d : IsDurable s) (sink : Sink)
      → apply_all (with_header s.header (some sink)) (flatten d.txs) ≡ record s { sink = some sink }
  replayed s d sink =
      replay_sink wire s.header d.sink sink (flatten d.txs)
      ∙ ap (λ (t : Storage V). record t { sink = some sink }) (sym d.state)

  -- One more transaction in the file.
  pub extended-IsDurable :
      (s : Storage V) (d : IsDurable s) (out : List (Write V))
      → Consecutive s.seq out
      → Readable wire (commit_line out)
      → IsDurable (
          apply_all
            (record s {
              sink =
                  some
                    (record (d.sink) { file = d.sink.file ++ line_bytes wire (commit_line out) });
            })
            out)
  extended-IsDurable s d out c g =
      let sink : Sink = record (d.sink) {
        file = d.sink.file ++ line_bytes wire (commit_line out);
      } in
      let t : Storage V = record s { sink = some sink } in
      let u : Storage V = apply_all t out in
      let h : s.header ≡ u.header = sym (header-apply_all t out) in
      let flat = flatten_snoc d.txs out in
      let (r, f) = Consecutive-Rising s.seq out c in
      record {
        sink = sink;
        txs = d.txs ++ out ∷ [];
        held = ap (λ (x : Storage V). x.sink) (apply_all-sink s (some sink) out);
        bytes =
            ap (λ x. x ++ line_bytes wire (commit_line out)) d.bytes
            ∙ sym (file_lines-snoc s.header d.txs out)
            ∙ ap (λ x. lines_bytes wire (file_lines wire x (d.txs ++ out ∷ []))) h;
        state =
            ap (λ (x : Storage V). apply_all x out) (sym (replayed s d sink))
            ∙ sym (apply_all-append (with_header s.header (some sink)) (flatten d.txs) out)
            ∙ ap (apply_all (with_header s.header (some sink))) (sym flat)
            ∙ ap (λ x. apply_all (with_header x (some sink)) (flatten (d.txs ++ out ∷ []))) h;
        rising = subst (Rising 0) (sym flat) (
            Rising-append_join 0 (flatten d.txs) out d.rising
              (subst (λ n. Rising n out) (sym d.final) r));
        final =
            ap (final_seq 0) flat
            ∙ final_seq-append 0 (flatten d.txs) out
            ∙ ap (λ n. final_seq n out) d.final
            ∙ f
            ∙ sym (seq-apply_all t out c);
        readable =
            subst (λ x. All (Readable wire) (file_lines wire x (d.txs ++ out ∷ []))) h
              (rw (map-append commit_line d.txs (out ∷ []))
                (All-snoc (file_lines wire s.header d.txs) (commit_line out) d.readable g));
        current = subst IsCurrent h d.current;
      }
