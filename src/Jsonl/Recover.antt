-- ===== src/Jsonl/Recover.antt =====
-- Reading back a file of a header and whole transactions (src/storage/jsonl.rs).
use mathlib.Core.List.{flatten}
use reve.Prelude.{
  ℕ, ◌+◌, ◌<◌, ◌≡◌, refl, ◌∙◌, ap, sym, subst, some, List, [], ◌∷◌, ◌++◌, map, arith, append-nil,
  append_assoc, length, length-append, All,
}
use reve.Entry.{Header, Line, header, Write, entry, usage, register, write_seq, commit_line}
use reve.Storage.{Wire, ok, line_bytes}
use reve.Jsonl.Read.{
  Reading, go_on, count_write, note_writes, take_writes, take_line, read_lines, read_raws,
  start_reading,
}
use reve.Jsonl.Open.{lines_bytes}
use reve.Jsonl.Bytes.{Readable, take_lines, finish, read_lines-whole, take_lines-cons}

module _ {V : Type 0} where
  -- Every sequence number is above the ones before it and above `n`.
  abbrev pub Rising : ℕ → List (Write V) → Type 0
  Rising n [] = Unit
  Rising n (w ∷ ws) = (n < write_seq w) × Rising (write_seq w) ws

  abbrev pub final_seq : ℕ → List (Write V) → ℕ
  final_seq n [] = n
  final_seq n (w ∷ ws) = final_seq (write_seq w) ws

  pub Rising-append :
      (n : ℕ) (ws vs : List (Write V))
      → Rising n (ws ++ vs)
      → Rising n ws × Rising (final_seq n ws) vs
  Rising-append n [] vs h = (tt, h)
  Rising-append n (w ∷ ws) vs (a, h) =
      let (x, y) = Rising-append (write_seq w) ws vs h in ((a, x), y)

  -- What the loop keeps while it looks at the writes of one line.
  record Kept (r r' : Reading V) : Type 0 where
    same_header : r'.replay.header ≡ r.replay.header
    same_writes : r'.replay.writes ≡ r.replay.writes
    same_len : r'.replay.valid_len ≡ r.replay.valid_len

  count_write-Kept : (w : Write V) (r : Reading V) → Kept r (count_write w r)
  unfolding count_write
  count_write-Kept (entry e) r = record { same_header = refl; same_writes = refl; same_len = refl }
  count_write-Kept (usage row) r = record {
    same_header = refl;
    same_writes = refl;
    same_len = refl;
  }
  count_write-Kept (register w) r = record {
    same_header = refl;
    same_writes = refl;
    same_len = refl;
  }

  last_seq-count_write : (w : Write V) (r : Reading V) → (count_write w r).last_seq ≡ r.last_seq
  unfolding count_write
  last_seq-count_write (entry e) r = refl
  last_seq-count_write (usage row) r = refl
  last_seq-count_write (register w) r = refl

  note_writes-Rising :
      (ws : List (Write V)) (r : Reading V) (n : ℕ)
      → r.last_seq ≡ n
      → Rising n ws
      → (r' : Reading V) × (note_writes ws r ≡ ok r') × Kept r r' × (r'.last_seq ≡ final_seq n ws)
  unfolding note_writes
  note_writes-Rising [] r n q h =
      (r, refl, record { same_header = refl; same_writes = refl; same_len = refl }, q)
  note_writes-Rising (w ∷ ws) r n q (a, h) =
      let s : Reading V = record r { last_seq = write_seq w } in
      let (r', e, k, l) =
        note_writes-Rising ws (count_write w s) (write_seq w) (last_seq-count_write w s) h in
      let k' = count_write-Kept w s in
      (
        r',
        ground arith,
        record {
          same_header = k.same_header ∙ k'.same_header;
          same_writes = k.same_writes ∙ k'.same_writes;
          same_len = k.same_len ∙ k'.same_len;
        },
        l,
      )

  take_line_commit :
      (ws : List (Write V)) (len : ℕ) (r : Reading V)
      → take_line (commit_line ws) len r ≡ take_writes ws len (note_writes ws r)
  unfolding take_line
  take_line_commit [] len r = refl
  take_line_commit (w ∷ []) len r = refl
  take_line_commit (w ∷ v ∷ ws) len r = refl

module _ {V : Type 0} (wire : Wire V) where
  -- Whole transactions with rising numbers are all taken.
  take_lines-Rising :
      (txs : List (List (Write V))) (r : Reading V)
      → Rising r.last_seq (flatten txs)
      → (r' : Reading V) × (take_lines wire (map commit_line txs) r ≡ ok r')
        × (r'.replay.header ≡ r.replay.header)
        × (r'.replay.writes ≡ r.replay.writes ++ flatten txs)
        × (r'.replay.valid_len
            ≡ r.replay.valid_len + length (lines_bytes wire (map commit_line txs)))
  unfolding take_lines flatten
  take_lines-Rising [] r h = (r, refl, refl, sym (append-nil _), omega arith)
  take_lines-Rising (ws ∷ txs) r h =
      let (h₁, h₂) = Rising-append r.last_seq ws (flatten txs) h in
      let n : Reading V = record r { number = r.number + 1 } in
      let (s, e, k, l) = note_writes-Rising ws n r.last_seq refl h₁ in
      let len = length (line_bytes wire (commit_line ws)) in
      let t : Reading V = record s {
        replay = record (s.replay) {
          writes = s.replay.writes ++ ws;
          valid_len = s.replay.valid_len + len;
        };
      } in
      let q : take_line (commit_line ws) len n ≡ go_on t =
        take_line_commit ws len n ∙ unfold take_writes in rw e in
      let (r', a, b, c, d) =
        take_lines-Rising txs t (subst (λ x. Rising x (flatten txs)) (sym l) h₂) in
      (
        r',
        take_lines-cons wire (commit_line ws) (map commit_line txs) r (go_on t) q ∙ a,
        b ∙ k.same_header,
        c
            ∙ append_assoc s.replay.writes ws (flatten txs)
            ∙ ap (λ xs. xs ++ (ws ++ flatten txs)) k.same_writes,
        omega (
          arith,
          d,
          k.same_len,
          length-append {0} (line_bytes wire (commit_line ws))
              (lines_bytes wire (map commit_line txs)),
        ),
      )

  abbrev pub file_lines : Header → List (List (Write V)) → List (Line V)
  file_lines h txs = header h ∷ map commit_line txs

  -- A file of a header and of transactions with rising sequence numbers is read whole: the header, the
  -- writes in order, and every byte valid.
  pub read_lines-Rising :
      (h : Header) (txs : List (List (Write V)))
      → All (Readable wire) (file_lines h txs)
      → Rising 0 (flatten txs)
      → (dead : ℕ) × (read_lines wire (lines_bytes wire (file_lines h txs))
          ≡ ok (record {
            header = some h;
            writes = flatten txs;
            valid_len = length (lines_bytes wire (file_lines h txs));
            dead_writes = dead;
          }))
  read_lines-Rising h txs good up =
      let len = length (line_bytes wire (header h)) in
      let t : Reading V = record (start_reading) {
        number = 1;
        replay = record { header = some h; writes = []; valid_len = 0 + len; dead_writes = 0 };
      } in
      let (r, a, b, c, d) = take_lines-Rising txs t up in
      let e : r.replay.valid_len ≡ length (lines_bytes wire (file_lines h txs)) = omega (
        arith,
        d,
        length-append {0} (line_bytes wire (header h)) (lines_bytes wire (map commit_line txs)),
      ) in
      (
        r.replay.dead_writes,
        read_lines-whole wire (file_lines h txs) good
            ∙ ap (finish wire []) (
                take_lines-cons wire (header h) (map commit_line txs) start_reading (go_on t)
                  (unfold take_line in refl)
                ∙ a)
            ∙ (unfold finish read_raws in
                λ i. ok (record {
                  header = b i;
                  writes = c i;
                  valid_len = e i;
                  dead_writes = r.replay.dead_writes;
                })),
      )
