-- ===== src/Jsonl/Bytes.antt =====
-- How the reader of src/storage/jsonl.rs cuts a file that the sink has written into its lines.
use reve.Prelude.{
  ℕ, ◌+◌, ◌≡◌, refl, inl, inr, String, Bool, true, false, List, [], ◌∷◌, ◌++◌, map, arith,
  append-nil, append_assoc, ◌∙◌, ap, sym, ◌⊎◌, ◌≢◌, ◌==◌, is_empty, length, All, Bool-cases,
}
use reve.Entry.{Line, header, single, batch}
use reve.Storage.{Wire, Result, ok, err, newline, line_bytes}
use reve.Jsonl.Read.{
  Reading, Replay, Verdict, go_on, stop, fail, raw_lines, is_complete, trim_end, take_line,
  read_line, read_raws, read_lines, start_reading, parsed_line,
}
use reve.Jsonl.Open.{lines_bytes}

abbrev pub IsPlain : ℕ → Type 0
IsPlain b = ((b == newline) ≡ false) × ((b == 13) ≡ false)

raw_lines-line :
    (xs rest : List ℕ)
    → All IsPlain xs
    → raw_lines (xs ++ newline ∷ rest) ≡ (xs ++ newline ∷ []) ∷ raw_lines rest
unfolding raw_lines
raw_lines-line [] rest h = refl
raw_lines-line (x ∷ xs) rest ((a, b), h) = rw (a, raw_lines-line xs rest h)

raw_lines-torn :
    (x : ℕ) (xs : List ℕ)
    → All (λ b. (b == newline) ≡ false) (x ∷ xs)
    → raw_lines (x ∷ xs) ≡ (x ∷ xs) ∷ []
unfolding raw_lines
raw_lines-torn x [] (a, h) = rw a
raw_lines-torn x (y ∷ xs) (a, h) = rw (a, raw_lines-torn y xs h)

is_complete-line : (xs : List ℕ) → is_complete (xs ++ newline ∷ []) ≡ true
unfolding is_complete
is_complete-line [] = refl
is_complete-line (x ∷ []) = refl
is_complete-line (x ∷ y ∷ xs) = is_complete-line (y ∷ xs)

is_complete-torn : (xs : List ℕ) → All (λ b. (b == newline) ≡ false) xs → is_complete xs ≡ false
unfolding is_complete
is_complete-torn [] h = refl
is_complete-torn (x ∷ []) (a, h) = a
is_complete-torn (x ∷ y ∷ xs) (a, h) = is_complete-torn (y ∷ xs) h

trim_end-line : (xs : List ℕ) → All IsPlain xs → trim_end (xs ++ newline ∷ []) ≡ xs
unfolding trim_end
trim_end-line [] h = refl
trim_end-line (x ∷ xs) ((a, b), h) = ground (arith, trim_end-line xs h)

module _ {V : Type 0} (wire : Wire V) where
  -- The line's text has no line break, is not empty, and reads back as the line.
  pub record Readable (l : Line V) : Type 0 where
    pub plain : All IsPlain (wire.encode l)
    pub inhabited : is_empty (wire.encode l) ≡ false
    pub parses : wire.parse (wire.encode l) ≡ inl l

  read_line-line :
      (l : Line V) (at_eof : Bool) (r : Reading V)
      → Readable l
      → read_line wire (line_bytes wire l) at_eof r
        ≡ take_line l (length (line_bytes wire l)) (record r { number = r.number + 1 })
  unfolding read_line
  read_line-line l at_eof r h =
      rw (trim_end-line (wire.encode l) h.plain, h.inhabited, h.parses, parsed_line)
        (rw (is_complete-line (wire.encode l)))

  raw_lines-lines :
      (ls : List (Line V)) (torn : List ℕ)
      → All Readable ls
      → raw_lines (lines_bytes wire ls ++ torn) ≡ map (line_bytes wire) ls ++ raw_lines torn
  raw_lines-lines [] torn h = refl
  raw_lines-lines (l ∷ ls) torn (a, h) = simp append_assoc (
      raw_lines-line (wire.encode l) (lines_bytes wire ls ++ torn) a.plain
      ∙ ap (◌∷◌ (line_bytes wire l)) (raw_lines-lines ls torn h))

  -- The loop over whole lines.
  unfoldable pub take_lines : List (Line V) → Reading V → Result (Reading V)
  take_lines [] r = ok r
  take_lines (l ∷ ls) r =
      elim (take_line l (length (line_bytes wire l)) (record r { number = r.number + 1 })) [
        | go_on r' ↦ take_lines ls r'
        | stop ↦ ok r
        | fail e ↦ err e
      ]

  take_line-ne-stop : (l : Line V) (n : ℕ) (r : Reading V) → take_line l n r ≢ stop
  unfolding take_line
  take_line-ne-stop (header h) n r e = ground arith
  take_line-ne-stop (single w) n r e = ground arith
  take_line-ne-stop (batch ws) n r e = ground arith

  unfoldable pub finish : List (List ℕ) → Result (Reading V) → Result (Replay V)
  finish raws (ok r) = read_raws wire raws r
  finish raws (err e) = err e

  abbrev resume : List (List ℕ) → Reading V → Verdict V → Result (Replay V)
  resume raws r (go_on r') = read_raws wire raws r'
  resume raws r stop = ok r.replay
  resume raws r (fail e) = err e

  read_raws-cons :
      (raw : List ℕ) (raws : List (List ℕ)) (r : Reading V) (v : Verdict V)
      → read_line wire raw (is_empty raws) r ≡ v
      → read_raws wire (raw ∷ raws) r ≡ resume raws r v
  unfolding read_raws
  read_raws-cons raw raws r (go_on r') q = rw (q, read_raws)
  read_raws-cons raw raws r stop q = rw (q, read_raws)
  read_raws-cons raw raws r (fail e) q = rw (q, read_raws)

  abbrev pub resume_lines : List (Line V) → Reading V → Verdict V → Result (Reading V)
  resume_lines ls r (go_on r') = take_lines ls r'
  resume_lines ls r stop = ok r
  resume_lines ls r (fail e) = err e

  pub take_lines-cons :
      (l : Line V) (ls : List (Line V)) (r : Reading V) (v : Verdict V)
      → take_line l (length (line_bytes wire l)) (record r { number = r.number + 1 }) ≡ v
      → take_lines (l ∷ ls) r ≡ resume_lines ls r v
  unfolding take_lines
  take_lines-cons l ls r (go_on r') q = rw (q, take_lines)
  take_lines-cons l ls r stop q = rw (q, take_lines)
  take_lines-cons l ls r (fail e) q = rw (q, take_lines)

  read_raws-lines_step :
      (l : Line V) (ls : List (Line V)) (raws : List (List ℕ)) (r : Reading V) (v : Verdict V)
      → Readable l
      → take_line l (length (line_bytes wire l)) (record r { number = r.number + 1 }) ≡ v
      → ((r' : Reading V)
          → read_raws wire (map (line_bytes wire) ls ++ raws) r' ≡ finish raws (take_lines ls r'))
      → read_raws wire (map (line_bytes wire) (l ∷ ls) ++ raws) r
        ≡ finish raws (take_lines (l ∷ ls) r)
  read_raws-lines_step l ls raws r v a q ih =
      read_raws-cons (line_bytes wire l) (map (line_bytes wire) ls ++ raws) r v
        (read_line-line l (is_empty (map (line_bytes wire) ls ++ raws)) r a ∙ q)
      ∙ (go v q ∙ ap (finish raws) (sym (take_lines-cons l ls r v q)))
    where
      go :
          (v : Verdict V)
          → take_line l (length (line_bytes wire l)) (record r { number = r.number + 1 }) ≡ v
          → resume (map (line_bytes wire) ls ++ raws) r v ≡ finish raws (resume_lines ls r v)
      go (go_on r') q = ih r'
      go stop q = absurd (take_line-ne-stop l _ _ q)
      go (fail e) q = unfold finish in refl

  read_raws-lines :
      (ls : List (Line V)) (raws : List (List ℕ)) (r : Reading V)
      → All Readable ls
      → read_raws wire (map (line_bytes wire) ls ++ raws) r ≡ finish raws (take_lines ls r)
  unfolding finish take_lines
  read_raws-lines [] raws r h = refl
  read_raws-lines (l ∷ ls) raws r (a, h) =
      read_raws-lines_step l ls raws r _ a refl (λ r'. read_raws-lines ls raws r' h)

  torn_parse :
      (p : Line V ⊎ String) (torn : List ℕ) (r : Reading V)
      → All (λ b. (b == newline) ≡ false) torn
      → parsed_line wire p torn true r ≡ stop
  unfolding parsed_line
  torn_parse (inl line) torn r h = rw (is_complete-torn torn h)
  torn_parse (inr e) torn r h = refl

  torn_verdict :
      (torn : List ℕ) (r : Reading V)
      → All (λ b. (b == newline) ≡ false) torn
      → ((r' : Reading V) × (read_line wire torn true r ≡ go_on r') × (r'.replay ≡ r.replay))
        ⊎ (read_line wire torn true r ≡ stop)
  unfolding read_line
  torn_verdict torn r h = elim (Bool-cases (is_empty (trim_end torn))) [
    | inl blank ↦
        inl (record r { number = r.number + 1 }, rw (blank, is_complete-torn torn h), refl)
    | inr text ↦ inr (rw text (torn_parse (wire.parse (trim_end torn)) torn _ h))
  ]

  read_raws-torn :
      (torn : List ℕ) (r : Reading V)
      → All (λ b. (b == newline) ≡ false) torn
      → read_raws wire (raw_lines torn) r ≡ ok r.replay
  read_raws-torn [] r h = unfold read_raws raw_lines in refl
  read_raws-torn (x ∷ xs) r h = elim (torn_verdict (x ∷ xs) r h) [
    | inl (r', q, p) ↦
        rw (raw_lines-torn x xs h)
          (read_raws-cons (x ∷ xs) [] r (go_on r') q ∙ unfold read_raws in ap ok p)
    | inr q ↦ rw (raw_lines-torn x xs h) (read_raws-cons (x ∷ xs) [] r stop q)
  ]

  finish_torn :
      (torn : List ℕ) (o : Result (Reading V))
      → All (λ b. (b == newline) ≡ false) torn
      → finish (raw_lines torn) o ≡ finish [] o
  unfolding finish
  finish_torn torn (ok r) h = read_raws-torn torn r h ∙ unfold read_raws in refl
  finish_torn torn (err e) h = refl

  pub read_lines-lines :
      (ls : List (Line V)) (torn : List ℕ)
      → All Readable ls
      → All (λ b. (b == newline) ≡ false) torn
      → read_lines wire (lines_bytes wire ls ++ torn) ≡ finish [] (take_lines ls start_reading)
  unfolding read_lines
  read_lines-lines ls torn h t =
      rw (raw_lines-lines ls torn h)
        (read_raws-lines ls (raw_lines torn) start_reading h ∙ finish_torn torn _ t)

  -- A torn tail, that is any bytes without a newline behind whole lines that read back, is discarded
  -- whole: the reader returns what it returns for the whole lines alone.
  pub read_lines-torn :
      (ls : List (Line V)) (torn : List ℕ)
      → All Readable ls
      → All (λ b. (b == newline) ≡ false) torn
      → read_lines wire (lines_bytes wire ls ++ torn) ≡ read_lines wire (lines_bytes wire ls)
  read_lines-torn ls torn h t =
      read_lines-lines ls torn h t
      ∙ sym (read_lines-lines ls [] h tt)
      ∙ ap (read_lines wire) (append-nil (lines_bytes wire ls))

  pub read_lines-whole :
      (ls : List (Line V))
      → All Readable ls
      → read_lines wire (lines_bytes wire ls) ≡ finish [] (take_lines ls start_reading)
  read_lines-whole ls h =
      ap (read_lines wire) (sym (append-nil (lines_bytes wire ls))) ∙ read_lines-lines ls [] h tt
