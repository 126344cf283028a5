-- ===== src/Compaction/Split.antt =====
-- How `prepare` of src/compaction.rs splits a context.
use mathlib.Core.List.{reverse, reverse-append}
use reve.Prelude.{
  ℕ, zero, suc, ◌-◌, ◌≤◌, ◌<◌, ◌≡◌, ◌≢◌, refl, ◌∙◌, ap, sym, ◌⊎◌, inl, inr, String, Bool, true,
  false, ◌&&◌, not, some, List, [], ◌∷◌, ◌++◌, ltb, ◌==◌, length, length-append, take, get_elem?,
  arith, eq_iff, Bool-cases, Option-cases,
}
use reve.Json.{Json}
use reve.Entry.{Entry, role}
use reve.State.{CompactionSettings, CompactionPreparation}
use reve.Session.Context.{estimate_tokens}
use reve.Compaction.{drop, tail_start, is_user, widen, messages, preparation_at, start_of, prepare}

take-drop : {A : Type 0} (n : ℕ) (xs : List A) → take n xs ++ drop n xs ≡ xs
take-drop zero xs = refl
take-drop (suc n) [] = refl
take-drop (suc n) (x ∷ xs) = ap (◌∷◌ x) (take-drop n xs)

-- Inside a list the rest from a place on starts with the element at that place.
drop-get :
    {A : Type 0} (n : ℕ) (xs : List A)
    → n < length xs
    → (x : A) × (rest : List A) × (get_elem? xs n ≡ some x) × (drop n xs ≡ x ∷ rest)
drop-get n [] h = absurd (omega arith)
drop-get zero (x ∷ xs) h = (x, xs, refl, refl)
drop-get (suc n) (x ∷ xs) h = drop-get n xs (omega arith)

take-nonempty : {A : Type 0} (n : ℕ) (xs : List A) → 0 < n → n < length xs → take n xs ≢ []
take-nonempty zero xs h g e = absurd (omega arith)
take-nonempty (suc n) [] h g e = absurd (omega arith)
take-nonempty (suc n) (x ∷ xs) h g e = ground arith

length-reverse : {A : Type 0} (xs : List A) → length (reverse xs) ≡ length xs
length-reverse [] = refl
length-reverse (x ∷ xs) =
    ap length (reverse-append (x ∷ []) xs)
    ∙ length-append (reverse xs) (x ∷ [])
    ∙ omega (arith, length-reverse xs)

module _ {V : Type 0} (json : Json V) (show : ℕ → String) where
  tail_start-le :
      (back : List (Entry V)) (budget : ℕ) (at_end : Bool)
      → tail_start json show back budget at_end ≤ length back
  unfolding tail_start
  tail_start-le [] budget at_end = omega arith
  tail_start-le (e ∷ back) budget at_end =
      ground (arith, tail_start-le back (budget - estimate_tokens json show (e ∷ [])) false)

  -- The newest entry is always in the tail.
  tail_start-lt :
      (back : List (Entry V)) (budget : ℕ)
      → 0 < length back
      → tail_start json show back budget true < length back
  unfolding tail_start
  tail_start-lt [] budget h = absurd (omega arith)
  tail_start-lt (e ∷ back) budget h =
      ground (arith, tail_start-le back (budget - estimate_tokens json show (e ∷ [])) false)

  widen-user :
      (context : List (Entry V)) (n : ℕ)
      → n < length context
      → (widen json show context n ≤ n)
        × ((widen json show context n ≡ 0)
            ⊎ (is_user json show (get_elem? context (widen json show context n)) ≡ true))
  unfolding widen
  widen-user context zero h = (omega arith, inl refl)
  widen-user context (suc n) h =
      let (l, u) = widen-user context n (omega arith) in
      elim (Bool-cases
        (ltb (suc n) (length context) && not (is_user json show (get_elem? context (suc n))))) [
          | inl on ↦ rw on (omega arith, u)
          | inr here ↦ rw here (omega arith, inr (ground arith))
        ]

  start_of-user :
      (context : List (Entry V)) (settings : CompactionSettings)
      → 2 ≤ length context
      → start_of json show context settings ≢ 0
      → (start_of json show context settings < length context)
        × (is_user json show (get_elem? context (start_of json show context settings)) ≡ true)
  unfolding start_of
  start_of-user context settings big far =
      let n = tail_start json show (reverse context) settings.keep_recent_tokens true in
      let m = length-reverse context in
      let small : n < length context = omega (
        arith,
        tail_start-lt (reverse context) settings.keep_recent_tokens (omega (arith, m)),
        m,
      ) in
      let (l, u) = widen-user context n small in
      elim u [ inl whole ↦ absurd (far whole) | inr user ↦ (omega arith, user) ]

  user_role : (e : Entry V) → is_user json show (some e) ≡ true → role json e ≡ some "user"
  user_role e h = elim (Option-cases (role json e)) [
    | inl q ↦ absurd (ground (arith, h, q))
    | inr (r, q) ↦ q ∙ ap some (ground (arith, h, q, eq_iff r "user"))
  ]

  prepare-some :
      (context : List (Entry V)) (settings : CompactionSettings) (p : CompactionPreparation V)
      → prepare json show context settings ≡ some p
      → (2 ≤ length context)
        × (start_of json show context settings ≢ 0)
        × (preparation_at json show context (start_of json show context settings) ≡ p)
  unfolding prepare
  prepare-some context settings p h = elim (Bool-cases (ltb (length context) 2)) [
    | inl few ↦ absurd (ground (arith, h, few))
    | inr many ↦ elim (Bool-cases (start_of json show context settings == 0)) [
      | inl whole ↦ absurd (ground (arith, h, many, whole))
      | inr cut ↦ (ground arith, ground (arith, cut), ground (arith, h, many, cut))
    ]
  ]

  -- What `prepare` returns, when it returns something: the context is cut into a head that is not
  -- empty and a tail that starts with a user's message; the messages of the head are summarised,
  -- those of the tail are kept, and the tokens are those of the whole.
  pub prepare_split :
      (context : List (Entry V)) (settings : CompactionSettings) (p : CompactionPreparation V)
      → prepare json show context settings ≡ some p
      → (head tail : List (Entry V)) × (turn : Entry V) × (context ≡ head ++ (turn ∷ tail))
        × (head ≢ [])
        × (role json turn ≡ some "user")
        × (p.messages_to_summarize ≡ messages json show head)
        × (p.retained_tail ≡ messages json show (turn ∷ tail))
        × (p.tokens_before ≡ estimate_tokens json show context)
  prepare_split context settings p h =
      let (big, far, q) = prepare-some context settings p h in
      let start = start_of json show context settings in
      let (inside, user) = start_of-user context settings big far in
      let (turn, tail, g, d) = drop-get start context inside in
      (
        take start context,
        tail,
        turn,
        sym (take-drop start context) ∙ ap (λ x. take start context ++ x) d,
        take-nonempty start context (ground (arith, far)) inside,
        user_role turn (sym (ap (is_user json show) g) ∙ user),
        ap (λ (x : CompactionPreparation V). x.messages_to_summarize) (sym q),
        ap (λ (x : CompactionPreparation V). x.retained_tail) (sym q) ∙ ap (messages json show) d,
        ap (λ (x : CompactionPreparation V). x.tokens_before) (sym q),
      )
