-- ===== src/Driver/Abort/Open.antt =====
-- The open calls of a batch (src/lane.rs), and what completing one does to their number.
use reve.Prelude.{
  ℕ, ◌+◌, ◌<◌, ◌≤◌, ◌≡◌, subst, String, Bool, false, some, List, [], ◌∷◌, inl, inr, map,
  if◌then◌else◌, arith, eq_iff, Bool-cases,
}
use reve.Session.Checks.{sort, insert_sorted}
use reve.State.{ToolCallState, result_entry_id, is_completed}
use reve.Driver.Tools.{complete_call, find_pending, by_source}

abbrev one_if_open : ToolCallState → ℕ
one_if_open call = if is_completed call then 0 else 1

abbrev pub open_calls : List ToolCallState → ℕ
open_calls [] = 0
open_calls (call ∷ calls) = one_if_open call + open_calls calls

pub data Has (x : ToolCallState) : List ToolCallState → Type 0 where
  here : {xs : List ToolCallState} → Has x (x ∷ xs)
  later : {y : ToolCallState} {xs : List ToolCallState} → Has x xs → Has x (y ∷ xs)

under :
    (x a : ToolCallState) (xs ys : List ToolCallState)
    → (Has x xs → Has x ys)
    → Has x (a ∷ xs)
    → Has x (a ∷ ys)
under x a xs ys f here = here
under x a xs ys f (later h) = later (f h)

swap : (x a b : ToolCallState) (xs : List ToolCallState) → Has x (a ∷ b ∷ xs) → Has x (b ∷ a ∷ xs)
swap x a b xs here = later here
swap x a b xs (later here) = here
swap x a b xs (later (later h)) = later (later h)

insert-Has :
    (le : ToolCallState → ToolCallState → Bool) (x a : ToolCallState) (bs : List ToolCallState)
    → Has x (insert_sorted le a bs)
    → Has x (a ∷ bs)
insert-Has le x a [] h = h
insert-Has le x a (b ∷ bs) h = elim (Bool-cases (le a b)) [
  | inl first ↦ rw first at h
  | inr further ↦ swap x b a bs (under x b _ _ (insert-Has le x a bs) (rw further at h))
]

sort-Has :
    (le : ToolCallState → ToolCallState → Bool) (x : ToolCallState) (xs : List ToolCallState)
    → Has x (sort le xs)
    → Has x xs
sort-Has le x [] h = h
sort-Has le x (a ∷ xs) h = under x a _ _ (sort-Has le x xs) (insert-Has le x a (sort le xs) h)

find-Has :
    (x : ToolCallState) (xs : List ToolCallState)
    → find_pending xs ≡ some x
    → Has x xs × (is_completed x ≡ false)
find-Has x [] h = absurd (ground arith)
find-Has x (y ∷ ys) h = elim (Bool-cases (is_completed y)) [
  | inl closed ↦ let (m, o) = find-Has x ys (ground (arith, closed, h)) in (later m, o)
  | inr opened ↦
      let same : y ≡ x = ground (arith, opened, h) in
      (subst (λ z. Has z (y ∷ ys)) same here, subst (λ z. is_completed z ≡ false) same opened)
]

complete-le :
    (id : String) (t : Bool) (y : ToolCallState)
    → one_if_open (complete_call id t y) ≤ one_if_open y
complete-le id t y = ground arith

map-complete_le :
    (id : String) (t : Bool) (ys : List ToolCallState)
    → open_calls (map (complete_call id t) ys) ≤ open_calls ys
map-complete_le id t [] = omega arith
map-complete_le id t (y ∷ ys) = omega (arith, complete-le id t y, map-complete_le id t ys)

complete-itself :
    (t : Bool) (y : ToolCallState)
    → is_completed y ≡ false
    → one_if_open (complete_call (result_entry_id y) t y) < one_if_open y
complete-itself t y h = ground (arith, h, eq_iff (result_entry_id y) (result_entry_id y))

-- Completing the result of an open call leaves fewer open calls.
pub open_complete :
    (t : Bool) (x : ToolCallState) (ys : List ToolCallState)
    → Has x ys
    → is_completed x ≡ false
    → open_calls (map (complete_call (result_entry_id x) t) ys) < open_calls ys
open_complete t x _ (here {xs = xs}) h =
    omega (arith, complete-itself t x h, map-complete_le (result_entry_id x) t xs)
open_complete t x _ (later {y = y} {xs = xs} m) h =
    omega (arith, complete-le (result_entry_id x) t y, open_complete t x xs m h)

-- The open call that a batch turns to is one of its calls.
pub next-Has :
    (x : ToolCallState) (calls : List ToolCallState)
    → find_pending (by_source calls) ≡ some x
    → Has x calls × (is_completed x ≡ false)
next-Has x calls h = let (m, o) = find-Has x (by_source calls) h in (sort-Has _ x calls m, o)
