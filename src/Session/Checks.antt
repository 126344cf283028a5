-- ===== src/Session/Checks.antt =====
-- src/session.rs: what `restore` and `validate_current` are put together from.
use reve.Prelude.{
  ℕ, zero, suc, String, Bool, true, false, ◌&&◌, Option, none, some, List, [], ◌∷◌, str_eq, ◌==◌,
  if◌then◌else◌,
}
use reve.Map.{string_key}
use reve.Namespace.{register_key}
use reve.State.{OpKind}
use reve.Session

-- A check: nothing, or the first damage found.
abbrev pub Check : Type 0
Check = Option Session.Damage

abbrev pub first_of : Check → Check → Check
first_of none next = next
first_of (some d) next = some d

abbrev pub each : {A : Type 0} → (A → Check) → List A → Check
each f [] = none
each f (a ∷ rest) = first_of (f a) (each f rest)

unfoldable pub unless : Bool → Session.Damage → Check
unless true d = none
unless false d = some d

abbrev pub insert_sorted : {A : Type 0} → (A → A → Bool) → A → List A → List A
insert_sorted le a [] = a ∷ []
insert_sorted le a (b ∷ bs) =
    let rest = insert_sorted le a bs in if le a b then a ∷ b ∷ bs else b ∷ rest

-- `sort_unstable` and `sort`, on keys whose equal elements are one.
abbrev pub sort : {A : Type 0} → (A → A → Bool) → List A → List A
sort le [] = []
sort le (a ∷ rest) = insert_sorted le a (sort le rest)

-- `dedup`: of neighbours that are equal the first stays.
abbrev pub dedup_after : String → List String → List String
dedup_after a [] = []
dedup_after a (b ∷ bs) =
    let same = dedup_after a bs in
    let new = dedup_after b bs in if str_eq a b then same else b ∷ new

abbrev pub dedup : List String → List String
dedup [] = []
dedup (a ∷ rest) = a ∷ dedup_after a rest

abbrev pub range_from : ℕ → ℕ → List ℕ
range_from i zero = []
range_from i (suc n) = i ∷ range_from (suc i) n

abbrev pub same_list : List ℕ → List ℕ → Bool
same_list [] [] = true
same_list [] (y ∷ ys) = false
same_list (x ∷ xs) [] = false
same_list (x ∷ xs) (y ∷ ys) = (x == y) && same_list xs ys

abbrev pub kind_eq : OpKind → OpKind → Bool
kind_eq OpKind.run OpKind.run = true
kind_eq OpKind.compaction OpKind.compaction = true
kind_eq OpKind.navigation OpKind.navigation = true
kind_eq _ _ = false

-- `ok_or_else(..)?` of this function.
unfoldable pub need :
    {A B : Type 0} → String → Option A → Session.Damage → (A → Session.Result B) → Session.Result B
need lane none d next = Session.err (Session.corrupt lane d)
need lane (some a) d next = next a

unfoldable pub pass : {B : Type 0} → String → Check → Session.Result B → Session.Result B
pass lane none next = next
pass lane (some d) next = Session.err (Session.corrupt lane d)
