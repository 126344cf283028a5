-- ===== src/Map.antt =====
-- `BTreeMap` and `HashMap` as association lists in key order. The code never walks a `HashMap`, so
-- one model serves both.
use reve.Prelude.{
  String, ◌≡◌, refl, ◌↔◌, Bool, true, Option, none, some, List, [], ◌∷◌, arith, str_eq, eq_iff,
  str_lt, if◌then◌else◌,
}

pub record Key (K : Type 0) : Type 0 where
  pub beq : K → K → Bool
  pub beq_iff : (a b : K) → (beq a b ≡ true) ↔ (a ≡ b)
  pub lt : K → K → Bool

instance abbrev pub string_key : Key String
string_key = record { beq = str_eq; beq_iff = eq_iff; lt = str_lt }

abbrev pub Map : Type 0 → Type 0 → Type 0
Map K V = List (K × V)

pub beq_refl : {K : Type 0} ⦃key : Key K⦄ (k : K) → key.beq k k ≡ true
beq_refl ⦃key⦄ k = (key.beq_iff k k).1 refl

module _ {K V : Type 0} ⦃key : Key K⦄ where
  unfoldable pub get : Map K V → K → Option V
  get [] k = none
  get ((j, v) ∷ m) k = if key.beq j k then some v else get m k

  -- A key that is there has its value replaced; another goes before the first greater key.
  unfoldable pub insert : Map K V → K → V → Map K V
  insert [] k v = (k, v) ∷ []
  insert ((j, w) ∷ m) k v =
      let rest = insert m k v in
      if key.beq j k then (k, v) ∷ m else if key.lt k j then (k, v) ∷ (j, w) ∷ m else (j, w) ∷ rest

  unfoldable pub remove : Map K V → K → Map K V
  remove [] k = []
  remove ((j, w) ∷ m) k = let rest = remove m k in if key.beq j k then rest else (j, w) ∷ rest

  pub get-insert :
      (m : Map K V) (k j : K) (v : V)
      → get (insert m k v) j ≡ (if key.beq k j then some v else get m j)
  unfolding get insert
  get-insert [] k j v = refl
  get-insert ((i, w) ∷ m) k j v =
      ground (arith, get-insert m k j v, key.beq_iff i k, key.beq_iff k j, key.beq_iff i j)

  pub get-remove :
      (m : Map K V) (k j : K) → get (remove m k) j ≡ (if key.beq k j then none else get m j)
  unfolding get remove
  get-remove [] k j = ground arith
  get-remove ((i, w) ∷ m) k j =
      ground (arith, get-remove m k j, key.beq_iff i k, key.beq_iff k j, key.beq_iff i j)

  pub get-insert_self : (m : Map K V) (k : K) (v : V) → get (insert m k v) k ≡ some v
  get-insert_self m k v = rw (get-insert m k k v, beq_refl k)
