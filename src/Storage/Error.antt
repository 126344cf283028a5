-- ===== src/Storage/Error.antt =====
-- src/storage/mod.rs: `StorageError` and its results. What the texts interpolate stays data.
use reve.Prelude.{ℕ, String, ◌≡◌, refl}

-- The reasons that `Corrupt` gives; `malformed` carries the parser's text.
pub data Reason : Type 0 where
  malformed : String → Reason
  second_header : Reason
  missing_header : Reason
  not_increasing : ℕ → ℕ → Reason

pub data StorageError : Type 0 where
  io : String → StorageError
  corrupt : ℕ → Reason → StorageError
  version : ℕ → ℕ → StorageError
  storage_version : ℕ → ℕ → StorageError
  locked : String → StorageError
  duplicate_id : String → StorageError
  missing_parent : String → String → StorageError
  invalid : String → StorageError

pub data Result {ℓ} (A : Type ℓ) : Type ℓ where
  ok : A → Result A
  err : StorageError → Result A

module _ {ℓ κ} {A : Type ℓ} {B : Type κ} where
  infixl 5 ◌>>=◌
  -- The `?` operator.
  abbrev pub ◌>>=◌ : Result A → (A → Result B) → Result B
  err e >>= next = err e
  ok value >>= next = next value

  -- A chain that succeeds has succeeded at each of its steps.
  pub >>=-eq-ok :
      (first : Result A) (next : A → Result B) {b : B}
      → (first >>= next) ≡ ok b
      → (value : A) × (first ≡ ok value) × (next value ≡ ok b)
  >>=-eq-ok (err e) next h = cc
  >>=-eq-ok (ok value) next h = (value, refl, h)
