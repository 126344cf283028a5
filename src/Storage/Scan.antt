-- ===== src/Storage/Scan.antt =====
-- The queries of src/storage/mod.rs.
use mathlib.Core.List.{reverse}
use reve.Prelude.{
  ℕ, zero, suc, String, Bool, true, false, ◌&&◌, ◌||◌, Option, none, some, List, [], ◌∷◌, map,
  str_eq, leb, ◌==◌, filter, filter_map, take_while, drop_while, take, length,
}
use text.Mathlib.Text.{starts_with}
use reve.Map
use reve.Map.{Map, string_key}
use reve.Namespace.{Namespace, register_key, key_lt, rank}
use reve.Entry.{Entry, UsageRow, Register}
use reve.Storage.{Storage}

pub data Order : Type 0 where
  oldest_first newest_first : Order

pub record BranchScan : Type 0 where
  pub start : Option String
  pub stop_at_type : Option String
  pub stop_at_id : Option String
  pub entry_type : Option String
  pub custom_type : Option String
  pub order : Order
  pub limit : Option ℕ

-- `Option::is_some_and` and `is_none_or` on an equality.
abbrev pub is_text : Option String → String → Bool
is_text none t = false
is_text (some s) t = str_eq s t

abbrev pub none_or_text : Option String → String → Bool
none_or_text none t = true
none_or_text (some s) t = str_eq s t

abbrev pub none_or_some_text : Option String → Option String → Bool
none_or_some_text none t = true
none_or_some_text (some s) t = is_text t s

module _ {V : Type 0} where
  unfoldable pub entry : Storage V → String → Option (Entry V)
  entry s id = Map.get s.entries id

  unfoldable pub entry_count : Storage V → ℕ
  entry_count s = length s.entries

  unfoldable pub insert_found : Storage V → Map String (Entry V) → String → Map String (Entry V)
  insert_found s found id = elim (Map.get s.entries id) [
    | none ↦ found
    | some e ↦ Map.insert found id e
  ]

  unfoldable pub entries : Storage V → List String → Map String (Entry V)
  unfolding insert_found
  entries s [] = []
  entries s (id ∷ ids) = insert_found s (entries s ids) id

  unfoldable pub register : Storage V → Namespace → String → Option (Register V)
  register s namespace key = Map.get s.registers (namespace, key)

  -- From the first key that is not below the prefix, while the keys have it.
  unfoldable pub list_registers : Storage V → Namespace → String → List (Register V)
  list_registers s namespace key_prefix =
      map (λ e. e.1)
        (take_while (λ e. (rank e.0.0 == rank namespace) && starts_with e.0.1 key_prefix)
          (drop_while (λ e. key_lt e.0 (namespace, key_prefix)) s.registers))

  unfoldable pub register_count : Storage V → ℕ
  register_count s = length s.registers

  unfoldable pub stops : BranchScan → Entry V → Bool
  stops scan e = is_text scan.stop_at_type e.entry_type || is_text scan.stop_at_id e.id

  -- The path towards the root, on fuel; `none` means that the fuel ran out.
  unfoldable pub walk : ℕ → Storage V → BranchScan → Option String → Option (List (Entry V))
  walk zero s scan cursor = none
  walk (suc fuel) s scan none = some []
  walk (suc fuel) s scan (some id) = elim (Map.get s.entries id) [
    | none ↦ some []
    | some e ↦ elim (stops scan e) [
      | true ↦ some (e ∷ [])
      | false ↦ elim (walk fuel s scan e.parent_id) [ none ↦ none | some path ↦ some (e ∷ path) ]
    ]
  ]

  unfoldable pub oriented : Order → List (Entry V) → List (Entry V)
  oriented oldest_first path = reverse path
  oriented newest_first path = path

  unfoldable pub selects : BranchScan → Entry V → Bool
  selects scan e =
      none_or_text scan.entry_type e.entry_type && none_or_some_text scan.custom_type e.custom_type

  unfoldable pub limited : Option ℕ → List (Entry V) → List (Entry V)
  limited none es = es
  limited (some n) es = take n es

  unfoldable pub scan_branch : ℕ → Storage V → BranchScan → Option (List (Entry V))
  unfolding walk stops oriented selects limited
  scan_branch fuel s scan = elim (walk fuel s scan scan.start) [
    | none ↦ none
    | some path ↦ some (limited scan.limit (filter (selects scan) (oriented scan.order path)))
  ]

  unfoldable pub scan_entries : Storage V → Order → List (Entry V)
  unfolding oriented
  scan_entries s newest_first = reverse (filter_map (λ id. Map.get s.entries id) s.entry_order)
  scan_entries s oldest_first = filter_map (λ id. Map.get s.entries id) s.entry_order

  unfoldable pub scan_usage : Storage V → ℕ → List (UsageRow V)
  scan_usage s from_seq = filter (λ r. leb from_seq r.seq) s.usage

  unfoldable pub usage_count : Storage V → ℕ
  usage_count s = length s.usage

  unfoldable pub all_registers : Storage V → List (Register V)
  all_registers s = map (λ e. e.1) s.registers

  abbrev pub all_usage : Storage V → List (UsageRow V)
  all_usage s = s.usage

  -- The typed read: no register, or a value of another shape, is `None`.
  unfoldable pub register_value :
      {A : Type 0} → (V → Option A) → Storage V → Namespace → String → Option (A × ℕ)
  register_value from_value s namespace key = elim (Map.get s.registers (namespace, key)) [
    | none ↦ none
    | some r ↦ elim (from_value r.value) [ none ↦ none | some value ↦ some (value, r.seq) ]
  ]
