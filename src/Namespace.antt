-- ===== src/Namespace.antt =====
-- src/entry.rs: the register namespaces, in their derived order, and the keys of the register map.
use reve.Prelude.{
  ℕ, zero, suc, String, ◌≡◌, refl, ◌↔◌, ap, ◌∙◌, sym, Bool, true, false, ◌&&◌, ◌||◌, arith, ltb,
  ◌==◌, str_eq, eq_iff, str_lt,
}
use reve.Map.{Key}

pub data Namespace : Type 0 where
  lane_leaf lane_config lane_state lane_last_result : Namespace
  op_meta op_state op_tool_args op_preparation : Namespace
  pending_entry fact_name fact_label fact_custom : Namespace

-- The derived `Ord` compares the positions of the variants.
abbrev pub rank : Namespace → ℕ
rank lane_leaf = 0
rank lane_config = 1
rank lane_state = 2
rank lane_last_result = 3
rank op_meta = 4
rank op_state = 5
rank op_tool_args = 6
rank op_preparation = 7
rank pending_entry = 8
rank fact_name = 9
rank fact_label = 10
rank fact_custom = 11

unfoldable pub as_str : Namespace → String
as_str lane_leaf = "lane.leaf"
as_str lane_config = "lane.config"
as_str lane_state = "lane.state"
as_str lane_last_result = "lane.lastResult"
as_str op_meta = "op.meta"
as_str op_state = "op.state"
as_str op_tool_args = "op.tool_args"
as_str op_preparation = "op.preparation"
as_str pending_entry = "pending.entry"
as_str fact_name = "fact.name"
as_str fact_label = "fact.label"
as_str fact_custom = "fact.custom"

-- Operation-lived namespaces, deleted by the terminal transaction.
unfoldable pub is_operation_scoped : Namespace → Bool
is_operation_scoped op_meta = true
is_operation_scoped op_state = true
is_operation_scoped op_tool_args = true
is_operation_scoped op_preparation = true
is_operation_scoped _ = false

of_rank : ℕ → Namespace
of_rank zero = lane_leaf
of_rank (suc zero) = lane_config
of_rank (suc (suc zero)) = lane_state
of_rank (suc (suc (suc zero))) = lane_last_result
of_rank (suc (suc (suc (suc zero)))) = op_meta
of_rank (suc (suc (suc (suc (suc zero))))) = op_state
of_rank (suc (suc (suc (suc (suc (suc zero)))))) = op_tool_args
of_rank (suc (suc (suc (suc (suc (suc (suc zero))))))) = op_preparation
of_rank (suc (suc (suc (suc (suc (suc (suc (suc zero)))))))) = pending_entry
of_rank (suc (suc (suc (suc (suc (suc (suc (suc (suc zero))))))))) = fact_name
of_rank (suc (suc (suc (suc (suc (suc (suc (suc (suc (suc zero)))))))))) = fact_label
of_rank _ = fact_custom

of_rank-rank : (n : Namespace) → of_rank (rank n) ≡ n
unfolding of_rank
of_rank-rank lane_leaf = refl
of_rank-rank lane_config = refl
of_rank-rank lane_state = refl
of_rank-rank lane_last_result = refl
of_rank-rank op_meta = refl
of_rank-rank op_state = refl
of_rank-rank op_tool_args = refl
of_rank-rank op_preparation = refl
of_rank-rank pending_entry = refl
of_rank-rank fact_name = refl
of_rank-rank fact_label = refl
of_rank-rank fact_custom = refl

rank_injective : (m n : Namespace) → rank m ≡ rank n → m ≡ n
rank_injective m n h = sym (of_rank-rank m) ∙ ap of_rank h ∙ of_rank-rank n

abbrev pub RegisterKey : Type 0
RegisterKey = Namespace × String

abbrev pub key_eq : RegisterKey → RegisterKey → Bool
key_eq (m, k) (n, j) = (rank m == rank n) && str_eq k j

-- Pairs are compared from left to right.
abbrev pub key_lt : RegisterKey → RegisterKey → Bool
key_lt (m, k) (n, j) = ltb (rank m) (rank n) || ((rank m == rank n) && str_lt k j)

pub key_eq_iff : (a b : RegisterKey) → (key_eq a b ≡ true) ↔ (a ≡ b)
key_eq_iff (m, k) (n, j) = (to, from)
  where
    to : key_eq (m, k) (n, j) ≡ true → ◌≡◌ {A = RegisterKey} (m, k) (n, j)
    to h = ground (arith, eq_iff k j, rank_injective m n)

    from : ◌≡◌ {A = RegisterKey} (m, k) (n, j) → key_eq (m, k) (n, j) ≡ true
    from h =
        ground
          (arith, eq_iff k j, ap (λ (x : RegisterKey). rank x.0) h, ap (λ (x : RegisterKey). x.1) h)

instance abbrev pub register_key : Key RegisterKey
register_key = record { beq = key_eq; beq_iff = key_eq_iff; lt = key_lt }
