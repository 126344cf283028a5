-- ===== src/Storage/Examples.antt =====
-- Small sessions of src/storage/mod.rs, run.
use reve.Prelude.{
  ℕ, ◌+◌, ◌<◌, ◌≡◌, refl, ◌⊎◌, inr, ℤ, String, false, none, some, List, [], ◌∷◌, arith, All, wrap64,
  u64_mod, filter, eq_iff, contains,
}
use reve.Map
use reve.Namespace.{register_key, fact_name}
use reve.Entry.{Entry, Register, Write, entry, Line, header, batch, single}
use reve.Storage.{
  check, check_entry, parent_missing, stamp, publish, with_header, apply, apply_entry, Storage,
  Wire, done, failed, ok, memory, newline, commit, validate, has_entry, apply_all,
}
use reve.Storage.Scan.{scan_branch, selects, oriented, limited, newest_first}
use reve.Storage.Sequence.{Consecutive, validate-Consecutive}
use reve.Storage.Outcome.{Refused, Accepted, commit_all_or_none}
use reve.Storage.Tree.{IsValid, OwnParentFree, commit-IsValid}
use reve.Storage.Branch.{IsBranch, Descending, from_entry, scan_branch_total, own_parent_diverges}
use reve.Storage.Tokens.{Bounded, Attempt, register_at, run, token_sound}

abbrev root : Entry (Unit {0})
root = record {
  id = "a";
  parent_id = none;
  seq = 0;
  entry_type = "message";
  custom_type = none;
  timestamp = ℤ.pos 0;
  payload = [];
}

abbrev child : Entry (Unit {0})
child = record root { id = "b"; parent_id = some "a" }

abbrev two_entries : List (Write (Unit {0}))
two_entries = entry root ∷ entry child ∷ []

-- One letter for each kind of line; nothing reads it back here.
abbrev letter : Line (Unit {0}) → List ℕ
letter (header h) = 72 ∷ []
letter (batch ws) = 66 ∷ []
letter (single w) = 83 ∷ []

abbrev wire : Wire (Unit {0})
wire = record { encode = letter; parse = λ bytes. inr "unread" }

abbrev empty : Storage (Unit {0})
unfolding memory
empty = memory (ℤ.pos 0) "s"

empty_has : (id : String) → has_entry empty id ≡ false
unfolding empty memory with_header Map.get
empty_has id = refl

empty_used : (id : String) → contains empty.usage_ids id ≡ false
unfolding empty memory with_header
empty_used id = refl

abbrev two_stamped : List (Write (Unit {0}))
two_stamped =
    entry (record root { seq = 1; timestamp = ℤ.pos 7 })
    ∷ entry (record child { seq = 2; timestamp = ℤ.pos 7 })
    ∷ []

two_validated : validate empty (ℤ.pos 7) empty.seq [] [] two_entries ≡ ok (two_stamped, 2)
unfolding validate check check_entry parent_missing stamp empty memory with_header Map.get
two_validated = refl

empty-IsValid : IsValid empty
unfolding empty memory with_header Map.get
empty-IsValid = record {
  keyed = λ id e h. cc;
  bounded = λ id e h. ground arith;
  rooted = λ id p e h q. ground arith;
}

abbrev in_file : Storage (Unit {0})
in_file = record empty { sink = some (record { file = 72 ∷ newline ∷ []; path = "s.jsonl" }) }

commit_all_or_none_example :
    Refused wire in_file (commit wire (failed 1 "full") (ℤ.pos 7) in_file two_entries)
    ⊎ Accepted wire
        (ℤ.pos 7)
        in_file
        two_entries
        (commit wire (failed 1 "full") (ℤ.pos 7) in_file two_entries)
commit_all_or_none_example = commit_all_or_none wire (failed 1 "full") (ℤ.pos 7) in_file two_entries

two_entries-free : All OwnParentFree two_entries
two_entries-free = (λ h. ground arith, (λ h. ground (arith, eq_iff "a" "b"), tt))

empty_small : {n : ℕ} → n < 9 → empty.seq + n < u64_mod
unfolding empty memory with_header
empty_small h = omega arith

commit-IsValid_example : IsValid (commit wire done (ℤ.pos 7) empty two_entries).1
commit-IsValid_example =
    commit-IsValid wire done (ℤ.pos 7) empty two_entries empty-IsValid two_entries-free
      (empty_small (omega arith))

grown : Storage (Unit {0})
unfolding commit
grown = (commit wire done (ℤ.pos 7) empty two_entries).1

grown-IsValid : IsValid grown
unfolding grown
grown-IsValid =
    commit-IsValid wire done (ℤ.pos 7) empty two_entries empty-IsValid two_entries-free
      (empty_small (omega arith))

grown-seq : grown.seq ≡ 2
unfolding grown commit validate check check_entry parent_missing stamp empty memory with_header
    publish apply_all apply apply_entry Map.get
grown-seq = refl

scan_branch_total_example :
    (path : List (Entry (Unit {0}))) × IsBranch grown (from_entry "b") (some "b") path
    × Descending grown (from_entry "b") (grown.seq + 1) path
    × (scan_branch 9 grown (from_entry "b")
        ≡ some (limited none (filter (selects (from_entry "b")) (oriented newest_first path))))
scan_branch_total_example =
    scan_branch_total grown (from_entry "b") 9 grown-IsValid (omega (arith, grown-seq))

abbrev two : ℕ
two = 2

validate-Consecutive_example :
    Consecutive empty.seq two_stamped × (two ≡ empty.seq + 2) × (two ≡ two)
validate-Consecutive_example =
    validate-Consecutive empty (ℤ.pos 7) two_entries (empty_small (omega arith)) two_validated

abbrev loop : Entry (Unit {0})
loop = record root { parent_id = some "a" }

own_parent_diverges_example :
    let r = commit wire done (ℤ.pos 7) empty (entry loop ∷ []) in
    (r.0
      ≡ ok (record {
        first_seq = wrap64 (empty.seq + 1);
        last_seq = wrap64 (empty.seq + 1);
        timestamp = ℤ.pos 7;
      }))
    × (scan_branch 100 r.1 (from_entry "a") ≡ none)
own_parent_diverges_example =
    own_parent_diverges wire (ℤ.pos 7) empty loop 100 (empty_has "a") (empty_used "a") refl refl
      refl

-- A fact, and a history that sets it again, deletes another and fails once.
abbrev named : Storage (Unit {0})
named = record empty {
  seq = 1;
  registers =
      ((fact_name, ""), record { namespace = fact_name; key = ""; value = tt; seq = 1 }) ∷ [];
}

abbrev history : List (Attempt (Unit {0}))
history =
    record { outcome = done; now = ℤ.pos 8; writes = entry root ∷ [] }
    ∷ record { outcome = failed 0 "full"; now = ℤ.pos 9; writes = [] }
    ∷ []

abbrev name_register : Register (Unit {0})
name_register = record { namespace = fact_name; key = ""; value = tt; seq = 1 }

named-Bounded : Bounded named
unfolding Map.get
named-Bounded k r h = ground arith

named_later : register_at (run wire named history) (fact_name, "") ≡ some name_register
unfolding run commit validate check check_entry parent_missing stamp empty memory with_header
    publish apply_all apply apply_entry Map.get
named_later = refl

token_sound_example : name_register ≡ name_register
token_sound_example =
    token_sound wire named history (fact_name, "") name_register name_register named-Bounded
      (omega arith) (unfold Map.get in refl) named_later refl
