-- ===== src/Jsonl/Kept.antt =====
-- What the replay of a snapshot (src/storage/jsonl.rs, `compact_file`) keeps of the session it was taken of.
use reve.Prelude.{
  ◌≡◌, refl, ◌∙◌, ap, sym, subst, String, Bool, true, false, Option, none, some, List, [], ◌∷◌,
  ◌++◌, map, filter_map, contains, All, arith, append_assoc, append-nil, Option-cases, Bool-cases,
  str_eq, eq_iff, if◌then◌else◌, inl, inr,
}
use reve.Map.{Map, string_key, get-insert}
use reve.Map
use reve.Namespace.{RegisterKey, register_key, key_eq, key_eq_iff}
use reve.Entry.{Entry, UsageRow, Register, Write, entry, usage, register, set}
use reve.Storage.{Storage, Sink, Wire, with_header, apply, apply_all}
use reve.Storage.Scan.{scan_entries, all_registers}
use reve.Storage.Registers.{value_of, value_at, written_one, written, value-apply_all}
use reve.Jsonl.Open.{snapshot_writes}
use reve.Jsonl.Reopen.{apply_all-append}

module _ {V : Type 0} where
  abbrev pub Found : Storage V → String → Type 0
  Found s id = (e : Entry V) × (Map.get s.entries id ≡ some e)

  -- Every register stands under its own name, and no name stands twice.
  abbrev pub Named : Map RegisterKey (Register V) → Type 0
  Named [] = Unit
  Named ((k, r) ∷ m) = ((r.namespace, r.key) ≡ k) × (Map.get m k ≡ none) × Named m

  -- The maps of a storage agree with its order of entries and with the names in the values.
  pub record IsCoherent (s : Storage V) : Type 0 where
    pub keyed : (id : String) (e : Entry V) → Map.get s.entries id ≡ some e → e.id ≡ id
    pub ordered :
        (id : String) (e : Entry V)
        → Map.get s.entries id ≡ some e
        → contains s.entry_order id ≡ true
    pub found : All (Found s) s.entry_order
    pub registers : Named s.registers

  -- A storage with the same session in it.
  pub record SameSession (s t : Storage V) : Type 0 where
    pub header : t.header ≡ s.header
    pub entries : (id : String) → Map.get t.entries id ≡ Map.get s.entries id
    pub order : t.entry_order ≡ s.entry_order
    pub usage_rows : t.usage ≡ s.usage
    pub values : (k : RegisterKey) → value_at t k ≡ value_at s k

  abbrev set_of : Register V → Write V
  set_of r = register (set r.seq r.namespace r.key r.value)

  usage_loop :
      (t : Storage V) (rows : List (UsageRow V))
      → ((apply_all t (map usage rows)).header ≡ t.header)
        × ((apply_all t (map usage rows)).entries ≡ t.entries)
        × ((apply_all t (map usage rows)).entry_order ≡ t.entry_order)
        × ((apply_all t (map usage rows)).registers ≡ t.registers)
        × ((apply_all t (map usage rows)).usage ≡ t.usage ++ rows)
  unfolding apply_all apply
  usage_loop t [] = (refl, refl, refl, refl, sym (append-nil t.usage))
  usage_loop t (row ∷ rows) =
      let (h, e, o, r, u) = usage_loop (apply t (usage row)) rows in
      (h, e, o, r, u ∙ append_assoc t.usage (row ∷ []) rows)

  register_loop :
      (t : Storage V) (rs : List (Register V))
      → ((apply_all t (map set_of rs)).header ≡ t.header)
        × ((apply_all t (map set_of rs)).entries ≡ t.entries)
        × ((apply_all t (map set_of rs)).entry_order ≡ t.entry_order)
        × ((apply_all t (map set_of rs)).usage ≡ t.usage)
  unfolding apply_all apply
  register_loop t [] = (refl, refl, refl, refl)
  register_loop t (r ∷ rs) = register_loop (apply t (set_of r)) rs

  -- The entries behind ids that are all found.
  abbrev picked : (s : Storage V) (ids : List String) → All (Found s) ids → List (Entry V)
  picked s [] all = []
  picked s (id ∷ ids) (f, all) = f.0 ∷ picked s ids all

  scan-picked :
      (s : Storage V) (ids : List String) (all : All (Found s) ids)
      → filter_map (λ id. Map.get s.entries id) ids ≡ picked s ids all
  unfolding filter_map
  scan-picked s [] all = refl
  scan-picked s (id ∷ ids) ((e, q), all) = rw (q, filter_map) (ap (◌∷◌ e) (scan-picked s ids all))

  entry_loop :
      (s t : Storage V) (ids : List String) (all : All (Found s) ids)
      → ((id : String) (e : Entry V) → Map.get s.entries id ≡ some e → e.id ≡ id)
      → ((apply_all t (map entry (picked s ids all))).header ≡ t.header)
        × ((apply_all t (map entry (picked s ids all))).registers ≡ t.registers)
        × ((apply_all t (map entry (picked s ids all))).usage ≡ t.usage)
        × ((apply_all t (map entry (picked s ids all))).entry_order ≡ t.entry_order ++ ids)
  unfolding apply_all apply
  entry_loop s t [] all keyed = (refl, refl, refl, sym (append-nil t.entry_order))
  entry_loop s t (id ∷ ids) ((e, q), all) keyed =
      let (h, r, u, o) = entry_loop s (apply t (entry e)) ids all keyed in
      (
        h,
        r,
        u,
        o
            ∙ append_assoc t.entry_order (e.id ∷ []) ids
            ∙ ap (λ i. t.entry_order ++ i ∷ ids) (keyed id e q),
      )

  -- An entry of the session is there as soon as it is entered, and stays.
  entered :
      (s t : Storage V) (id j : String) (e : Entry V)
      → e.id ≡ id
      → Map.get s.entries id ≡ some e
      → Map.get (apply t (entry e)).entries j
        ≡ (if str_eq id j then Map.get s.entries j else Map.get t.entries j)
  unfolding apply
  entered s t id j e k q =
      let moved = ap (λ i. str_eq i j) k in
      elim (Bool-cases (str_eq id j)) [
        | inl here ↦ rw here (
            get-insert t.entries e.id j e
            ∙ ap (λ b. if b then some e else Map.get t.entries j) (moved ∙ here)
            ∙ sym q
            ∙ ap (Map.get s.entries) ((eq_iff id j).0 here))
        | inr there ↦ rw there (
            get-insert t.entries e.id j e
            ∙ ap (λ b. if b then some e else Map.get t.entries j) (moved ∙ there))
      ]

  stays :
      (s t : Storage V) (ids : List String) (all : All (Found s) ids) (j : String)
      → ((id : String) (e : Entry V) → Map.get s.entries id ≡ some e → e.id ≡ id)
      → Map.get t.entries j ≡ Map.get s.entries j
      → Map.get (apply_all t (map entry (picked s ids all))).entries j ≡ Map.get s.entries j
  unfolding apply_all
  stays s t [] all j keyed h = h
  stays s t (id ∷ ids) ((e, q), all) j keyed h =
      let step = entered s t id j e (keyed id e q) q in
      stays s (apply t (entry e)) ids all j keyed (elim (Bool-cases (str_eq id j)) [
        | inl here ↦ step ∙ rw here refl
        | inr there ↦ step ∙ rw there h
      ])

  arrives :
      (s t : Storage V) (ids : List String) (all : All (Found s) ids) (j : String)
      → ((id : String) (e : Entry V) → Map.get s.entries id ≡ some e → e.id ≡ id)
      → contains ids j ≡ true
      → Map.get (apply_all t (map entry (picked s ids all))).entries j ≡ Map.get s.entries j
  unfolding apply_all
  arrives s t [] all j keyed h = absurd (ground arith)
  arrives s t (id ∷ ids) ((e, q), all) j keyed h =
      let step = entered s t id j e (keyed id e q) q in
      elim (Bool-cases (str_eq id j)) [
        | inl here ↦ stays s (apply t (entry e)) ids all j keyed (step ∙ rw here refl)
        | inr there ↦ arrives s (apply t (entry e)) ids all j keyed (ground (arith, h, there))
      ]

  -- The value that a map of registers gives a key, or the one from before.
  abbrev given : Option V → Option (Register V) → Option V
  given v none = v
  given v (some r) = some r.value

  given-none : (o : Option (Register V)) → given none o ≡ value_of o
  given-none none = refl
  given-none (some r) = refl

  set_step :
      (k j : RegisterKey) (v : Option V) (r : Register V) (b : Bool)
      → (r.namespace, r.key) ≡ j
      → key_eq j k ≡ b
      → written_one k v (set_of r) ≡ (if b then some r.value else v)
  set_step k j v r b own h =
      ap (λ (x : RegisterKey). if key_eq x k then some r.value else v) own
      ∙ ap (λ c. if c then some r.value else v) h

  written-sets :
      (k : RegisterKey) (v : Option V) (m : Map RegisterKey (Register V))
      → Named m
      → written k v (map set_of (map (λ e. e.1) m)) ≡ given v (Map.get m k)
  unfolding Map.get
  written-sets k v [] n = refl
  written-sets k v ((j, r) ∷ m) (own, once, n) = elim (Bool-cases (key_eq j k)) [
    | inl here ↦
        let same : j ≡ k = (key_eq_iff j k).0 here in
        rw here (
          ap (λ u. written k u (map set_of (map (λ e. e.1) m))) (set_step k j v r true own here)
          ∙ written-sets k (some r.value) m n
          ∙ ap (given (some r.value)) (ap (Map.get m) (sym same) ∙ once))
    | inr there ↦ rw there (
        ap (λ u. written k u (map set_of (map (λ e. e.1) m))) (set_step k j v r false own there)
        ∙ written-sets k v m n)
  ]

module _ {V : Type 0} (wire : Wire V) where
  -- The three loops of a snapshot's replay: its entries, then its usage rows, then its registers.
  replay_snapshot :
      (s : Storage V) (sink : Option Sink) (c : IsCoherent s)
      → apply_all (with_header s.header sink) (snapshot_writes wire s)
        ≡ apply_all
            (apply_all
              (apply_all (with_header s.header sink) (map entry (picked s s.entry_order c.found)))
              (map usage s.usage))
            (map set_of (all_registers s))
  unfolding scan_entries
  replay_snapshot s sink c =
      let base = with_header s.header sink in
      let es = picked s s.entry_order c.found in
      ap (λ l. apply_all base (map entry l ++ (map usage s.usage ++ map set_of (all_registers s))))
        (scan-picked s s.entry_order c.found)
      ∙ apply_all-append base (map entry es) (map usage s.usage ++ map set_of (all_registers s))
      ∙ apply_all-append (apply_all base (map entry es)) (map usage s.usage)
          (map set_of (all_registers s))

  snapshot_entries :
      (s : Storage V) (sink : Option Sink) (c : IsCoherent s) (id : String)
      → Map.get
          (apply_all
            (with_header s.header sink)
            (map entry (picked s s.entry_order c.found))).entries
          id
        ≡ Map.get s.entries id
  snapshot_entries s sink c id = elim (Option-cases (Map.get s.entries id)) [
    | inl q ↦
        stays s (with_header s.header sink) s.entry_order c.found id c.keyed
          (unfold with_header in unfold Map.get in sym q)
    | inr (e, q) ↦
        arrives s (with_header s.header sink) s.entry_order c.found id c.keyed (c.ordered id e q)
  ]

  -- The replay of a snapshot is the session that it was taken of.
  pub snapshot_keeps :
      (s : Storage V) (sink : Option Sink)
      → IsCoherent s
      → SameSession s (apply_all (with_header s.header sink) (snapshot_writes wire s))
  unfolding with_header all_registers Map.get
  snapshot_keeps s sink c =
      let base = with_header s.header sink in
      let t1 = apply_all base (map entry (picked s s.entry_order c.found)) in
      let t2 = apply_all t1 (map usage s.usage) in
      let rs = all_registers s in
      let (h1, r1, u1, o1) = entry_loop s base s.entry_order c.found c.keyed in
      let (h2, e2, o2, r2, u2) = usage_loop t1 s.usage in
      let (h3, e3, o3, u3) = register_loop t2 rs in
      subst (SameSession s) (sym (replay_snapshot s sink c)) (record {
        header = h3 ∙ h2 ∙ h1;
        entries = λ id. ap (λ m. Map.get m id) (e3 ∙ e2) ∙ snapshot_entries s sink c id;
        order = o3 ∙ o2 ∙ o1;
        usage_rows = u3 ∙ u2 ∙ ap (λ l. l ++ s.usage) u1;
        values = λ k.
            value-apply_all t2 (map set_of rs) k
            ∙ written-sets k (value_at t2 k) s.registers c.registers
            ∙ ap (λ v. given v (Map.get s.registers k)) (ap (λ m. value_of (Map.get m k)) (r2 ∙ r1))
            ∙ given-none (Map.get s.registers k);
      })
