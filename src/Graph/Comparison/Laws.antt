-- ===== src/Graph/Comparison/Laws.antt =====
-- Which tables a comparison lists, and when it calls one of them deleted.
use mathlib.Core.List.Memᴰ
use nodal_studio.Prelude.{
  Bool, true, false, not, ◌||◌, List, [], ◌∷◌, Option, none, some, ◌≡◌, ◌⊎◌, ◌↔◌, inl, inr, refl,
  ◌∙◌, arith, filter, any, map, lookup, insert, insert_all, lookup-insert, is_some, if◌then◌else◌,
  Memᴰ, mem-map, mem-map_intro, mem-filter, mem-filter_intro, Option-cases, Bool-cases, ◌==◌,
  any_intro, any_elim, agree_refl,
}
use nodal_studio.Model.{
  TableDefinition, TableKey, table_key_eq, DatabaseSnapshot, SchemaChangeSet, SchemaOperation,
  operation_eq,
}
use nodal_studio.Graph.Comparison.{
  ComparisonTable, TableMap, map_of, tables_of, table_status, coverage_gap, comparing_changes,
  concerns_table,
}
use nodal_studio.Graph.Comparison.Relations.{deleted}
use nodal_studio.Graph.Comparison.Tables.{
  Comparison, entry_of, merged_entry, compare_table, all_tables, comparison_tables, baseline_for,
  baseline_tables, operations_of,
}

-- The last table of a key is found under it.
lookup-fold :
    (m : TableMap) (ts : List TableDefinition) (key : TableKey)
    → is_some (lookup key (insert_all m (map (λ t. (t.key, t)) ts)))
      ≡ (is_some (lookup key m) || any (λ t. t.key == key) ts)
lookup-fold m [] key = ground arith
lookup-fold m (t ∷ ts) key =
    ground (arith, lookup-fold (insert t.key t m) ts key, lookup-insert t.key key t m)

pub is_some-lookup-map_of :
    (ts : List TableDefinition) (key : TableKey)
    → is_some (lookup key (map_of ts)) ≡ any (λ t. t.key == key) ts
unfolding lookup
is_some-lookup-map_of ts key = lookup-fold [] ts key

-- A key leads to a table with that key.
abbrev Keyed : TableMap → Type 0
Keyed m = (key : TableKey) (t : TableDefinition) → lookup key m ≡ some t → t.key ≡ key

Keyed-insert : (m : TableMap) (t : TableDefinition) → Keyed m → Keyed (insert t.key t m)
Keyed-insert m t h key u e =
    ground (arith, lookup-insert t.key key t m, table_key_eq.agree_iff t.key key, h key u)

Keyed-fold :
    (m : TableMap) (ts : List TableDefinition)
    → Keyed m
    → Keyed (insert_all m (map (λ t. (t.key, t)) ts))
Keyed-fold m [] h = h
Keyed-fold m (t ∷ ts) h = Keyed-fold (insert t.key t m) ts (Keyed-insert m t h)

pub Keyed-map_of : (ts : List TableDefinition) → Keyed (map_of ts)
unfolding lookup
Keyed-map_of ts = Keyed-fold [] ts (λ key t e. cc)

mem-lookup-fold :
    (m : TableMap) (ts : List TableDefinition) (key : TableKey) (t : TableDefinition)
    → lookup key (insert_all m (map (λ t. (t.key, t)) ts)) ≡ some t
    → (lookup key m ≡ some t) ⊎ Memᴰ t ts
mem-lookup-fold m [] key t e = inl e
mem-lookup-fold m (u ∷ ts) key t e = elim (mem-lookup-fold (insert u.key u m) ts key t e) [
  | inr later ↦ inr (Memᴰ.tail later)
  | inl here ↦ elim (Bool-cases (u.key == key)) [
    | inl h ↦ inr (Memᴰ.head (ground (arith, lookup-insert u.key key u m)))
    | inr h ↦ inl (ground (arith, lookup-insert u.key key u m))
  ]
]

pub mem-lookup-map_of :
    (ts : List TableDefinition) (key : TableKey) (t : TableDefinition)
    → lookup key (map_of ts) ≡ some t
    → Memᴰ t ts
unfolding lookup
mem-lookup-map_of ts key t e = elim (mem-lookup-fold [] ts key t e) [ inl h ↦ cc | inr m ↦ m ]

status-entry_of :
    (comparing baseline : Bool) (d : TableDefinition) (current previous : Option TableDefinition)
    (operations : List SchemaOperation)
    → (entry_of comparing baseline d current previous operations).change_status
      ≡ (if comparing then table_status baseline current previous operations else none)
unfolding entry_of coverage_gap
status-entry_of comparing baseline d current previous operations = ground arith

table_status-eq-deleted :
    (baseline : Bool) (current previous : Option TableDefinition)
    (operations : List SchemaOperation)
    → (table_status baseline current previous operations ≡ some deleted)
      ↔ ((baseline ≡ true) × (is_some current ≡ false))
unfolding table_status
table_status-eq-deleted baseline current previous operations = ground arith

key-entry_of :
    (comparing baseline : Bool) (d : TableDefinition) (current previous : Option TableDefinition)
    (operations : List SchemaOperation)
    → ((t : TableDefinition) → current ≡ some t → t.key ≡ d.key)
    → (entry_of comparing baseline d current previous operations).table.key ≡ d.key
unfolding entry_of coverage_gap merged_entry
key-entry_of comparing baseline d none previous operations h = ground arith
key-entry_of comparing baseline d (some t) previous operations h = ground (arith, h t refl)

module _ (after : DatabaseSnapshot) (before : Option DatabaseSnapshot)
    (changes : Option SchemaChangeSet) where
  -- The tables that `after` is compared with.
  abbrev pub baseline_list : List TableDefinition
  baseline_list = baseline_tables (baseline_for before (comparing_changes after changes))

  abbrev pub comparison : Comparison
  comparison = record {
    comparing = is_some (comparing_changes after changes);
    baseline = is_some (baseline_for before (comparing_changes after changes));
    old_tables = map_of baseline_list;
    new_tables = map_of (tables_of after);
    operations = operations_of (comparing_changes after changes);
  }

  key-compare_table : (d : TableDefinition) → (compare_table comparison d).table.key ≡ d.key
  unfolding compare_table
  key-compare_table d =
      key-entry_of comparison.comparing comparison.baseline d
        (lookup d.key (map_of (tables_of after))) (lookup d.key (map_of baseline_list))
        (filter (concerns_table d.key) comparison.operations) (Keyed-map_of (tables_of after) d.key)

  -- The table is one of `after`.
  abbrev pub is_current : TableKey → Bool
  is_current key = any (λ t. t.key == key) (tables_of after)

  status-compare_table :
      (d : TableDefinition)
      → ((compare_table comparison d).change_status ≡ some deleted) ↔ (
          (comparison.comparing ≡ true) × (comparison.baseline ≡ true) × (is_current d.key ≡ false))
  unfolding compare_table
  status-compare_table d =
      let current = lookup d.key (map_of (tables_of after)) in
      let previous = lookup d.key (map_of baseline_list) in
      let operations = filter (concerns_table d.key) comparison.operations in
      ground (
        arith,
        status-entry_of comparison.comparing comparison.baseline d current previous operations,
        table_status-eq-deleted comparison.baseline current previous operations,
        is_some-lookup-map_of (tables_of after) d.key,
      )

  baseline-cases :
      (d : TableDefinition)
      → Memᴰ d baseline_list
      → (comparison.comparing ≡ true) × (comparison.baseline ≡ true)
  baseline-cases d m = elim (Option-cases (comparing_changes after changes)) [
    | inl e ↦ absurd (Memᴰ.not-nil (rw e at m))
    | inr (cs, e) ↦ elim (Option-cases (baseline_for before (comparing_changes after changes))) [
      | inl k ↦ absurd (Memᴰ.not-nil (rw k at m))
      | inr (b, k) ↦ (rw e refl, rw k refl)
    ]
  ]

  pub listed-cases :
      (d : TableDefinition)
      → Memᴰ d (all_tables (tables_of after) baseline_list)
      → (is_current d.key ≡ true)
        ⊎ ((comparison.comparing ≡ true)
            × (comparison.baseline ≡ true)
            × (is_current d.key ≡ false))
  unfolding all_tables
  listed-cases d m = elim (Memᴰ.append_cases (tables_of after) m) [
    | inl now ↦ inl (any_intro (λ t. t.key == d.key) d (tables_of after) now (agree_refl d.key))
    | inr gone ↦
        let (listed, absent) =
          mem-filter (λ t. not (is_some (lookup t.key (map_of (tables_of after))))) d baseline_list
            gone in
        let (p, q) = baseline-cases d listed in
        inr (p, q, ground (arith, is_some-lookup-map_of (tables_of after) d.key))
  ]

-- An entry of a comparison is marked as deleted exactly if the snapshot that is shown has no table
-- of its key.
pub comparison_tables-deleted_iff :
    (after : DatabaseSnapshot) (before : Option DatabaseSnapshot) (changes : Option SchemaChangeSet)
    (entry : ComparisonTable)
    → Memᴰ entry (comparison_tables after before changes)
    → (entry.change_status ≡ some deleted)
      ↔ (any (λ t. t.key == entry.table.key) (tables_of after) ≡ false)
unfolding comparison_tables
comparison_tables-deleted_iff after before changes entry m =
    let c = comparison after before changes in
    let (d, listed, same) =
      mem-map (compare_table c) entry
        (all_tables (tables_of after) (baseline_list after before changes)) m in
    rw (same, key-compare_table after before changes d)
      (ground (
        arith,
        status-compare_table after before changes d,
        listed-cases after before changes d listed,
      ))

covered :
    (after : DatabaseSnapshot) (before : Option DatabaseSnapshot) (changes : Option SchemaChangeSet)
    (d : TableDefinition)
    → Memᴰ d (all_tables (tables_of after) (baseline_list after before changes))
    → (entry : ComparisonTable) × Memᴰ entry (comparison_tables after before changes)
      × (entry.table.key ≡ d.key)
unfolding comparison_tables
covered after before changes d m =
    let c = comparison after before changes in
    (
      compare_table c d,
      mem-map_intro (compare_table c) d _ m,
      key-compare_table after before changes d,
    )

-- Every table of the snapshot, and every table of the baseline that it is compared with, has an entry
-- of its key.
pub comparison_tables-covers :
    (after : DatabaseSnapshot) (before : Option DatabaseSnapshot) (changes : Option SchemaChangeSet)
    (t : TableDefinition)
    → Memᴰ t (tables_of after) ⊎ Memᴰ t (baseline_list after before changes)
    → (entry : ComparisonTable) × Memᴰ entry (comparison_tables after before changes)
      × (entry.table.key ≡ t.key)
unfolding all_tables
comparison_tables-covers after before changes t (inl now) =
    covered after before changes t (Memᴰ.append_left _ now)
comparison_tables-covers after before changes t (inr old) =
    let gone = λ (t : TableDefinition). not (is_some (lookup t.key (map_of (tables_of after)))) in
    elim (Bool-cases (gone t)) [
      | inl h ↦
          covered after before changes t
            (Memᴰ.append_right (tables_of after) (mem-filter_intro gone t _ old h))
      | inr h ↦
          let (u, listed, same) =
            any_elim (λ u. u.key == t.key) (tables_of after)
              (ground (arith, is_some-lookup-map_of (tables_of after) t.key)) in
          let (entry, found, key) = covered after before changes u (Memᴰ.append_left _ listed) in
          (entry, found, key ∙ (table_key_eq.agree_iff u.key t.key).0 same)
    ]
