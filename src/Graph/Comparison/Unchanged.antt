-- ===== src/Graph/Comparison/Unchanged.antt =====
-- A snapshot compared with itself shows no change.
use mathlib.Core.List.Memᴰ
use nodal_studio.Prelude.{
  String, Bool, true, not, ◌||◌, List, [], ◌∷◌, Option, none, some, ◌≡◌, inl, inr, refl, ◌∙◌, ap,
  arith, all, map, flat_map, contains, is_set, lookup, is_some, is_some-find, of_pairs,
  all-insert_all, Memᴰ, mem-map, mem-filter, all_mem, Option-cases, Bool-cases, ◌==◌, agree_refl,
  string_eq, any_intro,
}
use mathlib.Core.List.{append-nil}
use nodal_studio.Model.{
  TableDefinition, table_key_eq, table_eq, DatabaseSnapshot, SchemaChangeSet, ForeignKeyDefinition,
  foreign_key_eq, ColumnDefinition, column_eq,
}
use nodal_studio.Graph.Comparison.{
  ComparisonTable, map_of, tables_of, table_status, same_table_structure, columns_unavailable,
  comparable, coverage_gap, comparing_changes, baseline_of,
}
use nodal_studio.Graph.Comparison.Relations.{
  ChangeStatus, ComparisonRelation, same_name, baseline_status, key_status, current_relation,
  previous_relation, relations_of,
}
use nodal_studio.Graph.Comparison.Columns.{
  column_named, has_column, merged_columns, column_status, baseline_column_status, renames_of,
}
use nodal_studio.Graph.Comparison.Merged.{merged_columns_lem}
use nodal_studio.Graph.Comparison.Laws.{mem-lookup-map_of, is_some-lookup-map_of}
use nodal_studio.Graph.Comparison.Tables.{
  Comparison, entry_of, merged_entry, compare_table, comparison_tables, all_tables,
}

abbrev pub key_names : TableDefinition → List String
key_names t = map (λ fk. fk.name) t.foreign_keys

-- The foreign keys of every table have distinct names.
abbrev pub has_distinct_keys : List TableDefinition → Bool
has_distinct_keys = all (λ t. is_set (key_names t))

-- No relation is marked.
abbrev pub unmarked : List ComparisonRelation → Bool
unmarked = all (λ r. not (is_some r.change_status))

abbrev pub unmarked_columns : Option (List (String × Option ChangeStatus)) → Bool
unmarked_columns none = true
unmarked_columns (some changes) = all (λ change. not (is_some change.1)) changes

pub record IsUnchanged (entry : ComparisonTable) : Type 0 where
  pub status : entry.change_status ≡ none
  pub relations : unmarked entry.relations ≡ true
  pub columns : unmarked_columns entry.column_changes ≡ true

contains-name :
    (fk : ForeignKeyDefinition) (fks : List ForeignKeyDefinition)
    → Memᴰ fk fks
    → contains fk.name (map (λ k. k.name) fks) ≡ true
unfolding contains
contains-name fk [] m = absurd (Memᴰ.not-nil m)
contains-name fk (k ∷ fks) m = elim (Memᴰ.cases_cons m) [
  | inl same ↦ rw same (ground (arith, agree_refl k.name))
  | inr later ↦ ground (arith, contains-name fk fks later)
]

-- A key is the first of its name among keys of distinct names.
same_name_self :
    (fk : ForeignKeyDefinition) (fks : List ForeignKeyDefinition)
    → is_set (map (λ k. k.name) fks) ≡ true
    → Memᴰ fk fks
    → same_name fk fks ≡ some fk
unfolding is_set
same_name_self fk [] h m = absurd (Memᴰ.not-nil m)
same_name_self fk (k ∷ fks) h m = elim (Memᴰ.cases_cons m) [
  | inl same ↦ rw same (ground (arith, agree_refl k.name))
  | inr later ↦ elim (Bool-cases (k.name == fk.name)) [
    | inl e ↦
        let same : k.name ≡ fk.name = (string_eq.agree_iff k.name fk.name).0 e in
        ground
          (arith, contains-name fk fks later, ap (λ n. contains n (map (λ k. k.name) fks)) same)
    | inr e ↦ rw e (same_name_self fk fks (ground arith) later)
  ]
]

all-intro {ℓ} :
    {A : Type ℓ} (p : A → Bool) (xs : List A) → ((a : A) → Memᴰ a xs → p a ≡ true) → all p xs ≡ true
all-intro p [] h = refl
all-intro p (x ∷ xs) h =
    ground (arith, h x (Memᴰ.head refl), all-intro p xs (λ a m. h a (Memᴰ.tail m)))

all-map {ℓ κ} :
    {A : Type ℓ} {B : Type κ} (p : B → Bool) (f : A → B) (xs : List A)
    → all p (map f xs) ≡ all (λ a. p (f a)) xs
all-map p f [] = refl
all-map p f (x ∷ xs) = ground (arith, all-map p f xs)

module _ (fks : List ForeignKeyDefinition) (distinct : is_set (map (λ k. k.name) fks) ≡ true) where
  unmarked_current :
      (fk : ForeignKeyDefinition)
      → Memᴰ fk fks
      → (current_relation true true fks [] fk).change_status ≡ none
  unfolding current_relation key_status baseline_status
  unmarked_current fk m =
      rw (same_name_self fk fks distinct m, baseline_status) (rw (agree_refl fk) refl)

  no_previous : (fk : ForeignKeyDefinition) → Memᴰ fk fks → previous_relation fks fk ≡ []
  unfolding previous_relation
  no_previous fk m =
      rw (same_name_self fk fks distinct m, previous_relation) (rw (agree_refl fk) refl)

  flat_map-no_previous :
      (some_keys : List ForeignKeyDefinition)
      → ((fk : ForeignKeyDefinition) → Memᴰ fk some_keys → Memᴰ fk fks)
      → flat_map (previous_relation fks) some_keys ≡ []
  flat_map-no_previous [] h = refl
  flat_map-no_previous (fk ∷ rest) h =
      rw (no_previous fk (h fk (Memᴰ.head refl)))
        (flat_map-no_previous rest (λ k m. h k (Memᴰ.tail m)))

  unmarked-relations_of : unmarked (relations_of true true fks fks []) ≡ true
  unfolding relations_of
  unmarked-relations_of =
      rw (flat_map-no_previous fks (λ fk m. m), append-nil)
        (all-map (λ r. not (is_some r.change_status)) (current_relation true true fks []) fks
          ∙ all-intro _ fks (λ fk m. rw (unmarked_current fk m) refl))

-- A table against itself, without operations, is not marked.
same_table_structure_self : (t : TableDefinition) → same_table_structure t t ≡ true
unfolding same_table_structure
same_table_structure_self t =
    agree_refl {A = TableDefinition} (comparable (columns_unavailable t || columns_unavailable t) t)

table_status_self : (t : TableDefinition) → table_status true (some t) (some t) [] ≡ none
unfolding table_status
table_status_self t = ground (arith, same_table_structure_self t)

unmarked_column :
    (cs : List ColumnDefinition) (name : String)
    → has_column name cs ≡ true
    → column_status none true cs cs [] [] name ≡ none
unfolding column_status baseline_column_status
unmarked_column cs name h = elim (Option-cases (column_named name cs)) [
  | inl e ↦ cc (is_some-find (λ c. c.name == name) cs)
  | inr (c, e) ↦ rw (e, baseline_column_status) (rw e (rw (agree_refl c) refl))
]

is_unmarked : Option ChangeStatus → Bool
is_unmarked status = not (is_some status)

module _ (t : TableDefinition) (distinct : is_set (key_names t) ≡ true) where
  merged-has_column :
      (c : ColumnDefinition)
      → Memᴰ c (merged_columns t.columns t.columns)
      → has_column c.name t.columns ≡ true
  merged-has_column c m = ground (
    arith,
    (merged_columns_lem c.name t.columns t.columns).0,
    any_intro (λ d. d.name == c.name) c (merged_columns t.columns t.columns) m (agree_refl c.name),
  )

  abbrev statuses : List (String × Option ChangeStatus)
  statuses =
      map (λ c. (c.name, column_status none true t.columns t.columns [] [] c.name))
        (merged_columns t.columns t.columns)

  unmarked_changes : all (λ change. is_unmarked change.1) (of_pairs statuses) ≡ true
  unfolding is_unmarked
  unmarked_changes = all-insert_all {K = String} is_unmarked [] statuses refl (
      all-map {B = String × Option ChangeStatus} (λ change. is_unmarked change.1)
        (λ c. (c.name, column_status none true t.columns t.columns [] [] c.name))
        (merged_columns t.columns t.columns)
      ∙ all-intro _ (merged_columns t.columns t.columns)
          (λ c m. rw (unmarked_column t.columns c.name (merged-has_column c m)) refl))

  IsUnchanged-entry_of :
      (d : TableDefinition) → IsUnchanged (entry_of true true d (some t) (some t) [])
  unfolding entry_of merged_entry renames_of is_unmarked
  IsUnchanged-entry_of d = elim (Option-cases (coverage_gap (some t) (some t))) [
    | inl e ↦
        rw (e, entry_of)
          (record {
            status = table_status_self t;
            relations = unmarked-relations_of t.foreign_keys distinct;
            columns = rw (table_status_self t) unmarked_changes;
          })
    | inr (x, e) ↦
        rw (e, entry_of)
          (record {
            status = table_status_self t;
            relations =
                all-map (λ r. not (is_some r.change_status)) _ x.foreign_keys
                ∙ all-intro _ x.foreign_keys (λ fk m. refl);
            columns = refl;
          })
  ]

-- Both sides are the tables `ts`, and there are no operations.
abbrev self_comparison : List TableDefinition → Comparison
self_comparison ts = record {
  comparing = true;
  baseline = true;
  old_tables = map_of ts;
  new_tables = map_of ts;
  operations = [];
}

IsUnchanged-compare_table :
    (ts : List TableDefinition) (d : TableDefinition)
    → has_distinct_keys ts ≡ true
    → Memᴰ d ts
    → IsUnchanged (compare_table (self_comparison ts) d)
unfolding compare_table
IsUnchanged-compare_table ts d distinct m = elim (Option-cases (lookup d.key (map_of ts))) [
  | inl e ↦
      let listed = any_intro (λ t. t.key == d.key) d ts m (agree_refl d.key) in
      cc (is_some-lookup-map_of ts d.key, listed, e)
  | inr (t, e) ↦
      rw (e, compare_table)
        (IsUnchanged-entry_of t
          (all_mem (λ t. is_set (key_names t)) t ts distinct (mem-lookup-map_of ts d.key t e)) d)
]

mem-all_tables :
    (ts : List TableDefinition) (d : TableDefinition) → Memᴰ d (all_tables ts ts) → Memᴰ d ts
unfolding all_tables
mem-all_tables ts d m = elim (Memᴰ.append_cases ts m) [
  | inl here ↦ here
  | inr gone ↦ (mem-filter (λ t. not (is_some (lookup t.key (map_of ts)))) d ts gone).0
]

-- A snapshot whose tables name their foreign keys apart, compared with itself by changes without
-- operations, shows every table, relation and column without a mark.
pub comparison_tables-IsUnchanged :
    (after : DatabaseSnapshot) (changes : SchemaChangeSet) (entry : ComparisonTable)
    → changes.after_snapshot_id ≡ after.id
    → changes.before_snapshot_id ≡ after.id
    → changes.operations ≡ []
    → has_distinct_keys (tables_of after) ≡ true
    → Memᴰ entry (comparison_tables after (some after) (some changes))
    → IsUnchanged entry
unfolding comparison_tables
comparison_tables-IsUnchanged after changes entry p q r distinct m =
    let ts = tables_of after in
    let comparing : comparing_changes after (some changes) ≡ some changes =
      unfold comparing_changes in (rw p (rw (agree_refl after.id) refl)) in
    let baseline : baseline_of (some after) changes ≡ some after =
      unfold baseline_of in (rw q (rw (agree_refl after.id) refl)) in
    let (d, listed, same) =
      mem-map (compare_table (self_comparison ts)) entry (all_tables ts ts)
        (rw (comparing, baseline, r) at m) in
    rw same (IsUnchanged-compare_table ts d distinct (mem-all_tables ts d listed))
