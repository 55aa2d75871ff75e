-- ===== src/Graph/Inference.antt =====
-- graph/schema-graph.ts, `inferRelationships`: relationships guessed from column names. The
-- confidence 0.92 or 0.68 is kept in hundredths. Candidates are objects that the code compares by
-- identity: here they are numbers, the places in the list of candidates.
pub mod Target
pub mod Index
pub mod Sound
use nodal_studio.Prelude.{
  ℕ, zero, suc, ◌+◌, ◌*◌, String, Bool, true, false, not, ◌&&◌, ◌||◌, List, [], ◌∷◌, ◌++◌, Option,
  none, some, lookup, insert, contains, of_list, fold, or_else, filter, find, flat_map, map,
  if◌then◌else◌, ◌==◌, string_eq, nat_eq, get_elem?, split, join, ends_with, drop_end, has_word,
  sort, leb, eqb, ◌&◌, length,
}
use nodal_studio.Model.{TableDefinition, ColumnDefinition, ForeignKeyDefinition, PrimaryKey}
use nodal_studio.Graph.Ids.{SchemaTable, node_id, table_node_id, logical_relationship_key}

pub record InferredRelationship : Type 0 where
  pub source_id : String
  pub target_id : String
  pub column : String
  pub referenced_column : String
  pub relationship_key : String
  pub confidence : ℕ
  pub evidence : List String

unfoldable pub inferred_relationship_rule_key : InferredRelationship → String
inferred_relationship_rule_key r = "rule:naming-id:" & r.source_id & "." & r.column

-- `table.primaryKey?.columns.includes("id")`
pub key_has_id : Option PrimaryKey → Bool
key_has_id none = false
key_has_id (some key) = contains "id" key.columns

abbrev pub has_id_key : SchemaTable → Bool
has_id_key t = key_has_id t.table.primary_key

abbrev pub name_of : SchemaTable → String
name_of t = t.table.key.name

abbrev pub Index : Type 0
Index = List (String × List ℕ)

-- `index.get(name) ?? []`
abbrev pub found : String → Index → List ℕ
found name index = or_else (lookup name index) []

-- `index.set(name, [...(index.get(name) ?? []), candidate])`
push : ℕ → Index → String → Index
push n index name = insert name (found name index ++ n ∷ []) index

-- `parts.slice(start).join("_")` for each start
suffixes : List String → List String
suffixes [] = []
suffixes (part ∷ parts) = join "_" (part ∷ parts) ∷ suffixes parts

pub name_suffixes : SchemaTable → List String
unfolding suffixes
name_suffixes t = suffixes (split b'_' (name_of t))

pub record Indexes : Type 0 where
  pub at : ℕ
  pub exact : Index
  pub suffix : Index

index_candidate : Indexes → SchemaTable → Indexes
unfolding push
index_candidate s t = record {
  at = suc s.at;
  exact = push s.at s.exact (name_of t);
  suffix = fold (push s.at) s.suffix (name_suffixes t);
}

pub index_candidates : List SchemaTable → Indexes
unfolding index_candidate
index_candidates = fold index_candidate (record { at = 0; exact = []; suffix = [] })

common_parts : List String → List String → ℕ
common_parts [] right = 0
common_parts (l ∷ left) [] = 0
common_parts (l ∷ left) (r ∷ right) =
    if not (l == "") && l == r then suc (common_parts left right) else 0

unfoldable pub common_prefix_segments : String → String → ℕ
unfolding common_parts
common_prefix_segments left right = common_parts (split b'_' left) (split b'_' right)

pub score : String → String → String → SchemaTable → ℕ
unfolding common_prefix_segments
score source_schema source_table stem c =
    common_prefix_segments source_table (name_of c) * 10
    + (if c.schema == source_schema then 2 else 0)
    + (if name_of c == stem || name_of c == (stem & "s") then 1 else 0)

-- The first of the sorted candidates, unless the second has the same score.
pub pick {ℓ} : {A : Type ℓ} → List (A × ℕ) → Option A
pick [] = none
pick (first ∷ []) = some first.0
pick (first ∷ second ∷ rest) = if eqb first.1 second.1 then none else some first.0

abbrev pub by_score {ℓ} : {A : Type ℓ} → A × ℕ → A × ℕ → Bool
by_score left right = leb right.1 left.1

pub resolve_inferred_target : List SchemaTable → String → String → String → Option SchemaTable
unfolding pick score
resolve_inferred_target candidates source_schema source_table stem =
    pick (sort by_score (map (λ c. (c, score source_schema source_table stem c)) candidates))

pub plural_of : String → String
plural_of stem = if ends_with "y" stem then drop_end 1 stem & "ies" else stem & "s"

-- The candidates at the given places.
pub at_places : List SchemaTable → List ℕ → List SchemaTable
at_places candidates [] = []
at_places candidates (n ∷ ns) =
    let rest = at_places candidates ns in
    elim (get_elem? candidates n) [ none ↦ rest | some c ↦ c ∷ rest ]

-- `[...new Set([...(exactNames.get(stem) ?? []), ...(suffixNames.get(plural) ?? [])])]`
pub matching_places : Indexes → String → List ℕ
matching_places index stem = of_list (found stem index.exact ++ found (plural_of stem) index.suffix)

abbrev bool_eq : Bool → Bool → Bool
bool_eq true b = b
bool_eq false b = not b

pub types_match : ColumnDefinition → Option ColumnDefinition → Bool
types_match column none = false
types_match column (some target) =
    target.type_name == column.type_name
    && (target.type_schema == column.type_schema
        && bool_eq (has_word "unsigned" target.formatted_type)
            (has_word "unsigned" column.formatted_type))

key_length : Option PrimaryKey → ℕ
key_length none = 0
key_length (some key) = length key.columns

unfoldable pub relate : SchemaTable → ColumnDefinition → SchemaTable → InferredRelationship
unfolding types_match key_length
relate t column target =
    let same = types_match column (find (λ c. c.name == "id") target.table.columns) in
    record {
      source_id = node_id t;
      target_id = node_id target;
      column = column.name;
      referenced_column = "id";
      relationship_key = logical_relationship_key (node_id t) column.name (node_id target) "id";
      confidence = if same then 92 else 68;
      evidence =
          ("Column name " & column.name & " matches " & name_of target & ".id")
          ∷ (if same
              then "Source and target column types match"
              else "Source and target column types differ")
          ∷ (if eqb (key_length target.table.primary_key) 1
              then "Target column is a primary key"
              else "Target column participates in a composite primary key")
          ∷ [];
    }

pub declared_columns : TableDefinition → List String
declared_columns table = of_list (flat_map (λ key. key.columns) table.foreign_keys)

-- The stem of a column that is examined: it ends in `_id` and no foreign key declares it.
pub stem_of : TableDefinition → ColumnDefinition → Option String
unfolding declared_columns
stem_of table column =
    if not (ends_with "_id" column.name) || contains column.name (declared_columns table)
    then none
    else some (drop_end 3 column.name)

-- The body of the loop over the columns.
pub infer_column :
    List SchemaTable → Indexes → SchemaTable → ColumnDefinition → List InferredRelationship
infer_column candidates index t column = elim (stem_of t.table column) [
  | none ↦ []
  | some stem ↦
      elim (resolve_inferred_target (at_places candidates (matching_places index stem)) t.schema
        (name_of t) stem) [ none ↦ [] | some target ↦ relate t column target ∷ [] ]
]

-- The loop over the columns of one table.
pub infer_table : List SchemaTable → Indexes → SchemaTable → List InferredRelationship
infer_table candidates index t = flat_map (infer_column candidates index t) t.table.columns

pub infer_relationships : List SchemaTable → List InferredRelationship
infer_relationships tables =
    let candidates = filter has_id_key tables in
    flat_map (infer_table candidates (index_candidates candidates)) tables

-- Opens all of the above, for a run on concrete tables.
unfoldable pub inference : Unit {0}
unfolding infer_relationships infer_table infer_column index_candidates key_has_id stem_of
    matching_places plural_of at_places resolve_inferred_target relate name_suffixes split join
    ends_with drop_end has_word contains sort lookup insert table_node_id logical_relationship_key
inference = tt
