-- ===== src/Discovery/Neighborhood.antt =====
-- graph/business-discovery.ts, `neighborhood`: the tables within some hops of a root, at most 100.
pub mod Hops
pub mod Laws
use nodal_studio.Prelude.{
  ℕ, zero, suc, ◌-◌, Bool, List, [], ◌∷◌, ◌++◌, map, contains, add, add_all, of_list, fold, filter,
  length, take, if◌then◌else◌,
}
use nodal_studio.Model.{TableKey, ObjectKey, SchemaDefinition, DatabaseSnapshot, table_key_eq}
use nodal_studio.Discovery.{KnownRelationship, object_id}

-- The body of the loop over the relationships; `before` is the set at the start of the hop.
unfoldable pub add_ends : List TableKey → List TableKey → KnownRelationship → List TableKey
add_ends before keys edge =
    let forth =
      (if contains (object_id edge.source) before
        then add (object_id edge.target) keys
        else keys) in
    if contains (object_id edge.target) before then add (object_id edge.source) forth else forth

unfoldable pub hop_keys : List KnownRelationship → ℕ → List TableKey → List TableKey
unfolding add_ends
hop_keys relationships zero keys = keys
hop_keys relationships (suc depth) keys =
    hop_keys relationships depth (fold (add_ends keys) keys relationships)

pub record Neighborhood : Type 0 where
  pub omitted : ℕ
  pub snapshot : DatabaseSnapshot

-- The root, the path, and the keys that the hops reached, each once.
unfoldable pub ordered_keys :
    ObjectKey → List KnownRelationship → ℕ → List ObjectKey → List TableKey
unfolding hop_keys
ordered_keys root relationships depth path =
    of_list
      (object_id root ∷ map object_id path ++ hop_keys relationships depth (object_id root ∷ []))

unfoldable pub included_keys :
    ObjectKey → List KnownRelationship → ℕ → List ObjectKey → List TableKey
unfolding ordered_keys
included_keys root relationships depth path =
    of_list (take 100 (ordered_keys root relationships depth path))

unfoldable pub restrict : List TableKey → SchemaDefinition → SchemaDefinition
restrict included schema = record schema {
  views = [];
  enums = [];
  tables = filter (λ table. contains table.key included) schema.tables;
}

unfoldable pub neighborhood :
    DatabaseSnapshot → ObjectKey → List KnownRelationship → ℕ → List ObjectKey → Neighborhood
unfolding included_keys restrict
neighborhood snapshot root relationships depth path =
    let included = included_keys root relationships depth path in
    record {
      omitted = length (ordered_keys root relationships depth path) - length included;
      snapshot = record snapshot { schemas = map (restrict included) snapshot.schemas };
    }
