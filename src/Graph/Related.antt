-- ===== src/Graph/Related.antt =====
-- graph/schema-graph.ts, `relatedTableIds`: the tables within a number of relationships of the
-- given roots. The adjacency map is built in place; each set belongs to one key.
pub mod Linked
pub mod Levels
use nodal_studio.Prelude.{
  ℕ, zero, suc, String, Bool, true, false, ◌||◌, List, [], ◌∷◌, Option, none, some, lookup, insert,
  add, contains, of_list, fold, or_else, is_some, if◌then◌else◌, string_eq,
}
use nodal_studio.Model.{
  ForeignKeyDefinition, LogicalRelationship, LogicalRelationshipStatus, RelationshipEndpoint,
}
use nodal_studio.Graph.Links.{Adjacency, neighbors, has, join, link}
use nodal_studio.Graph.Ids.{SchemaTable, node_id, table_node_id}

-- `adjacency.set(id, adjacency.get(id) ?? new Set())`
touch : String → Adjacency → Adjacency
touch id adj = insert id (neighbors adj id) adj

abbrev pub target_id : ForeignKeyDefinition → String
target_id fk = table_node_id fk.referenced_schema fk.referenced_table

abbrev pub endpoint_id : RelationshipEndpoint → String
endpoint_id e = table_node_id e.schema e.table

add_foreign_key : String → Adjacency → ForeignKeyDefinition → Adjacency
add_foreign_key source adj fk = join source (target_id fk) (touch (target_id fk) adj)

add_table : Adjacency → SchemaTable → Adjacency
add_table adj t = fold (add_foreign_key (node_id t)) (touch (node_id t) adj) t.table.foreign_keys

abbrev pub is_live : LogicalRelationshipStatus → Bool
is_live LogicalRelationshipStatus.disabled = false
is_live LogicalRelationshipStatus.orphaned = false
is_live _ = true

add_logical : Adjacency → LogicalRelationship → Adjacency
add_logical adj r =
    if is_live r.status
    then if has (endpoint_id r.source) adj
      then if has (endpoint_id r.target) adj
        then join (endpoint_id r.source) (endpoint_id r.target) adj
        else adj
      else adj
    else adj

pub adjacency : List SchemaTable → List LogicalRelationship → Adjacency
adjacency tables logical = fold add_logical (fold add_table [] tables) logical

-- The variables of the level loop.
pub record Search : Type 0 where
  pub included : List String
  pub next : List String

-- The body of `for (const neighbor of ...)`.
visit : Search → String → Search
visit s neighbor = record {
  next = if contains neighbor s.included then s.next else add neighbor s.next;
  included = add neighbor s.included;
}

expand : Adjacency → Search → String → Search
expand adj s id = fold visit s (neighbors adj id)

-- The level loop; `included` and `frontier` before the level are those of `s`.
level_loop : Adjacency → ℕ → Search → Search
level_loop adj zero s = s
level_loop adj (suc depth) s =
    level_loop adj depth (fold (expand adj) (record s { next = [] }) s.next)

unfoldable pub related_table_ids :
    List SchemaTable → List String → ℕ → List LogicalRelationship → List String
unfolding adjacency add_table add_foreign_key add_logical join link touch level_loop expand visit
related_table_ids tables roots depth logical =
    (level_loop (adjacency tables logical) depth
      (record { included = of_list roots; next = of_list roots })).included
