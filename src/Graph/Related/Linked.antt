-- ===== src/Graph/Related/Linked.antt =====
-- What the adjacency map holds: two tables are neighbors exactly if a foreign key, or a live logical
-- relationship between known tables, joins them.
use nodal_studio.Prelude.{
  String, Bool, true, ◌&&◌, ◌||◌, List, [], ◌∷◌, ◌≡◌, refl, arith, contains, lookup-insert, lookup,
  fold, any, ◌==◌, string_eq, agree_refl, ◌∙◌,
}
use nodal_studio.Model.{ForeignKeyDefinition, LogicalRelationship}
use nodal_studio.Graph.Ids.{SchemaTable, node_id}
use nodal_studio.Graph.Links.{Adjacency, neighbors, has, near, joins, has-join, near-join}
use nodal_studio.Graph.Related.{
  touch, target_id, endpoint_id, add_foreign_key, add_table, is_live, add_logical, adjacency,
}

has-touch : (id x : String) (adj : Adjacency) → has x (touch id adj) ≡ (id == x || has x adj)
unfolding touch
has-touch id x adj = ground (arith, lookup-insert id x (neighbors adj id) adj)

near-touch : (id x y : String) (adj : Adjacency) → near (touch id adj) x y ≡ near adj x y
unfolding touch
near-touch id x y adj =
    ground (arith, lookup-insert id x (neighbors adj id) adj, string_eq.agree_iff id x)

has-add_foreign_key :
    (source : String) (adj : Adjacency) (fk : ForeignKeyDefinition) (x : String)
    → has x (add_foreign_key source adj fk) ≡ (target_id fk == x || has x adj)
unfolding add_foreign_key
has-add_foreign_key source adj fk x = rw (has-join, has-touch) refl

near-add_foreign_key :
    (source : String) (adj : Adjacency) (fk : ForeignKeyDefinition) (x y : String)
    → has source adj ≡ true
    → near (add_foreign_key source adj fk) x y ≡ (near adj x y || joins source (target_id fk) x y)
unfolding add_foreign_key
near-add_foreign_key source adj fk x y p = ground (
  arith,
  near-join source (target_id fk) x y (touch (target_id fk) adj),
  near-touch (target_id fk) x y adj,
  has-touch (target_id fk) source adj,
  has-touch (target_id fk) (target_id fk) adj,
  agree_refl (target_id fk),
)

-- The table `t` is one of `x`, or has a foreign key that points at `x`.
abbrev pub mentions : String → SchemaTable → Bool
mentions x t = node_id t == x || any (λ fk. target_id fk == x) t.table.foreign_keys

-- A foreign key of the table `t` joins `x` and `y`.
abbrev pub key_joins : String → String → SchemaTable → Bool
key_joins x y t = any (λ fk. joins (node_id t) (target_id fk) x y) t.table.foreign_keys

has-add_foreign_keys :
    (source : String) (adj : Adjacency) (fks : List ForeignKeyDefinition) (x : String)
    → has x (fold (add_foreign_key source) adj fks)
      ≡ (has x adj || any (λ fk. target_id fk == x) fks)
has-add_foreign_keys source adj [] x = ground arith
has-add_foreign_keys source adj (fk ∷ fks) x = ground (
  arith,
  has-add_foreign_keys source (add_foreign_key source adj fk) fks x,
  has-add_foreign_key source adj fk x,
)

near-add_foreign_keys :
    (source : String) (adj : Adjacency) (fks : List ForeignKeyDefinition) (x y : String)
    → has source adj ≡ true
    → near (fold (add_foreign_key source) adj fks) x y
      ≡ (near adj x y || any (λ fk. joins source (target_id fk) x y) fks)
near-add_foreign_keys source adj [] x y p = ground arith
near-add_foreign_keys source adj (fk ∷ fks) x y p = ground (
  arith,
  near-add_foreign_keys source (add_foreign_key source adj fk) fks x y,
  near-add_foreign_key source adj fk x y,
  has-add_foreign_key source adj fk source,
)

has-add_table :
    (adj : Adjacency) (t : SchemaTable) (x : String)
    → has x (add_table adj t) ≡ (has x adj || mentions x t)
unfolding add_table
has-add_table adj t x = ground (
  arith,
  has-add_foreign_keys (node_id t) (touch (node_id t) adj) t.table.foreign_keys x,
  has-touch (node_id t) x adj,
)

near-add_table :
    (adj : Adjacency) (t : SchemaTable) (x y : String)
    → near (add_table adj t) x y ≡ (near adj x y || key_joins x y t)
unfolding add_table
near-add_table adj t x y = ground (
  arith,
  near-add_foreign_keys (node_id t) (touch (node_id t) adj) t.table.foreign_keys x y,
  near-touch (node_id t) x y adj,
  has-touch (node_id t) (node_id t) adj,
  agree_refl (node_id t),
)

has-add_tables :
    (adj : Adjacency) (tables : List SchemaTable) (x : String)
    → has x (fold add_table adj tables) ≡ (has x adj || any (mentions x) tables)
has-add_tables adj [] x = ground arith
has-add_tables adj (t ∷ tables) x =
    ground (arith, has-add_tables (add_table adj t) tables x, has-add_table adj t x)

near-add_tables :
    (adj : Adjacency) (tables : List SchemaTable) (x y : String)
    → near (fold add_table adj tables) x y ≡ (near adj x y || any (key_joins x y) tables)
near-add_tables adj [] x y = ground arith
near-add_tables adj (t ∷ tables) x y =
    ground (arith, near-add_tables (add_table adj t) tables x y, near-add_table adj t x y)

-- A live logical relationship between known tables joins `x` and `y`.
abbrev pub logical_joins : (String → Bool) → String → String → LogicalRelationship → Bool
logical_joins known x y r =
    is_live r.status
    && (known (endpoint_id r.source)
        && (known (endpoint_id r.target)
            && joins (endpoint_id r.source) (endpoint_id r.target) x y))

has-add_logical :
    (adj : Adjacency) (r : LogicalRelationship) (x : String) → has x (add_logical adj r) ≡ has x adj
unfolding add_logical
has-add_logical adj r x =
    ground (arith, has-join (endpoint_id r.source) (endpoint_id r.target) x adj)

near-add_logical :
    (adj : Adjacency) (r : LogicalRelationship) (x y : String)
    → near (add_logical adj r) x y ≡ (near adj x y || logical_joins (λ id. has id adj) x y r)
unfolding add_logical
near-add_logical adj r x y =
    ground (arith, near-join (endpoint_id r.source) (endpoint_id r.target) x y adj)

near-add_logicals :
    (known : String → Bool) (adj : Adjacency) (rs : List LogicalRelationship) (x y : String)
    → ((id : String) → has id adj ≡ known id)
    → near (fold add_logical adj rs) x y ≡ (near adj x y || any (logical_joins known x y) rs)
near-add_logicals known adj [] x y h = ground arith
near-add_logicals known adj (r ∷ rs) x y h = ground (
  arith,
  near-add_logicals known (add_logical adj r) rs x y (λ id. has-add_logical adj r id ∙ h id),
  near-add_logical adj r x y,
  h (endpoint_id r.source),
  h (endpoint_id r.target),
)

-- The table `id` is listed, or a foreign key points at it.
abbrev pub known_table : List SchemaTable → String → Bool
known_table tables id = any (mentions id) tables

-- A foreign key, or a live logical relationship between known tables, joins `x` and `y`.
abbrev pub linked : List SchemaTable → List LogicalRelationship → String → String → Bool
linked tables logical x y =
    any (key_joins x y) tables || any (logical_joins (known_table tables) x y) logical

pub near-adjacency :
    (tables : List SchemaTable) (logical : List LogicalRelationship) (x y : String)
    → near (adjacency tables logical) x y ≡ linked tables logical x y
unfolding adjacency contains lookup
near-adjacency tables logical x y = ground (
  arith,
  near-add_logicals (known_table tables) (fold add_table [] tables) logical x y
      (λ id. has-add_tables [] tables id),
  near-add_tables [] tables x y,
)
