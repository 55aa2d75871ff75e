-- ===== src/Discovery/Known/Laws.antt =====
-- Every known relationship has its ends in the snapshot, and none is dropped without a gap.
use nodal_studio.Prelude.{
  ℕ, suc, ◌+◌, String, Bool, true, not, ◌&&◌, ◌||◌, List, [], ◌∷◌, ◌++◌, ◌≡◌, refl, ◌∙◌, arith,
  Bool-cases, inl, inr, all, all-sort, length-sort, filter, fold, length, length-append,
}
use nodal_studio.Model.{
  TableKey, TableDefinition, ForeignKeyDefinition, DatabaseSnapshot, LogicalRelationship,
}
use nodal_studio.Graph.Comparison.{TableMap, map_of, tables_of}
use nodal_studio.Discovery.{KnownRelationship}
use nodal_studio.Discovery.Known.{
  Found, is_valid, of_foreign_key, of_logical, add_foreign_key, add_table, add_logical,
  is_compatible, is_duplicate, is_physical_already, is_self, is_physical, is_active,
  known_relationships,
}

module _ (stringify : List String → String) (lower : String → String)
    (precedes : String → String → Bool) where
  -- Both ends have all their columns, and a logical relationship does not lead to itself.
  abbrev pub is_known : TableMap → KnownRelationship → Bool
  is_known tables r = is_valid tables r && (is_physical r.kind || not (is_self r))

  all-append_one :
      (p : KnownRelationship → Bool) (rs : List KnownRelationship) (r : KnownRelationship)
      → all p (rs ++ r ∷ []) ≡ (all p rs && p r)
  all-append_one p [] r = ground arith
  all-append_one p (x ∷ rs) r = ground (arith, all-append_one p rs r)

  -- The number of relationships and gaps.
  abbrev pub total : Found → ℕ
  total found = length found.relationships + length found.gaps

  abbrev pub keys_in : List (TableKey × TableDefinition) → ℕ
  keys_in [] = 0
  keys_in ((id, table) ∷ tables) = length table.foreign_keys + keys_in tables

  module _ (tables : TableMap) where
    known_key :
        (table : TableDefinition) (found : Found) (fk : ForeignKeyDefinition)
        → all (is_known tables) found.relationships ≡ true
        → all
            (is_known tables)
            (add_foreign_key stringify lower precedes tables table found fk).relationships
          ≡ true
    unfolding add_foreign_key
    known_key table found fk h =
        elim (Bool-cases (is_valid tables (of_foreign_key stringify lower precedes table fk))) [
          | inl e ↦ rw e (
              ground (
                arith,
                all-append_one (is_known tables) found.relationships
                    (of_foreign_key stringify lower precedes table fk),
              ))
          | inr e ↦ rw e h
        ]

    total_key :
        (table : TableDefinition) (found : Found) (fk : ForeignKeyDefinition)
        → total (add_foreign_key stringify lower precedes tables table found fk) ≡ suc (total found)
    unfolding add_foreign_key
    total_key table found fk =
        elim (Bool-cases (is_valid tables (of_foreign_key stringify lower precedes table fk))) [
          | inl e ↦ rw e (
              omega (
                arith,
                length-append found.relationships
                    (of_foreign_key stringify lower precedes table fk ∷ []),
              ))
          | inr e ↦ rw e (omega (arith, length-append found.gaps (_ ∷ [])))
        ]

    known_table :
        (table : TableDefinition) (found : Found) (fks : List ForeignKeyDefinition)
        → all (is_known tables) found.relationships ≡ true
        → all
            (is_known tables)
            (fold (add_foreign_key stringify lower precedes tables table) found fks).relationships
          ≡ true
    known_table table found [] h = h
    known_table table found (fk ∷ fks) h =
        known_table table (add_foreign_key stringify lower precedes tables table found fk) fks
          (known_key table found fk h)

    total_table :
        (table : TableDefinition) (found : Found) (fks : List ForeignKeyDefinition)
        → total (fold (add_foreign_key stringify lower precedes tables table) found fks)
          ≡ length fks + total found
    total_table table found [] = omega arith
    total_table table found (fk ∷ fks) = omega (
      arith,
      total_table table (add_foreign_key stringify lower precedes tables table found fk) fks,
      total_key table found fk,
    )

    known_tables :
        (found : Found) (entries : TableMap)
        → all (is_known tables) found.relationships ≡ true
        → all
            (is_known tables)
            (fold (add_table stringify lower precedes tables) found entries).relationships
          ≡ true
    unfolding add_table
    known_tables found [] h = h
    known_tables found ((id, table) ∷ entries) h =
        known_tables (add_table stringify lower precedes tables found (id, table)) entries
          (known_table table found table.foreign_keys h)

    total_tables :
        (found : Found) (entries : TableMap)
        → total (fold (add_table stringify lower precedes tables) found entries)
          ≡ keys_in entries + total found
    unfolding add_table
    total_tables found [] = omega arith
    total_tables found ((id, table) ∷ entries) = omega (
      arith,
      total_tables (add_table stringify lower precedes tables found (id, table)) entries,
      total_table table found table.foreign_keys,
    )

    module _ (relations : List LogicalRelationship) where
      abbrev accepts : Found → LogicalRelationship → Bool
      accepts found relation =
          let r = of_logical stringify lower precedes relation in
          is_compatible stringify lower precedes tables r
          && (not (is_duplicate stringify lower precedes relations relation)
              && (not (is_physical_already stringify lower precedes found.relationships r)
                  && not (is_self r)))

      known_relation :
          (found : Found) (relation : LogicalRelationship)
          → all (is_known tables) found.relationships ≡ true
          → all
              (is_known tables)
              (add_logical stringify lower precedes tables relations found relation).relationships
            ≡ true
      unfolding add_logical is_compatible
      known_relation found relation h = elim (Bool-cases (accepts found relation)) [
        | inl e ↦ rw e (
            ground (
              arith,
              all-append_one (is_known tables) found.relationships
                  (of_logical stringify lower precedes relation),
            ))
        | inr e ↦ rw e h
      ]

      total_relation :
          (found : Found) (relation : LogicalRelationship)
          → total (add_logical stringify lower precedes tables relations found relation)
            ≡ suc (total found)
      unfolding add_logical
      total_relation found relation = elim (Bool-cases (accepts found relation)) [
        | inl e ↦ rw e (
            omega (
              arith,
              length-append found.relationships (of_logical stringify lower precedes relation ∷ []),
            ))
        | inr e ↦ rw e (omega (arith, length-append found.gaps (_ ∷ [])))
      ]

      known_relations :
          (found : Found) (rs : List LogicalRelationship)
          → all (is_known tables) found.relationships ≡ true
          → all
              (is_known tables)
              (fold (add_logical stringify lower precedes tables relations) found rs).relationships
            ≡ true
      known_relations found [] h = h
      known_relations found (r ∷ rs) h =
          known_relations (add_logical stringify lower precedes tables relations found r) rs
            (known_relation found r h)

      total_relations :
          (found : Found) (rs : List LogicalRelationship)
          → total (fold (add_logical stringify lower precedes tables relations) found rs)
            ≡ length rs + total found
      total_relations found [] = omega arith
      total_relations found (r ∷ rs) = omega (
        arith,
        total_relations (add_logical stringify lower precedes tables relations found r) rs,
        total_relation found r,
      )

  -- Every known relationship has columns, as many on each side, that its tables have in the snapshot, and
  -- no logical one leads to itself. Relationships and gaps are together as many as the foreign keys of
  -- the snapshot's tables and the active logical relationships of its data source.
  pub known_relationships_lem :
      (snapshot : DatabaseSnapshot) (relations : List LogicalRelationship)
      → (all
            (is_known (map_of (tables_of snapshot)))
            (known_relationships stringify lower precedes snapshot relations).relationships
          ≡ true)
        × (total (known_relationships stringify lower precedes snapshot relations)
            ≡ length (filter (is_active stringify lower precedes snapshot) relations)
              + keys_in (map_of (tables_of snapshot)))
  unfolding known_relationships
  known_relationships_lem snapshot relations =
      let tables = map_of (tables_of snapshot) in
      let live = filter (is_active stringify lower precedes snapshot) relations in
      let empty : Found = record { relationships = []; gaps = [] } in
      let keyed = fold (add_table stringify lower precedes tables) empty tables in
      let found = fold (add_logical stringify lower precedes tables relations) keyed live in
      (
        all-sort (λ a b. precedes a.id b.id) (is_known tables) found.relationships
            ∙ known_relations tables relations keyed live (known_tables tables empty tables refl),
        omega (
          arith,
          length-sort (λ a b. precedes a.id b.id) found.relationships,
          total_relations tables relations keyed live,
          total_tables tables empty tables,
        ),
      )
