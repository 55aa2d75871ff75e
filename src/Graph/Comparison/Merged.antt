-- ===== src/Graph/Comparison/Merged.antt =====
-- The merged columns and relations of a compared table.
use mathlib.Core.List.Memᴰ
use nodal_studio.Prelude.{
  String, Bool, false, not, ◌||◌, List, [], ◌∷◌, ◌++◌, none, some, ◌≡◌, ◌≢◌, inl, inr, refl, ◌∙◌,
  arith, filter, any, any-append, any-sort, map, Memᴰ, mem-flat_map, mem-map, Option-cases,
  Bool-cases, ◌==◌, string_eq, IsSorted, sort-IsSorted, contains, is_set, agree_refl, ◌⊎◌, true,
  some, sym, ap,
}
use nodal_studio.Model.{ColumnDefinition, ForeignKeyDefinition, foreign_key_eq, SchemaOperation}
use nodal_studio.Graph.Comparison.Relations.{
  deleted, before, ComparisonRelation, same_name, key_status, current_relation, previous_relation,
  relations_of,
}
use nodal_studio.Graph.Comparison.Columns.{has_column, by_ordinal, merged_columns}

any-not_in :
    (name : String) (current previous : List ColumnDefinition)
    → (has_column name current
        || any (λ c. c.name == name) (filter (λ c. not (has_column c.name current)) previous))
      ≡ (has_column name current || has_column name previous)
any-not_in name current [] = refl
any-not_in name current (c ∷ previous) = elim (Bool-cases (c.name == name)) [
  | inl h ↦
      let e : c.name ≡ name = (string_eq.agree_iff c.name name).0 h in
      rw e (ground (arith, any-not_in name current previous))
  | inr h ↦ ground (arith, any-not_in name current previous)
]

-- A column is shown exactly if either side has one of its name, and the columns stand by their
-- ordinal positions.
pub merged_columns_lem :
    (name : String) (current previous : List ColumnDefinition)
    → (has_column name (merged_columns current previous)
        ≡ (has_column name current || has_column name previous))
      × IsSorted by_ordinal (merged_columns current previous)
unfolding merged_columns
merged_columns_lem name current previous =
    let gone = filter (λ column. not (has_column column.name current)) previous in
    (
      any-sort by_ordinal (λ c. c.name == name) (current ++ gone)
          ∙ any-append (λ c. c.name == name) current gone
          ∙ any-not_in name current previous,
      sort-IsSorted by_ordinal (λ x y h. ground arith) (λ x y z h k. ground arith)
          (current ++ gone),
    )

-- The first key of the name in the list has the same definition.
abbrev pub is_kept : ForeignKeyDefinition → List ForeignKeyDefinition → Bool
is_kept fk keys = elim (same_name fk keys) [ none ↦ false | some found ↦ fk == found ]

-- Where one relation of a compared table comes from.
pub data Origin (current previous : List ForeignKeyDefinition) (r : ComparisonRelation)
    : Type 0 where
  of_current :
      Memᴰ r.foreign_key current → r.snapshot_side ≢ some before → Origin current previous r
  of_previous :
      Memᴰ r.foreign_key previous
      → r.snapshot_side ≡ some before
      → r.change_status ≡ some deleted
      → is_kept r.foreign_key current ≡ false
      → (contains r.foreign_key current ≡ false) ⊎ (is_set (map (λ k. k.name) current) ≡ false)
      → Origin current previous r

name-listed :
    (fk : ForeignKeyDefinition) (keys : List ForeignKeyDefinition)
    → contains fk keys ≡ true
    → contains fk.name (map (λ k. k.name) keys) ≡ true
unfolding contains
name-listed fk [] m = cc
name-listed fk (key ∷ keys) m = elim (Bool-cases (key == fk)) [
  | inl e ↦ rw (ap (λ k. k.name) ((foreign_key_eq.agree_iff key fk).0 e), agree_refl fk.name) refl
  | inr e ↦ rw (name-listed fk keys (rw e at m)) (ground arith)
]

-- Where no name stands twice, a listed key is the first of its name.
same_name-listed :
    (fk : ForeignKeyDefinition) (keys : List ForeignKeyDefinition)
    → is_set (map (λ k. k.name) keys) ≡ true
    → contains fk keys ≡ true
    → same_name fk keys ≡ some fk
unfolding is_set contains
same_name-listed fk [] h m = cc
same_name-listed fk (key ∷ keys) h m = elim (Bool-cases (key == fk)) [
  | inl e ↦
      let same : key ≡ fk = (foreign_key_eq.agree_iff key fk).0 e in
      let named : (key.name == fk.name) ≡ true =
        ap (λ (k : ForeignKeyDefinition). k.name == fk.name) same ∙ agree_refl fk.name in
      rw named (ap some same)
  | inr e ↦
      let later : contains fk keys ≡ true = rw e at m in
      let other : (key.name == fk.name) ≡ false =
        ground (arith, name-listed fk keys later, string_eq.agree_iff key.name fk.name) in
      rw other (same_name-listed fk keys (ground arith) later)
]

gone :
    (fk : ForeignKeyDefinition) (current : List ForeignKeyDefinition)
    → is_kept fk current ≡ false
    → (contains fk current ≡ false) ⊎ (is_set (map (λ k. k.name) current) ≡ false)
gone fk current h = elim (Bool-cases (contains fk current)) [
  | inr e ↦ inl e
  | inl e ↦ elim (Bool-cases (is_set (map (λ k. k.name) current))) [
    | inr d ↦ inr d
    | inl d ↦
        let kept : is_kept fk current ≡ true =
          rw (same_name-listed fk current d e, is_kept) (agree_refl fk) in
        absurd (let bad : true ≡ false = sym kept ∙ h in cc)
  ]
]

previous_relation_sound :
    (current previous : List ForeignKeyDefinition) (fk : ForeignKeyDefinition)
    (r : ComparisonRelation)
    → Memᴰ fk previous
    → Memᴰ r (previous_relation current fk)
    → Origin current previous r
unfolding previous_relation
previous_relation_sound current previous fk r listed m =
    elim (Option-cases (same_name fk current)) [
      | inl e ↦
          let same = Memᴰ.eq_of_singleton (rw (e, previous_relation) at m) in
          let differs : is_kept fk current ≡ false = rw (e, is_kept) refl in
          rw same (of_previous listed refl refl differs (gone fk current differs))
      | inr (found, e) ↦ elim (Bool-cases (fk == found)) [
        | inl h ↦ absurd (Memᴰ.not-nil (rw (e, h, previous_relation) at m))
        | inr h ↦
            let same = Memᴰ.eq_of_singleton (rw (e, h, previous_relation) at m) in
            let differs : is_kept fk current ≡ false = rw (e, is_kept) h in
            rw same (of_previous listed refl refl differs (gone fk current differs))
      ]
    ]

side_of-ne-before :
    (comparing baseline : Bool) (previous : List ForeignKeyDefinition)
    (operations : List SchemaOperation) (fk : ForeignKeyDefinition)
    → (current_relation comparing baseline previous operations fk).snapshot_side ≢ some before
unfolding current_relation
side_of-ne-before comparing baseline previous operations fk =
    elim (Option-cases (key_status comparing baseline previous operations fk)) [
      | inl e ↦ rw e (λ h. cc)
      | inr (status, e) ↦ rw e (λ h. cc)
    ]

-- Each relation of a compared table is one of its current keys, or a previous key, shown as deleted
-- on the side before, that differs from the first current key of its name if there is one. If the
-- names of the current keys are distinct, no current key is identical to it.
pub relations_of-Origin :
    (comparing baseline : Bool) (current previous : List ForeignKeyDefinition)
    (operations : List SchemaOperation) (r : ComparisonRelation)
    → Memᴰ r (relations_of comparing baseline current previous operations)
    → Origin current previous r
unfolding relations_of
relations_of-Origin comparing baseline current previous operations r m =
    elim (Memᴰ.append_cases (map (current_relation comparing baseline previous operations) current)
      m) [
        | inl now ↦
            let (fk, listed, same) =
              mem-map (current_relation comparing baseline previous operations) r current now in
            rw same (
              of_current (unfold current_relation in listed)
                (side_of-ne-before comparing baseline previous operations fk))
        | inr then_ ↦
            let (fk, listed, inner) = mem-flat_map (previous_relation current) r previous then_ in
            previous_relation_sound current previous fk r listed inner
      ]
