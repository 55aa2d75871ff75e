-- ===== src/Graph/Inference/Sound.antt =====
-- Where every inferred relationship comes from.
use mathlib.Core.List.Memᴰ
use mathlib.Core.Option.{some-injective}
use nodal_studio.Prelude.{
  ℕ, zero, suc, ◌+◌, ◌≤◌, String, Bool, true, false, List, [], ◌∷◌, some, ◌≡◌, refl, ap, sym, ◌∙◌,
  arith, inl, inr, contains, Memᴰ, mem-flat_map, mem-filter, filter, Option-cases, ends_with,
  drop_end, get_elem?, nat_eq, string_eq, mem-map, leb,
}
use mathlib.Core.Path.{subst}
use nodal_studio.Model.{ColumnDefinition, TableDefinition}
use nodal_studio.Graph.Ids.{SchemaTable}
use nodal_studio.Graph.Inference.{
  InferredRelationship, has_id_key, index_candidates, declared_columns, stem_of, matching_places,
  at_places, resolve_inferred_target, relate, infer_column, infer_table, infer_relationships,
  name_of, score,
}
use nodal_studio.Graph.Inference.Index.{places, is_named, matching_places-index_candidates}
use nodal_studio.Graph.Inference.Target.{scored, resolve_inferred_target_iff}

places-ge :
    (p : SchemaTable → Bool) (n m : ℕ) (cs : List SchemaTable)
    → contains m (places p n cs) ≡ true
    → n ≤ m
unfolding contains
places-ge p n m [] h = cc
places-ge p n m (c ∷ cs) h = ground (arith, places-ge p (suc n) m cs)

places_sound :
    (p : SchemaTable → Bool) (n i : ℕ) (cs : List SchemaTable) (c : SchemaTable)
    → contains (n + i) (places p n cs) ≡ true
    → get_elem? cs i ≡ some c
    → p c ≡ true
unfolding contains
places_sound p n i [] c h k = cc
places_sound p n zero (x ∷ cs) c h k =
    ground (arith, places-ge p (suc n) (n + 0) cs, ap p (some-injective _ _ k))
places_sound p n (suc i) (x ∷ cs) c h k =
    let e : n + suc i ≡ suc n + i = omega arith in ground (arith, e, places_sound p (suc n) i cs c)

mem-at_places :
    (cs : List SchemaTable) (ns : List ℕ) (c : SchemaTable)
    → Memᴰ c (at_places cs ns)
    → (m : ℕ) × (contains m ns ≡ true) × (get_elem? cs m ≡ some c)
unfolding at_places contains
mem-at_places cs [] c h = absurd (Memᴰ.not-nil h)
mem-at_places cs (n ∷ ns) c h = elim (Option-cases (get_elem? cs n)) [
  | inl absent ↦
      let (m, listed, k) = mem-at_places cs ns c (rw (absent, at_places) at h) in
      (m, ground arith, k)
  | inr (x, present) ↦ elim (Memᴰ.cases_cons (rw (present, at_places) at h)) [
    | inl same ↦ (n, ground (arith, nat_eq.agree_iff n n), present ∙ ap some (sym same))
    | inr later ↦ let (m, listed, k) = mem-at_places cs ns c later in (m, ground arith, k)
  ]
]

mem-get_elem? {ℓ} : {A : Type ℓ} (cs : List A) (m : ℕ) (c : A) → get_elem? cs m ≡ some c → Memᴰ c cs
mem-get_elem? [] m c h = cc
mem-get_elem? (x ∷ cs) zero c h = Memᴰ.head (sym (some-injective _ _ h))
mem-get_elem? (x ∷ cs) (suc m) c h = Memᴰ.tail (mem-get_elem? cs m c h)

pub record IsInferred (tables : List SchemaTable) (r : InferredRelationship) : Type 0 where
  pub source : SchemaTable
  pub source_listed : Memᴰ source tables
  pub column : ColumnDefinition
  pub column_listed : Memᴰ column source.table.columns
  pub suffix : ends_with "_id" column.name ≡ true
  pub undeclared : contains column.name (declared_columns source.table) ≡ false
  pub target : SchemaTable
  pub target_listed : Memᴰ target tables
  pub keyed : has_id_key target ≡ true
  pub named : is_named (drop_end 3 column.name) target ≡ true
  pub shown : r ≡ relate source column target

stem_of_sound :
    (table : TableDefinition) (column : ColumnDefinition) (stem : String)
    → stem_of table column ≡ some stem
    → (ends_with "_id" column.name ≡ true)
      × (contains column.name (declared_columns table) ≡ false)
      × (drop_end 3 column.name ≡ stem)
unfolding stem_of
stem_of_sound table column stem h = ground arith

-- A resolved target is one of the matching candidates.
resolve-listed :
    (cs : List SchemaTable) (schema table stem : String) (c : SchemaTable)
    → resolve_inferred_target cs schema table stem ≡ some c
    → Memᴰ c cs
resolve-listed cs schema table stem c h =
    let (n, best) = (resolve_inferred_target_iff cs schema table stem c).0 h in
    let (listed, _) =
      mem-filter (λ q. leb n q.1) (c, n) (scored cs schema table stem) (rw best (Memᴰ.head refl)) in
    let (d, d_listed, same) = mem-map (λ d. (d, score schema table stem d)) (c, n) cs listed in
    subst (λ x. Memᴰ x cs) (sym (ap (λ (q : SchemaTable × ℕ). q.0) same)) d_listed

target-named :
    (candidates : List SchemaTable) (schema table stem : String) (c : SchemaTable)
    → resolve_inferred_target
        (at_places candidates (matching_places (index_candidates candidates) stem))
        schema
        table
        stem
      ≡ some c
    → Memᴰ c candidates × (is_named stem c ≡ true)
target-named candidates schema table stem c h =
    let places_found = matching_places (index_candidates candidates) stem in
    let listed = resolve-listed (at_places candidates places_found) schema table stem c h in
    let (m, found_at, here) = mem-at_places candidates places_found c listed in
    let e : 0 + m ≡ m = omega arith in
    (
      mem-get_elem? candidates m c here,
      places_sound (is_named stem) 0 m candidates c
          (rw e (sym (matching_places-index_candidates candidates stem m) ∙ found_at)) here,
    )

infer_column-IsInferred :
    (tables : List SchemaTable) (t : SchemaTable) (column : ColumnDefinition)
    (r : InferredRelationship)
    → Memᴰ t tables
    → Memᴰ column t.table.columns
    → Memᴰ r (
        infer_column
          (filter has_id_key tables)
          (index_candidates (filter has_id_key tables))
          t
          column)
    → IsInferred tables r
unfolding infer_column
infer_column-IsInferred tables t column r mt mc m =
    let candidates = filter has_id_key tables in
    let index = index_candidates candidates in
    elim (Option-cases (stem_of t.table column)) [
      | inl e ↦ absurd (Memᴰ.not-nil (rw (e, infer_column) at m))
      | inr (stem, e) ↦
          let chosen =
            resolve_inferred_target (at_places candidates (matching_places index stem)) t.schema
              (name_of t) stem in
          elim (Option-cases chosen) [
            | inl k ↦ absurd (Memᴰ.not-nil (rw (e, k, infer_column) at m))
            | inr (target, k) ↦
                let (suffix, undeclared, same) = stem_of_sound t.table column stem e in
                let (listed, named) = target-named candidates t.schema (name_of t) stem target k in
                let (target_listed, keyed) = mem-filter has_id_key target tables listed in
                record {
                  source = t;
                  source_listed = mt;
                  column = column;
                  column_listed = mc;
                  suffix = suffix;
                  undeclared = undeclared;
                  target = target;
                  target_listed = target_listed;
                  keyed = keyed;
                  named = rw same named;
                  shown = Memᴰ.eq_of_singleton (rw (e, k, infer_column) at m);
                }
          ]
    ]

-- Every inferred relationship joins a listed column that ends in `_id` and that no foreign key of its
-- table declares to the `id` of a listed table, whose primary key has `id` and whose name is the
-- column's stem, or the stem's plural from some underscore on.
pub infer_relationships-IsInferred :
    (tables : List SchemaTable) (r : InferredRelationship)
    → Memᴰ r (infer_relationships tables)
    → IsInferred tables r
unfolding infer_relationships infer_table
infer_relationships-IsInferred tables r m =
    let candidates = filter has_id_key tables in
    let index = index_candidates candidates in
    let (t, mt, inner) = mem-flat_map (infer_table candidates index) r tables m in
    let (column, mc, k) = mem-flat_map (infer_column candidates index t) r t.table.columns inner in
    infer_column-IsInferred tables t column r mt mc k
