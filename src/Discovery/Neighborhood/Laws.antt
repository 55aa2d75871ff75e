-- ===== src/Discovery/Neighborhood/Laws.antt =====
-- The tables of a neighborhood: which are kept, how many at most, and that the chosen path is kept.
use nodal_studio.Prelude.{
  ℕ, zero, suc, ◌+◌, ◌≤◌, ◌<◌, Bool, true, ◌&&◌, ◌||◌, List, [], ◌∷◌, ◌++◌, map, ◌≡◌, ◌↔◌, ◌⊎◌,
  refl, sym, ◌∙◌, ap, arith, inl, inr, Bool-cases, contains, contains-append, contains-of_list, add,
  add_all, of_list, filter, take, any, any-append, flat_map, length, length-append, length-map,
  ◌==◌, leb, false,
}
use mathlib.Core.List.{append-nil, append_assoc}
use nodal_studio.Model.{
  TableKey, TableDefinition, ObjectKey, SchemaDefinition, DatabaseSnapshot, table_key_eq,
}
use nodal_studio.Graph.Comparison.{tables_of}
use nodal_studio.Graph.Walks.{Within, root as from_root}
use nodal_studio.Discovery.{KnownRelationship, object_id}
use nodal_studio.Discovery.Neighborhood.{
  hop_keys, ordered_keys, included_keys, restrict, neighborhood,
}
use nodal_studio.Discovery.Neighborhood.Hops.{linked, hop_keys_iff}

length-take : (n : ℕ) (xs : List TableKey) → length (take n xs) ≤ n
length-take zero xs = omega arith
length-take (suc n) [] = omega arith
length-take (suc n) (x ∷ xs) = omega (arith, length-take n xs)

take-all : (n : ℕ) (xs : List TableKey) → length xs ≤ n → take n xs ≡ xs
take-all zero [] h = refl
take-all zero (x ∷ xs) h = absurd (omega arith)
take-all (suc n) [] h = refl
take-all (suc n) (x ∷ xs) h = ap (λ ys. x ∷ ys) (take-all n xs (omega arith))

length-add_all : (s xs : List TableKey) → length (add_all s xs) ≤ length s + length xs
unfolding add
length-add_all s [] = omega arith
length-add_all s (x ∷ xs) = ground (arith, length-add_all (add x s) xs, length-append s (x ∷ []))

-- `take` from a list that begins with a short one keeps all of that.
contains-take_append :
    (n : ℕ) (xs ys : List TableKey) (v : TableKey)
    → length xs ≤ n
    → contains v xs ≡ true
    → contains v (take n (xs ++ ys)) ≡ true
unfolding contains
contains-take_append n [] ys v h m = cc
contains-take_append zero (x ∷ xs) ys v h m = absurd (omega arith)
contains-take_append (suc n) (x ∷ xs) ys v h m = ground (arith, contains-take_append n xs ys v)

-- `add_all` only appends.
add_all-extends : (s xs : List TableKey) → (more : List TableKey) × (add_all s xs ≡ s ++ more)
unfolding add
add_all-extends s [] = ([], sym (append-nil s))
add_all-extends s (x ∷ xs) = elim (Bool-cases (contains x s)) [
  | inl h ↦ rw h (add_all-extends s xs)
  | inr h ↦
      let (more, e) = add_all-extends (s ++ x ∷ []) xs in
      rw h (x ∷ more, e ∙ append_assoc s (x ∷ []) more)
]

add_all-append : (s xs ys : List TableKey) → add_all s (xs ++ ys) ≡ add_all (add_all s xs) ys
add_all-append s [] ys = refl
add_all-append s (x ∷ xs) ys = add_all-append (add x s) xs ys

kept-tables :
    (included : List TableKey) (tables : List TableDefinition) (v : TableKey)
    → any (λ t. t.key == v) (filter (λ t. contains t.key included) tables)
      ≡ (any (λ t. t.key == v) tables && contains v included)
kept-tables included [] v = refl
kept-tables included (t ∷ tables) v =
    ground (arith, kept-tables included tables v, table_key_eq.agree_iff t.key v)

restricted :
    (included : List TableKey) (schemas : List SchemaDefinition) (v : TableKey)
    → any (λ t. t.key == v) (flat_map (λ schema. schema.tables) (map (restrict included) schemas))
      ≡ (any (λ t. t.key == v) (flat_map (λ schema. schema.tables) schemas) && contains v included)
unfolding restrict
restricted included [] v = refl
restricted included (schema ∷ schemas) v = ground (
  arith,
  any-append (λ t. t.key == v) (filter (λ t. contains t.key included) schema.tables)
      (flat_map (λ x. x.tables) (map (restrict included) schemas)),
  any-append (λ t. t.key == v) schema.tables (flat_map (λ x. x.tables) schemas),
  kept-tables included schema.tables v,
  restricted included schemas v,
)

-- The snapshot has a table of the key.
abbrev pub has_table : DatabaseSnapshot → TableKey → Bool
has_table snapshot v = any (λ t. t.key == v) (tables_of snapshot)

module _ (snapshot : DatabaseSnapshot) (root : ObjectKey) (relationships : List KnownRelationship)
    (depth : ℕ) (path : List ObjectKey) where
  has_table-neighborhood :
      (v : TableKey)
      → has_table (neighborhood snapshot root relationships depth path).snapshot v ≡ (
          has_table snapshot v
          && contains v (take 100 (ordered_keys root relationships depth path)))
  unfolding neighborhood included_keys
  has_table-neighborhood v =
      restricted (of_list (take 100 (ordered_keys root relationships depth path))) snapshot.schemas
        v
      ∙ ap (λ b. has_table snapshot v && b)
          (contains-of_list v (take 100 (ordered_keys root relationships depth path)))

  contains-ordered_keys :
      (v : TableKey)
      → contains v (ordered_keys root relationships depth path) ≡ (
          object_id root == v
          || contains v (map object_id path)
          || contains v (hop_keys relationships depth (object_id root ∷ [])))
  unfolding ordered_keys contains
  contains-ordered_keys v = ground (
    arith,
    contains-of_list v
        (object_id root ∷ map object_id path ++ hop_keys relationships depth (object_id root ∷ [])),
    contains-append v (map object_id path) (hop_keys relationships depth (object_id root ∷ [])),
  )

  start :
      (v : TableKey)
      → (object_id root == v) ≡ true
      → Within (linked relationships) (object_id root ∷ []) depth v
  unfolding contains
  start v p = from_root (ground arith)

  kept :
      (v : TableKey)
      → length path < 100
      → contains v (object_id root ∷ map object_id path) ≡ true
      → contains v (take 100 (ordered_keys root relationships depth path)) ≡ true
  unfolding ordered_keys
  kept v short on =
      let first = object_id root ∷ map object_id path in
      let hops = hop_keys relationships depth (object_id root ∷ []) in
      let (more, e) = add_all-extends (of_list first) hops in
      let split : ordered_keys root relationships depth path ≡ of_list first ++ more =
        add_all-append [] first hops ∙ e in
      rw split (
        contains-take_append 100 (of_list first) more v
          (omega (arith, length-add_all [] first, length-map object_id path))
          (contains-of_list v first ∙ on))

  included_bound : length (included_keys root relationships depth path) ≤ 100
  unfolding included_keys
  included_bound =
      let taken = take 100 (ordered_keys root relationships depth path) in
      omega (
        arith,
        length-add_all [] taken,
        length-take 100 (ordered_keys root relationships depth path),
      )

  -- If the root, the path and the reached tables are no more than 100, then the neighborhood has exactly
  -- the snapshot's tables that stand on the path or that a walk of at most `depth` relationships
  -- reaches from the root.
  pub has_table-neighborhood_iff :
      (v : TableKey)
      → length (ordered_keys root relationships depth path) ≤ 100
      → (has_table (neighborhood snapshot root relationships depth path).snapshot v ≡ true) ↔ (
          (has_table snapshot v ≡ true)
          × ((contains v (map object_id path) ≡ true)
              ⊎ Within (linked relationships) (object_id root ∷ []) depth v))
  has_table-neighborhood_iff v h =
      let all_taken = take-all 100 (ordered_keys root relationships depth path) h in
      let shown : has_table (neighborhood snapshot root relationships depth path).snapshot v
          ≡ (has_table snapshot v && contains v (ordered_keys root relationships depth path)) =
        has_table-neighborhood v ∙ ap (λ ks. has_table snapshot v && contains v ks) all_taken in
      let reached = hop_keys_iff relationships (object_id root ∷ []) depth v in
      (
        λ m. (
          ground arith,
          elim (Bool-cases (contains v (map object_id path))) [
            | inl on ↦ inl on
            | inr off ↦ inr (elim (Bool-cases (object_id root == v)) [
              | inl p ↦ start v p
              | inr p ↦ reached.0 (ground (arith, contains-ordered_keys v))
            ])
          ],
        ),
        λ (listed, way). elim way [
          | inl on ↦ ground (arith, contains-ordered_keys v)
          | inr w ↦ ground (arith, contains-ordered_keys v, reached.1 w)
        ],
      )

  root-kept :
      contains (object_id root) (take 100 (ordered_keys root relationships depth path)) ≡ true
  unfolding ordered_keys add contains
  root-kept =
      let rest = map object_id path ++ hop_keys relationships depth (object_id root ∷ []) in
      let (more, e) = add_all-extends (object_id root ∷ []) rest in
      let split : ordered_keys root relationships depth path ≡ (object_id root ∷ []) ++ more = e in
      rw split (
        contains-take_append 100 (object_id root ∷ []) more (object_id root) (omega arith)
          (ground (arith, table_key_eq.agree_iff (object_id root) (object_id root))))

  -- A neighborhood includes no more than 100 keys. If the snapshot has the table of the root, it is kept, and so is every
  -- table of the chosen path that the snapshot has, if the path has fewer than 100 tables.
  pub neighborhood-keeps_path :
      (v : TableKey)
      → (length (included_keys root relationships depth path) ≤ 100)
        × (has_table (neighborhood snapshot root relationships depth path).snapshot (object_id root)
            ≡ has_table snapshot (object_id root))
        × ((100 ≤ length path)
            ⊎ ((contains v (map object_id path) ≡ false)
                ⊎ (has_table (neighborhood snapshot root relationships depth path).snapshot v
                    ≡ has_table snapshot v)))
  unfolding contains
  neighborhood-keeps_path v = (
    included_bound,
    has_table-neighborhood (object_id root) ∙ ground (arith, root-kept),
    elim (Bool-cases (leb 100 (length path))) [
      | inl long ↦ inl (ground arith)
      | inr short ↦ inr (elim (Bool-cases (contains v (map object_id path))) [
        | inr off ↦ inl off
        | inl on ↦
            let fits : length path < 100 = ground arith in
            let kept_one = kept v fits (ground arith) in
            inr (has_table-neighborhood v ∙ ground (arith, kept_one))
      ])
    ],
  )
