-- ===== src/Preflight/Families.antt =====
-- preflight/schema-preflight.ts, `comparePostgres`: which types of the catalog are suspected to differ.
use nodal_studio.Prelude.{
  String, Bool, true, false, not, ◌&&◌, ◌||◌, List, [], ◌∷◌, Option, none, some, map, any, all,
  flat_map, contains, contains-append, lookup, string_eq, ◌==◌, ◌≡◌, refl, sym, ap, ◌∙◌, arith,
  Bool-cases, inl, inr,
}
use nodal_studio.Model.{ColumnDefinition}
use nodal_studio.Preflight.{
  TypeComparison, TypeOutcome, suspected, insufficient, Member, member, inherited_names,
}
use nodal_studio.Preflight.Postgres.{compare_postgres, compare_families, pg_family, families}

-- Types that can be compared with each other stand in a group. What an object literal inherits stands alone.
abbrev pub groups : List (List String)
groups =
    ("int2" ∷ "int4" ∷ "int8" ∷ "numeric" ∷ "float4" ∷ "float8" ∷ [])
    ∷ ("text" ∷ "varchar" ∷ "bpchar" ∷ "name" ∷ [])
    ∷ ("timestamp" ∷ "timestamptz" ∷ "date" ∷ "time" ∷ "timetz" ∷ [])
    ∷ ("uuid" ∷ [])
    ∷ ("bool" ∷ [])
    ∷ ("bytea" ∷ [])
    ∷ map (λ name. name ∷ []) inherited_names

abbrev pub is_grouped : String → Bool
is_grouped name = any (contains name) groups

abbrev pub stand_together : String → String → Bool
stand_together a b = any (λ group. contains a group && contains b group) groups

abbrev is_suspicion : Option TypeOutcome → Bool
is_suspicion none = false
is_suspicion (some suspected) = true
is_suspicion (some insufficient) = false

abbrev pub is_suspected : TypeComparison → Bool
is_suspected c = is_suspicion c.outcome

abbrev known : List String
known = flat_map (λ group. group) groups

abbrev same_test : Bool → Bool → Bool
same_test true b = b
same_test false b = not b

abbrev agrees_on : String → String → Bool
agrees_on a b =
    same_test (is_suspected (compare_families (a == b) (pg_family a) (pg_family b)))
      (not (stand_together a b))

known_pairs : all (λ a. all (agrees_on a) known) known ≡ true
unfolding pg_family contains
known_pairs = refl

all-listed :
    (p : String → Bool) (names : List String) (name : String)
    → all p names ≡ true
    → contains name names ≡ true
    → p name ≡ true
unfolding contains
all-listed p [] name h m = cc
all-listed p (first ∷ names) name h m = elim (Bool-cases (first == name)) [
  | inl e ↦
      let passes : p first ≡ true = ground arith in
      ap p (sym ((string_eq.agree_iff first name).0 e)) ∙ passes
  | inr e ↦ all-listed p names name (ground arith) (rw e at m)
]

is_grouped-contains :
    (name : String) (lists : List (List String))
    → any (contains name) lists ≡ contains name (flat_map (λ group. group) lists)
unfolding contains
is_grouped-contains name [] = refl
is_grouped-contains name (group ∷ lists) =
    ground
      (arith, is_grouped-contains name lists, contains-append name group (flat_map (λ l. l) lists))

lookup-absent :
    (name : String) (pairs : List (String × String))
    → contains name (map (λ pair. pair.0) pairs) ≡ false
    → lookup name pairs ≡ none
unfolding contains lookup
lookup-absent name [] h = refl
lookup-absent name ((first, value) ∷ pairs) h =
    let other : (first == name) ≡ false = ground arith in
    rw other (lookup-absent name pairs (ground arith))

left_false : (a b : Bool) → (a || b) ≡ false → a ≡ false
left_false a b h = ground arith

right_false : (a b : Bool) → (a || b) ≡ false → b ≡ false
right_false a b h = ground arith

member-absent :
    (name : String) (pairs : List (String × String))
    → (contains name (map (λ pair. pair.0) pairs) || contains name inherited_names) ≡ false
    → member pairs name ≡ none
unfolding member
member-absent name pairs h =
    let own_absent = lookup-absent name pairs (left_false _ _ h) in
    rw (own_absent, right_false (contains name (map (λ pair. pair.0) pairs)) _ h, member) refl

ungrouped : (name : String) → is_grouped name ≡ false → pg_family name ≡ none
unfolding pg_family
ungrouped name h = member-absent name families (
    sym (contains-append name (map (λ pair. pair.0) families) inherited_names)
    ∙ (sym (is_grouped-contains name groups) ∙ h))

unknown-left :
    (same : Bool) (o : Option Member) → is_suspected (compare_families same none o) ≡ false
unknown-left same none = refl
unknown-left same (some f) = refl

unknown-right :
    (same : Bool) (o : Option Member) → is_suspected (compare_families same o none) ≡ false
unknown-right same none = refl
unknown-right same (some f) = refl

same_test-eq : (a b : Bool) → same_test a b ≡ true → a ≡ b
same_test-eq a b h = ground arith

families-suspected :
    (a b : String)
    → is_suspected (compare_families (a == b) (pg_family a) (pg_family b))
      ≡ (is_grouped a && is_grouped b && not (stand_together a b))
families-suspected a b = elim (Bool-cases (is_grouped a)) [
  | inr h ↦
      ap (λ o. is_suspected (compare_families (a == b) o (pg_family b))) (ungrouped a h)
      ∙ (unknown-left (a == b) (pg_family b) ∙ (rw h refl))
  | inl h ↦ elim (Bool-cases (is_grouped b)) [
    | inr k ↦
        ap (λ o. is_suspected (compare_families (a == b) (pg_family a) o)) (ungrouped b k)
        ∙ (unknown-right (a == b) (pg_family a) ∙ (rw (h, k) refl))
    | inl k ↦
        let row =
          all-listed (λ x. all (agrees_on x) known) known a known_pairs
            (sym (is_grouped-contains a groups) ∙ h) in
        let pair = all-listed (agrees_on a) known b row (sym (is_grouped-contains b groups) ∙ k) in
        let found : is_suspected (compare_families (a == b) (pg_family a) (pg_family b))
            ≡ not (stand_together a b) =
          same_test-eq _ _ pair in
        rw (h, k) found
  ]
]

-- Two types are suspected to differ exactly if both are of the catalog and stand in groups, but not in the same one.
pub compare_postgres-is_suspected :
    (a b : ColumnDefinition)
    → is_suspected (compare_postgres a b) ≡ (
        (a.type_schema == "pg_catalog")
        && (b.type_schema == "pg_catalog")
        && is_grouped a.type_name
        && is_grouped b.type_name
        && not (stand_together a.type_name b.type_name))
unfolding compare_postgres
compare_postgres-is_suspected a b = elim (Bool-cases (a.type_schema == "pg_catalog")) [
  | inr h ↦ rw h refl
  | inl h ↦ elim (Bool-cases (b.type_schema == "pg_catalog")) [
    | inr k ↦ rw (h, k) refl
    | inl k ↦ rw (h, k) (families-suspected a.type_name b.type_name)
  ]
]
