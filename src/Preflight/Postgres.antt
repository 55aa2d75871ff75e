-- ===== src/Preflight/Postgres.antt =====
-- preflight/schema-preflight.ts, `comparePostgres`: which pairs of PostgreSQL types are suspected.
use nodal_studio.Prelude.{
  String, Bool, not, ◌||◌, List, [], ◌∷◌, Option, some, string_eq, ◌==◌, if◌then◌else◌,
}
use nodal_studio.Model.{ColumnDefinition}
use nodal_studio.Preflight.{TypeComparison, unknown, suspect, agrees, Member, same_member, member}

abbrev pub families : List (String × String)
families =
    ("int2", "numeric")
    ∷ ("int4", "numeric")
    ∷ ("int8", "numeric")
    ∷ ("numeric", "numeric")
    ∷ ("float4", "numeric")
    ∷ ("float8", "numeric")
    ∷ ("text", "string")
    ∷ ("varchar", "string")
    ∷ ("bpchar", "string")
    ∷ ("name", "string")
    ∷ ("timestamp", "temporal")
    ∷ ("timestamptz", "temporal")
    ∷ ("date", "temporal")
    ∷ ("time", "temporal")
    ∷ ("timetz", "temporal")
    ∷ ("uuid", "uuid")
    ∷ ("bool", "boolean")
    ∷ ("bytea", "binary")
    ∷ []

-- `pgFamilies[typeName]`
unfoldable pub pg_family : String → Option Member
unfolding member
pg_family name = member families name

-- The tests from the families on.
abbrev pub compare_families : Bool → Option Member → Option Member → TypeComparison
compare_families same (some left) (some right) =
    if same
    then agrees
    else if same_member left right
    then unknown
        "Different PostgreSQL types may support cross-type comparisons; the required operators and casts are not captured."
    else suspect "The captured PostgreSQL columns belong to different built-in type families."
compare_families same _ _ =
    unknown "These PostgreSQL types need catalog/operator information absent from this snapshot."

unfoldable pub compare_postgres : ColumnDefinition → ColumnDefinition → TypeComparison
unfolding pg_family
compare_postgres a b =
    if not (a.type_schema == "pg_catalog") || not (b.type_schema == "pg_catalog")
    then unknown
        "PostgreSQL domain or custom-type compatibility needs catalog information absent from this snapshot."
    else compare_families (a.type_name == b.type_name) (pg_family a.type_name)
        (pg_family b.type_name)
