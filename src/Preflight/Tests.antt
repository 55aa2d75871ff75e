-- ===== src/Preflight/Tests.antt =====
-- The theorems of Preflight at inputs that meet its hypotheses.
use nodal_studio.Prelude.{
  ◌&&◌, ◌==◌, true, [], ◌∷◌, map, or_else, all, eqb, join, refl, some, ◌≡◌, not, ◌≢◌, string_eq,
}
use nodal_studio.Model.{ColumnDefinition}
use nodal_studio.Samples.{column, snapshot, users, orders, items}
use nodal_studio.Preflight.{suspected, inherited}
use nodal_studio.Preflight.Mysql.{Host, precision, behind, skip, run, compare_mysql}
use nodal_studio.Preflight.Run.{run_schema_preflight, tables_in}
use nodal_studio.Preflight.Tally.{count}
use nodal_studio.Preflight.Quiet.{is_graded, is_design, is_own, is_keyless}
use nodal_studio.Preflight.Laws.{first_rule, run_schema_preflight_lem}
use nodal_studio.Preflight.Postgres.{compare_postgres, pg_family}
use nodal_studio.Preflight.Families.{
  is_suspected, is_grouped, stand_together, compare_postgres-is_suspected,
}
use nodal_studio.Preflight.Symmetry.{comparison-symmetric}

abbrev number : ColumnDefinition
number = column "user_id" 1 "int8"

abbrev words : ColumnDefinition
words = column "id" 1 "text"

-- A host for ASCII texts.
abbrev host : Host
host = record {
  to_lower_case = λ s. s;
  trim = λ s. s;
  is_space = λ c. eqb c 32;
  stringify = λ entries. join "," (map (λ entry. or_else entry "null") entries);
  quote = λ s. s;
  locale_le = λ a b. true;
}

compare_postgres-is_suspected_example : is_suspected (compare_postgres number words) ≡ (
    (number.type_schema == "pg_catalog")
    && (words.type_schema == "pg_catalog")
    && is_grouped number.type_name
    && is_grouped words.type_name
    && not (stand_together number.type_name words.type_name))
compare_postgres-is_suspected_example = compare_postgres-is_suspected number words

comparison-symmetric_example :
    ((compare_postgres number words).outcome ≡ (compare_postgres words number).outcome)
    × ((compare_mysql host number words).outcome ≡ (compare_mysql host words number).outcome)
    × ((compare_postgres number number).outcome ≢ some suspected)
    × ((compare_mysql host number number).outcome ≢ some suspected)
comparison-symmetric_example = comparison-symmetric host number words

run_schema_preflight_lem_example :
    (all is_graded
        (run_schema_preflight host
          (snapshot "s1" (users ∷ orders ∷ items ∷ []))
          (some true)).findings
      ≡ true)
    × (first_rule
          (run_schema_preflight host
            (snapshot "s1" (users ∷ orders ∷ items ∷ []))
            (some true)).coverage
        ≡ (
          count is_own (tables_in (snapshot "s1" (users ∷ orders ∷ items ∷ []))),
          0,
          count
              (λ table. not (is_own table))
              (tables_in (snapshot "s1" (users ∷ orders ∷ items ∷ []))),
        ))
    × (count is_design
          (run_schema_preflight host
            (snapshot "s1" (users ∷ orders ∷ items ∷ []))
            (some true)).findings
        ≡ count is_keyless (tables_in (snapshot "s1" (users ∷ orders ∷ items ∷ []))))
run_schema_preflight_lem_example =
    run_schema_preflight_lem host (snapshot "s1" (users ∷ orders ∷ items ∷ [])) (some true)

-- A type that is named as a member of Object.prototype is not of the catalog's families, but the literal has a value for it.
inherited_family_test : pg_family "constructor" ≡ some (inherited "constructor")
unfolding pg_family
inherited_family_test = refl

-- So it is suspected to differ from a built-in type.
inherited_suspected_test :
    (compare_postgres (column "id" 1 "constructor") number).outcome ≡ some suspected
unfolding compare_postgres
inherited_suspected_test = refl

-- DECIMAL types are compared by precision and scale.
precision_test : precision host (column "price" 1 "Decimal ( 10, 2 ) unsigned") ≡ some "10,2"
unfolding precision behind skip run
precision_test = refl
