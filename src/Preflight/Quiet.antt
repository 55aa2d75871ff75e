-- ===== src/Preflight/Quiet.antt =====
-- preflight/schema-preflight.ts: steps of `runSchemaPreflight` that grade what they find and leave the count of tables as it
-- is.
use nodal_studio.Prelude.{
  ℕ, suc, String, Bool, true, false, not, List, [], ◌∷◌, ◌++◌, Option, none, some, is_some, map,
  all, fold, lookup, ◌||◌, ◌≡◌, refl, ◌∙◌, arith, Bool-cases, Option-cases, inl, inr, string_eq,
}
use nodal_studio.Model.{
  TableKind, ordinary, partitioned, SqliteTable, TableDefinition, ForeignKeyDefinition,
  ColumnDefinition, table_key_eq,
}
use nodal_studio.Preflight.{TypeOutcome}
use nodal_studio.Preflight.Tally.{count, count-append}
use nodal_studio.Preflight.Mysql.{Host}
use nodal_studio.Preflight.Report.{
  Progress, Observation, PreflightFinding, Severity, suggestion, warning, info, severity_of, report,
  finding_of, check_one, miss_one, PreflightOutcome, design, suspected, insufficient, style,
}
use nodal_studio.Preflight.Checks.{
  check_primary_key, check_names, is_nothing, has_repetition, absent, key_observation,
  columns_missing, column_map, name_finding,
}
use nodal_studio.Preflight.Keys.{
  Scope, check_pair, check_pairs, check_types, check_lists, check_target, check_foreign_key,
  outcome_of, count_target, count_outcome, compare_types, is_sound, target_of, type_rule,
  is_missing, unavailable_observation, pair_observation, columns_observation, target_observation,
}

-- The severities that the outcomes have.
abbrev pub is_graded_as : PreflightOutcome → Severity → Bool
is_graded_as suspected warning = true
is_graded_as design suggestion = true
is_graded_as insufficient info = true
is_graded_as style info = true
is_graded_as _ _ = false

unfoldable pub is_graded : PreflightFinding → Bool
is_graded f = is_graded_as f.outcome f.severity

abbrev is_design_outcome : PreflightOutcome → Bool
is_design_outcome design = true
is_design_outcome other = false

-- A finding that suggests a primary key.
abbrev pub is_design : PreflightFinding → Bool
is_design f = is_design_outcome f.outcome

-- A table that the source's first rule applies to: an ordinary or partitioned one that is not virtual.
abbrev pub is_kept_in : TableKind → Option SqliteTable → Bool
is_kept_in ordinary none = true
is_kept_in partitioned none = true
is_kept_in ordinary (some sqlite) = not sqlite.virtual_table
is_kept_in partitioned (some sqlite) = not sqlite.virtual_table
is_kept_in TableKind.foreign sqlite = false

abbrev pub is_own : TableDefinition → Bool
is_own table = is_kept_in table.table_kind table.sqlite

-- An own table without a primary key.
abbrev pub is_keyless : TableDefinition → Bool
is_keyless table = elim table.primary_key [ none ↦ is_own table | some key ↦ false ]

-- A step that leaves the count of tables and the number of suggested primary keys as they are and grades what it finds.
pub record IsQuiet (p q : Progress) : Type 0 where
  pub keys : q.keys ≡ p.keys
  pub graded : all is_graded p.findings ≡ true → all is_graded q.findings ≡ true
  pub designs : count is_design q.findings ≡ count is_design p.findings

quiet : (p : Progress) → IsQuiet p p
quiet p = record { keys = refl; graded = λ h. h; designs = refl }

pub IsQuiet-trans : {p q r : Progress} → IsQuiet p q → IsQuiet q r → IsQuiet p r
IsQuiet-trans a b = record {
  keys = b.keys ∙ a.keys;
  graded = λ h. b.graded (a.graded h);
  designs = b.designs ∙ a.designs;
}

graded-severity_of : (o : PreflightOutcome) → is_graded_as o (severity_of o) ≡ true
graded-severity_of suspected = refl
graded-severity_of design = refl
graded-severity_of insufficient = refl
graded-severity_of style = refl

all-both :
    (xs ys : List PreflightFinding)
    → all is_graded xs ≡ true
    → all is_graded ys ≡ true
    → all is_graded (xs ++ ys) ≡ true
all-both [] ys h k = k
all-both (x ∷ xs) ys h k = ground (arith, all-both xs ys)

module _ (host : Host) where
  pub graded-report :
      (table : TableDefinition) (o : Observation) (p : Progress)
      → all is_graded p.findings ≡ true
      → all is_graded (report host table o p).findings ≡ true
  unfolding report finding_of is_graded
  graded-report table o p h =
      all-both p.findings (finding_of host table o ∷ []) h (rw (graded-severity_of o.outcome) refl)

  report-IsQuiet :
      (table : TableDefinition) (o : Observation) (p : Progress)
      → is_design_outcome o.outcome ≡ false
      → IsQuiet p (report host table o p)
  unfolding report finding_of
  report-IsQuiet table o p h = record {
    keys = refl;
    graded = graded-report table o p;
    designs = count-append is_design p.findings _ ∙ (rw h (omega arith));
  }

  pub check_primary_key-IsQuiet :
      (table own : TableDefinition) (p : Progress) → IsQuiet p (check_primary_key host table own p)
  unfolding check_primary_key
  check_primary_key-IsQuiet table own p = elim (Option-cases table.primary_key) [
    | inl e ↦ rw e (quiet p)
    | inr (key, e) ↦
        let counted = record p { references = check_one p.references } in
        let counts : IsQuiet p counted = record { keys = refl; graded = λ h. h; designs = refl } in
        elim (Bool-cases (
          is_nothing key.columns
          || has_repetition key.columns
          || not (is_nothing (absent key.columns own)))) [
            | inl h ↦
                rw (e, h)
                  (IsQuiet-trans counts
                    (report-IsQuiet table (key_observation host own key) counted refl))
            | inr h ↦ rw (e, h) counts
          ]
  ]

  count_outcome-IsQuiet : (o : Option TypeOutcome) (p : Progress) → IsQuiet p (count_outcome o p)
  count_outcome-IsQuiet none p = record { keys = refl; graded = λ h. h; designs = refl }
  count_outcome-IsQuiet (some TypeOutcome.suspected) p = record {
    keys = refl;
    graded = λ h. h;
    designs = refl;
  }
  count_outcome-IsQuiet (some TypeOutcome.insufficient) p = record {
    keys = refl;
    graded = λ h. h;
    designs = refl;
  }

  not_design : (found : TypeOutcome) → is_design_outcome (outcome_of found) ≡ false
  not_design TypeOutcome.suspected = refl
  not_design TypeOutcome.insufficient = refl

  check_pair-IsQuiet :
      (scope : Scope) (key : ForeignKeyDefinition) (rule : String) (target : TableDefinition)
      (index : ℕ) (name : String) (source dest : ColumnDefinition) (p : Progress)
      → IsQuiet p (check_pair host scope key rule target index name source dest p)
  unfolding check_pair
  check_pair-IsQuiet scope key rule target index name source dest p =
      let o = (compare_types host scope.dialect source dest).outcome in
      elim (Option-cases o) [
        | inl e ↦ rw (e, check_pair) (count_outcome-IsQuiet o p)
        | inr (found, e) ↦
            rw (e, check_pair)
              (IsQuiet-trans (count_outcome-IsQuiet o p) (
                report-IsQuiet scope.table
                  (pair_observation host key rule target index name source dest
                    (compare_types host scope.dialect source dest) found)
                  (count_outcome o p) (not_design found)))
      ]

  check_pairs-IsQuiet :
      (scope : Scope) (key : ForeignKeyDefinition) (rule : String) (target : TableDefinition)
      (index : ℕ) (names others : List String) (p : Progress)
      → IsQuiet p (check_pairs host scope key rule target index names others p)
  unfolding check_pairs
  check_pairs-IsQuiet scope key rule target index [] others p = quiet p
  check_pairs-IsQuiet scope key rule target index (name ∷ names) [] p = quiet p
  check_pairs-IsQuiet scope key rule target index (name ∷ names) (other ∷ others) p =
      elim (Option-cases (lookup name (column_map scope.own))) [
        | inl e ↦ rw e (check_pairs-IsQuiet scope key rule target (suc index) names others p)
        | inr (source, e) ↦ elim (Option-cases (lookup other (column_map target))) [
          | inl h ↦ rw (e, h) (check_pairs-IsQuiet scope key rule target (suc index) names others p)
          | inr (dest, h) ↦
              let next = check_pair host scope key rule target index name source dest p in
              rw (e, h)
                (IsQuiet-trans (check_pair-IsQuiet scope key rule target index name source dest p)
                  (check_pairs-IsQuiet scope key rule target (suc index) names others next))
        ]
      ]

  check_types-IsQuiet :
      (scope : Scope) (key : ForeignKeyDefinition) (p : Progress)
      → IsQuiet p (check_types host scope key p)
  unfolding check_types
  check_types-IsQuiet scope key p = elim (Option-cases (type_rule scope.dialect)) [
    | inl e ↦ rw (e, check_types) (quiet p)
    | inr (rule, e) ↦ elim (Option-cases (target_of scope key)) [
      | inl h ↦ rw (e, h, check_types) (record { keys = refl; graded = λ g. g; designs = refl })
      | inr (target, h) ↦ elim (Bool-cases (is_sound host scope key)) [
        | inl k ↦
            rw (e, h, k, check_types)
              (check_pairs-IsQuiet scope key rule target 0 key.columns key.referenced_columns p)
        | inr k ↦
            rw (e, h, k, check_types) (record { keys = refl; graded = λ g. g; designs = refl })
      ]
    ]
  ]

  check_lists-IsQuiet :
      (scope : Scope) (key : ForeignKeyDefinition) (p : Progress)
      → IsQuiet p (check_lists host scope key p)
  unfolding check_lists
  check_lists-IsQuiet scope key p = elim (Bool-cases (is_sound host scope key)) [
    | inl e ↦ rw (e, check_lists) (quiet p)
    | inr e ↦
        rw (e, check_lists) (report-IsQuiet scope.table (columns_observation host scope key) p refl)
  ]

  check_target-IsQuiet :
      (scope : Scope) (key : ForeignKeyDefinition) (p : Progress)
      → IsQuiet p (check_target host scope key p)
  unfolding check_target
  check_target-IsQuiet scope key p = elim (Bool-cases (is_some (target_of scope key))) [
    | inl e ↦ rw (e, check_target) (quiet p)
    | inr e ↦
        let counted = record p { references = miss_one p.references } in
        let counts : IsQuiet p counted = record { keys = refl; graded = λ h. h; designs = refl } in
        rw (e, check_target)
          (IsQuiet-trans counts
            (report-IsQuiet scope.table (target_observation host key) counted refl))
  ]

  sound-IsQuiet :
      (scope : Scope) (key : ForeignKeyDefinition) (p : Progress)
      → IsQuiet p
          (check_types host scope key (check_target host scope key (check_lists host scope key p)))
  sound-IsQuiet scope key p = IsQuiet-trans (check_lists-IsQuiet scope key p) (
      IsQuiet-trans (check_target-IsQuiet scope key (check_lists host scope key p))
        (check_types-IsQuiet scope key _))

  count_target-IsQuiet :
      (scope : Scope) (key : ForeignKeyDefinition) (p : Progress)
      → IsQuiet p (count_target host scope key p)
  unfolding count_target
  count_target-IsQuiet scope key p = elim (Bool-cases (is_some (target_of scope key))) [
    | inl e ↦ rw (e, count_target) (record { keys = refl; graded = λ h. h; designs = refl })
    | inr e ↦ rw (e, count_target) (quiet p)
  ]

  check_foreign_key-IsQuiet :
      (scope : Scope) (p : Progress) (key : ForeignKeyDefinition)
      → IsQuiet p (check_foreign_key host scope p key)
  unfolding check_foreign_key
  check_foreign_key-IsQuiet scope p key =
      elim (Bool-cases (columns_missing scope.table || is_missing (target_of scope key))) [
        | inl e ↦
            let counted = record p { references = miss_one p.references } in
            let counts : IsQuiet p counted = record {
              keys = refl;
              graded = λ h. h;
              designs = refl;
            } in
            rw (e, check_foreign_key)
              (IsQuiet-trans counts
                (report-IsQuiet scope.table (unavailable_observation host scope key) counted refl))
        | inr e ↦
            rw (e, check_foreign_key)
              (IsQuiet-trans (count_target-IsQuiet scope key p)
                (sound-IsQuiet scope key (count_target host scope key p)))
      ]

  pub fold-IsQuiet :
      (scope : Scope) (keys : List ForeignKeyDefinition) (p : Progress)
      → IsQuiet p (fold (check_foreign_key host scope) p keys)
  fold-IsQuiet scope [] p = quiet p
  fold-IsQuiet scope (key ∷ keys) p =
      IsQuiet-trans (check_foreign_key-IsQuiet scope p key)
        (fold-IsQuiet scope keys (check_foreign_key host scope p key))

  graded-names :
      (table : TableDefinition) (entries : List (Bool × String))
      → all is_graded (map (name_finding host table) entries) ≡ true
  unfolding is_graded finding_of
  graded-names table [] = refl
  graded-names table ((true, name) ∷ entries) = graded-names table entries
  graded-names table ((false, name) ∷ entries) = graded-names table entries

  no_design-names :
      (table : TableDefinition) (entries : List (Bool × String))
      → count is_design (map (name_finding host table) entries) ≡ 0
  unfolding finding_of
  no_design-names table [] = refl
  no_design-names table ((true, name) ∷ entries) = omega (arith, no_design-names table entries)
  no_design-names table ((false, name) ∷ entries) = omega (arith, no_design-names table entries)

  pub check_names-IsQuiet :
      (table : TableDefinition) (p : Progress) → IsQuiet p (check_names host table p)
  unfolding check_names
  check_names-IsQuiet table p = record {
    keys = refl;
    graded = λ h. all-both p.findings _ h (graded-names table _);
    designs = count-append is_design p.findings _ ∙ (rw (no_design-names table _) (omega arith));
  }
