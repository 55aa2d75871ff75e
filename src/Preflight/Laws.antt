-- ===== src/Preflight/Laws.antt =====
-- preflight/schema-preflight.ts: what a report counts, and how its findings are graded.
use nodal_studio.Prelude.{
  ℕ, Bool, true, not, List, [], ◌∷◌, Option, all, all-sort, ◌≡◌, refl, ◌∙◌, arith, string_eq,
}
use nodal_studio.Model.{DatabaseSnapshot, table_key_eq}
use nodal_studio.Preflight.Mysql.{Host}
use nodal_studio.Preflight.Tally.{count, count-sort}
use nodal_studio.Preflight.Report.{PreflightCoverage}
use nodal_studio.Preflight.Run.{outcome, start, run_schema_preflight, tables_in, not_after}
use nodal_studio.Preflight.Quiet.{is_graded, is_design, is_own, is_keyless}
use nodal_studio.Preflight.Counted.{fold-IsCounted}

-- The first rule of a coverage: what it checked, what was incomplete, what it skipped.
abbrev pub first_rule : List PreflightCoverage → ℕ × ℕ × ℕ
first_rule [] = (0, 0, 0)
first_rule (c ∷ coverage) = (c.checked, c.incomplete, c.skipped)

-- The findings of suspicions are warnings, those of design are suggestions, the others information. The first rule, on
-- primary keys, has checked the ordinary and partitioned tables of the snapshot that are not virtual and skipped the others, none incompletely, and
-- there are as many findings of design as checked tables without a primary key.
pub run_schema_preflight_lem :
    (host : Host) (snapshot : DatabaseSnapshot) (name_spaces : Option Bool)
    → (all is_graded (run_schema_preflight host snapshot name_spaces).findings ≡ true)
      × (first_rule (run_schema_preflight host snapshot name_spaces).coverage ≡ (
        count is_own (tables_in snapshot),
        0,
        count (λ table. not (is_own table)) (tables_in snapshot),
      ))
      × (count is_design (run_schema_preflight host snapshot name_spaces).findings
          ≡ count is_keyless (tables_in snapshot))
unfolding run_schema_preflight
run_schema_preflight_lem host snapshot name_spaces =
    let found = outcome host snapshot name_spaces in
    let all_counted =
      fold-IsCounted host snapshot name_spaces (tables_in snapshot)
        (start host snapshot name_spaces) in
    let checked : found.keys.checked ≡ count is_own (tables_in snapshot) =
      omega (arith, all_counted.checked) in
    let skipped : found.keys.skipped ≡ count (λ table. not (is_own table)) (tables_in snapshot) =
      omega (arith, all_counted.skipped) in
    (
      all-sort (not_after host) is_graded found.findings ∙ all_counted.graded refl,
      rw (checked, all_counted.incomplete, skipped) refl,
      count-sort is_design (not_after host) found.findings ∙ omega (arith, all_counted.designs),
    )
