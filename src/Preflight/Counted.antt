-- ===== src/Preflight/Counted.antt =====
-- preflight/schema-preflight.ts: what the loop of `runSchemaPreflight` over the tables counts.
use nodal_studio.Prelude.{
  Bool, true, false, not, List, [], ◌∷◌, Option, none, some, all, fold, ap, ◌||◌, ◌+◌, ◌≡◌, refl,
  ◌∙◌, arith, Bool-cases, Option-cases, inl, inr, string_eq,
}
use nodal_studio.Model.{
  DatabaseSnapshot, TableDefinition, table_key_eq, TableKind, ordinary, partitioned, SqliteTable,
}
use nodal_studio.Preflight.Mysql.{Host}
use nodal_studio.Preflight.Tally.{count, count-append}
use nodal_studio.Preflight.Report.{Progress, report, finding_of, check_one}
use nodal_studio.Preflight.Checks.{
  check_presence, check_primary_key, check_names, is_foreign, is_virtual, is_true,
  presence_observation,
}
use nodal_studio.Preflight.Run.{check_table, scope_of}
use nodal_studio.Preflight.Quiet.{
  is_graded, is_design, is_own, is_kept_in, is_keyless, IsQuiet, IsQuiet-trans, graded-report,
  check_primary_key-IsQuiet, check_names-IsQuiet, fold-IsQuiet,
}

-- A step that counts each of the tables once, by whether the rule applies to it, suggests a primary key for the keyless
-- ones only, and grades what it finds.
pub record IsCounted (tables : List TableDefinition) (p q : Progress) : Type 0 where
  pub checked : q.keys.checked ≡ count is_own tables + p.keys.checked
  pub incomplete : q.keys.incomplete ≡ p.keys.incomplete
  pub skipped : q.keys.skipped ≡ count (λ table. not (is_own table)) tables + p.keys.skipped
  pub designs : count is_design q.findings ≡ count is_keyless tables + count is_design p.findings
  pub graded : all is_graded p.findings ≡ true → all is_graded q.findings ≡ true

outside_kind :
    (kind : TableKind) (sqlite : Option SqliteTable)
    → (is_foreign kind || (elim sqlite [ none ↦ false | some s ↦ s.virtual_table ]))
      ≡ not (is_kept_in kind sqlite)
outside_kind ordinary none = refl
outside_kind ordinary (some s) = ground arith
outside_kind partitioned none = refl
outside_kind partitioned (some s) = ground arith
outside_kind TableKind.foreign none = refl
outside_kind TableKind.foreign (some s) = refl

outside-is_own :
    (table : TableDefinition)
    → (is_foreign table.table_kind || is_virtual table) ≡ not (is_own table)
outside-is_own table = outside_kind table.table_kind table.sqlite

after-quiet :
    {tables : List TableDefinition} {p q r : Progress}
    → IsCounted tables p q
    → IsQuiet q r
    → IsCounted tables p r
after-quiet c h = record {
  checked = ap (λ k. k.checked) h.keys ∙ c.checked;
  incomplete = ap (λ k. k.incomplete) h.keys ∙ c.incomplete;
  skipped = ap (λ k. k.skipped) h.keys ∙ c.skipped;
  designs = h.designs ∙ c.designs;
  graded = λ g. h.graded (c.graded g);
}

IsCounted-trans :
    {table : TableDefinition} {tables : List TableDefinition} {p q r : Progress}
    → IsCounted (table ∷ []) p q
    → IsCounted tables q r
    → IsCounted (table ∷ tables) p r
IsCounted-trans a b = record {
  checked = omega (arith, a.checked, b.checked);
  incomplete = b.incomplete ∙ a.incomplete;
  skipped = omega (arith, a.skipped, b.skipped);
  designs = omega (arith, a.designs, b.designs);
  graded = λ g. b.graded (a.graded g);
}

not_keyless : (table : TableDefinition) → is_own table ≡ false → is_keyless table ≡ false
not_keyless table h = elim (Option-cases table.primary_key) [
  | inl k ↦ rw k h
  | inr (key, k) ↦ rw k refl
]

module _ (host : Host) where
  check_presence-IsCounted :
      (table : TableDefinition) (p : Progress)
      → IsCounted (table ∷ []) p (check_presence host table p)
  unfolding check_presence report finding_of
  check_presence-IsCounted table p = elim (Bool-cases (is_own table)) [
    | inr e ↦
        let out = outside-is_own table ∙ ap not e in
        let full = not_keyless table e in
        rw (out, check_presence)
          (record {
            checked = rw e (omega arith);
            incomplete = refl;
            skipped = rw e (omega arith);
            designs = rw full (omega arith);
            graded = λ h. h;
          })
    | inl e ↦
        let out = outside-is_own table ∙ ap not e in
        elim (Option-cases table.primary_key) [
          | inl k ↦
              let counted = record p { keys = check_one p.keys } in
              let added =
                count-append is_design p.findings
                  (finding_of host table (presence_observation host table) ∷ []) in
              rw (out, k, check_presence)
                (record {
                  checked = rw e (omega arith);
                  incomplete = refl;
                  skipped = rw e (omega arith);
                  designs = rw e (omega (arith, added));
                  graded = graded-report host table (presence_observation host table) counted;
                })
          | inr (key, k) ↦
              rw (out, k, check_presence)
                (record {
                  checked = rw e (omega arith);
                  incomplete = refl;
                  skipped = rw e (omega arith);
                  designs = omega arith;
                  graded = λ h. h;
                })
        ]
  ]

module _ (host : Host) (snapshot : DatabaseSnapshot) (name_spaces : Option Bool) where
  check_table-IsCounted :
      (p : Progress) (table : TableDefinition)
      → IsCounted (table ∷ []) p (check_table host snapshot name_spaces p table)
  unfolding check_table
  check_table-IsCounted p table =
      let scope = scope_of host snapshot name_spaces table in
      let present = check_presence host table p in
      let keyed = check_primary_key host table scope.own present in
      let key = check_primary_key-IsQuiet host table scope.own present in
      let counts = check_presence-IsCounted host table p in
      elim (Bool-cases (is_true name_spaces)) [
        | inl e ↦
            let named = IsQuiet-trans key (check_names-IsQuiet host table keyed) in
            rw e (
              after-quiet counts (
                IsQuiet-trans named
                  (fold-IsQuiet host scope table.foreign_keys (check_names host table keyed))))
        | inr e ↦ rw e (
            after-quiet counts
              (IsQuiet-trans key (fold-IsQuiet host scope table.foreign_keys keyed)))
      ]

  pub fold-IsCounted :
      (tables : List TableDefinition) (p : Progress)
      → IsCounted tables p (fold (check_table host snapshot name_spaces) p tables)
  fold-IsCounted [] p = record {
    checked = omega arith;
    incomplete = refl;
    skipped = omega arith;
    designs = omega arith;
    graded = λ h. h;
  }
  fold-IsCounted (table ∷ tables) p =
      IsCounted-trans (check_table-IsCounted p table)
        (fold-IsCounted tables (check_table host snapshot name_spaces p table))
