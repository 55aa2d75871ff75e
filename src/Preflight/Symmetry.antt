-- ===== src/Preflight/Symmetry.antt =====
-- preflight/schema-preflight.ts, `comparePostgres` and `compareMysql`: the order of the two columns.
use nodal_studio.Prelude.{
  String, Bool, true, false, not, ◌&&◌, ◌||◌, if◌then◌else◌, Option, none, some, string_eq, ◌==◌,
  agree_refl, ◌≡◌, ◌≢◌, refl, sym, arith, Bool-cases, inl, inr,
}
use nodal_studio.Model.{ColumnDefinition}
use nodal_studio.Preflight.{TypeComparison, suspected, Member, own, inherited, same_member}
use nodal_studio.Preflight.Mysql.{
  Host, compare_mysql, compare_integers, compare_precisions, mysql_name, sign, precision,
  is_consistent, is_among, integers, strings,
}
use nodal_studio.Preflight.Postgres.{compare_postgres, compare_families, pg_family}

equal_sym : (a b : String) → (a == b) ≡ (b == a)
equal_sym a b = ground (arith, string_eq.agree_iff a b, string_eq.agree_iff b a)

same_member_sym : (m n : Member) → same_member m n ≡ same_member n m
same_member_sym (own a) (own b) = equal_sym a b
same_member_sym (own a) (inherited b) = refl
same_member_sym (inherited a) (own b) = refl
same_member_sym (inherited a) (inherited b) = equal_sym a b

same_member_refl : (m : Member) → same_member m m ≡ true
same_member_refl (own a) = agree_refl a
same_member_refl (inherited a) = agree_refl a

families_sym :
    (p q : Bool) (o r : Option Member)
    → p ≡ q
    → (compare_families p o r).outcome ≡ (compare_families q r o).outcome
families_sym p q none none h = refl
families_sym p q none (some g) h = refl
families_sym p q (some f) none h = refl
families_sym p q (some f) (some g) h = ground (arith, same_member_sym f g)

families_refl : (p : Bool) (o : Option Member) → (compare_families p o o).outcome ≢ some suspected
families_refl p none = λ h. cc
families_refl p (some f) = λ h. ground (arith, same_member_refl f)

precisions_sym :
    (host : Host) (p q : Bool) (o r : Option String)
    → p ≡ q
    → (compare_precisions host p o r).outcome ≡ (compare_precisions host q r o).outcome
precisions_sym host p q none none h = refl
precisions_sym host p q none (some g) h = refl
precisions_sym host p q (some f) none h = refl
precisions_sym host p q (some f) (some g) h = ground (arith, equal_sym f g)

precisions_refl :
    (host : Host) (p : Bool) (o : Option String)
    → p ≡ true
    → (compare_precisions host p o o).outcome ≢ some suspected
precisions_refl host p none h = λ k. cc
precisions_refl host p (some f) h = λ k. ground (arith, agree_refl f)

-- Two runs of an if whose tests agree and whose branches have the same outcomes.
branch :
    (c d : Bool) (t u v w : TypeComparison)
    → c ≡ d
    → t.outcome ≡ u.outcome
    → v.outcome ≡ w.outcome
    → (if c then t else v).outcome ≡ (if d then u else w).outcome
branch true d t u v w h k l = rw (sym h) k
branch false d t u v w h k l = rw (sym h) l

or_sym : (a b : Bool) → (not a || not b) ≡ (not b || not a)
or_sym a b = ground arith

and_sym : (a b : Bool) → (a && b) ≡ (b && a)
and_sym a b = ground arith

both : {a b c d : Bool} → a ≡ c → b ≡ d → (a && b) ≡ (c && d)
both h k = rw (h, k) refl

same_sign_sym : (a b : Bool) → (if a then b else not b) ≡ (if b then a else not a)
same_sign_sym a b = ground arith

postgres_sym :
    (a b : ColumnDefinition) → (compare_postgres a b).outcome ≡ (compare_postgres b a).outcome
unfolding compare_postgres
postgres_sym a b =
    branch _ _ _ _ _ _ (or_sym (a.type_schema == "pg_catalog") (b.type_schema == "pg_catalog")) refl
      (families_sym (a.type_name == b.type_name) (b.type_name == a.type_name)
        (pg_family a.type_name) (pg_family b.type_name) (equal_sym a.type_name b.type_name))

postgres_refl : (a : ColumnDefinition) → (compare_postgres a a).outcome ≢ some suspected
unfolding compare_postgres
postgres_refl a = elim (Bool-cases (a.type_schema == "pg_catalog")) [
  | inl h ↦ rw h (families_refl (a.type_name == a.type_name) (pg_family a.type_name))
  | inr h ↦ rw h (λ k. cc)
]

module _ (host : Host) where
  integers_sym :
      (a b : ColumnDefinition)
      → (compare_integers host a b).outcome ≡ (compare_integers host b a).outcome
  integers_sym a b =
      let first = mysql_name host a.type_name in
      let second = mysql_name host b.type_name in
      branch _ _ _ _ _ _ (or_sym (is_consistent host a) (is_consistent host b)) refl (
        branch _ _ _ _ _ _ (both (same_member_sym first second) (same_sign_sym (sign a) (sign b)))
          refl refl)

  mysql_sym :
      (a b : ColumnDefinition) → (compare_mysql host a b).outcome ≡ (compare_mysql host b a).outcome
  unfolding compare_mysql
  mysql_sym a b =
      let first = mysql_name host a.type_name in
      let second = mysql_name host b.type_name in
      branch _ _ _ _ _ _ (or_sym (a.type_schema == "mysql") (b.type_schema == "mysql")) refl (
        branch _ _ _ _ _ _ (and_sym (is_among strings first) (is_among strings second)) refl (
          branch _ _ _ _ _ _ (and_sym (is_among integers first) (is_among integers second))
            (integers_sym a b)
            (branch _ _ _ _ _ _
              (and_sym (same_member first (own "decimal")) (same_member second (own "decimal")))
              (precisions_sym host _ _ (precision host a) (precision host b)
                (same_sign_sym (sign a) (sign b)))
              refl)))

  integers_refl : (a : ColumnDefinition) → (compare_integers host a a).outcome ≢ some suspected
  integers_refl a = elim (Bool-cases (is_consistent host a)) [
    | inr h ↦ rw h (λ k. cc)
    | inl h ↦ elim (Bool-cases (sign a)) [
      | inl s ↦ rw (h, s, same_member_refl (mysql_name host a.type_name)) (λ k. cc)
      | inr s ↦ rw (h, s, same_member_refl (mysql_name host a.type_name)) (λ k. cc)
    ]
  ]

  own_sign : (s : Bool) → (if s then s else not s) ≡ true
  own_sign s = ground arith

  mysql_refl : (a : ColumnDefinition) → (compare_mysql host a a).outcome ≢ some suspected
  unfolding compare_mysql
  mysql_refl a =
      let name = mysql_name host a.type_name in
      elim (Bool-cases (a.type_schema == "mysql")) [
        | inr h ↦ rw h (λ k. cc)
        | inl h ↦ elim (Bool-cases (is_among strings name)) [
          | inl e ↦ rw (h, e) (λ k. cc)
          | inr e ↦ elim (Bool-cases (is_among integers name)) [
            | inl i ↦ rw (h, e, i) (integers_refl a)
            | inr i ↦ elim (Bool-cases (same_member name (own "decimal"))) [
              | inl d ↦
                  rw (h, e, i, d) (precisions_refl host _ (precision host a) (own_sign (sign a)))
              | inr d ↦ rw (h, e, i, d) (λ k. cc)
            ]
          ]
        ]
      ]

  -- For both dialects, the outcome of a comparison does not depend on which column comes first, and a column is not
  -- suspected to differ from itself.
  pub comparison-symmetric :
      (a b : ColumnDefinition)
      → ((compare_postgres a b).outcome ≡ (compare_postgres b a).outcome)
        × ((compare_mysql host a b).outcome ≡ (compare_mysql host b a).outcome)
        × ((compare_postgres a a).outcome ≢ some suspected)
        × ((compare_mysql host a a).outcome ≢ some suspected)
  comparison-symmetric a b = (postgres_sym a b, mysql_sym a b, postgres_refl a, mysql_refl a)
