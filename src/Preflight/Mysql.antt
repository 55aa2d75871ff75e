-- ===== src/Preflight/Mysql.antt =====
-- preflight/schema-preflight.ts, `compareMysql`. `toLowerCase`, `trim` and white space, which are Unicode's, are
-- parameters.
use Prim.Native.Char.{code}
use nodal_studio.Prelude.{
  false, ℕ, String, Bool, not, List, [], ◌∷◌, Option, none, some, or_else, contains, string_eq,
  ◌==◌, ◌&&◌, ◌||◌, ◌&◌, eqb, leb, lower_ascii, has_word, if◌then◌else◌,
}
use nodal_studio.Model.{ColumnDefinition}
use nodal_studio.Preflight.{
  TypeComparison, unknown, suspect, agrees, Member, own, inherited, same_member, member,
}

-- What is used of the host: `stringify` is JSON.stringify of an array of texts and nulls, `quote` that of one text, and
-- `locale_le left right` says `left.localeCompare(right) <= 0`.
pub record Host : Type 0 where
  pub to_lower_case : String → String
  pub trim : String → String
  pub is_space : ℕ → Bool
  pub stringify : List (Option String) → String
  pub quote : String → String
  pub locale_le : String → String → Bool

abbrev pub integers : List String
integers = "tinyint" ∷ "smallint" ∷ "mediumint" ∷ "int" ∷ "bigint" ∷ []

abbrev pub strings : List String
strings = "char" ∷ "varchar" ∷ "tinytext" ∷ "text" ∷ "mediumtext" ∷ "longtext" ∷ []

-- `set.has(name)` of a set of texts.
abbrev pub is_among : List String → Member → Bool
unfolding contains
is_among names (own text) = contains text names
is_among names (inherited name) = false

-- The rest of the text behind a word of lower-case letters, in any case.
unfoldable pub behind : String → String → Option String
behind String.[] s = some s
behind (String.◌∷◌ w word) String.[] = none
behind (String.◌∷◌ w word) (String.◌∷◌ c s) =
    let rest = behind word s in if eqb (code w) (lower_ascii (code c)) then rest else none

unfoldable pub skip : (ℕ → Bool) → String → String
skip p String.[] = ""
skip p (String.◌∷◌ c s) = let rest = skip p s in if p (code c) then rest else String.◌∷◌ c s

-- The longest prefix of characters that pass, and what is behind it.
unfoldable pub run : (ℕ → Bool) → String → String × String
run p String.[] = ("", "")
run p (String.◌∷◌ c s) =
    let rest = run p s in if p (code c) then (String.◌∷◌ c rest.0, rest.1) else ("", String.◌∷◌ c s)

abbrev is_letter : ℕ → Bool
is_letter c = leb b'a' (lower_ascii c) && leb (lower_ascii c) b'z'

abbrev is_digit : ℕ → Bool
is_digit c = leb b'0' c && leb c b'9'

-- `\d+`
abbrev pub digits : String → Option (String × String)
digits s = let found = run is_digit s in if found.0 == "" then none else some found

unfoldable pub sign : ColumnDefinition → Bool
unfolding has_word
sign column = has_word "unsigned" column.formatted_type || has_word "zerofill" column.formatted_type

module _ (host : Host) where
  unfoldable pub mysql_name : String → Member
  unfolding member
  mysql_name name =
      or_else
        (member (("integer", "int") ∷ ("numeric", "decimal") ∷ ("dec", "decimal") ∷ [])
          (host.to_lower_case name))
        (own (host.to_lower_case name))

  -- `\s*` and a character.
  abbrev after_space : String → String → Option String
  after_space mark s = behind mark (skip host.is_space s)

  abbrev pub scale_of : String → Option String → Option String
  scale_of precision none = none
  scale_of precision (some s) = elim (digits (skip host.is_space s)) [
    | none ↦ none
    | some (scale, rest) ↦ elim (after_space ")" rest) [
      | none ↦ none
      | some end ↦ some (precision & "," & scale)
    ]
  ]

  -- `\s*\(\s*(\d+)\s*,\s*(\d+)\s*\)`, the two groups joined.
  abbrev pub arguments : Option String → Option String
  arguments none = none
  arguments (some s) = elim (after_space "(" s) [
    | none ↦ none
    | some inner ↦ elim (digits (skip host.is_space inner)) [
      | none ↦ none
      | some (precision, rest) ↦ scale_of precision (after_space "," rest)
    ]
  ]

  abbrev first_of : Option String → Option String → Option String
  first_of none other = other
  first_of (some found) other = some found

  unfoldable pub precision : ColumnDefinition → Option String
  unfolding behind skip run
  precision column = first_of (arguments (behind "decimal" column.formatted_type)) (
      first_of (arguments (behind "numeric" column.formatted_type))
        (arguments (behind "dec" column.formatted_type)))

  -- The leading letters of the formatted type name the type.
  unfoldable pub is_consistent : ColumnDefinition → Bool
  unfolding run mysql_name
  is_consistent column =
      same_member (mysql_name (run is_letter (host.trim column.formatted_type)).0)
        (mysql_name column.type_name)

  abbrev same_sign : ColumnDefinition → ColumnDefinition → Bool
  same_sign a b = if sign a then sign b else not (sign b)

  abbrev pub compare_integers : ColumnDefinition → ColumnDefinition → TypeComparison
  compare_integers a b =
      if not (is_consistent a) || not (is_consistent b)
      then unknown
          "MySQL integer formatted types are missing or inconsistent; signedness cannot be established."
      else if same_member (mysql_name a.type_name) (mysql_name b.type_name) && same_sign a b
      then agrees
      else suspect
          "MySQL integer foreign key columns differ in storage size or signedness; display width is ignored."

  abbrev pub compare_precisions : Bool → Option String → Option String → TypeComparison
  compare_precisions same (some p) (some q) =
      if p == q && same
      then agrees
      else suspect "MySQL DECIMAL foreign key columns differ in precision, scale or signedness."
  compare_precisions same _ _ =
      unknown "MySQL DECIMAL precision/scale is not available in the captured formatted types."

  unfoldable pub compare_mysql : ColumnDefinition → ColumnDefinition → TypeComparison
  unfolding sign precision is_consistent mysql_name
  compare_mysql a b =
      let first = mysql_name a.type_name in
      let second = mysql_name b.type_name in
      if not (a.type_schema == "mysql") || not (b.type_schema == "mysql")
      then unknown "MySQL type metadata is not identified as MySQL catalog data."
      else if is_among strings first && is_among strings second
      then unknown
          "MySQL character foreign keys require matching character set and collation; neither is captured. String length differences alone are not a mismatch."
      else if is_among integers first && is_among integers second
      then compare_integers a b
      else if same_member first (own "decimal") && same_member second (own "decimal")
      then compare_precisions (same_sign a b) (precision a) (precision b)
      else unknown
          "This MySQL type pair is outside the first version's integer/DECIMAL checks; compatibility cannot be determined from this snapshot."
