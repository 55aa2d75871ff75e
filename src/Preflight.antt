-- ===== src/Preflight.antt =====
-- preflight/schema-preflight.ts: the metadata checks. Names of types are looked up in object literals, so what is found is an
-- own property or a member of Object.prototype (`Member`).
pub mod Postgres
pub mod Mysql
pub mod Report
pub mod Checks
pub mod Keys
pub mod Run
pub mod Tally
pub mod Symmetry
pub mod Families
pub mod Quiet
pub mod Counted
pub mod Laws
mod Tests
use nodal_studio.Prelude.{
  String, Bool, false, List, [], ◌∷◌, Option, some, none, lookup, contains, string_eq, ◌==◌,
  if◌then◌else◌,
}

pub data TypeOutcome : Type 0 where
  suspected insufficient : TypeOutcome

pub record TypeComparison : Type 0 where
  pub outcome : Option TypeOutcome
  pub message : String
  pub recommendation : String

abbrev pub unknown : String → TypeComparison
unknown message = record {
  outcome = some insufficient;
  message = message;
  recommendation =
      "Review catalog metadata and the existing physical constraint on the database. This snapshot cannot establish complete foreign key compatibility.";
}

abbrev pub suspect : String → TypeComparison
suspect message = record {
  outcome = some suspected;
  message = message;
  recommendation =
      "Review these captured type differences and refresh metadata. Existing physical constraints may rely on details not captured here; no invalidity or repair is inferred.";
}

abbrev pub agrees : TypeComparison
agrees = record { outcome = none; message = "Available type metadata agrees."; recommendation = "" }

-- The names of Object.prototype in ECMA-262: their values are truthy and differ from each other and from all texts.
abbrev pub inherited_names : List String
inherited_names =
    "constructor" ∷ "hasOwnProperty" ∷ "isPrototypeOf" ∷ "propertyIsEnumerable" ∷ "toLocaleString"
    ∷ "toString" ∷ "valueOf" ∷ "__proto__" ∷ "__defineGetter__" ∷ "__defineSetter__"
    ∷ "__lookupGetter__" ∷ "__lookupSetter__" ∷ []

-- What an object literal with texts holds under a name: a text of its own, or the inherited value of that name.
pub data Member : Type 0 where
  own inherited : String → Member

abbrev pub same_member : Member → Member → Bool
same_member (own a) (own b) = a == b
same_member (inherited a) (inherited b) = a == b
same_member _ _ = false

-- `literal[name]`
unfoldable pub member : List (String × String) → String → Option Member
unfolding lookup contains
member literal name = elim (lookup name literal) [
  | some text ↦ some (own text)
  | none ↦ if contains name inherited_names then some (inherited name) else none
]
