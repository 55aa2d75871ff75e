-- ===== src/Web/Json.antt =====
-- Values of JSON, and objects of ECMAScript that come from them. A number is its literal.
use nodal_studio.Prelude.{
  String, Bool, true, List, [], ◌∷◌, Option, none, some, ◌≡◌, refl, arith, if◌then◌else◌, ◌==◌,
  string_eq,
}

mutual
  pub data Json : Type 0 where
    null : Json
    boolean : Bool → Json
    number : String → Json
    text : String → Json
    array : Items → Json
    object : Fields → Json

  pub data Items : Type 0 where
    no_items : Items
    item : Json → Items → Items

  pub data Fields : Type 0 where
    no_fields : Fields
    field : String → Json → Fields → Fields

-- An object literal.
abbrev pub fields_of : List (String × Json) → Fields
fields_of [] = no_fields
fields_of ((name, value) ∷ rest) = field name value (fields_of rest)

-- `object[key]`
unfoldable pub get : String → Fields → Option Json
get key no_fields = none
get key (field name value rest) = if name == key then some value else get key rest

-- `object[key] = value`, which keeps the place of a key that is there.
unfoldable pub set : String → Json → Fields → Fields
set key value no_fields = field key value no_fields
set key value (field name old rest) =
    if name == key then field name value rest else field name old (set key value rest)

-- `{ ...base, ...over }`
unfoldable pub spread : Fields → Fields → Fields
unfolding set
spread base no_fields = base
spread base (field name value rest) = spread (set name value base) rest

-- The own enumerable properties that a spread copies: none of a literal that is no text. `indexed` gives
-- those of a text or an array, whose keys are positions.
abbrev pub members : (Json → Fields) → Option Json → Fields
members indexed none = no_fields
members indexed (some (object fields)) = fields
members indexed (some (text s)) = indexed (text s)
members indexed (some (array items)) = indexed (array items)
members indexed (some other) = no_fields

-- `value?.[key]`
abbrev pub get_in : String → Option Json → Option Json
get_in key (some (object fields)) = get key fields
get_in key other = none

-- An object as `JSON.parse` makes it: no key stands twice.
unfoldable pub has_key : String → Fields → Bool
has_key key fields = elim (get key fields) [ none ↦ Bool.false | some value ↦ true ]

unfoldable pub is_object : Fields → Bool
unfolding has_key get
is_object no_fields = true
is_object (field name value rest) = if has_key name rest then Bool.false else is_object rest

pub get-set :
    (name key : String) (value : Json) (fields : Fields)
    → get key (set name value fields) ≡ (if name == key then some value else get key fields)
unfolding get set
get-set name key value no_fields = refl
get-set name key value (field other old rest) = ground (
  arith,
  get-set name key value rest,
  string_eq.agree_iff name key,
  string_eq.agree_iff other name,
  string_eq.agree_iff other key,
)

-- A spread takes each key from the second object, else from the first.
pub get-spread :
    (key : String) (base over : Fields)
    → is_object over ≡ true
    → get key (spread base over)
      ≡ elim (get key over) [ none ↦ get key base | some value ↦ some value ]
unfolding get spread is_object has_key
get-spread key base no_fields h = refl
get-spread key base (field name value rest) h = ground (
  arith,
  get-spread key (set name value base) rest,
  get-set name key value base,
  string_eq.agree_iff name key,
)
