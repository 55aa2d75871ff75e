-- ===== src/Query/Tests.antt =====
-- The theorem of Query at inputs that meet its hypotheses: a storage that keeps all texts, and a text for each object of
-- one text: every character of the key after a 1, then a 0 and the value.
use Prim.Native.Char.{Char, code}
use nodal_studio.Prelude.{
  ℕ, String, false, List, [], Option, none, some, lookup, insert, lookup-insert, remove, string_eq,
  agree_refl, returned, ◌≡◌, refl, sym, ◌∙◌, ap, ◌∷◌, eqb, if◌then◌else◌,
}
use nodal_studio.Web.Json.{Json, null, text, object, field, no_fields}
use nodal_studio.Query.{
  QuerySession, World, results, assert_update_can_restart, load_query_session, save_query_session,
  restart,
}
use nodal_studio.Query.Storage.{Browser, BrowserLaws}
use nodal_studio.Query.Restart.{load-restart_save}

abbrev Kept : Type 0
Kept = List (String × Option String)

print_one : String → String → String
print_one String.[] value = String.◌∷◌ "0" value
print_one (String.◌∷◌ c key) value = String.◌∷◌ "1" (String.◌∷◌ c (print_one key value))

print_json : Json → String
unfolding print_one
print_json (object (field key (text value) no_fields)) = print_one key value
print_json other = "null"

longer : Char → Option (String × String) → Option (String × String)
longer c none = none
longer c (some (key, value)) = some (String.◌∷◌ c key, value)

parse_one : String → Option (String × String)
unfolding longer
parse_one String.[] = none
parse_one (String.◌∷◌ c String.[]) = if eqb (code c) b'0' then some ("", "") else none
parse_one (String.◌∷◌ c (String.◌∷◌ d s)) =
    let rest = longer d (parse_one s) in
    if eqb (code c) b'0'
    then some ("", String.◌∷◌ d s)
    else if eqb (code c) b'1'
    then rest
    else none

json_of : Option (String × String) → Json
json_of none = null
json_of (some (key, value)) = object (field key (text value) no_fields)

parse_one-print_one : (key value : String) → parse_one (print_one key value) ≡ some (key, value)
unfolding parse_one print_one longer
parse_one-print_one String.[] String.[] = refl
parse_one-print_one String.[] (String.◌∷◌ c value) = refl
parse_one-print_one (String.◌∷◌ c key) value = rw (parse_one-print_one key value) refl

abbrev read : Option (Option String) → Option String
read none = none
read (some o) = o

abbrev memory : Browser Kept
memory = record {
  get_item = λ key s. returned (read (lookup key s));
  set_item = λ key value s. some (insert key (some value) s);
  remove_item = λ key s. some (insert key none s);
  encode = λ s. s;
  stringify = λ value. print_json value;
  parse = λ s. returned (json_of (parse_one s));
}

some_injective : {a b : Kept} → some a ≡ some b → a ≡ b
some_injective {a} {b} h = cc h

stored :
    (key : String) (o : Option String) (s t : Kept)
    → insert key o s ≡ t
    → returned (read (lookup key t)) ≡ returned o
stored key o s t e =
    ap (λ m. returned (read (lookup key m))) (sym e)
    ∙ (ap (λ v. returned (read v)) (lookup-insert key key o s) ∙ rw (agree_refl key) refl)

null_law : memory.parse "null" ≡ returned null
unfolding json_of parse_one longer
null_law = refl

one_law :
    (key value : String)
    → memory.parse (memory.stringify (object (field key (text value) no_fields)))
      ≡ returned (object (field key (text value) no_fields))
unfolding json_of print_json
one_law key value = ap (λ o. returned (json_of o)) (parse_one-print_one key value)

memory_laws : BrowserLaws memory
memory_laws = record {
  get_set = λ key value s t h. stored key (some value) s t (some_injective h);
  get_remove = λ key s t h. stored key none s t (some_injective h);
  parse_null = null_law;
  parse_stringify = λ key value. one_law key value;
}

abbrev session : QuerySession ℕ
session = record {
  draft = "select 1";
  result = some 7;
  message_text = "";
  active_tab = results;
  row_limit = 100;
  result_height = 310;
  output_collapsed = false;
  output_resized = none;
  outcome = none;
}

abbrev start : World Kept ℕ
start = record { sessions = []; storage = []; blockers = ("query-draft:s", "save") ∷ [] }

load-restart_save_example :
    (load_query_session memory (restart (save_query_session memory "s" session start)) "s").draft
    ≡ "select 1"
unfolding save_query_session assert_update_can_restart remove
load-restart_save_example = load-restart_save memory memory_laws "s" session start refl
