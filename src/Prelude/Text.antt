-- ===== src/Prelude/Text.antt =====
-- Methods of texts. A text is walked by code points; where the code cuts it, it cuts at ASCII.
use Prim.Native.Char.{Char, code}
use Prim.Native.Nat.{ℕ, zero, suc, ◌-◌, ◌+◌, ◌/◌, ◌%◌}
use Prim.Native.String
use Prim.Native.String.{String}
use mathlib.Core.Bool.{Bool, true, false, not, ◌&&◌, ◌||◌}
use mathlib.Core.List.{List, [], ◌∷◌}
use nodal_studio.Prelude.Tests.{leb, eqb, if◌then◌else◌}
use nodal_studio.Prelude.Equality.{◌==◌, string_eq}

infixr 65 ◌&◌
abbrev pub ◌&◌ : String → String → String
s & t = String.◌++◌ s t

-- Adds a character to the first piece.
cons_piece : Char → List String → List String
cons_piece c [] = []
cons_piece c (piece ∷ pieces) = String.◌∷◌ c piece ∷ pieces

-- `text.split(separator)` for a separator of one character.
unfoldable pub split : ℕ → String → List String
unfolding cons_piece
split separator String.[] = "" ∷ []
split separator (String.◌∷◌ c s) =
    let pieces = split separator s in
    if eqb (code c) separator then "" ∷ pieces else cons_piece c pieces

-- `pieces.join(separator)`
unfoldable pub join : String → List String → String
join separator [] = ""
join separator (piece ∷ []) = piece
join separator (piece ∷ next ∷ pieces) = piece & separator & join separator (next ∷ pieces)

-- `text.endsWith(suffix)`
unfoldable pub ends_with : String → String → Bool
ends_with suffix String.[] = suffix == ""
ends_with suffix (String.◌∷◌ c s) = suffix == String.◌∷◌ c s || ends_with suffix s

-- `text.startsWith(prefix)`
unfoldable pub starts_with : String → String → Bool
starts_with String.[] s = true
starts_with (String.◌∷◌ p prefix) String.[] = false
starts_with (String.◌∷◌ p prefix) (String.◌∷◌ c s) = eqb (code p) (code c) && starts_with prefix s

abbrev pub size : String → ℕ
size String.[] = 0
size (String.◌∷◌ c s) = suc (size s)

abbrev take_text : ℕ → String → String
take_text zero s = ""
take_text (suc n) String.[] = ""
take_text (suc n) (String.◌∷◌ c s) = String.◌∷◌ c (take_text n s)

-- `text.slice(0, -n)`
unfoldable pub drop_end : ℕ → String → String
drop_end n s = take_text (size s - n) s

-- `[A-Za-z0-9_]`, the word characters of a regular expression without the `u` flag.
abbrev is_word : ℕ → Bool
is_word c =
    (leb b'a' c && leb c b'z')
    || (leb b'A' c && leb c b'Z')
    || (leb b'0' c && leb c b'9')
    || eqb c b'_'

abbrev pub lower_ascii : ℕ → ℕ
lower_ascii c = if leb b'A' c && leb c b'Z' then c + 32 else c

-- The text begins with the lower-case word, in any case of letters, and no word character follows.
abbrev word_here : String → String → Bool
word_here String.[] String.[] = true
word_here String.[] (String.◌∷◌ c s) = not (is_word (code c))
word_here (String.◌∷◌ w word) String.[] = false
word_here (String.◌∷◌ w word) (String.◌∷◌ c s) =
    eqb (code w) (lower_ascii (code c)) && word_here word s

word_from : String → Bool → String → Bool
word_from word inside String.[] = false
word_from word inside (String.◌∷◌ c s) =
    (not inside && word_here word (String.◌∷◌ c s)) || word_from word (is_word (code c)) s

-- `/\bword\b/i.test(text)` for a word of lower-case ASCII letters.
unfoldable pub has_word : String → String → Bool
unfolding word_from
has_word word s = word_from word false s

-- `text.includes(part)`
unfoldable pub includes : String → String → Bool
unfolding starts_with
includes part String.[] = part == ""
includes part (String.◌∷◌ c s) = starts_with part (String.◌∷◌ c s) || includes part s

abbrev char_at : ℕ → String → String
char_at n String.[] = ""
char_at zero (String.◌∷◌ c s) = String.◌∷◌ c ""
char_at (suc n) (String.◌∷◌ c s) = char_at n s

abbrev digit : ℕ → String
digit n = char_at n "0123456789"

decimal_from : ℕ → ℕ → String → String
decimal_from zero n digits = digits
decimal_from (suc fuel) n digits = elim (leb 10 n) [
  | true ↦ decimal_from fuel (n / 10) (digit (n % 10) & digits)
  | false ↦ digit n & digits
]

-- A natural number in a template: every division by ten lowers it, so `suc n` rounds are enough.
unfoldable pub decimal : ℕ → String
unfolding decimal_from
decimal n = decimal_from (suc n) n ""
