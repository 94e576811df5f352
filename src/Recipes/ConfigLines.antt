-- ===== src/Recipes/ConfigLines.antt =====
-- The patterns of server/recipes/stack_ids.py, as scanners over the characters of one line: each of them
-- matches in one way only, since no class that is repeated meets the character that ends it.
pub mod Parsed
pub mod Braces
use Prim.Native.Char.{Char, code}
use text.Mathlib.Text.{starts_with}
use terramate_api_wrapper.Base.{
  ℕ, zero, suc, ◌+◌, String, ◌<>◌, Bool, true, false, ◌&&◌, ◌||◌, Option, none, some, List, [], ◌∷◌,
  leb, ◌==◌, nat_eq, string_eq, if◌then◌else◌, map, not, ◌≡◌, refl,
}
use terramate_api_wrapper.Base.Text.{is_space, lstrip, take_while, drop_while, size, skip}

-- `[A-Za-z0-9_\-]`
abbrev pub is_key_char : Char → Bool
is_key_char c =
    let n = code c in
    (leb 48 n && leb n 57)
    || ((leb 65 n && leb n 90) || ((leb 97 n && leb n 122) || (n == 95 || n == 45)))

-- A match of `_ATTRIBUTE`.
pub record Attribute : Type 0 where
  pub indent : String
  pub key : String
  pub value : String

-- What is behind the first character of a text, if that is the given one.
abbrev pub after : ℕ → String → Option String
after n String.[] = none
after n (String.◌∷◌ c s) = if code c == n then some s else none

-- `_ATTRIBUTE.match(line)`: blanks, a key, blanks, an equals sign, blanks, and the value up to the end.
unfoldable pub match_attribute : String → Option Attribute
match_attribute line =
    let key = take_while is_key_char (lstrip line) in
    if key == "" then none else elim (after 61 (lstrip (drop_while is_key_char (lstrip line)))) [
      | none ↦ none
      | some rest ↦
          some (record { indent = take_while is_space line; key = key; value = lstrip rest })
    ]

abbrev is_not_quote : Char → Bool
is_not_quote c = not (code c == 34)

abbrev starts_blank : String → Bool
starts_blank String.[] = false
starts_blank (String.◌∷◌ c s) = is_space c

-- One `\s+"[^"]*"`: what is behind the closing quote.
abbrev label : String → Option String
label s =
    if starts_blank s
    then elim (after 34 (lstrip s)) [
      | none ↦ none
      | some rest ↦ after 34 (drop_while is_not_quote rest)
    ]
    else none

-- `(?:\s+"[^"]*")*\s*\{\s*$`. A label has two quotes, so that the length of the text is fuel enough.
labels_and_brace : ℕ → String → Bool
labels_and_brace zero s = false
labels_and_brace (suc fuel) s = elim (label s) [
  | some rest ↦ labels_and_brace fuel rest
  | none ↦ elim (after 123 (lstrip s)) [ none ↦ false | some rest ↦ lstrip rest == "" ]
]

-- What is behind a word at the start of a text.
abbrev behind : String → String → Option String
behind word s = if starts_with s word then some (skip (size word) s) else none

-- `globals\s+"stack_ids"(?:\s+"[^"]*")*\s*\{\s*$`
globals_block : String → Bool
unfolding labels_and_brace
globals_block s = elim (behind "globals" s) [
  | none ↦ false
  | some rest ↦ starts_blank rest && elim (behind "\"stack_ids\"" (lstrip rest)) [
    | none ↦ false
    | some labels ↦ labels_and_brace (suc (size labels)) labels
  ]
]

-- `stack_ids\s*=\s*\{\s*$`
stack_ids_attribute : String → Bool
stack_ids_attribute s = elim (behind "stack_ids" s) [
  | none ↦ false
  | some rest ↦ elim (after 61 (lstrip rest)) [
    | none ↦ false
    | some value ↦ elim (after 123 (lstrip value)) [ none ↦ false | some end ↦ lstrip end == "" ]
  ]
]

-- Whether `_BLOCK_START.match(line)`.
unfoldable pub is_block_start : String → Bool
unfolding globals_block stack_ids_attribute
is_block_start line = globals_block (lstrip line) || stack_ids_attribute (lstrip line)

-- `line.split("#", 1)[0]`
abbrev pub before_hash : String → String
before_hash line = take_while (λ c. not (code c == 35)) line

abbrev pub one_more : Option ℕ → Option ℕ
one_more none = none
one_more (some n) = some (suc n)

-- The length of what `(?:[^"\\]|\\.)*"` matches at the start of a text.
abbrev quoted_rest : Bool → String → Option ℕ
quoted_rest escaped String.[] = none
quoted_rest escaped (String.◌∷◌ c s) =
    let rest = quoted_rest (not escaped && code c == 92) s in
    if not escaped && code c == 34 then some 1 else one_more rest

abbrev quoted_at : Char → String → Option ℕ
quoted_at c s = if code c == 34 then quoted_rest false s else none

abbrev or_zero : Option ℕ → ℕ
or_zero none = 0
or_zero (some n) = n

abbrev kept_or_dropped : Option ℕ → Char → String → String
kept_or_dropped none c rest = String.◌∷◌ c rest
kept_or_dropped (some n) c rest = rest

-- The text behind its first characters, as many as the number says, without its quoted texts.
abbrev unquoted_behind : ℕ → String → String
unquoted_behind n String.[] = ""
unquoted_behind (suc n) (String.◌∷◌ c s) = unquoted_behind n s
unquoted_behind zero (String.◌∷◌ c s) =
    kept_or_dropped (quoted_at c s) c (unquoted_behind (or_zero (quoted_at c s)) s)

-- `_QUOTED.sub("", text)`: an opening quote that nothing closes stays.
abbrev pub unquoted : String → String
unquoted text = unquoted_behind 0 text

-- `text.count(character)`
abbrev pub count_char : ℕ → String → ℕ
count_char n String.[] = 0
count_char n (String.◌∷◌ c s) = let rest = count_char n s in if code c == n then suc rest else rest

-- `{` and `}` in a line, outside its comment and its quoted texts.
unfoldable pub opened : String → ℕ
opened line = count_char 123 (unquoted (before_hash line))

unfoldable pub closed : String → ℕ
closed line = count_char 125 (unquoted (before_hash line))

block_start_run :
    map is_block_start (
      "  globals \"stack_ids\" \"sbx\" {  " ∷ "stack_ids={" ∷ "globals \"stack_ids\"{"
      ∷ "globals \"stack_ids\"\"a\" {" ∷ "globals \"stack_ids\" \"a\" { x" ∷ "xstack_ids = {" ∷ [])
    ≡ true ∷ true ∷ true ∷ false ∷ false ∷ false ∷ []
unfolding is_block_start nat_eq string_eq
block_start_run = refl

opened_run :
    map opened ("a = { { # {" ∷ "\"{\" {" ∷ "\"a\\\"{ {" ∷ "\"\\\"\"{" ∷ []) ≡ 2 ∷ 1 ∷ 2 ∷ 1 ∷ []
unfolding opened nat_eq string_eq
opened_run = refl

attribute_run :
    match_attribute "  k-1 =  v \"" ≡ some (record { indent = "  "; key = "k-1"; value = "v \"" })
unfolding match_attribute nat_eq string_eq
attribute_run = refl
