-- ===== src/Base/Text.antt =====
-- The methods of Python's `str` that the program calls, over the native strings.
use Prim.Native.Char.{Char, code}
use Prim.Native.Nat.{ℕ, zero, suc}
use Prim.Native.String.{String, ◌++◌ as ◌<>◌}
use mathlib.Core.Bool.{Bool, true, ◌&&◌, ◌||◌}
use mathlib.Core.Path.{◌≡◌, refl}
use mathlib.Core.List.{List, [], ◌∷◌}
use text.Mathlib.Text.{starts_with}
use package.terramate_api_wrapper.Base.Equality.{contains, nat_eq}
use package.terramate_api_wrapper.Base.Tests.{leb, if◌then◌else◌}

abbrev pub size : String → ℕ
size String.[] = 0
size (String.◌∷◌ c s) = suc (size s)

-- `s[n:]`
abbrev pub skip : ℕ → String → String
skip zero s = s
skip (suc n) String.[] = ""
skip (suc n) (String.◌∷◌ c s) = skip n s

-- `text.replace(old, new)` for a non-empty `old`: every occurrence, from left to right, none inside
-- another. The fuel is the length of the text, and each round drops at least one character.
replace_from : ℕ → String → String → String → String
replace_from zero old new text = text
replace_from (suc fuel) old new String.[] = ""
replace_from (suc fuel) old new (String.◌∷◌ c s) =
    let hit = new <> replace_from fuel old new (skip (size old) (String.◌∷◌ c s)) in
    let miss = String.◌∷◌ c (replace_from fuel old new s) in
    if starts_with (String.◌∷◌ c s) old then hit else miss

unfoldable pub replace : String → String → String → String
unfolding replace_from
replace old new text = replace_from (size text) old new text

-- `sep.join(parts)`
abbrev pub join : String → List String → String
join sep [] = ""
join sep (s ∷ []) = s
join sep (s ∷ t ∷ r) = s <> sep <> join sep (t ∷ r)

-- `s` from the first character that is not of the class, and what is before it.
abbrev pub drop_while : (Char → Bool) → String → String
drop_while p String.[] = ""
drop_while p (String.◌∷◌ c s) = if p c then drop_while p s else String.◌∷◌ c s

abbrev pub take_while : (Char → Bool) → String → String
take_while p String.[] = ""
take_while p (String.◌∷◌ c s) = let rest = take_while p s in if p c then String.◌∷◌ c rest else ""

abbrev pub all_chars : (Char → Bool) → String → Bool
all_chars p String.[] = true
all_chars p (String.◌∷◌ c s) = p c && all_chars p s

-- `text.rstrip("/")`
abbrev pub rstrip_slashes : String → String
rstrip_slashes String.[] = ""
rstrip_slashes (String.◌∷◌ c s) = keep (rstrip_slashes s)
  where
    keep : String → String
    keep String.[] = if starts_with (String.◌∷◌ c "") "/" then "" else String.◌∷◌ c ""
    keep (String.◌∷◌ d r) = String.◌∷◌ c (String.◌∷◌ d r)

-- The characters that `str.strip` removes, which are those of `\s` in a pattern.
abbrev pub is_space : Char → Bool
is_space c =
    let n = code c in
    (leb 9 n && leb n 13)
    || ((leb 28 n && leb n 32)
        || ((leb 8192 n && leb n 8202)
            || contains (133 ∷ 160 ∷ 5760 ∷ 8232 ∷ 8233 ∷ 8239 ∷ 8287 ∷ 12288 ∷ []) n))

abbrev pub lstrip : String → String
lstrip s = drop_while is_space s

-- `c` before a text that is stripped on the right.
abbrev pub keep_left : Char → String → String
keep_left c String.[] = if is_space c then "" else String.◌∷◌ c ""
keep_left c (String.◌∷◌ d s) = String.◌∷◌ c (String.◌∷◌ d s)

abbrev pub rstrip : String → String
rstrip String.[] = ""
rstrip (String.◌∷◌ c s) = keep_left c (rstrip s)

abbrev pub strip : String → String
strip s = rstrip (lstrip s)

replace_twice : replace "ab" "x" "abcabab" ≡ "xcxx"
unfolding replace
replace_twice = refl
