-- ===== src/Base/Lines.antt =====
-- The lines of a text, as Python's `str.splitlines` cuts it and `"\n".join` puts it together.
use Prim.Native.Char.{Char, code}
use Prim.Native.String.{String}
use mathlib.Core.Bool.{Bool, false, ◌&&◌, ◌||◌}
use mathlib.Core.List.{List, [], ◌∷◌}
use mathlib.Core.Path.{◌≡◌, refl}
use package.terramate_api_wrapper.Base.Equality.{◌==◌, contains, nat_eq}
use package.terramate_api_wrapper.Base.Tests.{leb, if◌then◌else◌}

-- The characters that end a line.
abbrev pub is_break : Char → Bool
is_break c =
    let n = code c in
    (leb 10 n && leb n 13) || ((leb 28 n && leb n 30) || contains (133 ∷ 8232 ∷ 8233 ∷ []) n)

abbrev pub add_to_first : Char → List String → List String
add_to_first c [] = String.◌∷◌ c "" ∷ []
add_to_first c (s ∷ parts) = String.◌∷◌ c s ∷ parts

-- The lines of what follows a carriage return or not: a line feed behind one ends no other line.
abbrev pub splitlines_after : Bool → String → List String
splitlines_after returned String.[] = []
splitlines_after returned (String.◌∷◌ c s) =
    let rest = splitlines_after (code c == 13) s in
    if returned && code c == 10 then rest else if is_break c then "" ∷ rest else add_to_first c rest

-- `text.splitlines()`
unfoldable pub splitlines : String → List String
splitlines text = splitlines_after false text

-- `text.endswith("\n")`
abbrev pub ends_with_newline : String → Bool
ends_with_newline String.[] = false
ends_with_newline (String.◌∷◌ c String.[]) = code c == 10
ends_with_newline (String.◌∷◌ c (String.◌∷◌ d s)) = ends_with_newline (String.◌∷◌ d s)

splitlines_run : splitlines "a\n\r\nb\r\r" ≡ "a" ∷ "" ∷ "b" ∷ "" ∷ []
unfolding splitlines nat_eq
splitlines_run = refl
