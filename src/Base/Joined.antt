-- ===== src/Base/Joined.antt =====
-- Cutting a text into lines undoes joining them.
use Prim.Native.Char.{Char, code}
use Prim.Native.String.{String, ◌++◌ as ◌<>◌}
use text.Mathlib.TextLemmas.{nil-append, cons-append, append_assoc}
use mathlib.Core.Path.{◌≡◌, refl, ap, ◌∙◌}
use mathlib.Core.Bool.{Bool, true, false, not}
use mathlib.Core.List.{List, [], ◌∷◌}
use native.Mathlib.Omega.{arith}
use package.terramate_api_wrapper.Base.Equality.{◌==◌, nat_eq}
use package.terramate_api_wrapper.Base.Lists.{all}
use package.terramate_api_wrapper.Base.Text.{all_chars, join}
use package.terramate_api_wrapper.Base.Lines.{is_break, add_to_first, splitlines_after, splitlines}

abbrev pub is_kept : Char → Bool
is_kept c = not (is_break c)

-- A line without characters that end one.
abbrev pub unbroken : String → Bool
unbroken line = all_chars is_kept line

kept-not_return : (c : Char) → is_kept c ≡ true → (code c == 13) ≡ false
unfolding nat_eq
kept-not_return c h = ground arith

splitlines_after-line :
    (line rest : String)
    → unbroken line ≡ true
    → splitlines_after false (line <> ("\n" <> rest)) ≡ line ∷ splitlines_after false rest
unfolding nat_eq
splitlines_after-line String.[] rest h =
    rw (nil-append ("\n" <> rest), cons-append "\n" "" rest, nil-append rest) refl
splitlines_after-line (String.◌∷◌ c s) rest h =
    rw (cons-append c s ("\n" <> rest))
      (grind (arith, kept-not_return c, splitlines_after-line s rest))

joined :
    (line : String) (lines : List String)
    → all unbroken (line ∷ lines) ≡ true
    → splitlines_after false (join "\n" (line ∷ lines) <> "\n") ≡ line ∷ lines
joined line [] h = splitlines_after-line line "" (ground arith)
joined line (next ∷ lines) h =
    ap (splitlines_after false) (append_assoc line ("\n" <> join "\n" (next ∷ lines)) "\n")
    ∙ (ap (λ s. splitlines_after false (line <> s))
          (append_assoc "\n" (join "\n" (next ∷ lines)) "\n")
        ∙ (splitlines_after-line line (join "\n" (next ∷ lines) <> "\n") (ground arith)
            ∙ ap (λ ls. line ∷ ls) (joined next lines (ground arith))))

-- Lines that are joined and closed with a newline are cut again as they were.
pub splitlines-join :
    (line : String) (lines : List String)
    → all unbroken (line ∷ lines) ≡ true
    → splitlines (join "\n" (line ∷ lines) <> "\n") ≡ line ∷ lines
unfolding splitlines
splitlines-join line lines h = joined line lines h

add_to_first-unbroken :
    (c : Char) (lines : List String)
    → is_kept c ≡ true
    → all unbroken lines ≡ true
    → all unbroken (add_to_first c lines) ≡ true
add_to_first-unbroken c [] h e = ground arith
add_to_first-unbroken c (s ∷ lines) h e = ground arith

splitlines_after-unbroken :
    (returned : Bool) (s : String) → all unbroken (splitlines_after returned s) ≡ true
splitlines_after-unbroken returned String.[] = refl
splitlines_after-unbroken returned (String.◌∷◌ c s) = grind (
  arith,
  splitlines_after-unbroken (code c == 13) s,
  add_to_first-unbroken c (splitlines_after (code c == 13) s),
)

pub splitlines-unbroken : (text : String) → all unbroken (splitlines text) ≡ true
unfolding splitlines
splitlines-unbroken text = splitlines_after-unbroken false text
