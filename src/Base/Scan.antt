-- ===== src/Base/Scan.antt =====
-- Scanning a text while its characters are of one class.
use Prim.Native.Char.{Char}
use Prim.Native.String.{String, ◌++◌ as ◌<>◌}
use mathlib.Core.Path.{◌≡◌, refl}
use mathlib.Core.Logic.{inl, inr}
use mathlib.Core.Bool.{Bool, true, not, ◌&&◌}
use text.Mathlib.TextLemmas.{nil-append, cons-append}
use native.Mathlib.Omega.{arith}
use package.terramate_api_wrapper.Base.Tests.{Bool-cases}
use package.terramate_api_wrapper.Base.Text.{take_while, drop_while, all_chars}

module _ (p : Char → Bool) where
  pub take_while-drop_while : (s : String) → take_while p s <> drop_while p s ≡ s
  take_while-drop_while String.[] = nil-append ""
  take_while-drop_while (String.◌∷◌ c s) =
      grind (arith, take_while-drop_while s, nil-append, cons-append)

  pub take_while-all_chars : (s : String) → all_chars p (take_while p s) ≡ true
  take_while-all_chars String.[] = refl
  take_while-all_chars (String.◌∷◌ c s) = elim (Bool-cases (p c)) [
    | inl e ↦ rw e (rw e (take_while-all_chars s))
    | inr e ↦ rw e refl
  ]

  pub take_while-append :
      (a r : String) → all_chars p a ≡ true → take_while p (a <> r) ≡ a <> take_while p r
  take_while-append String.[] r h = rw (nil-append r, nil-append (take_while p r)) refl
  take_while-append (String.◌∷◌ c a) r h = grind (arith, take_while-append a r, cons-append)

  pub drop_while-append :
      (a r : String) → all_chars p a ≡ true → drop_while p (a <> r) ≡ drop_while p r
  drop_while-append String.[] r h = rw (nil-append r) refl
  drop_while-append (String.◌∷◌ c a) r h = grind (arith, drop_while-append a r, cons-append)

  pub drop_while_twice : (s : String) → drop_while p (drop_while p s) ≡ drop_while p s
  drop_while_twice String.[] = refl
  drop_while_twice (String.◌∷◌ c s) = ground (arith, drop_while_twice s)

  pub all_chars-append : (a b : String) → all_chars p (a <> b) ≡ all_chars p a && all_chars p b
  all_chars-append String.[] b = rw (nil-append b) refl
  all_chars-append (String.◌∷◌ c a) b = grind (arith, all_chars-append a b, cons-append)

  pub all_chars_mono :
      (q : Char → Bool) (s : String)
      → ((c : Char) → p c ≡ true → q c ≡ true)
      → all_chars p s ≡ true
      → all_chars q s ≡ true
  all_chars_mono q String.[] h e = refl
  all_chars_mono q (String.◌∷◌ c s) h e = ground (arith, h c, all_chars_mono q s h)

  -- The text does not begin with a character of the class.
  abbrev pub stopped : String → Bool
  stopped String.[] = true
  stopped (String.◌∷◌ c s) = not (p c)

  pub take_while-stopped : (s : String) → stopped s ≡ true → take_while p s ≡ ""
  take_while-stopped String.[] h = refl
  take_while-stopped (String.◌∷◌ c s) h = ground arith

  pub drop_while-stopped : (s : String) → stopped s ≡ true → drop_while p s ≡ s
  drop_while-stopped String.[] h = refl
  drop_while-stopped (String.◌∷◌ c s) h = ground arith
