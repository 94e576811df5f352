-- ===== src/Recipes/ConfigLines/Braces.antt =====
-- The braces that a line of the config opens and closes.
use Prim.Native.Char.{Char, code}
use text.Mathlib.TextLemmas.{nil-append, cons-append}
use terramate_api_wrapper.Base.{
  ℕ, zero, suc, ◌+◌, ◌≤◌, String, ◌<>◌, Bool, true, false, not, ◌&&◌, none, ◌==◌, nat_eq, ◌≡◌, refl,
  ap, ◌∙◌, arith, Bool-cases, Option-cases, inl, inr, ◌⊎◌,
}
use terramate_api_wrapper.Base.Text.{is_space, take_while, all_chars}
use terramate_api_wrapper.Base.Scan
use terramate_api_wrapper.Recipes.ConfigLines.{
  Attribute, is_key_char, before_hash, unquoted_behind, unquoted, count_char, opened, closed,
  quoted_at,
}
use terramate_api_wrapper.Recipes.ConfigLines.Parsed

-- A character that neither starts a comment nor a quoted text, and is no brace.
abbrev pub is_plain : Char → Bool
is_plain c =
    let n = code c in not (n == 35) && (not (n == 34) && (not (n == 123) && not (n == 125)))

plain-no_hash : (c : Char) → is_plain c ≡ true → (code c == 35) ≡ false
plain-no_hash c h = ground arith

plain-no_quote : (c : Char) → is_plain c ≡ true → (code c == 34) ≡ false
plain-no_quote c h = ground arith

plain-no_brace :
    (n : ℕ) (c : Char) → is_plain c ≡ true → (n ≡ 123) ⊎ (n ≡ 125) → (code c == n) ≡ false
plain-no_brace n c h (inl e) = rw e (ground arith)
plain-no_brace n c h (inr e) = rw e (ground arith)

before_hash_step :
    (c : Char) (s : String)
    → is_plain c ≡ true
    → before_hash (String.◌∷◌ c s) ≡ String.◌∷◌ c (before_hash s)
before_hash_step c s h = rw (plain-no_hash c h) refl

unquoted_step :
    (c : Char) (s : String)
    → is_plain c ≡ true
    → unquoted (String.◌∷◌ c s) ≡ String.◌∷◌ c (unquoted s)
unquoted_step c s h =
    let none_quoted : quoted_at c s ≡ none = rw (plain-no_quote c h) refl in rw none_quoted refl

module _ (n : ℕ) (brace : (n ≡ 123) ⊎ (n ≡ 125)) where
  plain_step :
      (c : Char) (s : String)
      → is_plain c ≡ true
      → count_char n (unquoted (before_hash (String.◌∷◌ c s)))
        ≡ count_char n (unquoted (before_hash s))
  plain_step c s h =
      rw (before_hash_step c s h, unquoted_step c (before_hash s) h, plain-no_brace n c h brace)
        refl

  plain-append :
      (a r : String)
      → all_chars is_plain a ≡ true
      → count_char n (unquoted (before_hash (a <> r))) ≡ count_char n (unquoted (before_hash r))
  plain-append String.[] r h = rw (nil-append r) refl
  plain-append (String.◌∷◌ c a) r h =
      rw (cons-append c a r)
        (plain_step c (a <> r) (ground arith) ∙ plain-append a r (ground arith))

  -- Nothing is counted that is not in the text.
  count-take_while : (p : Char → Bool) (s : String) → count_char n (take_while p s) ≤ count_char n s
  count-take_while p String.[] = omega arith
  count-take_while p (String.◌∷◌ c s) = elim (Bool-cases (p c)) [
    | inl e ↦ rw e (ground (arith, count-take_while p s))
    | inr e ↦ rw e (ground arith)
  ]

  count-unquoted_behind : (k : ℕ) (s : String) → count_char n (unquoted_behind k s) ≤ count_char n s
  count-unquoted_behind zero String.[] = omega arith
  count-unquoted_behind (suc k) String.[] = omega arith
  count-unquoted_behind (suc k) (String.◌∷◌ c s) = ground (arith, count-unquoted_behind k s)
  count-unquoted_behind zero (String.◌∷◌ c s) = elim (Option-cases (quoted_at c s)) [
    | inl e ↦ rw e (ground (arith, count-unquoted_behind 0 s))
    | inr (k, e) ↦ rw e (ground (arith, count-unquoted_behind k s))
  ]

  count-braces : (line : String) → count_char n (unquoted (before_hash line)) ≤ count_char n line
  count-braces line = ground (
    arith,
    count-unquoted_behind 0 (before_hash line),
    count-take_while (λ (c : Char). not (code c == 35)) line,
  )

  count_plain : (s : String) → all_chars is_plain s ≡ true → count_char n s ≡ 0
  count_plain String.[] h = refl
  count_plain (String.◌∷◌ c s) h =
      rw (plain-no_brace n c (ground arith) brace) (count_plain s (ground arith))

  count-append : (s t : String) → count_char n (s <> t) ≡ count_char n s + count_char n t
  count-append String.[] t = rw (nil-append t) (omega arith)
  count-append (String.◌∷◌ c s) t = rw (cons-append c s t) (ground (arith, count-append s t))

space_plain : (c : Char) → is_space c ≡ true → is_plain c ≡ true
unfolding nat_eq
space_plain c h = ground arith

key_plain : (c : Char) → is_key_char c ≡ true → is_plain c ≡ true
unfolding nat_eq
key_plain c h = ground arith

module _ (n : ℕ) (brace : (n ≡ 123) ⊎ (n ≡ 125)) where
  -- The braces of an attribute's line are those of its value.
  attribute_braces :
      (line : String) (m : Attribute)
      → Parsed.Written line m
      → count_char n (unquoted (before_hash line)) ≡ count_char n (unquoted (before_hash m.value))
  unfolding nat_eq
  attribute_braces line m w =
      let blank = λ (s : String) (h : all_chars is_space s ≡ true).
        Scan.all_chars_mono is_space is_plain s space_plain h in
      ap (λ s. count_char n (unquoted (before_hash s))) w.spelled
      ∙ (plain-append n brace m.indent (m.key <> (w.before <> ("=" <> (w.behind <> m.value))))
            (blank m.indent w.indent_blank)
          ∙ (plain-append n brace m.key (w.before <> ("=" <> (w.behind <> m.value)))
                (Scan.all_chars_mono is_key_char is_plain m.key key_plain w.key_chars)
              ∙ (plain-append n brace w.before ("=" <> (w.behind <> m.value))
                    (blank w.before w.before_blank)
                  ∙ (plain-append n brace "=" (w.behind <> m.value) refl
                      ∙ plain-append n brace w.behind m.value (blank w.behind w.behind_blank)))))

  -- A comment has none.
  comment_braces :
      (indent text : String)
      → all_chars is_space indent ≡ true
      → count_char n (unquoted (before_hash (indent <> ("#" <> text)))) ≡ 0
  unfolding nat_eq
  comment_braces indent text h =
      plain-append n brace indent ("#" <> text)
        (Scan.all_chars_mono is_space is_plain indent space_plain h)
      ∙ rw (cons-append "#" "" text) refl

pub Written-opened :
    (line : String) (m : Attribute) → Parsed.Written line m → opened line ≡ opened m.value
unfolding opened
Written-opened line m w = attribute_braces 123 (inl refl) line m w

pub Written-closed :
    (line : String) (m : Attribute) → Parsed.Written line m → closed line ≡ closed m.value
unfolding closed
Written-closed line m w = attribute_braces 125 (inr refl) line m w

pub comment-opened :
    (indent text : String)
    → all_chars is_space indent ≡ true
    → (opened (indent <> ("#" <> text)) ≡ 0) × (closed (indent <> ("#" <> text)) ≡ 0)
unfolding opened closed
comment-opened indent text h =
    (comment_braces 123 (inl refl) indent text h, comment_braces 125 (inr refl) indent text h)

quote_braces : (n : ℕ) → (n ≡ 123) ⊎ (n ≡ 125) → count_char n "\"" ≡ 0
unfolding nat_eq
quote_braces n (inl e) = rw e refl
quote_braces n (inr e) = rw e refl

-- Nor has a quoted text without them.
quoted_braces :
    (n : ℕ) (text : String)
    → (n ≡ 123) ⊎ (n ≡ 125)
    → all_chars is_key_char text ≡ true
    → count_char n (unquoted (before_hash ("\"" <> (text <> "\"")))) ≡ 0
quoted_braces n text brace h =
    let none_inside =
      count_plain n brace text (Scan.all_chars_mono is_key_char is_plain text key_plain h) in
    let quote = quote_braces n brace in
    ground (
      arith,
      count-braces n brace ("\"" <> (text <> "\"")),
      count-append n brace "\"" (text <> "\""),
      count-append n brace text "\"",
    )

pub quoted-opened :
    (text : String)
    → all_chars is_key_char text ≡ true
    → (opened ("\"" <> (text <> "\"")) ≡ 0) × (closed ("\"" <> (text <> "\"")) ≡ 0)
unfolding opened closed
quoted-opened text h = (quoted_braces 123 text (inl refl) h, quoted_braces 125 text (inr refl) h)
