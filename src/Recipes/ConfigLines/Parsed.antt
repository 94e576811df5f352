-- ===== src/Recipes/ConfigLines/Parsed.antt =====
-- What a match of `_ATTRIBUTE` says of its line, and that a line in that form is matched.
use Prim.Native.Char.{Char, code}
use text.Mathlib.TextLemmas.{nil-append, cons-append, append-nil}
use text.Mathlib.TextEquality.{Char-path}
use terramate_api_wrapper.Base.{
  String, ◌<>◌, true, false, some, nat_eq, string_eq, ◌≡◌, ◌≢◌, refl, sym, ap, ◌∙◌, subst, arith,
  Option-cases, inl, inr,
}
use terramate_api_wrapper.Base.Text.{is_space, take_while, drop_while, all_chars, lstrip}
use terramate_api_wrapper.Base.Scan
use terramate_api_wrapper.Recipes.ConfigLines.{Attribute, is_key_char, after, match_attribute}

-- No character of a key is a blank.
key_char-not_space : (c : Char) → is_key_char c ≡ true → is_space c ≡ false
unfolding nat_eq
key_char-not_space c h = ground arith

-- The texts around the equals sign.
pub record Written (line : String) (m : Attribute) : Type 0 where
  pub before : String
  pub behind : String
  pub spelled : line ≡ m.indent <> (m.key <> (before <> ("=" <> (behind <> m.value))))
  pub indent_blank : all_chars is_space m.indent ≡ true
  pub key_chars : all_chars is_key_char m.key ≡ true
  pub key_given : m.key ≢ ""
  pub before_blank : all_chars is_space before ≡ true
  pub behind_blank : all_chars is_space behind ≡ true
  pub value_tight : lstrip m.value ≡ m.value

after-spelled : (s rest : String) → after 61 s ≡ some rest → s ≡ "=" <> rest
unfolding nat_eq
after-spelled String.[] rest h = absurd (cc h)
after-spelled (String.◌∷◌ c s) rest h = elim (nat_eq.dec (code c) 61) [
  | yes e ↦
      rw (Char-path c "=" e, cons-append "=" "" rest, nil-append rest)
        (ap (λ t. String.◌∷◌ "=" t) (ground arith))
  | no differ ↦ ground (arith, differ)
]

module _ (line : String) where
  abbrev parsed_key : String
  parsed_key = take_while is_key_char (lstrip line)

  abbrev parsed_tail : String
  parsed_tail = drop_while is_key_char (lstrip line)

  abbrev parsed : String → Attribute
  parsed rest = record { indent = take_while is_space line; key = parsed_key; value = lstrip rest }

  parsed-Written :
      (rest : String)
      → parsed_key ≢ ""
      → after 61 (lstrip parsed_tail) ≡ some rest
      → Written line (parsed rest)
  parsed-Written rest given found = record {
    before = take_while is_space parsed_tail;
    behind = take_while is_space rest;
    spelled =
        sym (Scan.take_while-drop_while is_space line)
        ∙ ap (λ s. take_while is_space line <> s)
            (sym (Scan.take_while-drop_while is_key_char (lstrip line))
              ∙ ap (λ s. parsed_key <> s)
                  (sym (Scan.take_while-drop_while is_space parsed_tail)
                    ∙ ap (λ s. take_while is_space parsed_tail <> s)
                        (after-spelled (lstrip parsed_tail) rest found
                          ∙ ap (λ s. "=" <> s) (sym (Scan.take_while-drop_while is_space rest)))));
    indent_blank = Scan.take_while-all_chars is_space line;
    key_chars = Scan.take_while-all_chars is_key_char (lstrip line);
    key_given = given;
    before_blank = Scan.take_while-all_chars is_space parsed_tail;
    behind_blank = Scan.take_while-all_chars is_space rest;
    value_tight = Scan.drop_while_twice is_space rest;
  }

  pub match_attribute-Written : (m : Attribute) → match_attribute line ≡ some m → Written line m
  unfolding match_attribute
  match_attribute-Written m h = elim (string_eq.dec parsed_key "") [
    | yes e ↦ ground arith
    | no differ ↦ elim (Option-cases (after 61 (lstrip parsed_tail))) [
      | inl e ↦ ground arith
      | inr (rest, e) ↦ subst (λ x. Written line x) ground arith (parsed-Written rest differ e)
    ]
  ]

stopped_blank :
    (before rest : String)
    → all_chars is_space before ≡ true
    → Scan.stopped is_key_char rest ≡ true
    → Scan.stopped is_key_char (before <> rest) ≡ true
stopped_blank String.[] rest h e = rw (nil-append rest) e
stopped_blank (String.◌∷◌ c s) rest h e =
    rw (cons-append c s rest) (ground (arith, key_char-not_space c))

stopped_key :
    (key rest : String)
    → all_chars is_key_char key ≡ true
    → key ≢ ""
    → Scan.stopped is_space (key <> rest) ≡ true
stopped_key String.[] rest h given = absurd (given refl)
stopped_key (String.◌∷◌ c s) rest h given =
    rw (cons-append c s rest) (ground (arith, key_char-not_space c))

equals_stops : (rest : String) → Scan.stopped is_key_char ("=" <> rest) ≡ true
unfolding nat_eq
equals_stops rest = rw (cons-append "=" "" rest) refl

after-equals : (rest : String) → after 61 ("=" <> rest) ≡ some rest
unfolding nat_eq
after-equals rest = rw (cons-append "=" "" rest, nil-append rest) refl

equals_stops_blank : (rest : String) → Scan.stopped is_space ("=" <> rest) ≡ true
unfolding nat_eq
equals_stops_blank rest = rw (cons-append "=" "" rest) refl

-- Matching.
module _ (line : String) (m : Attribute) (w : Written line m) where
  abbrev right : String
  right = "=" <> (w.behind <> m.value)

  lstrip-line : lstrip line ≡ m.key <> (w.before <> right)
  lstrip-line =
      ap lstrip w.spelled
      ∙ (Scan.drop_while-append is_space m.indent (m.key <> (w.before <> right)) w.indent_blank
          ∙ Scan.drop_while-stopped is_space (m.key <> (w.before <> right))
              (stopped_key m.key (w.before <> right) w.key_chars w.key_given))

  line_indent : take_while is_space line ≡ m.indent
  line_indent =
      ap (take_while is_space) w.spelled
      ∙ (Scan.take_while-append is_space m.indent (m.key <> (w.before <> right)) w.indent_blank
          ∙ (ap (λ s. m.indent <> s)
                (Scan.take_while-stopped is_space (m.key <> (w.before <> right))
                  (stopped_key m.key (w.before <> right) w.key_chars w.key_given))
              ∙ append-nil m.indent))

  right_stops : Scan.stopped is_key_char (w.before <> right) ≡ true
  right_stops = stopped_blank w.before right w.before_blank (equals_stops (w.behind <> m.value))

  line_key : take_while is_key_char (lstrip line) ≡ m.key
  line_key =
      ap (take_while is_key_char) lstrip-line
      ∙ (Scan.take_while-append is_key_char m.key (w.before <> right) w.key_chars
          ∙ (ap (λ s. m.key <> s)
                (Scan.take_while-stopped is_key_char (w.before <> right) right_stops)
              ∙ append-nil m.key))

  line-right : lstrip (drop_while is_key_char (lstrip line)) ≡ right
  line-right =
      ap (λ s. lstrip (drop_while is_key_char s)) lstrip-line
      ∙ (ap lstrip (
            Scan.drop_while-append is_key_char m.key (w.before <> right) w.key_chars
            ∙ Scan.drop_while-stopped is_key_char (w.before <> right) right_stops)
          ∙ (Scan.drop_while-append is_space w.before right w.before_blank
              ∙ Scan.drop_while-stopped is_space right (equals_stops_blank (w.behind <> m.value))))

  line_value : lstrip (w.behind <> m.value) ≡ m.value
  line_value = Scan.drop_while-append is_space w.behind m.value w.behind_blank ∙ w.value_tight

  pub Written-match_attribute : match_attribute line ≡ some m
  unfolding match_attribute
  Written-match_attribute =
      rw (line_key, line-right, after-equals, line_indent, line_value, line_key)
        (ground (arith, w.key_given))
