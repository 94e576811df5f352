-- ===== src/Recipes/StackIds/Entries.antt =====
-- The lines that registration adds: the entry, and the comment of a group that is not there yet.
use Prim.Native.Char.{Char}
use text.Mathlib.TextLemmas.{append_assoc, cons-append}
use terramate_api_wrapper.Base.{
  String, ◌<>◌, Bool, true, none, some, List, [], ◌∷◌, all, first, nat_eq, string_eq, ◌≡◌, ◌≢◌,
  refl, ap, ◌∙◌, arith, Option-cases, inl, inr,
}
use terramate_api_wrapper.Base.Text.{is_space, all_chars, take_while, lstrip}
use terramate_api_wrapper.Base.Scan
use terramate_api_wrapper.Base.Joined.{is_kept, unbroken}
use terramate_api_wrapper.Recipes.ConfigLines.{Attribute, is_key_char, match_attribute}
use terramate_api_wrapper.Recipes.ConfigLines.Parsed.{Written, Written-match_attribute}
use terramate_api_wrapper.Recipes.ConfigLines.Braces.{
  Written-opened, Written-closed, comment-opened, quoted-opened,
}
use terramate_api_wrapper.Recipes.StackIds.{entry, entry_indent, is_attribute}
use terramate_api_wrapper.Recipes.StackIds.Aligned.{said, equals_apart}

-- The value of an entry.
abbrev pub quote : String → String
quote stack_uuid = "\"" <> (stack_uuid <> "\"")

module _ (indent key stack_uuid : String) (blank : all_chars is_space indent ≡ true)
    (chars : all_chars is_key_char key ≡ true) (given : key ≢ "")
    (uuid_chars : all_chars is_key_char stack_uuid ≡ true) where
  abbrev entered : Attribute
  entered = record { indent = indent; key = key; value = quote stack_uuid }

  entry-Written : Written (entry indent key stack_uuid) entered
  unfolding nat_eq
  entry-Written = record {
    before = " ";
    behind = " ";
    spelled =
        ap (λ s. indent <> (key <> s))
          (append_assoc " = " "\"" (stack_uuid <> "\"") ∙ equals_apart (quote stack_uuid));
    indent_blank = blank;
    key_chars = chars;
    key_given = given;
    before_blank = refl;
    behind_blank = refl;
    value_tight =
        Scan.drop_while-stopped is_space (quote stack_uuid)
          (rw (cons-append "\"" "" (stack_uuid <> "\"")) refl);
  }

  pub said-entry : said (entry indent key stack_uuid) ≡ (some entered, 0, 0)
  said-entry =
      let (none_opened, none_closed) = quoted-opened stack_uuid uuid_chars in
      rw
        (
          Written-match_attribute (entry indent key stack_uuid) entered entry-Written,
          Written-opened (entry indent key stack_uuid) entered entry-Written,
          Written-closed (entry indent key stack_uuid) entered entry-Written,
          none_opened,
          none_closed,
        )
        refl

module _ (indent text : String) (blank : all_chars is_space indent ≡ true) where
  comment-match_attribute : match_attribute (indent <> ("#" <> text)) ≡ none
  unfolding match_attribute nat_eq string_eq
  comment-match_attribute =
      rw (Scan.drop_while-append is_space indent ("#" <> text) blank, cons-append "#" "" text) refl

  pub said-comment : said (indent <> ("#" <> text)) ≡ (none, 0, 0)
  said-comment =
      let (none_opened, none_closed) = comment-opened indent text blank in
      rw (comment-match_attribute, none_opened, none_closed) refl

key_char-kept : (c : Char) → is_key_char c ≡ true → is_kept c ≡ true
unfolding nat_eq
key_char-kept c h = ground arith

take_while-kept : (s : String) → unbroken s ≡ true → unbroken (take_while is_space s) ≡ true
take_while-kept s h = ground (
  arith,
  Scan.all_chars-append is_kept (take_while is_space s) (lstrip s),
  Scan.take_while-drop_while is_space s,
  h,
)

first-kept :
    (p : String → Bool) (lines : List String) (line : String)
    → first p lines ≡ some line
    → all unbroken lines ≡ true
    → unbroken line ≡ true
first-kept p [] line h e = absurd (cc h)
first-kept p (x ∷ lines) line h e = ground (arith, first-kept p lines line)

-- The indent of an entry is blank, and has no line break if the lines have none.
module _ (block : List String) (opening : String) (kept : all unbroken block ≡ true)
    (kept_opening : unbroken opening ≡ true) where
  abbrev indent_of : String
  indent_of = entry_indent block (some opening)

  pub entry_indent-blank : (all_chars is_space indent_of ≡ true) × (unbroken indent_of ≡ true)
  unfolding nat_eq
  entry_indent-blank = elim (Option-cases (first is_attribute block)) [
    | inl e ↦
        rw
          (
            e,
            Scan.all_chars-append is_space (take_while is_space opening) "  ",
            Scan.all_chars-append is_kept (take_while is_space opening) "  ",
            Scan.take_while-all_chars is_space opening,
            take_while-kept opening kept_opening,
          )
          (refl, refl)
    | inr (line, e) ↦ rw e (
      Scan.take_while-all_chars is_space line,
      take_while-kept line (first-kept is_attribute block line e kept),
    )
  ]

pub entry-unbroken :
    (indent key stack_uuid : String)
    → unbroken indent ≡ true
    → all_chars is_key_char key ≡ true
    → all_chars is_key_char stack_uuid ≡ true
    → unbroken (entry indent key stack_uuid) ≡ true
unfolding nat_eq
entry-unbroken indent key stack_uuid h k u =
    rw
      (
        Scan.all_chars-append is_kept indent (key <> (" = \"" <> (stack_uuid <> "\""))),
        Scan.all_chars-append is_kept key (" = \"" <> (stack_uuid <> "\"")),
        Scan.all_chars-append is_kept " = \"" (stack_uuid <> "\""),
        Scan.all_chars-append is_kept stack_uuid "\"",
        h,
        Scan.all_chars_mono is_key_char is_kept key key_char-kept k,
        Scan.all_chars_mono is_key_char is_kept stack_uuid key_char-kept u,
      )
      refl
