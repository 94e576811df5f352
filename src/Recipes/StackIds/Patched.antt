-- ===== src/Recipes/StackIds/Patched.antt =====
-- What the patch makes of a file whose block does not have the key.
use mathlib.Core.List.{append_assoc, append-nil}
use text.Mathlib.TextLemmas.{append_assoc as join_assoc}
use terramate_api_wrapper.Base.{
  ℕ, String, ◌<>◌, true, false, ◌&&◌, Option, none, some, List, [], ◌∷◌, ◌++◌, map, all, any,
  nat_eq, string_eq, ◌≡◌, ◌≢◌, refl, sym, ap, ◌∙◌, Bool-cases, inl, inr,
}
use terramate_api_wrapper.Base.Text.{all_chars, is_space}
use terramate_api_wrapper.Base.Joined.{is_kept, unbroken}
use terramate_api_wrapper.Base.Scan
use terramate_api_wrapper.Result.{ok}
use terramate_api_wrapper.Recipes.ConfigLines.{Attribute, is_key_char}
use terramate_api_wrapper.Recipes.StackIds.{
  StackGroup, comment, matches, entry, entry_indent, registered, is_attribute,
}
use terramate_api_wrapper.Recipes.StackIds.Aligned.{Said, said}
use terramate_api_wrapper.Recipes.StackIds.Blocks
use terramate_api_wrapper.Recipes.StackIds.Entries
use terramate_api_wrapper.Recipes.StackIds.Registered.{
  Entered, grouped-Entered, neutral, all-append,
}
use terramate_api_wrapper.Recipes.StackIds.Again.{all_neutral, with_inner}

abbrev pub add_attribute : Option Attribute → List Attribute → List Attribute
add_attribute none ms = ms
add_attribute (some m) ms = m ∷ ms

-- The attributes that lines are matched as.
abbrev pub collected : List Said → List Attribute
collected [] = []
collected (s ∷ rest) = add_attribute s.0 (collected rest)

abbrev pub attributes : List String → List Attribute
attributes lines = collected (map said lines)

module _ (group : StackGroup) (key stack_uuid : String)
    (kept_comment : unbroken (comment group) ≡ true) (chars : all_chars is_key_char key ≡ true)
    (given : key ≢ "") (uuid_chars : all_chars is_key_char stack_uuid ≡ true) where
  module _ (lines : List String) (start end : ℕ) (b : Blocks.Block lines start end)
      (kept_inner : all unbroken b.inner ≡ true) (kept_opening : unbroken b.opening ≡ true) where
    abbrev pub indent : String
    indent = entry_indent b.inner (some b.opening)

    abbrev line : String
    line = entry indent key stack_uuid

    abbrev pub entered : Attribute
    entered = record { indent = indent; key = key; value = Entries.quote stack_uuid }

    indent_blank : (all_chars is_space indent ≡ true) × (unbroken indent ≡ true)
    indent_blank = Entries.entry_indent-blank b.inner b.opening kept_inner kept_opening

    line-said : said line ≡ (some entered, 0, 0)
    line-said = Entries.said-entry indent key stack_uuid indent_blank.0 chars given uuid_chars

    line-is_attribute : is_attribute line ≡ true
    line-is_attribute = rw (ap (λ s. s.0) line-said, is_attribute) refl

    line-unbroken : unbroken line ≡ true
    line-unbroken = Entries.entry-unbroken indent key stack_uuid indent_blank.1 chars uuid_chars

    -- The new body, and the lines that are new in it.
    pub record Registration : Type 0 where
      pub new : List String
      pub news : List String
      pub succeeds :
          registered group key stack_uuid (start, end) lines ≡ ok (with_inner lines start end b new)
      pub enters : Entered b.inner new news
      pub free : all_neutral news ≡ true
      pub only : attributes news ≡ entered ∷ []

    in_group : any (matches group) b.inner ≡ true → Registration
    unfolding registered nat_eq
    in_group h =
        let (changed, answer, e) =
          grouped-Entered group line b.inner kept_inner line-unbroken line-is_attribute h in
        record {
          new = changed;
          news = line ∷ [];
          succeeds =
              rw
                (
                  Blocks.Block-body lines start end b,
                  Blocks.Block-head lines start end b,
                  h,
                  answer,
                  Blocks.Block-take_opening lines start end b,
                  Blocks.Block-drop lines start end b,
                )
                (ap ok (append_assoc b.before (b.opening ∷ []) (changed ++ b.after)));
          enters = e;
          free = ap (λ s. neutral s && true) line-said;
          only = ap (λ s. collected (s ∷ [])) line-said;
        }

    abbrev header : String
    header = indent <> comment group

    header-said : said header ≡ (none, 0, 0)
    unfolding comment
    header-said =
        rw (join_assoc "#" " " (group.path <> (" stacks: \"" <> (group.naming <> "\"")))) (
          Entries.said-comment indent
            (" " <> (group.path <> (" stacks: \"" <> (group.naming <> "\"")))) indent_blank.0)

    header-unbroken : unbroken header ≡ true
    header-unbroken =
        Scan.all_chars-append is_kept indent (comment group)
        ∙ rw (indent_blank.1, kept_comment) refl

    in_new_group : any (matches group) b.inner ≡ false → Registration
    unfolding registered nat_eq
    in_new_group h =
        let added = header ∷ line ∷ [] in
        record {
          new = b.inner ++ added;
          news = added;
          succeeds =
              rw
                (
                  Blocks.Block-body lines start end b,
                  Blocks.Block-head lines start end b,
                  h,
                  Blocks.Block-take lines start end b,
                  Blocks.Block-drop lines start end b,
                )
                (ap ok (
                  append_assoc b.before (b.opening ∷ b.inner) (header ∷ line ∷ b.after)
                  ∙ ap (λ z. b.before ++ b.opening ∷ z)
                      (sym (append_assoc b.inner added b.after))));
          enters = record {
            before = b.inner;
            behind = [];
            parts = sym (append-nil b.inner);
            says = refl;
            kept = all-append b.inner added ∙ rw (kept_inner, header-unbroken, line-unbroken) refl;
          };
          free =
              ap (λ s. neutral s && (neutral (said line) && true)) header-said
              ∙ ap (λ s. neutral s && true) line-said;
          only =
              ap (λ s. collected (s ∷ said line ∷ [])) header-said
              ∙ ap (λ s. collected (s ∷ [])) line-said;
        }

    pub registration : Registration
    registration = elim (Bool-cases (any (matches group) b.inner)) [
      | inl h ↦ in_group h
      | inr h ↦ in_new_group h
    ]
