-- ===== src/Recipes/StackIds/Aligned.antt =====
-- Alignment keeps what each line of a group says.
use text.Mathlib.TextLemmas.{append_assoc}
use terramate_api_wrapper.Base.{
  ℕ, zero, suc, ◌-◌, String, ◌<>◌, true, Option, none, some, List, [], ◌∷◌, map, all, ◌≡◌, refl,
  sym, ap, ◌∙◌, arith, Option-cases, inl, inr, nat_eq,
}
use terramate_api_wrapper.Base.Text.{size, is_space, all_chars}
use terramate_api_wrapper.Base.Scan
use terramate_api_wrapper.Base.Joined.{is_kept, unbroken}
use terramate_api_wrapper.Result.{Result, ok, err}
use terramate_api_wrapper.Recipes.ConfigLines.{Attribute, match_attribute, opened, closed}
use terramate_api_wrapper.Recipes.ConfigLines.Parsed.{
  Written, match_attribute-Written, Written-match_attribute,
}
use terramate_api_wrapper.Recipes.ConfigLines.Braces.{Written-opened, Written-closed}
use terramate_api_wrapper.Recipes.StackIds.{spaces, widest, aligned, match_all, align, is_attribute}

spaces-blank : (n : ℕ) → all_chars is_space (spaces n) ≡ true
unfolding nat_eq
spaces-blank zero = refl
spaces-blank (suc n) = rw (Scan.all_chars-append is_space " " (spaces n)) (spaces-blank n)

spaces-unbroken : (n : ℕ) → unbroken (spaces n) ≡ true
unfolding nat_eq
spaces-unbroken zero = refl
spaces-unbroken (suc n) = rw (Scan.all_chars-append is_kept " " (spaces n)) (spaces-unbroken n)

pub equals_apart : (value : String) → " = " <> value ≡ " " <> ("=" <> (" " <> value))
equals_apart value = append_assoc " " "= " value ∙ ap (λ s. " " <> s) (append_assoc "=" " " value)

module _ (width : ℕ) (line : String) (m : Attribute) (w : Written line m) where
  abbrev padding : String
  padding = spaces (width - size m.key)

  pub aligned-Written : Written (aligned width m) m
  unfolding nat_eq
  aligned-Written = record {
    before = padding <> " ";
    behind = " ";
    spelled =
        ap (λ s. m.indent <> s)
          (append_assoc m.key padding (" = " <> m.value)
            ∙ ap (λ s. m.key <> s)
                (ap (λ s. padding <> s) (equals_apart m.value)
                  ∙ sym (append_assoc padding " " ("=" <> (" " <> m.value)))));
    indent_blank = w.indent_blank;
    key_chars = w.key_chars;
    key_given = w.key_given;
    before_blank =
        rw (Scan.all_chars-append is_space padding " ", spaces-blank (width - size m.key)) refl;
    behind_blank = refl;
    value_tight = w.value_tight;
  }

  -- The parts of an unbroken line have no line break, and neither has the aligned line.
  aligned-unbroken : unbroken line ≡ true → unbroken (aligned width m) ≡ true
  unfolding nat_eq
  aligned-unbroken h =
      let pieces =
        rw
          (
            w.spelled,
            Scan.all_chars-append is_kept m.indent
                (m.key <> (w.before <> ("=" <> (w.behind <> m.value)))),
            Scan.all_chars-append is_kept m.key (w.before <> ("=" <> (w.behind <> m.value))),
            Scan.all_chars-append is_kept w.before ("=" <> (w.behind <> m.value)),
            Scan.all_chars-append is_kept "=" (w.behind <> m.value),
            Scan.all_chars-append is_kept w.behind m.value,
          )
          at h in
      rw
        (
          Scan.all_chars-append is_kept m.indent ((m.key <> padding) <> (" = " <> m.value)),
          Scan.all_chars-append is_kept (m.key <> padding) (" = " <> m.value),
          Scan.all_chars-append is_kept m.key padding,
          Scan.all_chars-append is_kept " = " m.value,
          spaces-unbroken (width - size m.key),
        )
        (ground arith)

-- What one line says: its attribute, if it is one, and its braces.
abbrev pub Said : Type 0
Said = Option Attribute × ℕ × ℕ

abbrev pub said : String → Said
said line = (match_attribute line, opened line, closed line)

-- A list of lines that are all matched.
match_all-nil : (ms : List Attribute) → match_all [] ≡ ok ms → ms ≡ []
unfolding match_all
match_all-nil ms h = ground arith

match_all-cons :
    (line : String) (lines : List String) (ms : List Attribute)
    → match_all (line ∷ lines) ≡ ok ms
    → (m : Attribute) × (rest : List Attribute) × (match_attribute line ≡ some m)
      × (match_all lines ≡ ok rest)
      × (ms ≡ m ∷ rest)
unfolding match_all
match_all-cons line lines ms h = by_line (match_attribute line) (match_all lines) refl refl
  where
    by_line :
        (found : Option Attribute) (others : Result (List Attribute))
        → match_attribute line ≡ found
        → match_all lines ≡ others
        → (m : Attribute) × (rest : List Attribute) × (match_attribute line ≡ some m)
          × (match_all lines ≡ ok rest)
          × (ms ≡ m ∷ rest)
    by_line none others e f = absurd (ground arith)
    by_line (some m) (err x) e f = absurd (ground arith)
    by_line (some m) (ok rest) e f = (m, rest, e, f, ground arith)

module _ (width : ℕ) where
  aligned_all :
      (lines : List String) (ms : List Attribute)
      → match_all lines ≡ ok ms
      → map said (map (aligned width) ms) ≡ map said lines
  aligned_all [] ms h = rw (match_all-nil ms h) refl
  aligned_all (line ∷ lines) ms h =
      let (m, rest, found, others, split) = match_all-cons line lines ms h in
      let w = match_attribute-Written line m found in
      let v = aligned-Written width line m w in
      rw
        (
          split,
          Written-match_attribute (aligned width m) m v,
          Written-opened (aligned width m) m v,
          Written-closed (aligned width m) m v,
          found,
          Written-opened line m w,
          Written-closed line m w,
          aligned_all lines rest others,
        )
        refl

  aligned-all-unbroken :
      (lines : List String) (ms : List Attribute)
      → match_all lines ≡ ok ms
      → all unbroken lines ≡ true
      → all unbroken (map (aligned width) ms) ≡ true
  aligned-all-unbroken [] ms h e = rw (match_all-nil ms h) refl
  aligned-all-unbroken (line ∷ lines) ms h e =
      let (m, rest, found, others, split) = match_all-cons line lines ms h in
      let w = match_attribute-Written line m found in
      rw split
        (ground (arith, aligned-unbroken width line m w, aligned-all-unbroken lines rest others))

-- Alignment succeeds on lines that are attributes.
match_all-ok :
    (lines : List String)
    → all is_attribute lines ≡ true
    → (ms : List Attribute) × (match_all lines ≡ ok ms)
unfolding match_all
match_all-ok [] h = ([], refl)
match_all-ok (line ∷ lines) h = elim (Option-cases (match_attribute line)) [
  | inl e ↦ absurd (ground arith)
  | inr (m, e) ↦ let (ms, f) = match_all-ok lines (ground arith) in (m ∷ ms, ground (arith, e, f))
]

-- Aligned lines say what the lines of the group said, and alignment fails on none of them.
pub align-said :
    (lines : List String)
    → all is_attribute lines ≡ true
    → all unbroken lines ≡ true
    → (out : List String) × (align lines ≡ ok out)
      × (map said out ≡ map said lines)
      × (all unbroken out ≡ true)
unfolding align
align-said lines h e =
    let (ms, f) = match_all-ok lines h in
    (
      map (aligned (widest ms)) ms,
      rw f refl,
      aligned_all (widest ms) lines ms f,
      aligned-all-unbroken (widest ms) lines ms f e,
    )
