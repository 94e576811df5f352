-- ===== src/Recipes/StackIds/Again.antt =====
-- The block that `_find_block` finds in the lines of the file once an entry is there.
use mathlib.Core.List.{append_assoc}
use terramate_api_wrapper.Base.{
  ℕ, suc, ◌+◌, ◌≤◌, String, Bool, true, false, some, List, [], ◌∷◌, ◌++◌, map, all, length, ◌==◌,
  nat_eq, string_eq, ◌≡◌, refl, sym, ap, ◌∙◌, arith,
}
use terramate_api_wrapper.Recipes.ConfigLines.{opened, closed}
use terramate_api_wrapper.Recipes.StackIds.{closing_line}
use terramate_api_wrapper.Recipes.StackIds.Aligned.{said}
use terramate_api_wrapper.Recipes.StackIds.Blocks.{Block, length-append}
use terramate_api_wrapper.Recipes.StackIds.Registered.{
  neutral, closing_line-insert, closing_line-said, Entered,
}

length-said : (xs ys : List String) → map said xs ≡ map said ys → length xs ≡ length ys
length-said [] [] e = refl
length-said [] (y ∷ ys) e = absurd (cc e)
length-said (x ∷ xs) [] e = absurd (cc e)
length-said (x ∷ xs) (y ∷ ys) e = ground (arith, length-said xs ys (ap tail e))
  where
    tail : {A : Type 0} → List A → List A
    tail [] = []
    tail (z ∷ zs) = zs

abbrev pub all_neutral : List String → Bool
all_neutral news = all (λ line. neutral (said line)) news

closing_line-insert_all :
    (o c : ℕ) (xs news ys : List String) (n : ℕ)
    → (o == c) ≡ false
    → closing_line o c (xs ++ ys) ≡ some n
    → length xs ≤ n
    → all_neutral news ≡ true
    → closing_line o c (xs ++ (news ++ ys)) ≡ some (length news + n)
closing_line-insert_all o c xs [] ys n h e le free = e ∙ ap some (omega arith)
closing_line-insert_all o c xs (new ∷ news) ys n h e le free =
    let rest = closing_line-insert_all o c xs news ys n h e le (ground (arith, free)) in
    closing_line-insert (news ++ ys) o c xs new (length news + n) h rest (omega arith)
      (ground (arith, free))
    ∙ ap some (omega arith)

module _ (lines : List String) (start end : ℕ) (b : Block lines start end) where
  -- The file with another body.
  abbrev pub with_inner : List String → List String
  with_inner new = b.before ++ b.opening ∷ (new ++ b.after)

  module _ (new news : List String) (e : Entered b.inner new news)
      (free : all_neutral news ≡ true) where
    abbrev rest : List String
    rest = e.behind ++ b.after

    closes_before :
        closing_line (opened b.opening) (closed b.opening) (e.before ++ rest)
        ≡ some (length b.inner)
    closes_before =
        ap (closing_line (opened b.opening) (closed b.opening))
          (sym (append_assoc e.before e.behind b.after) ∙ sym (ap (λ xs. xs ++ b.after) e.parts))
        ∙ b.closes

    longer : length news + length b.inner ≡ length new
    longer = ground (
      arith,
      ap length e.parts,
      length-append e.before e.behind,
      length-said new (e.before ++ (news ++ e.behind)) e.says,
      length-append e.before (news ++ e.behind),
      length-append news e.behind,
    )

    pub closes_new :
        closing_line (opened b.opening) (closed b.opening) (new ++ b.after) ≡ some (length new)
    closes_new =
        closing_line-said b.after (opened b.opening) (closed b.opening) new
          (e.before ++ (news ++ e.behind)) e.says
        ∙ (ap (closing_line (opened b.opening) (closed b.opening)) (
              append_assoc e.before (news ++ e.behind) b.after
              ∙ ap (λ zs. e.before ++ zs) (append_assoc news e.behind b.after))
            ∙ (closing_line-insert_all (opened b.opening) (closed b.opening) e.before news rest
                  (length b.inner) b.stays_open closes_before
                  (ground (arith, ap length e.parts, length-append e.before e.behind)) free
                ∙ ap some longer))

    abbrev pub entered_block : Block (with_inner new) start (suc start + length new)
    entered_block = record {
      before = b.before;
      opening = b.opening;
      inner = new;
      after = b.after;
      cut = refl;
      starts = b.starts;
      ends = refl;
      first_start = b.first_start;
      opens = b.opens;
      stays_open = b.stays_open;
      closes = closes_new;
    }
