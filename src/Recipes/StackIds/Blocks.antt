-- ===== src/Recipes/StackIds/Blocks.antt =====
-- The block that `_find_block` finds, as a cut of the file into the lines before it, its opening line,
-- its body, and the lines from the closing one on.
use mathlib.Core.List.{append_assoc}
use terramate_api_wrapper.Base.{
  ℕ, zero, suc, ◌+◌, ◌<◌, String, Bool, true, false, some, List, [], ◌∷◌, ◌++◌, any, length,
  position, take, drop, ◌==◌, nat_eq, ◌≡◌, refl, sym, ap, ◌∙◌, arith, Option-cases, Bool-cases, inl,
  inr,
}
use terramate_api_wrapper.Result.{ok}
use terramate_api_wrapper.Recipes.ConfigLines.{is_block_start, opened, closed}
use terramate_api_wrapper.Recipes.StackIds.{closing_line, find_block, body, head}

pub record Block (lines : List String) (start end : ℕ) : Type 0 where
  pub before : List String
  pub opening : String
  pub inner : List String
  pub after : List String
  pub cut : lines ≡ before ++ opening ∷ (inner ++ after)
  pub starts : length before ≡ start
  pub ends : suc start + length inner ≡ end
  pub first_start : any is_block_start before ≡ false
  pub opens : is_block_start opening ≡ true
  pub stays_open : (opened opening == closed opening) ≡ false
  pub closes : closing_line (opened opening) (closed opening) (inner ++ after) ≡ some (length inner)

pub length-append : (xs ys : List String) → length (xs ++ ys) ≡ length xs + length ys
length-append [] ys = omega arith
length-append (x ∷ xs) ys = ground (arith, length-append xs ys)

position-append :
    (p : String → Bool) (before : List String) (x : String) (ys : List String)
    → any p before ≡ false
    → p x ≡ true
    → position p (before ++ x ∷ ys) ≡ some (length before)
position-append p [] x ys h e = ground arith
position-append p (b ∷ before) x ys h e = ground (arith, position-append p before x ys)

drop-length : (xs ys : List String) → drop (length xs) (xs ++ ys) ≡ ys
drop-length [] ys = refl
drop-length (x ∷ xs) ys = drop-length xs ys

take-length : (xs ys : List String) → take (length xs) (xs ++ ys) ≡ xs
take-length [] ys = refl
take-length (x ∷ xs) ys = ap (λ zs. x ∷ zs) (take-length xs ys)

-- The first line with a property, as a cut.
pub position-cut :
    (p : String → Bool) (lines : List String) (n : ℕ)
    → position p lines ≡ some n
    → (before : List String) × (x : String) × (ys : List String) × (lines ≡ before ++ x ∷ ys)
      × (length before ≡ n)
      × (any p before ≡ false)
      × (p x ≡ true)
position-cut p [] n h = absurd (cc h)
position-cut p (line ∷ lines) n h = elim (Bool-cases (p line)) [
  | inl e ↦ ([], line, lines, refl, ground arith, refl, e)
  | inr e ↦ elim (Option-cases (position p lines)) [
    | inl f ↦ absurd (ground arith)
    | inr (k, f) ↦
        let (before, x, ys, cut, size, none_before, hit) = position-cut p lines k f in
        (line ∷ before, x, ys, ap (λ zs. line ∷ zs) cut, ground arith, ground arith, hit)
  ]
]

closing_line-lt :
    (o c : ℕ) (lines : List String) (n : ℕ) → closing_line o c lines ≡ some n → n < length lines
unfolding closing_line
closing_line-lt o c [] n h = absurd (cc h)
closing_line-lt o c (line ∷ lines) n h =
    elim (Option-cases (closing_line (o + opened line) (c + closed line) lines)) [
      | inl e ↦ ground (arith, e)
      | inr (k, e) ↦
          ground (arith, e, closing_line-lt (o + opened line) (c + closed line) lines k e)
    ]

take-drop : (n : ℕ) (lines : List String) → take n lines ++ drop n lines ≡ lines
take-drop zero lines = refl
take-drop (suc n) [] = refl
take-drop (suc n) (line ∷ lines) = ap (λ ls. line ∷ ls) (take-drop n lines)

length-take : (n : ℕ) (lines : List String) → n < length lines → length (take n lines) ≡ n
length-take zero lines h = refl
length-take (suc n) [] h = absurd (ground arith)
length-take (suc n) (line ∷ lines) h = ground (arith, length-take n lines)

-- The opening line alone.
closing_line-opening :
    (x : String) (ys : List String) (n : ℕ)
    → (opened x == closed x) ≡ false
    → closing_line (opened x) (closed x) ys ≡ some n
    → closing_line 0 0 (x ∷ ys) ≡ some (suc n)
unfolding closing_line
closing_line-opening x ys n h e = ground (arith, h, e)

opening-closing_line :
    (x : String) (ys : List String) (n : ℕ)
    → closing_line 0 0 (x ∷ ys) ≡ some n
    → 0 < n
    → (k : ℕ) × (n ≡ suc k)
      × ((opened x == closed x) ≡ false)
      × (closing_line (opened x) (closed x) ys ≡ some k)
unfolding closing_line
opening-closing_line x ys n h pos = elim (Option-cases (closing_line (opened x) (closed x) ys)) [
  | inl e ↦ absurd (ground (arith, e))
  | inr (k, e) ↦ (k, ground (arith, e), ground (arith, e), e)
]

module _ (lines : List String) (start end : ℕ) where
  -- What `_find_block` answers on a file that is cut in this way.
  pub Block-find_block : Block lines start end → find_block lines ≡ ok (start, end)
  unfolding find_block
  Block-find_block b =
      let found : position is_block_start lines ≡ some start =
        ap (position is_block_start) b.cut
        ∙ (position-append is_block_start b.before b.opening (b.inner ++ b.after) b.first_start
              b.opens
            ∙ ap some b.starts) in
      let from_start : drop start lines ≡ b.opening ∷ (b.inner ++ b.after) =
        ap (λ n. drop n lines) (sym b.starts)
        ∙ (ap (drop (length b.before)) b.cut
            ∙ drop-length b.before (b.opening ∷ (b.inner ++ b.after))) in
      let answer : closing_line 0 0 (drop start lines) ≡ some (suc (length b.inner)) =
        ap (closing_line 0 0) from_start
        ∙ closing_line-opening b.opening (b.inner ++ b.after) (length b.inner) b.stays_open
            b.closes in
      ground (arith, found, answer, b.ends)

  pub find_block-Block : find_block lines ≡ ok (start, end) → start < end → Block lines start end
  unfolding find_block
  find_block-Block h inside = elim (Option-cases (position is_block_start lines)) [
    | inl e ↦ absurd (ground (arith, e))
    | inr (k, e) ↦ elim (Option-cases (closing_line 0 0 (drop k lines))) [
      | inl f ↦ absurd (ground (arith, e, f))
      | inr (n, f) ↦ at_opening k n e f
    ]
  ]
    where
      at_opening :
          (k n : ℕ)
          → position is_block_start lines ≡ some k
          → closing_line 0 0 (drop k lines) ≡ some n
          → Block lines start end
      at_opening k n e f =
          let (before, x, ys, cut, size, none_before, hit) =
            position-cut is_block_start lines k e in
          let start_k : start ≡ k = ground (arith, e, f) in
          let end_n : end ≡ k + n = ground (arith, e, f) in
          let from_start : drop k lines ≡ x ∷ ys =
            ap (λ j. drop j lines) (sym size)
            ∙ (ap (drop (length before)) cut ∙ drop-length before (x ∷ ys)) in
          let on_rest : closing_line 0 0 (x ∷ ys) ≡ some n =
            sym (ap (closing_line 0 0) from_start) ∙ f in
          let (j, behind, open_still, closing) =
            opening-closing_line x ys n on_rest (ground arith) in
          let shorter = closing_line-lt (opened x) (closed x) ys j closing in
          record {
            before = before;
            opening = x;
            inner = take j ys;
            after = drop j ys;
            cut = cut ∙ ap (λ zs. before ++ x ∷ zs) (sym (take-drop j ys));
            starts = size ∙ sym start_k;
            ends = ground (arith, length-take j ys shorter);
            first_start = none_before;
            opens = hit;
            stays_open = open_still;
            closes =
                ap (closing_line (opened x) (closed x)) (take-drop j ys)
                ∙ (closing ∙ ap some (sym (length-take j ys shorter)));
          }

-- The parts of a file that is cut in this way.
module _ (lines : List String) (start end : ℕ) (b : Block lines start end) where
  abbrev upto_opening : List String
  upto_opening = b.before ++ b.opening ∷ []

  abbrev upto_closing : List String
  upto_closing = b.before ++ b.opening ∷ b.inner

  cut_behind_opening : lines ≡ upto_opening ++ (b.inner ++ b.after)
  cut_behind_opening = b.cut ∙ sym (append_assoc b.before (b.opening ∷ []) (b.inner ++ b.after))

  cut_at_closing : lines ≡ upto_closing ++ b.after
  cut_at_closing = b.cut ∙ sym (append_assoc b.before (b.opening ∷ b.inner) b.after)

  size_opening : length upto_opening ≡ suc start
  size_opening = ground (arith, length-append b.before (b.opening ∷ []), b.starts)

  size_closing : length upto_closing ≡ end
  size_closing = ground (arith, length-append b.before (b.opening ∷ b.inner), b.starts, b.ends)

  pub Block-take_opening : take (suc start) lines ≡ upto_opening
  Block-take_opening =
      ap (λ n. take n lines) (sym size_opening)
      ∙ (ap (take (length upto_opening)) cut_behind_opening
          ∙ take-length upto_opening (b.inner ++ b.after))

  pub Block-take : take end lines ≡ upto_closing
  Block-take =
      ap (λ n. take n lines) (sym size_closing)
      ∙ (ap (take (length upto_closing)) cut_at_closing ∙ take-length upto_closing b.after)

  pub Block-drop : drop end lines ≡ b.after
  Block-drop =
      ap (λ n. drop n lines) (sym size_closing)
      ∙ (ap (drop (length upto_closing)) cut_at_closing ∙ drop-length upto_closing b.after)

  pub Block-body : body (start, end) lines ≡ b.inner
  Block-body =
      ap (drop (suc start)) (Block-take ∙ sym (append_assoc b.before (b.opening ∷ []) b.inner))
      ∙ (ap (λ n. drop n (upto_opening ++ b.inner)) (sym size_opening)
          ∙ drop-length upto_opening b.inner)

  pub Block-head : head (drop start lines) ≡ some b.opening
  Block-head = ap head (
      ap (λ n. drop n lines) (sym b.starts)
      ∙ (ap (drop (length b.before)) b.cut
          ∙ drop-length b.before (b.opening ∷ (b.inner ++ b.after))))
