-- ===== src/Recipes/StackIds/Registered.antt =====
-- The body of the block once an entry is there: what its lines say is what they said, with the new lines
-- at one place.
use mathlib.Core.List.{append_assoc, head-eq_of_cons-eq, tail-eq_of_cons-eq}
use terramate_api_wrapper.Base.{
  ℕ, suc, ◌+◌, ◌≤◌, String, Bool, true, false, ◌&&◌, some, List, [], ◌∷◌, ◌++◌, map, all, any,
  length, take_until, drop_until, ◌==◌, nat_eq, ◌≡◌, refl, sym, ap, ◌∙◌, arith, Option-cases,
  Bool-cases, inl, inr,
}
use terramate_api_wrapper.Base.Joined.{unbroken}
use terramate_api_wrapper.Result.{ok}
use terramate_api_wrapper.Recipes.ConfigLines.{opened, closed}
use terramate_api_wrapper.Recipes.StackIds.{
  StackGroup, matches, is_attribute, is_other, closing_line, appended, grouped,
}
use terramate_api_wrapper.Recipes.StackIds.Aligned.{Said, said, align-said}

-- Lines that open and close nothing.
abbrev pub neutral : Said → Bool
neutral (m, o, c) = o == 0 && c == 0

module _ (ys : List String) where
  -- The closing line is further down by the neutral lines before it.
  pub closing_line-insert :
      (o c : ℕ) (xs : List String) (new : String) (n : ℕ)
      → (o == c) ≡ false
      → closing_line o c (xs ++ ys) ≡ some n
      → length xs ≤ n
      → neutral (said new) ≡ true
      → closing_line o c (xs ++ new ∷ ys) ≡ some (suc n)
  unfolding closing_line
  closing_line-insert o c [] new n open_still h le e =
      let same_opens : o + opened new ≡ o = ground arith in
      let same_closes : c + closed new ≡ c = ground arith in
      rw (same_opens, same_closes, open_still, h) refl
  closing_line-insert o c (x ∷ xs) new n open_still h le e =
      elim (Bool-cases (o + opened x == c + closed x)) [
        | inl f ↦ absurd (ground (arith, f))
        | inr f ↦ elim (Option-cases (closing_line (o + opened x) (c + closed x) (xs ++ ys))) [
          | inl g ↦ absurd (ground (arith, f, g))
          | inr (k, g) ↦
              let deeper =
                closing_line-insert (o + opened x) (c + closed x) xs new k f g
                  (ground (arith, f, g)) e in
              rw (f, deeper) (ground (arith, f, g))
        ]
      ]

  -- Only what the lines say matters.
  pub closing_line-said :
      (o c : ℕ) (xs zs : List String)
      → map said xs ≡ map said zs
      → closing_line o c (xs ++ ys) ≡ closing_line o c (zs ++ ys)
  unfolding closing_line
  closing_line-said o c [] [] e = refl
  closing_line-said o c [] (z ∷ zs) e = absurd (cc e)
  closing_line-said o c (x ∷ xs) [] e = absurd (cc e)
  closing_line-said o c (x ∷ xs) (z ∷ zs) e =
      let same_opens : opened x ≡ opened z = ap (λ s. s.1) (head-eq_of_cons-eq e) in
      let same_closes : closed x ≡ closed z = ap (λ s. s.2) (head-eq_of_cons-eq e) in
      rw
        (
          same_opens,
          same_closes,
          closing_line-said (o + opened z) (c + closed z) xs zs (tail-eq_of_cons-eq e),
        )
        refl

module _ (p : String → Bool) where
  until-append : (xs : List String) → take_until p xs ++ drop_until p xs ≡ xs
  until-append [] = refl
  until-append (x ∷ xs) = ground (arith, until-append xs)

  drop_until_found :
      (xs : List String)
      → any p xs ≡ true
      → (header : String) × (rest : List String) × (drop_until p xs ≡ header ∷ rest)
  drop_until_found [] h = absurd (cc h)
  drop_until_found (x ∷ xs) h = elim (Bool-cases (p x)) [
    | inl e ↦ (x, xs, ground (arith, e))
    | inr e ↦
        let (header, rest, f) = drop_until_found xs (ground (arith, e)) in
        (header, rest, ground (arith, e, f))
  ]

-- What the lines of the new body say: what the old ones said, with news at one place.
pub record Entered (inner new news : List String) : Type 0 where
  pub before : List String
  pub behind : List String
  pub parts : inner ≡ before ++ behind
  pub says : map said new ≡ map said (before ++ (news ++ behind))
  pub kept : all unbroken new ≡ true

map-append : (xs ys : List String) → map said (xs ++ ys) ≡ map said xs ++ map said ys
map-append [] ys = refl
map-append (x ∷ xs) ys = ap (λ ss. said x ∷ ss) (map-append xs ys)

pub all-append :
    (xs ys : List String) → all unbroken (xs ++ ys) ≡ all unbroken xs && all unbroken ys
all-append [] ys = refl
all-append (x ∷ xs) ys = ground (arith, all-append xs ys)

said_parts :
    (pre run post out : List String) (header line : String)
    → map said out ≡ map said (run ++ line ∷ [])
    → map said (pre ++ header ∷ (out ++ post)) ≡ map said ((pre ++ header ∷ run) ++ line ∷ post)
said_parts pre run post out header line h =
    map-append pre (header ∷ (out ++ post))
    ∙ (ap (λ z. map said pre ++ said header ∷ z)
          (map-append out post
            ∙ (ap (λ z. z ++ map said post) (h ∙ map-append run (line ∷ []))
                ∙ append_assoc (map said run) (said line ∷ []) (map said post)))
        ∙ sym (
            map-append (pre ++ header ∷ run) (line ∷ post)
            ∙ ap (λ z. z ++ said line ∷ map said post) (map-append pre (header ∷ run))
            ∙ append_assoc (map said pre) (said header ∷ map said run) (said line ∷ map said post)))

module _ (group : StackGroup) (line : String) (inner : List String)
    (kept : all unbroken inner ≡ true) (kept_line : unbroken line ≡ true)
    (is_entry : is_attribute line ≡ true) where
  run-attributes :
      (xs : List String) → all is_attribute (take_until is_other xs ++ line ∷ []) ≡ true
  run-attributes [] = ground (arith, is_entry)
  run-attributes (x ∷ xs) = elim (Bool-cases (is_attribute x)) [
    | inl e ↦ rw e (rw e (run-attributes xs))
    | inr e ↦ rw e (ground (arith, is_entry))
  ]

  module _ (header : String) (rest : List String)
      (found : drop_until (matches group) inner ≡ header ∷ rest) where
    abbrev pre : List String
    pre = take_until (matches group) inner

    abbrev run : List String
    run = take_until is_other rest

    abbrev post : List String
    post = drop_until is_other rest

    parted : inner ≡ (pre ++ header ∷ run) ++ post
    parted =
        sym (until-append (matches group) inner)
        ∙ (ap (λ zs. pre ++ zs) (found ∙ ap (λ zs. header ∷ zs) (sym (until-append is_other rest)))
            ∙ sym (append_assoc pre (header ∷ run) post))

    kept_parts :
        (all unbroken pre && (unbroken header && all unbroken run)) && all unbroken post ≡ true
    kept_parts =
        sym (
          all-append (pre ++ header ∷ run) post
          ∙ ap (λ b. b && all unbroken post) (all-append pre (header ∷ run)))
        ∙ (sym (ap (all unbroken) parted) ∙ kept)

    kept_group : all unbroken (run ++ line ∷ []) ≡ true
    kept_group = all-append run (line ∷ []) ∙ ground (arith, kept_parts, kept_line)

    at_header :
        (new : List String) × (grouped group line inner ≡ ok new) × Entered inner new (line ∷ [])
    unfolding grouped appended
    at_header =
        let (out, succeeds, says, kept_out) =
          align-said (run ++ line ∷ []) (run-attributes rest) kept_group in
        (
          pre ++ header ∷ (out ++ post),
          rw (found, succeeds) refl,
          record {
            before = pre ++ header ∷ run;
            behind = post;
            parts = parted;
            says = said_parts pre run post out header line says;
            kept =
                all-append pre (header ∷ (out ++ post))
                ∙ ground (arith, all-append out post, kept_parts, kept_out);
          },
        )

  pub grouped-Entered :
      any (matches group) inner ≡ true
      → (new : List String) × (grouped group line inner ≡ ok new) × Entered inner new (line ∷ [])
  grouped-Entered h =
      let (header, rest, found) = drop_until_found (matches group) inner h in
      at_header header rest found
