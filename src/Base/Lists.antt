-- ===== src/Base/Lists.antt =====
-- Lists measured by native numbers, with Boolean quantifiers and counts that run in tests.
use Prim.Native.Nat.{ℕ, zero, suc, ◌+◌, ◌≤◌}
use mathlib.Core.Path.{◌≡◌, refl, ap}
use mathlib.Core.Logic.{◌⊎◌, inl, inr}
use mathlib.Core.Bool.{Bool, true, false, ◌&&◌, ◌||◌}
use mathlib.Core.List.{List, [], ◌∷◌, ◌++◌, map}
use mathlib.Core.Option.{Option, none, some}
use native.Mathlib.Omega.{arith}
use package.terramate_api_wrapper.Base.Equality.{Eq, contains}
use package.terramate_api_wrapper.Base.Tests.{if◌then◌else◌}

module _ {ℓ} {A : Type ℓ} where
  abbrev pub length : List A → ℕ
  length [] = 0
  length (x ∷ xs) = suc (length xs)

  abbrev pub any : (A → Bool) → List A → Bool
  any p [] = false
  any p (x ∷ xs) = p x || any p xs

  abbrev pub all : (A → Bool) → List A → Bool
  all p [] = true
  all p (x ∷ xs) = p x && all p xs

  -- `[x for x in xs if p(x)]`
  abbrev pub select : (A → Bool) → List A → List A
  select p [] = []
  select p (x ∷ xs) = let rest = select p xs in if p x then x ∷ rest else rest

  -- `next((x for x in xs if p(x)), None)`
  abbrev pub first : (A → Bool) → List A → Option A
  first p [] = none
  first p (x ∷ xs) = if p x then some x else first p xs

  abbrev pub count : (A → Bool) → List A → ℕ
  count p [] = 0
  count p (x ∷ xs) = let rest = count p xs in if p x then suc rest else rest

  -- `xs[:n]` and `xs[n:]`
  abbrev pub take : ℕ → List A → List A
  take zero xs = []
  take (suc n) [] = []
  take (suc n) (x ∷ xs) = x ∷ take n xs

  abbrev pub drop : ℕ → List A → List A
  drop zero xs = xs
  drop (suc n) [] = []
  drop (suc n) (x ∷ xs) = drop n xs

  -- `next((i for i, x in enumerate(xs) if p(x)), None)`
  abbrev pub position : (A → Bool) → List A → Option ℕ
  position p [] = none
  position p (x ∷ xs) =
      let rest = position p xs in
      if p x then some 0 else elim rest [ none ↦ none | some n ↦ some (suc n) ]

  abbrev pub take_until : (A → Bool) → List A → List A
  take_until p [] = []
  take_until p (x ∷ xs) = let rest = take_until p xs in if p x then [] else x ∷ rest

  abbrev pub drop_until : (A → Bool) → List A → List A
  drop_until p [] = []
  drop_until p (x ∷ xs) = if p x then x ∷ xs else drop_until p xs

  pub count-le-length : (p : A → Bool) (xs : List A) → count p xs ≤ length xs
  count-le-length p [] = omega arith
  count-le-length p (x ∷ xs) = ground (arith, count-le-length p xs)

  pub count-eq-zero : (p : A → Bool) (xs : List A) → any p xs ≡ false → count p xs ≡ 0
  count-eq-zero p [] h = refl
  count-eq-zero p (x ∷ xs) h = ground (arith, count-eq-zero p xs)

module _ {A : Type 0} where
  -- Membership by recursion: it computes to sums, which the tactics read.
  abbrev pub In : A → List A → Type 0
  In a [] = ⊥
  In a (x ∷ xs) = (a ≡ x) ⊎ In a xs

  pub count_mono :
      (p q : A → Bool) (xs : List A)
      → ((x : A) → In x xs → p x ≡ true → q x ≡ true)
      → count p xs ≤ count q xs
  count_mono p q [] h = omega arith
  count_mono p q (x ∷ xs) h = ground (arith, count_mono p q xs (λ y m. h y (inr m)), h x (inl refl))

  pub In-select : (p : A → Bool) (a : A) (xs : List A) → In a (select p xs) → In a xs × (p a ≡ true)
  In-select p a [] m = absurd m
  In-select p a (x ∷ xs) m = ground (arith, In-select p a xs)

  pub In-append : (a : A) (xs ys : List A) → In a (xs ++ ys) → In a xs ⊎ In a ys
  In-append a [] ys m = inr m
  In-append a (x ∷ xs) ys m = ground (arith, In-append a xs ys)

  pub count-append : (p : A → Bool) (xs ys : List A) → count p (xs ++ ys) ≡ count p xs + count p ys
  count-append p [] ys = omega arith
  count-append p (x ∷ xs) ys = ground (arith, count-append p xs ys)

  pub count-eq-zero_of_none :
      (p : A → Bool) (xs : List A) → ((a : A) → In a xs → p a ≡ false) → count p xs ≡ 0
  count-eq-zero_of_none p [] h = refl
  count-eq-zero_of_none p (x ∷ xs) h =
      ground (arith, count-eq-zero_of_none p xs (λ a m. h a (inr m)), h x (inl refl))

  pub In-select_of :
      (p : A → Bool) (a : A) (xs : List A) → In a xs → p a ≡ true → In a (select p xs)
  In-select_of p a [] m h = absurd m
  In-select_of p a (x ∷ xs) m h = ground (arith, In-select_of p a xs)

  pub In-append_left : (a : A) (xs ys : List A) → In a xs → In a (xs ++ ys)
  In-append_left a [] ys m = absurd m
  In-append_left a (x ∷ xs) ys m = ground (arith, In-append_left a xs ys)

  pub In-append_right : (a : A) (xs ys : List A) → In a ys → In a (xs ++ ys)
  In-append_right a [] ys m = m
  In-append_right a (x ∷ xs) ys m = inr (In-append_right a xs ys m)

  pub all-In : (p : A → Bool) (a : A) (xs : List A) → all p xs ≡ true → In a xs → p a ≡ true
  all-In p a [] h m = absurd m
  all-In p a (x ∷ xs) h m = ground (arith, all-In p a xs)

  pub all_of_In : (p : A → Bool) (xs : List A) → ((a : A) → In a xs → p a ≡ true) → all p xs ≡ true
  all_of_In p [] h = refl
  all_of_In p (x ∷ xs) h = ground (arith, h x (inl refl), all_of_In p xs (λ a m. h a (inr m)))

module _ {A : Type 0} where
  pub select-append :
      (p : A → Bool) (xs ys : List A) → select p (xs ++ ys) ≡ select p xs ++ select p ys
  select-append p [] ys = refl
  select-append p (x ∷ xs) ys = ground (arith, select-append p xs ys)

  pub select-eq-nil :
      (p : A → Bool) (xs : List A) → ((a : A) → In a xs → p a ≡ false) → select p xs ≡ []
  select-eq-nil p [] h = refl
  select-eq-nil p (x ∷ xs) h =
      ground (arith, h x (inl refl), select-eq-nil p xs (λ a m. h a (inr m)))

  pub any-eq-false_of_first : (p : A → Bool) (xs : List A) → first p xs ≡ none → any p xs ≡ false
  any-eq-false_of_first p [] h = refl
  any-eq-false_of_first p (x ∷ xs) h = ground (arith, any-eq-false_of_first p xs)

  pub any_of_In : (p : A → Bool) (a : A) (xs : List A) → In a xs → p a ≡ true → any p xs ≡ true
  any_of_In p a [] m h = absurd m
  any_of_In p a (x ∷ xs) m h = ground (arith, any_of_In p a xs)

  pub any_of_none :
      (p : A → Bool) (xs : List A) → ((a : A) → In a xs → p a ≡ false) → any p xs ≡ false
  any_of_none p [] h = refl
  any_of_none p (x ∷ xs) h = ground (arith, h x (inl refl), any_of_none p xs (λ a m. h a (inr m)))

  pub first-In : (p : A → Bool) (a : A) (xs : List A) → first p xs ≡ some a → In a xs × (p a ≡ true)
  first-In p a [] h = absurd (cc h)
  first-In p a (x ∷ xs) h = ground (arith, first-In p a xs)

module _ {A : Type 0} ⦃e : Eq A⦄ where
  pub contains-In : (a : A) (xs : List A) → contains xs a ≡ true → In a xs
  contains-In a [] h = absurd (cc h)
  contains-In a (x ∷ xs) h = ground (arith, contains-In a xs)

  pub In-contains : (a : A) (xs : List A) → In a xs → contains xs a ≡ true
  In-contains a [] m = absurd m
  In-contains a (x ∷ xs) m = ground (arith, In-contains a xs)

module _ {A B : Type 0} (f : A → B) where
  pub In-map : (b : B) (xs : List A) → In b (map f xs) → (a : A) × In a xs × (b ≡ f a)
  In-map b [] m = absurd m
  In-map b (x ∷ xs) (inl e) = (x, inl refl, e)
  In-map b (x ∷ xs) (inr m) = let (a, i, e) = In-map b xs m in (a, inr i, e)

  pub In-map_of : (a : A) (xs : List A) → In a xs → In (f a) (map f xs)
  In-map_of a [] m = absurd m
  In-map_of a (x ∷ xs) (inl e) = inl (ap f e)
  In-map_of a (x ∷ xs) (inr m) = inr (In-map_of a xs m)
