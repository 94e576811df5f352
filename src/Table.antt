-- ===== src/Table.antt =====
-- A table as a list of rows with a primary key, and the laws of reading and rewriting one row.
use terramate_api_wrapper.Base.{
  ℕ, ◌+◌, String, ◌≡◌, refl, Bool, true, false, Option, none, some, List, [], ◌∷◌, ◌++◌, ◌⊎◌, ◌≢◌,
  ◌||◌, ◌==◌, string_eq, if◌then◌else◌, count, any, all, select, In, arith,
}

abbrev pub is_some {ℓ} : {A : Type ℓ} → Option A → Bool
is_some none = false
is_some (some a) = true

abbrev pub one_if : Bool → ℕ
one_if true = 1
one_if false = 0

module _ {A : Type 0} (id_of : A → String) where
  -- `session.get(Model, k)`
  unfoldable pub find : String → List A → Option A
  find k [] = none
  find k (x ∷ xs) = if id_of x == k then some x else find k xs

  -- An UPDATE of the row that has the new row's key.
  unfoldable pub save : A → List A → List A
  save y [] = []
  save y (x ∷ xs) = if id_of x == id_of y then y ∷ xs else x ∷ save y xs

  pub find_id : (k : String) (xs : List A) (r : A) → find k xs ≡ some r → id_of r ≡ k
  unfolding find
  find_id k [] r h = cc
  find_id k (x ∷ xs) r h = ground (arith, find_id k xs r)

  pub find-In : (k : String) (xs : List A) (r : A) → find k xs ≡ some r → In r xs
  unfolding find
  find-In k [] r h = cc
  find-In k (x ∷ xs) r h = ground (arith, find-In k xs r)

  pub find-save :
      (y : A) (k : String) (xs : List A) (r : A)
      → find (id_of y) xs ≡ some r
      → find k (save y xs) ≡ (if id_of y == k then some y else find k xs)
  unfolding find save
  find-save y k [] r h = cc
  find-save y k (x ∷ xs) r h = ground (arith, find-save y k xs r)

  pub save-save : (y z : A) (xs : List A) → id_of y ≡ id_of z → save z (save y xs) ≡ save z xs
  unfolding save
  save-save y z [] e = refl
  save-save y z (x ∷ xs) e = ground (arith, save-save y z xs)

  pub In-save : (y z : A) (xs : List A) → In z (save y xs) → (z ≡ y) ⊎ In z xs
  unfolding save
  In-save y z [] m = absurd m
  In-save y z (x ∷ xs) m = ground (arith, In-save y z xs)

  -- Writing what is stored changes nothing.
  pub save_found : (y : A) (xs : List A) → find (id_of y) xs ≡ some y → save y xs ≡ xs
  unfolding find save
  save_found y [] h = refl
  save_found y (x ∷ xs) h = ground (arith, save_found y xs)

  pub In-save_self : (y : A) (xs : List A) (r : A) → find (id_of y) xs ≡ some r → In y (save y xs)
  unfolding find save
  In-save_self y [] r h = cc
  In-save_self y (x ∷ xs) r h = ground (arith, In-save_self y xs r)

  -- A row stays, or it is the one that is rewritten.
  pub In-save_of :
      (y z : A) (xs : List A) (r : A)
      → find (id_of y) xs ≡ some r
      → In z xs
      → (z ≡ r) ⊎ In z (save y xs)
  unfolding find save
  In-save_of y z [] r h m = absurd m
  In-save_of y z (x ∷ xs) r h m = ground (arith, In-save_of y z xs r)

  -- A rewrite changes a count by what the two versions of the row contribute.
  pub count-save :
      (p : A → Bool) (y : A) (xs : List A) (r : A)
      → find (id_of y) xs ≡ some r
      → count p (save y xs) + one_if (p r) ≡ count p xs + one_if (p y)
  unfolding find save
  count-save p y [] r h = cc
  count-save p y (x ∷ xs) r h = ground (arith, count-save p y xs r)

  -- The primary keys differ.
  abbrev pub HasKeys : List A → Type 0
  HasKeys [] = Unit
  HasKeys (x ∷ xs) = (find (id_of x) xs ≡ none) × HasKeys xs

  find-ne-none : (k : String) (a : A) (xs : List A) → In a xs → id_of a ≡ k → find k xs ≢ none
  unfolding find
  find-ne-none k a [] m e = absurd m
  find-ne-none k a (x ∷ xs) m e = ground (arith, find-ne-none k a xs)

  -- Each row is the one that its key finds.
  pub find-eq_of_In : (a : A) (xs : List A) → HasKeys xs → In a xs → find (id_of a) xs ≡ some a
  unfolding find
  find-eq_of_In a [] u m = absurd m
  find-eq_of_In a (x ∷ xs) u m = ground (arith, find-ne-none (id_of x) a xs, find-eq_of_In a xs)

  pub save-HasKeys :
      (y : A) (xs : List A) (r : A) → find (id_of y) xs ≡ some r → HasKeys xs → HasKeys (save y xs)
  unfolding find save
  save-HasKeys y [] r f u = u
  save-HasKeys y (x ∷ xs) r f u = ground (arith, save-HasKeys y xs r, find-save y (id_of x) xs r)

  pub find-append_some :
      (k : String) (xs ys : List A) (r : A) → find k xs ≡ some r → find k (xs ++ ys) ≡ some r
  unfolding find
  find-append_some k [] ys r h = absurd (cc h)
  find-append_some k (x ∷ xs) ys r h = ground (arith, find-append_some k xs ys r)

  pub find-append_none :
      (k : String) (xs ys : List A) → find k xs ≡ none → find k (xs ++ ys) ≡ find k ys
  unfolding find
  find-append_none k [] ys h = refl
  find-append_none k (x ∷ xs) ys h = ground (arith, find-append_none k xs ys)

  -- Some new row has the key of a stored row, or of another new one.
  unfoldable pub clashes : List A → List A → Bool
  clashes [] old = false
  clashes (x ∷ xs) old =
      is_some (find (id_of x) old) || (is_some (find (id_of x) xs) || clashes xs old)

  clashes-HasKeys : (xs old : List A) → clashes xs old ≡ false → HasKeys xs
  unfolding clashes
  clashes-HasKeys [] old h = tt
  clashes-HasKeys (x ∷ xs) old h = ground (arith, clashes-HasKeys xs old)

  clashes-tail :
      (xs old : List A) (y : A)
      → clashes xs (y ∷ old) ≡ false
      → (clashes xs old ≡ false) × (find (id_of y) xs ≡ none)
  unfolding clashes find
  clashes-tail [] old y h = (refl, refl)
  clashes-tail (x ∷ xs) old y h = ground (arith, clashes-tail xs old y)

  pub append-HasKeys :
      (xs old : List A) → HasKeys old → clashes xs old ≡ false → HasKeys (old ++ xs)
  append-HasKeys xs [] u h = clashes-HasKeys xs [] h
  append-HasKeys xs (y ∷ old) u h =
      ground
        (arith, append-HasKeys xs old, clashes-tail xs old y h, find-append_none (id_of y) old xs)

  module _ (p q : A → Bool) (y : A) (r : A) (kept : q y ≡ q r)
      (alike : q r ≡ true → p y ≡ p r) where
    -- A rewrite that a selection and a test do not notice.
    pub any-select-save :
        (xs : List A)
        → find (id_of y) xs ≡ some r
        → any p (select q (save y xs)) ≡ any p (select q xs)
    unfolding find save
    any-select-save [] f = refl
    any-select-save (x ∷ xs) f = ground (arith, any-select-save xs)

    pub all-select-save :
        (xs : List A)
        → find (id_of y) xs ≡ some r
        → all p (select q (save y xs)) ≡ all p (select q xs)
    unfolding find save
    all-select-save [] f = refl
    all-select-save (x ∷ xs) f = ground (arith, all-select-save xs)

  -- With unique keys the old version of a row is gone.
  pub In-save_keyed :
      (y z : A) (xs : List A) (r : A)
      → HasKeys xs
      → find (id_of y) xs ≡ some r
      → In z (save y xs)
      → (z ≡ y) ⊎ (In z xs × (id_of z ≢ id_of y))
  unfolding find save
  In-save_keyed y z [] r u f m = absurd m
  In-save_keyed y z (x ∷ xs) r u f m =
      ground (arith, In-save_keyed y z xs r u.1, find-ne-none (id_of x) z xs)
