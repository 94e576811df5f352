-- ===== src/Recipes/BundleInstance/Appended.antt =====
-- The list inputs: what appending the missing items does.
use terramate_api_wrapper.Base.{
  String, Bool, true, ◌&&◌, List, [], ◌∷◌, string_eq, all, if◌then◌else◌, ◌≡◌, refl, Bool-cases,
  inl, inr, arith,
}
use terramate_api_wrapper.Value.{Items, nil, cons}
use terramate_api_wrapper.Recipes.BundleInstance.{has_item, append_item, append_missing}

append_item-has_item :
    (i j : String) (xs : Items) → has_item i xs ≡ true → has_item i (append_item j xs) ≡ true
unfolding has_item append_item
append_item-has_item i j nil h = absurd (cc h)
append_item-has_item i j (cons v vs) h = ground (arith, append_item-has_item i j vs)

append_item-has_self : (i : String) (xs : Items) → has_item i (append_item i xs) ≡ true
unfolding has_item append_item
append_item-has_self i nil = ground arith
append_item-has_self i (cons v vs) = rw (append_item-has_self i vs) (ground arith)

append_missing-has_item :
    (i : String) (items : List String) (xs : Items)
    → has_item i xs ≡ true
    → has_item i (append_missing items xs) ≡ true
unfolding append_missing
append_missing-has_item i [] xs h = h
append_missing-has_item i (j ∷ items) xs h = elim (Bool-cases (has_item j xs)) [
  | inl there ↦ rw there (append_missing-has_item i items xs h)
  | inr new ↦
      rw new (append_missing-has_item i items (append_item j xs) (append_item-has_item i j xs h))
]

abbrev pub has_all : List String → Items → Bool
has_all items xs = all (λ i. has_item i xs) items

pub both : (a b : Bool) → a ≡ true → b ≡ true → (a && b) ≡ true
both a b h k = ground arith

added :
    (j : String) (xs : Items) → has_item j (if has_item j xs then xs else append_item j xs) ≡ true
added j xs = elim (Bool-cases (has_item j xs)) [
  | inl there ↦ rw there there
  | inr new ↦ rw new (append_item-has_self j xs)
]

pub append_missing-has_all :
    (items : List String) (xs : Items) → has_all items (append_missing items xs) ≡ true
unfolding append_missing
append_missing-has_all [] xs = refl
append_missing-has_all (j ∷ items) xs =
    both _ _ (append_missing-has_item j items _ (added j xs)) (append_missing-has_all items _)

pub append_missing_all :
    (items : List String) (xs : Items) → has_all items xs ≡ true → append_missing items xs ≡ xs
unfolding append_missing
append_missing_all [] xs h = refl
append_missing_all (j ∷ items) xs h = ground (arith, append_missing_all items xs)

pub append_missing-keeps_all :
    (old items : List String) (xs : Items)
    → has_all old xs ≡ true
    → has_all old (append_missing items xs) ≡ true
append_missing-keeps_all [] items xs h = refl
append_missing-keeps_all (i ∷ old) items xs h =
    ground (arith, append_missing-has_item i items xs, append_missing-keeps_all old items xs)
