-- ===== src/Orchestrator/Edits/Quotes.antt =====
-- What the substitution of placeholders does to a document, and to its quotes.
use terramate_api_wrapper.Base.{String, Bool, true, false, ◌||◌, [], ◌∷◌, ◌≡◌, refl, ap}
use terramate_api_wrapper.Value.{
  entry, Value, null, bool, number, str, quoted, list, dict, Items, nil, cons, Fields, empty,
}
use terramate_api_wrapper.Orchestrator.Edits.{
  Substitutions, substitute_text, substitute_structure, substitute_items, substitute_fields,
}
use terramate_api_wrapper.World.{World}

-- Some text of the document that is not a key is a `QuotedStr`.
abbrev mutual
  pub has_quoted : Value → Bool
  has_quoted (quoted s) = true
  has_quoted (list xs) = any_quoted xs
  has_quoted (dict d) = field_quoted d
  has_quoted _ = false

  pub any_quoted : Items → Bool
  any_quoted nil = false
  any_quoted (cons v vs) = has_quoted v || any_quoted vs

  pub field_quoted : Fields → Bool
  field_quoted empty = false
  field_quoted (entry q k v d) = has_quoted v || field_quoted d

-- The document without its texts: its dicts with all keys, as they are quoted or not, its lists and the rest.
abbrev mutual
  pub shape : Value → Value
  shape (str s) = null
  shape (quoted s) = null
  shape (list xs) = list (shape_items xs)
  shape (dict d) = dict (shape_fields d)
  shape v = v

  pub shape_items : Items → Items
  shape_items nil = nil
  shape_items (cons v vs) = cons (shape v) (shape_items vs)

  pub shape_fields : Fields → Fields
  shape_fields empty = empty
  shape_fields (entry q k v d) = entry q k (shape v) (shape_fields d)

module _ (w : World) where
  mutual
    unfolding substitute_structure substitute_text

    kept_structure : (v : Value) → substitute_structure w v [] ≡ v
    kept_structure null = refl
    kept_structure (bool b) = refl
    kept_structure (number n) = refl
    kept_structure (str s) = refl
    kept_structure (quoted s) = refl
    kept_structure (list xs) = ap list (kept_items xs)
    kept_structure (dict d) = ap dict (kept_fields d)

    kept_items : (xs : Items) → substitute_items w xs [] ≡ xs
    kept_items nil = refl
    kept_items (cons v vs) = rw (kept_structure v, kept_items vs) refl

    kept_fields : (d : Fields) → substitute_fields w d [] ≡ d
    kept_fields empty = refl
    kept_fields (entry q k v d) = rw (kept_structure v, kept_fields d) refl

  module _ (sub : String × Value) (subs : Substitutions) where
    mutual
      unfolding substitute_structure

      plain_structure : (v : Value) → has_quoted (substitute_structure w v (sub ∷ subs)) ≡ false
      plain_structure null = refl
      plain_structure (bool b) = refl
      plain_structure (number n) = refl
      plain_structure (str s) = refl
      plain_structure (quoted s) = refl
      plain_structure (list xs) = plain_items xs
      plain_structure (dict d) = plain_fields d

      plain_items : (xs : Items) → any_quoted (substitute_items w xs (sub ∷ subs)) ≡ false
      plain_items nil = refl
      plain_items (cons v vs) = rw (plain_structure v, plain_items vs) refl

      plain_fields : (d : Fields) → field_quoted (substitute_fields w d (sub ∷ subs)) ≡ false
      plain_fields empty = refl
      plain_fields (entry q k v d) = rw (plain_structure v, plain_fields d) refl

    mutual
      unfolding substitute_structure

      shape_structure : (v : Value) → shape (substitute_structure w v (sub ∷ subs)) ≡ shape v
      shape_structure null = refl
      shape_structure (bool b) = refl
      shape_structure (number n) = refl
      shape_structure (str s) = refl
      shape_structure (quoted s) = refl
      shape_structure (list xs) = ap list (shape_all xs)
      shape_structure (dict d) = ap dict (shape_each d)

      shape_all : (xs : Items) → shape_items (substitute_items w xs (sub ∷ subs)) ≡ shape_items xs
      shape_all nil = refl
      shape_all (cons v vs) = rw (shape_structure v, shape_all vs) refl

      shape_each : (d : Fields) → shape_fields (substitute_fields w d (sub ∷ subs)) ≡ shape_fields d
      shape_each empty = refl
      shape_each (entry q k v d) = rw (shape_structure v, shape_each d) refl

    -- A document is unchanged where there is nothing to substitute. Where there is anything, no text of the
    -- result is a `QuotedStr` any more, apart from the keys of dicts, whether a placeholder occurred in the
    -- document or not; all else is kept: the keys, quoted or not, the lists and what is not a text.
    pub substitution-quotes :
        (v : Value)
        → (substitute_structure w v [] ≡ v)
          × (has_quoted (substitute_structure w v (sub ∷ subs)) ≡ false)
          × (shape (substitute_structure w v (sub ∷ subs)) ≡ shape v)
    substitution-quotes v = (kept_structure v, plain_structure v, shape_structure v)
