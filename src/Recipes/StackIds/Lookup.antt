-- ===== src/Recipes/StackIds/Lookup.antt =====
-- The ids that the config file has, as the attributes in the body of its block.
use terramate_api_wrapper.Base.{
  String, true, false, Option, none, some, List, [], ◌∷◌, ◌++◌, any, ◌==◌, string_eq, ◌≡◌, refl, ap,
  subst, arith, Option-cases, inl, inr, if◌then◌else◌,
}
use terramate_api_wrapper.Base.Lines.{splitlines}
use terramate_api_wrapper.Result.{Result, ok, ◌>>=◌}
use terramate_api_wrapper.Recipes.ConfigLines.{Attribute, match_attribute}
use terramate_api_wrapper.Recipes.StackIds.{find_block, body, is_named, attribute_key}
use terramate_api_wrapper.Recipes.StackIds.Patched.{attributes}

-- `ids[key]`, where the lines are read as attributes and the first one counts.
abbrev pub value_in : String → List Attribute → Option String
value_in key [] = none
value_in key (m ∷ ms) = if m.key == key then some m.value else value_in key ms

-- The id that the config file has for a key.
unfoldable pub stack_id : String → String → Result (Option String)
stack_id key text = find_block (splitlines text) >>= λ block.
    ok (value_in key (attributes (body block (splitlines text))))

pub is_named-value_in :
    (key : String) (lines : List String)
    → any (is_named key) lines ≡ false
    → value_in key (attributes lines) ≡ none
unfolding attribute_key
is_named-value_in key [] h = refl
is_named-value_in key (line ∷ lines) h = elim (Option-cases (match_attribute line)) [
  | inl e ↦ rw e (ground (arith, e, is_named-value_in key lines))
  | inr (m, e) ↦ rw e (ground (arith, e, is_named-value_in key lines))
]

pub value_in-is_named :
    (key value : String) (lines : List String)
    → value_in key (attributes lines) ≡ some value
    → any (is_named key) lines ≡ true
unfolding attribute_key
value_in-is_named key value [] h = absurd (cc h)
value_in-is_named key value (line ∷ lines) h = elim (Option-cases (match_attribute line)) [
  | inl e ↦ rw (e, is_named) (value_in-is_named key value lines (rw e at h))
  | inr (m, e) ↦ rw (e, is_named) (ground (arith, rw e at h, value_in-is_named key value lines))
]

pub value_in-insert :
    (j : String) (xs : List Attribute) (m : Attribute) (ys : List Attribute)
    → value_in m.key (xs ++ ys) ≡ none
    → value_in j (xs ++ m ∷ ys) ≡ (if m.key == j then some m.value else value_in j (xs ++ ys))
value_in-insert j [] m ys h = refl
value_in-insert j (x ∷ xs) m ys h = ground (arith, value_in-insert j xs m ys)

pub attributes-append :
    (xs ys : List String) → attributes (xs ++ ys) ≡ attributes xs ++ attributes ys
attributes-append [] ys = refl
attributes-append (x ∷ xs) ys = elim (Option-cases (match_attribute x)) [
  | inl e ↦ rw e (attributes-append xs ys)
  | inr (m, e) ↦ rw e (ap (λ ms. m ∷ ms) (attributes-append xs ys))
]

pub is_named-some :
    (key : String) (lines : List String)
    → any (is_named key) lines ≡ true
    → (value : String) × (value_in key (attributes lines) ≡ some value)
unfolding attribute_key
is_named-some key [] h = absurd (cc h)
is_named-some key (line ∷ lines) h = elim (Option-cases (match_attribute line)) [
  | inl e ↦ let (value, f) = is_named-some key lines (rw (e, is_named) at h) in (value, rw e f)
  | inr (m, e) ↦ elim (string_eq.dec m.key key) [
    | yes same ↦ (m.value, rw e (ground (arith, same)))
    | no differ ↦
        let (value, f) = is_named-some key lines (ground (arith, rw (e, is_named) at h, differ)) in
        (value, rw e (ground (arith, f, differ)))
  ]
]

abbrev pub given_or : String → Option String → String
given_or value none = value
given_or value (some old) = old

-- A key that has a value keeps it, and one that has none gets the given one.
pub given_or-some :
    (key j value given : String) (ms : List Attribute)
    → value_in key ms ≡ some value
    → value_in j ms ≡ (if key == j then some (given_or given (value_in j ms)) else value_in j ms)
given_or-some key j value given ms h = elim (string_eq.dec key j) [
  | yes same ↦
      subst
        (λ x.
          value_in x ms
          ≡ (if key == x then some (given_or given (value_in x ms)) else value_in x ms))
        same (rw h (ground arith))
  | no differ ↦ ground (arith, differ)
]

pub given_or-none :
    (key j given : String) (ms : List Attribute)
    → value_in key ms ≡ none
    → (if key == j then some given else value_in j ms)
      ≡ (if key == j then some (given_or given (value_in j ms)) else value_in j ms)
given_or-none key j given ms h = elim (string_eq.dec key j) [
  | yes same ↦
      subst
        (λ x.
          (if key == x then some given else value_in x ms)
          ≡ (if key == x then some (given_or given (value_in x ms)) else value_in x ms))
        same (rw h refl)
  | no differ ↦ ground (arith, differ)
]
