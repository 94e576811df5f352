-- ===== src/Recipes/BundleInstance/Laws.antt =====
-- Applying the patch again changes nothing, and it never rewrites an input that is there.
use terramate_api_wrapper.Base.{
  String, Bool, true, false, ◌&&◌, Option, none, some, List, [], ◌∷◌, ◌==◌, string_eq, any, ◌≡◌,
  refl, sym, ap, ◌∙◌, subst, arith,
}
use terramate_api_wrapper.Value.{entry, Value, list, dict, Fields, empty, get, put}
use terramate_api_wrapper.Table.{is_some}
use terramate_api_wrapper.Recipes.BundleInstance.{
  dict_or_empty, with_child, as_quoted, set_default, fill_inputs, append_missing, list_or_empty,
  AppendTo, append_inputs, skeleton, or_skeleton, complete_inputs, bundle_instance_patch,
}
use terramate_api_wrapper.Recipes.BundleInstance.Entries.{get-put, put_found}
use terramate_api_wrapper.Recipes.BundleInstance.Appended.{
  has_all, both, append_missing-has_all, append_missing_all, append_missing-keeps_all,
}

-- Dicts.
abbrev holds_all : List String → Option Value → Bool
holds_all items (some (list xs)) = has_all items xs
holds_all items _ = false

abbrev satisfied : AppendTo → Fields → Bool
satisfied [] d = true
satisfied ((key, items) ∷ rest) d = holds_all items (get key d) && satisfied rest d

abbrev present : Fields → Fields → Bool
present empty d = true
present (entry q key v inputs) d = is_some (get key d) && present inputs d

-- One list input is completed.
abbrev completed : String → List String → Fields → Fields
completed key items d = put key (list (append_missing items (list_or_empty (get key d)))) d

kept_at :
    (old items : List String) (found : Option Value)
    → holds_all old found ≡ true
    → has_all old (append_missing items (list_or_empty found)) ≡ true
kept_at old items none h = absurd (cc h)
kept_at old items (some (list xs)) h = append_missing-keeps_all old items xs h
kept_at old items (some _) h = absurd (cc h)

completed-holds_all :
    (k key : String) (old items : List String) (d : Fields)
    → holds_all old (get k d) ≡ true
    → holds_all old (get k (completed key items d)) ≡ true
completed-holds_all k key old items d h = elim (string_eq.dec key k) [
  | yes e ↦
      subst (λ x. holds_all old (get k (completed x items d)) ≡ true) (sym e)
        (rw (get-put k k (list (append_missing items (list_or_empty (get k d)))) d)
          (ground (arith, kept_at old items (get k d) h)))
  | no differ ↦
      rw (get-put k key (list (append_missing items (list_or_empty (get key d)))) d)
        (ground (arith, differ, h))
]

completed-holds_own :
    (key : String) (items : List String) (d : Fields)
    → holds_all items (get key (completed key items d)) ≡ true
completed-holds_own key items d =
    rw (get-put key key (list (append_missing items (list_or_empty (get key d)))) d)
      (ground (arith, append_missing-has_all items (list_or_empty (get key d))))

append_inputs-holds_all :
    (k : String) (old : List String) (append_to : AppendTo) (d : Fields)
    → holds_all old (get k d) ≡ true
    → holds_all old (get k (append_inputs append_to d)) ≡ true
unfolding append_inputs
append_inputs-holds_all k old [] d h = h
append_inputs-holds_all k old ((key, items) ∷ rest) d h =
    append_inputs-holds_all k old rest (completed key items d)
      (completed-holds_all k key old items d h)

append_inputs-satisfied :
    (append_to : AppendTo) (d : Fields) → satisfied append_to (append_inputs append_to d) ≡ true
unfolding append_inputs
append_inputs-satisfied [] d = refl
append_inputs-satisfied ((key, items) ∷ rest) d =
    both _ _
      (append_inputs-holds_all key items rest (completed key items d)
        (completed-holds_own key items d))
      (append_inputs-satisfied rest (completed key items d))

-- The list at a key is written back as it was.
completed_all :
    (key : String) (items : List String) (d : Fields) (found : Option Value)
    → get key d ≡ found
    → holds_all items found ≡ true
    → put key (list (append_missing items (list_or_empty found))) d ≡ d
completed_all key items d none e h = absurd (cc h)
completed_all key items d (some (list xs)) e h =
    rw (append_missing_all items xs h) (put_found key (list xs) d e)
completed_all key items d (some _) e h = absurd (cc h)

append_inputs_kept :
    (append_to : AppendTo) (d : Fields)
    → satisfied append_to d ≡ true
    → append_inputs append_to d ≡ d
unfolding append_inputs
append_inputs_kept [] d h = refl
append_inputs_kept ((key, items) ∷ rest) d h =
    ap (append_inputs rest) (completed_all key items d (get key d) refl (ground arith))
    ∙ append_inputs_kept rest d (ground arith)

-- Inputs.
fill_inputs_kept : (inputs d : Fields) → present inputs d ≡ true → fill_inputs inputs d ≡ d
unfolding fill_inputs
fill_inputs_kept empty d h = refl
fill_inputs_kept (entry q key v inputs) d h = ground (arith, fill_inputs_kept inputs d)

put-is_some :
    (k key : String) (v : Value) (d : Fields)
    → is_some (get k d) ≡ true
    → is_some (get k (put key v d)) ≡ true
put-is_some k key v d h = rw (get-put k key v d) (ground arith)

set_default-is_some :
    (k key : String) (v : Value) (d : Fields)
    → is_some (get k d) ≡ true
    → is_some (get k (set_default key v d)) ≡ true
set_default-is_some k key v d h = ground (arith, put-is_some k key v d h)

set_default-own :
    (key : String) (v : Value) (d : Fields) → is_some (get key (set_default key v d)) ≡ true
set_default-own key v d = ground (arith, get-put key key v d)

fill_inputs-is_some :
    (k : String) (inputs d : Fields)
    → is_some (get k d) ≡ true
    → is_some (get k (fill_inputs inputs d)) ≡ true
unfolding fill_inputs
fill_inputs-is_some k empty d h = h
fill_inputs-is_some k (entry q key v inputs) d h =
    fill_inputs-is_some k inputs _ (set_default-is_some k key (as_quoted v) d h)

fill_inputs-present : (inputs d : Fields) → present inputs (fill_inputs inputs d) ≡ true
unfolding fill_inputs
fill_inputs-present empty d = refl
fill_inputs-present (entry q key v inputs) d =
    both _ _ (fill_inputs-is_some key inputs _ (set_default-own key (as_quoted v) d))
      (fill_inputs-present inputs _)

append_inputs-is_some :
    (k : String) (append_to : AppendTo) (d : Fields)
    → is_some (get k d) ≡ true
    → is_some (get k (append_inputs append_to d)) ≡ true
unfolding append_inputs
append_inputs-is_some k [] d h = h
append_inputs-is_some k ((key, items) ∷ rest) d h =
    append_inputs-is_some k rest (completed key items d) (put-is_some k key _ d h)

append_inputs-present :
    (inputs : Fields) (append_to : AppendTo) (d : Fields)
    → present inputs d ≡ true
    → present inputs (append_inputs append_to d) ≡ true
append_inputs-present empty append_to d h = refl
append_inputs-present (entry q key v inputs) append_to d h =
    both _ _ (append_inputs-is_some key append_to d (ground arith))
      (append_inputs-present inputs append_to d (ground arith))

complete_inputs_twice :
    (inputs : Fields) (append_to : AppendTo) (d : Fields)
    → complete_inputs inputs append_to (complete_inputs inputs append_to d)
      ≡ complete_inputs inputs append_to d
unfolding complete_inputs
complete_inputs_twice inputs append_to d =
    let once = append_inputs append_to (fill_inputs inputs d) in
    ap (append_inputs append_to) (
      fill_inputs_kept inputs once (
        append_inputs-present inputs append_to (fill_inputs inputs d)
          (fill_inputs-present inputs d)))
    ∙ append_inputs_kept append_to once (append_inputs-satisfied append_to (fill_inputs inputs d))

with_child_twice :
    (key : String) (write : Fields → Fields) (d : Fields)
    → ((c : Fields) → write (write c) ≡ write c)
    → with_child key write (with_child key write d) ≡ with_child key write d
unfolding with_child
with_child_twice key write d twice =
    let c = write (dict_or_empty (get key d)) in
    let once = put key (dict c) d in
    let own : get key once ≡ some (dict c) = rw (get-put key key (dict c) d) (ground arith) in
    ap (λ (found : Option Value). put key (dict (write (dict_or_empty found))) once) own
    ∙ (ap (λ (x : Fields). put key (dict x) once) (twice (dict_or_empty (get key d)))
        ∙ put_found key (dict c) once own)

pub put-or_skeleton :
    (new : Fields) (k : String) (v : Value) (d : Fields) → or_skeleton new (put k v d) ≡ put k v d
put-or_skeleton new k v empty = refl
put-or_skeleton new k v (entry q i u d) = ground arith

-- The patch of a stack file is idempotent: on what it has written, whatever the file was before, it
-- changes nothing.
pub bundle_instance_patch_twice :
    (name stack_uuid source environment : String) (inputs : Fields) (append_to : AppendTo)
    (document : Fields)
    → let patch = bundle_instance_patch name stack_uuid source environment inputs append_to in
      patch (patch document) ≡ patch document
unfolding bundle_instance_patch with_child
bundle_instance_patch_twice name stack_uuid source environment inputs append_to document =
    ap
      (with_child "environments"
        (with_child environment (with_child "inputs" (complete_inputs inputs append_to))))
      (put-or_skeleton (skeleton name stack_uuid source) "environments" _
        (or_skeleton (skeleton name stack_uuid source) document))
    ∙ with_child_twice "environments"
        (with_child environment (with_child "inputs" (complete_inputs inputs append_to)))
        (or_skeleton (skeleton name stack_uuid source) document)
        (λ envs.
          with_child_twice environment (with_child "inputs" (complete_inputs inputs append_to)) envs
            (λ env.
              with_child_twice "inputs" (complete_inputs inputs append_to) env
                (complete_inputs_twice inputs append_to)))

-- The value that an input has afterwards, unless it is a list that is appended to.
abbrev pub kept_or_given : Option Value → Option Value → Option Value
kept_or_given (some old) given = some old
kept_or_given none (some v) = some (as_quoted v)
kept_or_given none none = none

fill_inputs-get :
    (k : String) (inputs d : Fields)
    → get k (fill_inputs inputs d) ≡ kept_or_given (get k d) (get k inputs)
unfolding fill_inputs
fill_inputs-get k empty d = ground arith
fill_inputs-get k (entry q key v inputs) d =
    fill_inputs-get k inputs (set_default key (as_quoted v) d)
    ∙ ground (arith, get-put k key (as_quoted v) d)

append_inputs-get :
    (k : String) (append_to : AppendTo) (d : Fields)
    → any (λ (a : String × List String). a.0 == k) append_to ≡ false
    → get k (append_inputs append_to d) ≡ get k d
unfolding append_inputs
append_inputs-get k [] d h = refl
append_inputs-get k ((key, items) ∷ rest) d h =
    append_inputs-get k rest (completed key items d) (ground arith)
    ∙ rw (get-put k key (list (append_missing items (list_or_empty (get key d)))) d) (ground arith)

-- An input that is not one of the appended lists keeps the value that it has in the file; if it has
-- none, it gets the value given for it, quoted, and it stays absent if none is given.
pub complete_inputs-get :
    (k : String) (inputs : Fields) (append_to : AppendTo) (env_inputs : Fields)
    → any (λ (a : String × List String). a.0 == k) append_to ≡ false
    → get k (complete_inputs inputs append_to env_inputs)
      ≡ kept_or_given (get k env_inputs) (get k inputs)
unfolding complete_inputs
complete_inputs-get k inputs append_to d h =
    append_inputs-get k append_to (fill_inputs inputs d) h ∙ fill_inputs-get k inputs d
