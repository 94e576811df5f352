-- ===== src/Orchestrator/Edits.antt =====
-- server/orchestrator.py: `_resolve_consumes`, `_resolve_edits` and the substitution of placeholders.
pub mod Quotes
use terramate_api_wrapper.Base.{
  String, ◌<>◌, Bool, true, false, ◌&&◌, List, [], ◌∷◌, map, ◌==◌, string_eq, select, if◌then◌else◌,
}
use terramate_api_wrapper.Base.Text.{replace}
use terramate_api_wrapper.Value.{
  entry, Value, null, bool, number, str, quoted, list, dict, Items, nil, cons, Fields, empty, field,
}
use terramate_api_wrapper.Result.{Result, ok, err, no_result_found, multiple_results_found, ◌>>=◌}
use terramate_api_wrapper.Framework.{FileEdit, add_file, edit_file, edit_text, OutputRef, StepSpec}
use terramate_api_wrapper.Models.{Step, Output, Db}
use terramate_api_wrapper.World.{World}

-- `.one()`
abbrev pub one {ℓ} : {A : Type ℓ} → List A → Result A
one [] = err no_result_found
one (x ∷ []) = ok x
one (x ∷ y ∷ r) = err multiple_results_found

-- The output that a reference of this Step names.
unfoldable pub resolve_one : Db → Step → OutputRef → Result Value
resolve_one db step ref = do
  dep ← one (select (λ s. s.request_id == step.request_id && s.key == ref.step_key) db.steps)
  output ← one (select (λ o. o.step_id == dep.id && o.key == ref.output_name) db.outputs)
  ok output.value

unfoldable pub resolve_consumes : Db → Step → List OutputRef → Result (List (OutputRef × Value))
resolve_consumes db step [] = ok []
resolve_consumes db step (ref ∷ refs) = do
  value ← resolve_one db step ref
  rest ← resolve_consumes db step refs
  ok ((ref, value) ∷ rest)

-- `${steps.<key>.outputs.<name>}`
abbrev pub placeholder : OutputRef → String
placeholder ref = "${steps." <> (ref.step_key <> (".outputs." <> (ref.output_name <> "}")))

abbrev pub Substitutions : Type 0
Substitutions = List (String × Value)

-- `d[k] = v`
unfoldable pub substitution_put : String → Value → Substitutions → Substitutions
substitution_put k v [] = (k, v) ∷ []
substitution_put k v ((j, u) ∷ d) = if j == k then (j, v) ∷ d else (j, u) ∷ substitution_put k v d

-- The dict comprehension of `_resolve_edits`: a later reference overwrites an equal one.
unfoldable pub substitutions_from : Substitutions → List (OutputRef × Value) → Substitutions
substitutions_from d [] = d
substitutions_from d ((ref, value) ∷ rest) =
    substitutions_from (substitution_put (placeholder ref) value d) rest

module _ (w : World) where
  -- `str(value)`
  unfoldable pub str_of : Value → String
  str_of null = "None"
  str_of (bool true) = "True"
  str_of (bool false) = "False"
  str_of (number n) = n
  str_of (str s) = s
  str_of (quoted s) = s
  str_of (list xs) = w.repr (list xs)
  str_of (dict d) = w.repr (dict d)

  unfoldable pub substitute_text : String → Substitutions → String
  substitute_text text [] = text
  substitute_text text ((old, value) ∷ rest) =
      substitute_text (replace old (str_of value) text) rest

  -- `str.replace` on a `QuotedStr` returns a plain `str`; with nothing to substitute it is not called.
  abbrev substitute_quoted : String → Substitutions → Value
  substitute_quoted text [] = quoted text
  substitute_quoted text (sub ∷ rest) = str (substitute_text text (sub ∷ rest))

  unfoldable mutual
    pub substitute_structure : Value → Substitutions → Value
    substitute_structure null subs = null
    substitute_structure (bool b) subs = bool b
    substitute_structure (number n) subs = number n
    substitute_structure (str s) subs = str (substitute_text s subs)
    substitute_structure (quoted s) subs = substitute_quoted s subs
    substitute_structure (list xs) subs = list (substitute_items xs subs)
    substitute_structure (dict d) subs = dict (substitute_fields d subs)

    pub substitute_items : Items → Substitutions → Items
    substitute_items nil subs = nil
    substitute_items (cons v vs) subs =
        cons (substitute_structure v subs) (substitute_items vs subs)

    pub substitute_fields : Fields → Substitutions → Fields
    substitute_fields empty subs = empty
    substitute_fields (entry q k v d) subs =
        entry q k (substitute_structure v subs) (substitute_fields d subs)

  unfoldable pub substitute_edit : Substitutions → FileEdit → FileEdit
  substitute_edit subs (add_file path content) = add_file path (substitute_text content subs)
  substitute_edit subs (edit_file path patch) =
      edit_file path (λ document. patch document >>= λ v. ok (substitute_structure v subs))
  substitute_edit subs (edit_text path patch) =
      edit_text path (λ text. patch text >>= λ t. ok (substitute_text t subs))

  -- `_resolve_edits`, for the spec that `_build_step_spec` returns.
  unfoldable pub resolve_edits : StepSpec → List (OutputRef × Value) → List FileEdit
  resolve_edits spec resolved =
      map (substitute_edit (substitutions_from [] resolved)) spec.bundle_edits
