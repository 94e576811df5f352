-- ===== src/Recipes/BundleInstance.antt =====
-- server/recipes/bundle_instance.py: creating or completing the stack file of a BundleInstance.
pub mod Entries
pub mod Appended
pub mod Laws
use terramate_api_wrapper.Base.{
  String, Bool, true, false, ◌||◌, Option, none, some, List, [], ◌∷◌, ◌==◌, string_eq,
  if◌then◌else◌,
}
use terramate_api_wrapper.Value.{
  entry, Value, null, bool, number, str, quoted, list, dict, Items, nil, cons, Fields, empty, field,
  get, put,
}
use terramate_api_wrapper.Table.{is_some}

-- `isinstance(mapping.get(key), dict)`
abbrev pub dict_or_empty : Option Value → Fields
dict_or_empty (some (dict d)) = d
dict_or_empty _ = empty

-- `_child`, and what is then written into the child, which stands in its parent.
unfoldable pub with_child : String → (Fields → Fields) → Fields → Fields
with_child key write mapping = put key (dict (write (dict_or_empty (get key mapping)))) mapping

-- `_quoted`
unfoldable mutual
  pub as_quoted : Value → Value
  as_quoted (str s) = quoted s
  as_quoted (quoted s) = quoted s
  as_quoted (list xs) = list (items_quoted xs)
  as_quoted (dict d) = dict (fields_quoted d)
  as_quoted null = null
  as_quoted (bool b) = bool b
  as_quoted (number n) = number n

  pub items_quoted : Items → Items
  items_quoted nil = nil
  items_quoted (cons v vs) = cons (as_quoted v) (items_quoted vs)

  pub fields_quoted : Fields → Fields
  fields_quoted empty = empty
  fields_quoted (entry q k v d) = entry q k (as_quoted v) (fields_quoted d)

-- `d.setdefault(key, value)`
abbrev pub set_default : String → Value → Fields → Fields
set_default key value d = if is_some (get key d) then d else put key value d

unfoldable pub fill_inputs : Fields → Fields → Fields
fill_inputs empty env_inputs = env_inputs
fill_inputs (entry q key value inputs) env_inputs =
    fill_inputs inputs (set_default key (as_quoted value) env_inputs)

-- `item == v`; a `QuotedStr` is equal to the text that it quotes.
abbrev pub is_text : String → Value → Bool
is_text item (str s) = s == item
is_text item (quoted s) = s == item
is_text item _ = false

unfoldable pub has_item : String → Items → Bool
has_item item nil = false
has_item item (cons v vs) = is_text item v || has_item item vs

unfoldable pub append_item : String → Items → Items
append_item item nil = cons (quoted item) nil
append_item item (cons v vs) = cons v (append_item item vs)

unfoldable pub append_missing : List String → Items → Items
append_missing [] existing = existing
append_missing (item ∷ items) existing =
    append_missing items (if has_item item existing then existing else append_item item existing)

-- `isinstance(existing, list)`
abbrev pub list_or_empty : Option Value → Items
list_or_empty (some (list xs)) = xs
list_or_empty _ = nil

abbrev pub AppendTo : Type 0
AppendTo = List (String × List String)

unfoldable pub append_inputs : AppendTo → Fields → Fields
append_inputs [] env_inputs = env_inputs
append_inputs ((key, items) ∷ rest) env_inputs =
    append_inputs rest
      (put key (list (append_missing items (list_or_empty (get key env_inputs)))) env_inputs)

-- The file that is created.
abbrev pub skeleton : String → String → String → Fields
skeleton name stack_uuid source = field "apiVersion" (str "terramate.io/cli/v1") (
    field "kind" (str "BundleInstance") (
      field "metadata" (dict (field "name" (str name) (field "uuid" (quoted stack_uuid) empty))) (
        field "spec" (dict (field "source" (quoted source) empty))
          (field "environments" (dict empty) empty))))

abbrev pub or_skeleton : Fields → Fields → Fields
or_skeleton new empty = new
or_skeleton new (entry q k v d) = entry q k v d

-- What is written into the inputs of the environment.
unfoldable pub complete_inputs : Fields → AppendTo → Fields → Fields
complete_inputs inputs append_to env_inputs =
    append_inputs append_to (fill_inputs inputs env_inputs)

-- The patch that `bundle_instance_patch` returns.
unfoldable pub bundle_instance_patch :
    String → String → String → String → Fields → AppendTo → Fields → Fields
bundle_instance_patch name stack_uuid source environment inputs append_to document =
    with_child "environments"
      (with_child environment (with_child "inputs" (complete_inputs inputs append_to)))
      (or_skeleton (skeleton name stack_uuid source) document)
