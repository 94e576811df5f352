-- ===== src/Recipes/NetworkFoundation.antt =====
-- `add_business_domain_patch` of server/recipes/workspace.py: the business domains in the file of the
-- network foundation. A key of a mapping that is no text stands here as Python prints it.
pub mod Settled
pub mod Kept
pub mod Laws
use text.Mathlib.Text.{find?}
use terramate_api_wrapper.Base.{
  ℕ, String, ◌<>◌, Bool, true, false, not, Option, none, some, List, [], ◌∷◌, ◌==◌, string_eq,
  if◌then◌else◌,
}
use terramate_api_wrapper.Value.{
  put_key, entry, Value, null, bool, number, str, quoted, list, dict, Items, nil, cons, Fields,
  empty, field, get, put,
}
use terramate_api_wrapper.Table.{is_some}
use terramate_api_wrapper.Result.{Result, ok, err, type_error, attribute_error, ◌>>=◌}
use terramate_api_wrapper.Recipes.BundleInstance.{or_skeleton, has_item}

-- `value.f(...)`, for a method `f` that of these values only a dict has.
abbrev pub in_dict : (Fields → Result Fields) → Value → Result Value
in_dict change (dict d) = change d >>= λ e. ok (dict e)
in_dict change _ = err attribute_error

abbrev pub get_or : Value → String → Fields → Value
get_or default key d = elim (get key d) [ none ↦ default | some v ↦ v ]

-- `d.setdefault(key, {})`, and a change of what it returns, which stands in `d`.
unfoldable pub within_key : Bool → String → (Value → Result Value) → Fields → Result Fields
within_key is_quoted key change d =
    change (get_or (dict empty) key d) >>= λ v. ok (put_key is_quoted key v d)

abbrev pub within : String → (Value → Result Value) → Fields → Result Fields
within key change d = within_key false key change d

-- `key in value`
unfoldable pub has_key : String → Value → Result Bool
has_key key (dict d) = ok (is_some (get key d))
has_key key (list xs) = ok (has_item key xs)
has_key key (str s) = ok (is_some (find? s key))
has_key key (quoted s) = ok (is_some (find? s key))
has_key key _ = err type_error

-- `value[key] = v`, where the key is a text.
unfoldable pub set_key : Bool → String → Value → Value → Result Value
set_key is_quoted key v (dict d) = ok (dict (put_key is_quoted key v d))
set_key is_quoted key v _ = err type_error

-- `{"subnet_size": QuotedStr(size)}`
abbrev pub sized : String → Value
sized size = dict (field "subnet_size" (quoted size) empty)

-- `if key not in target: target[key] = v`
unfoldable pub add_missing : Bool → String → Value → Value → Result Value
add_missing is_quoted key v target =
    has_key key target >>= λ there. if there then ok target else set_key is_quoted key v target

unfoldable pub merge_fields : Fields → Value → Result Value
merge_fields empty target = ok target
merge_fields (entry q key v rest) target = add_missing q key v target >>= merge_fields rest

-- An item as the key of a dict; a list or a dict cannot be hashed.
abbrev pub key_of : Value → Result (Bool × String)
key_of (str s) = ok (false, s)
key_of (quoted s) = ok (true, s)
key_of (number n) = ok (false, n)
key_of (bool true) = ok (false, "True")
key_of (bool false) = ok (false, "False")
key_of null = ok (false, "None")
key_of _ = err type_error

unfoldable pub merge_items : Items → Value → Result Value
merge_items nil target = ok target
merge_items (cons item rest) target =
    key_of item >>= λ key. add_missing key.0 key.1 (sized "small") target >>= merge_items rest

-- `env_val.get("inputs", {}).get("business_domains", {})`
abbrev pub source_domains : Fields → Result Value
source_domains env_val = domains_in (get_or (dict empty) "inputs" env_val)
  where
    domains_in : Value → Result Value
    domains_in (dict inputs) = ok (get_or (dict empty) "business_domains" inputs)
    domains_in _ = err attribute_error

abbrev pub merge_source : Value → Value → Result Value
merge_source (dict source) target = merge_fields source target
merge_source (list source) target = merge_items source target
merge_source _ target = ok target

abbrev pub within_domains : (Value → Result Value) → Value → Result Value
within_domains change env =
    in_dict (within "inputs" (in_dict (within "business_domains" change))) env

-- One environment that stands under `spec` by mistake.
abbrev pub merge_env : Value → Value → Result Value
merge_env (dict env_val) target_env =
    within_domains (λ target. source_domains env_val >>= λ source. merge_source source target)
      target_env
merge_env _ target_env = ok target_env

unfoldable pub merge_envs : Fields → Value → Result Value
merge_envs empty envs = ok envs
merge_envs (entry q env_name env_val rest) envs =
    in_dict (within_key q env_name (merge_env env_val)) envs >>= merge_envs rest

-- `if misplaced_envs and isinstance(misplaced_envs, dict)`
unfoldable pub merge_misplaced : Option Value → Value → Result Value
merge_misplaced (some (dict misplaced)) envs = merge_envs misplaced envs
merge_misplaced _ envs = ok envs

-- What a requested domain has then, given what it had.
abbrev pub with_size : String → Option Value → Value
with_size size (some (dict d)) =
    if is_some (get "subnet_size" d) then dict d else dict (put "subnet_size" (quoted size) d)
with_size size _ = sized size

-- One of the requested domains, in the dict of the domains that there are.
unfoldable pub add_domain : String → String → Fields → Fields
add_domain size domain d = put domain (with_size size (get domain d)) d

unfoldable pub add_domains : String → List String → Fields → Fields
add_domains size [] d = d
add_domains size (domain ∷ domains) d = add_domains size domains (add_domain size domain d)

-- `{d: {"subnet_size": QuotedStr("small")} for d in existing_domains}`
unfoldable pub from_list : Items → Fields → Result Fields
from_list nil d = ok d
from_list (cons item rest) d =
    key_of item >>= λ key. from_list rest (put_key key.0 key.1 (sized "small") d)

-- The loop over the requested domains. On a value that is neither a dict nor a list, the first round
-- raises: at `in`, at the assignment or at the subscript.
unfoldable pub complete_domains : String → List String → Value → Result Value
complete_domains size domains (dict d) = ok (dict (add_domains size domains d))
complete_domains size domains (list xs) =
    from_list xs empty >>= λ d. ok (dict (add_domains size domains d))
complete_domains size [] value = ok value
complete_domains size (domain ∷ domains) value = err type_error

-- `spec.pop("environments", None)`: what is taken out, and the rest.
abbrev pub remove : String → Fields → Fields
remove key empty = empty
remove key (entry q k v d) = let rest = remove key d in if k == key then rest else entry q k v rest

unfoldable pub pop_environments : Value → Result (Option Value × Value)
pop_environments (dict d) = ok (get "environments" d, dict (remove "environments" d))
pop_environments (list xs) = err type_error
pop_environments _ = err attribute_error

-- The file that is created.
abbrev pub foundation_skeleton : String → String → Fields
foundation_skeleton environment uuid = field "apiVersion" (str "terramate.io/cli/v1") (
    field "kind" (str "BundleInstance") (
      field "metadata"
        (dict (field "name" (str "network_foundation") (field "uuid" (str uuid) empty)))
        (field "spec"
          (dict
            (field "source" (quoted "/src/bundles/core_infrastructure/network_foundation") empty))
          (field "environments"
            (dict (
              field environment
                (dict (
                  field "inputs"
                    (dict (
                      field "business_domains" (dict (field "controltower" (sized "small") empty))
                        empty))
                    empty))
                empty))
            empty))))

-- The patch that `add_business_domain_patch` returns. The uuid is the given one, or a new one.
unfoldable pub add_business_domain_patch :
    List String → String → String → String → Fields → Result Fields
add_business_domain_patch domains size environment uuid document = do
  let doc = or_skeleton (foundation_skeleton environment uuid) document
  popped ← pop_environments (get_or (dict empty) "spec" doc)
  within "environments"
      (λ envs.
        merge_misplaced popped.0 envs
        >>= in_dict (within environment (within_domains (complete_domains size domains))))
      (put "spec" popped.1 doc)
