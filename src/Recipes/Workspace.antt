-- ===== src/Recipes/Workspace.antt =====
-- server/recipes/workspace.py: the parameters of the workspace Types, and the Playbook made from them.
-- The file of the network foundation is in NetworkFoundation.
pub mod Stored
pub mod Normalized
use terramate_api_wrapper.Base.{
  ℕ, zero, suc, String, ◌<>◌, Bool, true, false, not, ◌&&◌, ◌||◌, Option, none, some, List, [], ◌∷◌,
  ◌++◌, length, ◌==◌, nat_eq, string_eq, if◌then◌else◌,
}
use terramate_api_wrapper.Base.Text.{join}
use terramate_api_wrapper.Value.{
  entry, Value, null, bool, number, str, quoted, list, dict, Items, nil, cons, Fields, empty, field,
  get, put,
}
use terramate_api_wrapper.Table.{is_some}
use terramate_api_wrapper.Result.{
  Result, ok, err, require, key_error, type_error, attribute_error, ◌>>=◌,
}
use terramate_api_wrapper.Framework.{FileEdit, edit_file, StepSpec, Playbook}
use terramate_api_wrapper.Recipes.BundleInstance.{is_text, bundle_instance_patch}
use terramate_api_wrapper.Recipes.Names.{or_default}
use terramate_api_wrapper.Recipes.StackIds
use terramate_api_wrapper.Recipes.NetworkFoundation.{in_dict, get_or, add_business_domain_patch}

-- `dict[str, str]`
abbrev pub Uuids : Type 0
Uuids = List (String × String)

abbrev pub uuid_of : String → Uuids → Option String
uuid_of domain [] = none
uuid_of domain ((key, uuid) ∷ rest) = if key == domain then some uuid else uuid_of domain rest

-- `uuids.setdefault(domain, uuid)`
unfoldable pub set_default_uuid : String → String → Uuids → Uuids
set_default_uuid domain uuid uuids =
    if is_some (uuid_of domain uuids) then uuids else uuids ++ (domain, uuid) ∷ []

pub record WorkspaceParams : Type 0 where
  pub name : String
  pub environment : String
  pub business_domain : String
  pub business_domains : List String
  pub subnet_size : String
  pub uuid : String
  pub business_domain_uuid : Option String
  pub stack_uuids : Uuids
  pub metastore : Option String
  pub domain_owner : Option String
  pub groups : List String

-- The uuid that is given for a single domain.
abbrev pub set_given : Option String → List String → Uuids → Uuids
set_given (some uuid) (domain ∷ []) uuids =
    if uuid == "" then uuids else set_default_uuid domain uuid uuids
set_given _ domains uuids = uuids

-- The loop over the domains; each round asks for a new uuid.
unfoldable pub mint : (ℕ → String) → ℕ → List String → Uuids → Uuids
mint new n [] uuids = uuids
mint new n (domain ∷ domains) uuids =
    mint new (suc n) domains (set_default_uuid domain (new n) uuids)

-- `_mint_stack_uuids`
unfoldable pub mint_stack_uuids : (ℕ → String) → WorkspaceParams → WorkspaceParams
mint_stack_uuids new params = record params {
  stack_uuids =
      mint new 0 params.business_domains
        (set_given params.business_domain_uuid params.business_domains params.stack_uuids);
}

-- `bool(value)`
abbrev pub truthy : Value → Bool
truthy null = false
truthy (bool b) = b
truthy (number n) = not (n == "0") && (not (n == "0.0") && not (n == "-0.0"))
truthy (str s) = not (s == "")
truthy (quoted s) = not (s == "")
truthy (list nil) = false
truthy (list (cons v vs)) = true
truthy (dict empty) = false
truthy (dict (entry q k v d)) = true

abbrev pub get_truthy : String → Fields → Bool
get_truthy key d = truthy (get_or null key d)

abbrev first_character : String → Value
first_character String.[] = str ""
first_character (String.◌∷◌ c s) = str (String.◌∷◌ c "")

-- `value[0]`, for a value that is not empty.
abbrev pub first_item : Value → Result Value
first_item (list (cons v vs)) = ok v
first_item (str s) = ok (first_character s)
first_item (quoted s) = ok (first_character s)
first_item (dict d) = err (key_error "0")
first_item _ = err type_error

-- `if not raw.get(key): raw[key] = default`
abbrev pub fill : String → Value → Fields → Fields
fill key default raw = if get_truthy key raw then raw else put key default raw

abbrev pub is_generic : Value → Bool
is_generic name = is_text "sbx" name || (is_text "sbx-test" name || is_text "workspace" name)

-- The domains and the domain, each from the other one or from the name.
unfoldable pub normalize_domains : Fields → Result Fields
normalize_domains raw =
    let bds = get_or null "business_domains" raw in
    let bd = get_or null "business_domain" raw in
    let name = get_or null "name" raw in
    if truthy bds
    then (if truthy bd then ok raw else (first_item bds >>= λ v. ok (put "business_domain" v raw)))
    else if truthy bd
    then ok (put "business_domains" (list (cons bd nil)) raw)
    else if truthy name && not (is_generic name)
    then ok (put "business_domains" (list (cons name nil)) (put "business_domain" name raw))
    else ok (
        put "business_domains" (list (cons (str "controltower") nil))
          (put "business_domain" (str "controltower") raw))

-- `_normalize_fields`, on a dict.
unfoldable pub normalize_fields : Fields → Result Fields
normalize_fields raw = normalize_domains raw >>= λ d.
    let named = fill "name" (get_or (str "workspace") "business_domain" d) d in
    ok (fill "subnet_size" (str "small") (fill "environment" (str "sbx") named))

unfoldable pub network_foundation_config_path : String → String
network_foundation_config_path environment =
    "src/configs/"
    <> (environment <> "/core_infrastructure/network_foundation/network_foundation.tm.yml")

unfoldable pub workspace_stack_name : String → String
workspace_stack_name domain = domain <> "_workspace"

unfoldable pub workspace_config_path : String → String → String
unfolding workspace_stack_name
workspace_config_path environment domain =
    "src/configs/"
    <> (environment
        <> ("/domain_stacks/business_domain/workspace/"
            <> (domain <> ("/" <> (workspace_stack_name domain <> ".tm.yml")))))

unfoldable pub workspace_stack_patch : String → String → String → String → Fields → Fields
unfolding workspace_stack_name
workspace_stack_patch domain environment stack_uuid storage_configuration_id =
    bundle_instance_patch (workspace_stack_name domain) stack_uuid
      "/src/bundles/domain_stacks/business_domain/workspace" environment
      (field "network_foundation" (str "network_foundation") (
        field "domain_name" (str domain)
          (field "storage_configuration_id" (str storage_configuration_id) empty)))
      []

-- A patch of a parsed document, which is a dict.
abbrev pub dict_patch : (Fields → Fields) → Value → Result Value
dict_patch patch = in_dict (λ d. ok (patch d))

-- The two edits for one domain.
abbrev pub domain_edits : WorkspaceParams → String → String → List FileEdit
domain_edits params domain stack_uuid =
    edit_file (workspace_config_path params.environment domain)
      (dict_patch (workspace_stack_patch domain params.environment stack_uuid ""))
    ∷ StackIds.register_stack_id params.environment StackIds.workspace (workspace_stack_name domain)
        stack_uuid
    ∷ []

-- The loop of `WorkspaceRecipe.build`.
unfoldable pub workspace_edits : WorkspaceParams → List String → Result (List FileEdit)
workspace_edits params [] = ok []
workspace_edits params (domain ∷ domains) = do
  stack_uuid ← require (key_error domain) (uuid_of domain params.stack_uuids)
  rest ← workspace_edits params domains
  ok (domain_edits params domain stack_uuid ++ rest)

abbrev pub step : String → List String → List FileEdit → StepSpec
step key depends_on bundle_edits = record {
  key = key;
  bundle_edits = bundle_edits;
  depends_on = depends_on;
  consumes = [];
  produces = [];
  preflight = [];
  postflight = [];
}

abbrev pub workspace_playbook : String → WorkspaceParams → List FileEdit → Playbook
workspace_playbook new_uuid params edits = record {
  steps =
      step "network_foundation" [] (
        edit_file (network_foundation_config_path params.environment) (
          in_dict (
            add_business_domain_patch params.business_domains params.subnet_size params.environment
              (or_default (some params.uuid) new_uuid)))
        ∷ [])
      ∷ step "business_domain" ("network_foundation" ∷ []) edits
      ∷ [];
}

-- `WorkspaceRecipe.build`, which the other two Types share; the new uuid is the one that the patch
-- mints where the parameters have an empty one.
unfoldable pub build_workspace : String → WorkspaceParams → Result Playbook
build_workspace new_uuid params = do
  edits ← workspace_edits params params.business_domains
  ok (workspace_playbook new_uuid params edits)
