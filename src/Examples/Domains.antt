-- ===== src/Examples/Domains.antt =====
-- The theorems on the workspace Type, at concrete inputs.
use terramate_api_wrapper.Base.{
  ℕ, String, true, none, some, List, [], ◌∷◌, inl, inr, ◌==◌, nat_eq, string_eq, if◌then◌else◌, ◌≡◌,
  refl,
}
use terramate_api_wrapper.Value.{
  Value, null, str, quoted, list, dict, nil, cons, Fields, empty, field,
}
use terramate_api_wrapper.Result.{ok, err, attribute_error}
use terramate_api_wrapper.Framework.{Playbook}
use terramate_api_wrapper.Recipes.NetworkFoundation.{
  add_business_domain_patch, within_key, has_key, set_key, add_missing, merge_fields, merge_items,
  merge_envs, merge_misplaced, add_domain, add_domains, from_list, complete_domains,
  pop_environments, sized,
}
use terramate_api_wrapper.Recipes.NetworkFoundation.Settled.{is_sized}
use terramate_api_wrapper.Recipes.NetworkFoundation.Laws.{
  add_business_domain_patch_twice, add_business_domain_patch-domain_of,
  add_business_domain_patch-is_sized,
}
use terramate_api_wrapper.Recipes.NetworkFoundation.Kept.{domain_of}
use terramate_api_wrapper.Recipes.Workspace.{
  WorkspaceParams, mint_stack_uuids, build_workspace, normalize_domains, normalize_fields,
}
use terramate_api_wrapper.Recipes.Workspace.Stored.{build_workspace_again}
use terramate_api_wrapper.Recipes.Workspace.Normalized.{normalize_fields_twice}
use terramate_api_wrapper.Recipes.WorkspaceFolder.{WorkspaceFolderParams}
use terramate_api_wrapper.Recipes.UnityCatalog.{UnityCatalogParams, UnityCatalogSchemaParams}
use terramate_api_wrapper.Recipes.Playbooks.{SchemaParams, build_schema}
use terramate_api_wrapper.Recipes.Registry.{
  Model, Models, recipes, schema_recipe, only_structured, parallel-only_structured,
}

-- A list of domains under `environments`, and a domain that stands under `spec` by mistake.
abbrev large : Value
large = dict (field "subnet_size" (quoted "large") empty)

abbrev foundation : Fields
foundation =
    field "spec"
      (dict (
        field "environments"
          (dict (
            field "prd"
              (dict (
                field "inputs"
                  (dict (field "business_domains" (dict (field "hr" large empty)) empty)) empty))
              empty))
          empty))
      (field "environments"
        (dict (
          field "sbx"
            (dict (
              field "inputs" (dict (field "business_domains" (list (cons (str "it") nil)) empty))
                empty))
            (field "prd"
              (dict (
                field "inputs"
                  (dict (field "business_domains" (dict (field "ops" large empty)) empty)) empty))
              empty)))
        empty)

abbrev requested : List String
requested = "it" ∷ "sales" ∷ []

abbrev completed_foundation : Fields
completed_foundation = field "spec" (dict empty) (
    field "environments"
      (dict (
        field "sbx"
          (dict (
            field "inputs"
              (dict (
                field "business_domains"
                  (dict (field "it" (sized "small") (field "sales" (sized "medium") empty))) empty))
              empty))
          (field "prd"
            (dict (
              field "inputs"
                (dict (
                  field "business_domains" (dict (field "ops" large (field "hr" large empty)))
                    empty))
                empty))
            empty)))
      empty)

foundation_run :
    add_business_domain_patch requested "medium" "sbx" "u" foundation ≡ ok completed_foundation
unfolding add_business_domain_patch within_key has_key set_key add_missing merge_fields merge_items
    merge_envs merge_misplaced add_domain add_domains from_list complete_domains pop_environments
    string_eq
foundation_run = refl

add_business_domain_patch_twice_example :
    add_business_domain_patch requested "medium" "sbx" "u" completed_foundation
    ≡ ok completed_foundation
add_business_domain_patch_twice_example =
    add_business_domain_patch_twice requested "medium" "sbx" "u" foundation completed_foundation
      foundation_run

add_business_domain_patch-domain_of_example :
    domain_of "prd" "ops" completed_foundation ≡ domain_of "prd" "ops" foundation
unfolding string_eq
add_business_domain_patch-domain_of_example =
    add_business_domain_patch-domain_of requested "medium" "sbx" "u" foundation completed_foundation
      "prd" "ops" foundation_run refl

add_business_domain_patch-is_sized_example :
    is_sized (domain_of "sbx" "sales" completed_foundation) ≡ true
add_business_domain_patch-is_sized_example =
    add_business_domain_patch-is_sized requested "medium" "sbx" "u" foundation completed_foundation
      "sales" foundation_run (inr (inl refl))

-- A `spec` that the YAML leaves empty is None, and has no `pop`.
no_source :
    add_business_domain_patch requested "medium" "sbx" "u" (field "spec" null empty)
    ≡ err attribute_error
unfolding add_business_domain_patch pop_environments string_eq
no_source = refl

abbrev workspace_params : WorkspaceParams
workspace_params = record {
  name = "sales";
  environment = "sbx";
  business_domain = "sales";
  business_domains = "sales" ∷ "hr" ∷ [];
  subnet_size = "small";
  uuid = "u-0";
  business_domain_uuid = none;
  stack_uuids = ("hr", "u-1") ∷ [];
  metastore = none;
  domain_owner = none;
  groups = [];
}

abbrev uuids : ℕ → String
uuids n = if n == 0 then "u-2" else "u-3"

abbrev later_uuids : ℕ → String
later_uuids n = "u-4"

build_workspace_again_example :
    (playbook : Playbook) × (build_workspace "u-5" (mint_stack_uuids uuids workspace_params)
      ≡ ok playbook)
    × (build_workspace "u-5"
          (mint_stack_uuids later_uuids (mint_stack_uuids uuids workspace_params))
        ≡ ok playbook)
build_workspace_again_example = build_workspace_again uuids later_uuids "u-5" workspace_params

abbrev raw_params : Fields
raw_params = field "name" (str "sales") (field "environment" (str "") empty)

abbrev normal_params : Fields
normal_params = field "name" (str "sales") (
    field "environment" (str "sbx") (
      field "business_domain" (str "sales") (
        field "business_domains" (list (cons (str "sales") nil))
          (field "subnet_size" (str "small") empty))))

normal_params_run : normalize_fields raw_params ≡ ok normal_params
unfolding normalize_fields normalize_domains string_eq
normal_params_run = refl

normalize_fields_twice_example : normalize_fields normal_params ≡ ok normal_params
normalize_fields_twice_example = normalize_fields_twice raw_params normal_params normal_params_run

-- Models that take nothing but the stored parameters of a schema.
abbrev closed_model : {P : Type 0} → P → Model P
closed_model p = record { fields = λ new v. ok p; model_dump = λ q. null; model_load = λ v. ok p }

abbrev schema_params : SchemaParams
schema_params = record { catalog = "main"; name = "raw"; owner = "data"; comment = none }

abbrev folder_params : WorkspaceFolderParams
folder_params = record {
  business_domain = "sales";
  environment = "sbx";
  workspace_name = none;
  folder_names = none;
  stack_uuid = "u-6";
}

abbrev catalog_params : UnityCatalogParams
catalog_params = record {
  business_domain = "sales";
  environment = "sbx";
  workspace_name = none;
  catalog_suffixes = [];
  stack_uuid = "u-7";
}

abbrev catalog_schema_params : UnityCatalogSchemaParams
catalog_schema_params = record {
  business_domain = "sales";
  environment = "sbx";
  workspace_name = none;
  catalog_name = none;
  catalog_suffix = none;
  schemas = [];
  stack_uuid = "u-8";
}

abbrev models : Models
models = record {
  workspace = closed_model workspace_params;
  workspace_folder = closed_model folder_params;
  unity_catalog = closed_model catalog_params;
  unity_catalog_schema = closed_model catalog_schema_params;
  schema = closed_model schema_params;
  new_uuid = "u-9";
}

schema_found : recipes models "schema" ≡ some (schema_recipe models)
unfolding recipes string_eq
schema_found = refl

parallel-only_structured_example : only_structured (build_schema schema_params) ≡ true
parallel-only_structured_example =
    parallel-only_structured models "schema" (schema_recipe models) null
      (build_schema schema_params) schema_found refl refl
