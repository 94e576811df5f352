-- ===== src/Examples/Files.antt =====
-- The theorems on files and on calls to GitHub, at concrete inputs.
use terramate_api_wrapper.Base.{
  ◌*◌, ◌≤◌, ℕ, false, none, some, [], ◌∷◌, ◌==◌, nat_eq, string_eq, if◌then◌else◌, ◌≡◌, ◌≢◌, refl,
}
use terramate_api_wrapper.Value.{
  null, str, quoted, list, dict, nil, cons, Fields, empty, field, get,
}
use terramate_api_wrapper.Result.{ok}
use terramate_api_wrapper.Config.{Settings}
use terramate_api_wrapper.Config.Environment.{Environ, get_settings, principals, is_switched_on}
use terramate_api_wrapper.Config.Environment.Principals.{nobody_by_default}
use terramate_api_wrapper.Auth.{require_admin, require_ci_principal}
use terramate_api_wrapper.Recipes.BundleInstance.{
  AppendTo, bundle_instance_patch, complete_inputs, append_inputs, fill_inputs, append_missing,
  as_quoted, has_item, append_item,
}
use terramate_api_wrapper.Recipes.BundleInstance.Laws.{
  bundle_instance_patch_twice, kept_or_given, complete_inputs-get,
}
use terramate_api_wrapper.Recipes.WorkspaceFolder.{WorkspaceFolderParams, with_folder_defaults}
use terramate_api_wrapper.Recipes.UnityCatalog.{
  UnityCatalogParams, with_catalog_defaults, UnityCatalogSchemaParams, with_schema_defaults,
}
use terramate_api_wrapper.Recipes.Defaults.{Stored, listed_or, defaults-Stored}
use terramate_api_wrapper.GitHub.Retry.{Response, RetryPolicy, request, Answer}
use terramate_api_wrapper.GitHub.Retry.Waits.{total, request-waits}
use terramate_api_wrapper.GitHub.Retry.Attempts.{Concluded, request-Concluded}

abbrev inputs : Fields
inputs = field "domain_name" (str "sales") (field "workspace_name" (str "sales_ws") empty)

abbrev folders : AppendTo
folders = ("folder_names", "a" ∷ "b" ∷ []) ∷ []

-- Someone has set the workspace's name and one folder by hand.
abbrev by_hand : Fields
by_hand =
    field "workspace_name" (str "other") (field "folder_names" (list (cons (str "b") nil)) empty)

abbrev document : Fields
document = field "kind" (str "BundleInstance") (
    field "environments" (dict (field "sbx" (dict (field "inputs" (dict by_hand) empty)) empty))
      empty)

bundle_instance_patch_twice_example :
    let patch = bundle_instance_patch "sales_folder" "u" "/src/bundles" "sbx" inputs folders in
    patch (patch document) ≡ patch document
bundle_instance_patch_twice_example =
    bundle_instance_patch_twice "sales_folder" "u" "/src/bundles" "sbx" inputs folders document

complete_inputs-get_example :
    get "workspace_name" (complete_inputs inputs folders by_hand)
    ≡ kept_or_given (get "workspace_name" by_hand) (get "workspace_name" inputs)
unfolding string_eq
complete_inputs-get_example = complete_inputs-get "workspace_name" inputs folders by_hand refl

abbrev policy : RetryPolicy
policy = record { max_retries = 4; retry_backoff_base_seconds = 1; retry_backoff_max_seconds = 30 }

-- Two gateway errors, then the answer.
abbrev send : ℕ → Response
send n = record {
  status_code = if n == 3 then 201 else 502;
  retry_after = none;
  json = null;
  text = "bad gateway";
}

request-Concluded_example : Concluded policy send (request policy send) 1
request-Concluded_example = request-Concluded policy send

-- GitHub is unavailable, and does not say for how long.
abbrev unavailable : ℕ → Response
unavailable n = record { status_code = 503; retry_after = none; json = null; text = "" }

request-waits_example :
    (answer : Answer) × (request policy unavailable ≡ some answer) × (total answer.delays ≤ 4 * 30)
request-waits_example = request-waits policy unavailable (λ n. refl)

-- The patch keeps the name that is there, adds the domain's, and appends the missing folder.
complete_inputs_run :
    complete_inputs inputs folders by_hand
    ≡ field "workspace_name" (str "other") (
        field "folder_names"
          (list (cons (str "b") (cons (quoted "a") nil)))
          (field "domain_name" (quoted "sales") empty))
unfolding complete_inputs append_inputs fill_inputs string_eq append_missing as_quoted has_item
    append_item
complete_inputs_run = refl

-- An environment without principals.
abbrev environ : Environ
environ key = if key == "CI_PRINCIPALS" then some " , " else none

abbrev read_settings : Settings
read_settings = record {
  app_environment = "local";
  github_pat = none;
  github_repo = none;
  github_base_branch = "main";
  database_url = none;
  pg_host = none;
  pg_port = none;
  pg_database = none;
  pg_user = none;
  lakebase_instance_name = none;
  reconcile_interval_seconds = 15;
  log_level = "INFO";
  step_stuck_threshold_seconds = 15;
  admin_principals = [];
  ci_principals = [];
  run_migrations_on_startup = false;
  api_base_url = none;
}

nobody_by_default_example :
    (require_admin read_settings (some "root@example.com") none ≢ ok "root@example.com")
    × (require_ci_principal read_settings (some "root@example.com") none ≢ ok "root@example.com")
unfolding get_settings principals is_switched_on string_eq nat_eq
nobody_by_default_example =
    nobody_by_default (λ _. ok 15) environ read_settings refl (some "root@example.com") none refl
      refl "root@example.com"

abbrev folder_params : WorkspaceFolderParams
folder_params = record {
  business_domain = "sales";
  environment = "sbx";
  workspace_name = none;
  folder_names = none;
  stack_uuid = "u";
}

abbrev catalog_params : UnityCatalogParams
catalog_params = record {
  business_domain = "sales";
  environment = "sbx";
  workspace_name = some "";
  catalog_suffixes = "ai" ∷ [];
  stack_uuid = "u";
}

abbrev schema_params : UnityCatalogSchemaParams
schema_params = record {
  business_domain = "sales";
  environment = "sbx";
  workspace_name = none;
  catalog_name = none;
  catalog_suffix = some "ai";
  schemas = "raw" ∷ [];
  stack_uuid = "u";
}

defaults-Stored_example :
    Stored with_folder_defaults (λ p. p.workspace_name) folder_params
    × (listed_or folder_params.folder_names (with_folder_defaults folder_params).folder_names
        ≡ (with_folder_defaults folder_params).folder_names)
    × (with_folder_defaults (with_folder_defaults folder_params)
        ≡ with_folder_defaults folder_params)
    × Stored with_catalog_defaults (λ p. p.workspace_name) catalog_params
    × (with_catalog_defaults (with_catalog_defaults catalog_params)
        ≡ with_catalog_defaults catalog_params)
    × Stored with_schema_defaults (λ p. p.workspace_name) schema_params
    × Stored with_schema_defaults (λ p. p.catalog_name) schema_params
    × (with_schema_defaults (with_schema_defaults schema_params)
        ≡ with_schema_defaults schema_params)
defaults-Stored_example = defaults-Stored folder_params catalog_params schema_params
