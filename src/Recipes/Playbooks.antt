-- ===== src/Recipes/Playbooks.antt =====
-- `build` of the Recipes that make one Step: server/recipes/workspace_folder.py, unity_catalog.py,
-- unity_catalog_schema.py and schema.py.
use terramate_api_wrapper.Base.{if◌then◌else◌, String, ◌<>◌, Option, none, some, [], ◌∷◌, string_eq}
use terramate_api_wrapper.Value.{
  entry, Value, str, quoted, list, dict, Items, nil, cons, Fields, empty, field, get, put,
}
use terramate_api_wrapper.Result.{Result, ok, err, type_error, ◌>>=◌}
use terramate_api_wrapper.Framework.{edit_file, Playbook}
use terramate_api_wrapper.Recipes.BundleInstance.{bundle_instance_patch}
use terramate_api_wrapper.Recipes.Names.{value_of}
use terramate_api_wrapper.Recipes.StackIds.{
  StackGroup, workspace_folder, unity_catalog, unity_catalog_schema, register_stack_id,
}
use terramate_api_wrapper.Recipes.NetworkFoundation.{in_dict}
use terramate_api_wrapper.Recipes.Workspace.{dict_patch, step}
use terramate_api_wrapper.Recipes.WorkspaceFolder.{
  WorkspaceFolderParams, workspace_folder_stack_name, workspace_folder_config_path,
  workspace_folder_patch,
}
use terramate_api_wrapper.Recipes.UnityCatalog.{
  UnityCatalogParams, unity_catalog_stack_name, unity_catalog_config_path, unity_catalog_patch,
  UnityCatalogSchemaParams,
}

-- `[Step(key, [the stack file, its id])]`
abbrev pub one_stack :
    String → String → (Fields → Fields) → String → StackGroup → String → String → Playbook
one_stack key path patch environment group stack_name stack_uuid = record {
  steps =
      step key [] (
        edit_file path (dict_patch patch)
        ∷ register_stack_id environment group stack_name stack_uuid
        ∷ [])
      ∷ [];
}

unfoldable pub build_workspace_folder : WorkspaceFolderParams → Playbook
build_workspace_folder params =
    one_stack "workspace_folder"
      (workspace_folder_config_path params.environment params.business_domain)
      (workspace_folder_patch params) params.environment workspace_folder
      (workspace_folder_stack_name params.business_domain) params.stack_uuid

unfoldable pub build_unity_catalog : UnityCatalogParams → Playbook
build_unity_catalog params =
    one_stack "unity_catalog" (unity_catalog_config_path params.environment params.business_domain)
      (unity_catalog_patch params) params.environment unity_catalog
      (unity_catalog_stack_name params.business_domain) params.stack_uuid

unfoldable pub unity_catalog_schema_stack_name : String → String
unity_catalog_schema_stack_name catalog = catalog <> "_unity_catalog_schema"

unfoldable pub unity_catalog_schema_config_path : String → String → String → String
unfolding unity_catalog_schema_stack_name
unity_catalog_schema_config_path environment domain catalog =
    "src/configs/"
    <> (environment
        <> ("/domain_stacks/data_domain/unity_catalog_schema/"
            <> (domain <> ("/" <> (unity_catalog_schema_stack_name catalog <> ".tm.yml")))))

-- `f"{name}"`, for a name that may be None.
abbrev pub shown : Option String → String
shown none = "None"
shown (some name) = name

unfoldable pub unity_catalog_schema_patch : UnityCatalogSchemaParams → Fields → Fields
unity_catalog_schema_patch params =
    bundle_instance_patch (unity_catalog_schema_stack_name (shown params.catalog_name))
      params.stack_uuid "/src/bundles/domain_stacks/data_domain/unity_catalog_schema"
      params.environment
      (field "domain_name" (str params.business_domain) (
        field "workspace_name" (value_of params.workspace_name)
          (field "catalog_name" (value_of params.catalog_name) empty)))
      (("schema_list", params.schemas) ∷ [])

unfoldable pub build_unity_catalog_schema : UnityCatalogSchemaParams → Playbook
build_unity_catalog_schema params =
    one_stack "unity_catalog_schema"
      (unity_catalog_schema_config_path params.environment params.business_domain
        (shown params.catalog_name))
      (unity_catalog_schema_patch params) params.environment unity_catalog_schema
      (unity_catalog_schema_stack_name (shown params.catalog_name)) params.stack_uuid

pub record SchemaParams : Type 0 where
  pub catalog : String
  pub name : String
  pub owner : String
  pub comment : Option String

unfoldable pub locate_catalog : String → String
locate_catalog catalog = "stacks/catalogs/" <> (catalog <> "/catalog.tm.yaml")

abbrev pub append_last : Items → Value → Items
append_last nil v = cons v nil
append_last (cons x xs) v = cons x (append_last xs v)

abbrev pub characters : String → Items
characters String.[] = nil
characters (String.◌∷◌ c s) = cons (str (String.◌∷◌ c "")) (characters s)

abbrev pub keys : Fields → Items
keys empty = nil
keys (entry q k v d) = cons (if q then quoted k else str k) (keys d)

-- `[*value]`, where the value is `document.get(key, [])`.
abbrev pub spread : Option Value → Result Items
spread none = ok nil
spread (some (list xs)) = ok xs
spread (some (str s)) = ok (characters s)
spread (some (quoted s)) = ok (characters s)
spread (some (dict d)) = ok (keys d)
spread (some _) = err type_error

abbrev pub schema_entry : String → String → Option String → Fields
schema_entry name owner none = field "name" (str name) (field "owner" (str owner) empty)
schema_entry name owner (some comment) =
    field "name" (str name) (field "owner" (str owner) (field "comment" (str comment) empty))

-- `add_schema_patch`
unfoldable pub add_schema_patch : String → String → Option String → Fields → Result Fields
add_schema_patch name owner comment document = spread (get "schemas" document) >>= λ schemas.
    ok
      (put "schemas" (list (append_last schemas (dict (schema_entry name owner comment)))) document)

unfoldable pub build_schema : SchemaParams → Playbook
build_schema params = record {
  steps =
      step "add-schema" [] (
        edit_file (locate_catalog params.catalog)
          (in_dict (add_schema_patch params.name params.owner params.comment))
        ∷ [])
      ∷ [];
}
