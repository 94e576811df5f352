-- ===== src/Recipes/UnityCatalog.antt =====
-- server/recipes/unity_catalog.py and unity_catalog_schema.py: the parameters and the stack files of
-- a domain's catalogs and of their schemas.
use terramate_api_wrapper.Base.{String, ◌<>◌, Option, some, List, [], ◌∷◌}
use terramate_api_wrapper.Value.{str, Fields, empty, field}
use terramate_api_wrapper.Recipes.BundleInstance.{bundle_instance_patch}
use terramate_api_wrapper.Recipes.Names.{default_workspace_name, or_default, catalog_name, value_of}

pub record UnityCatalogParams : Type 0 where
  pub business_domain : String
  pub environment : String
  pub workspace_name : Option String
  pub catalog_suffixes : List String
  pub stack_uuid : String

-- `UnityCatalogParams._apply_defaults`
unfoldable pub with_catalog_defaults : UnityCatalogParams → UnityCatalogParams
with_catalog_defaults params = record params {
  workspace_name = some (
      or_default params.workspace_name
        (default_workspace_name params.business_domain params.environment));
}

unfoldable pub unity_catalog_stack_name : String → String
unity_catalog_stack_name domain = domain <> "_unity_catalog"

unfoldable pub unity_catalog_config_path : String → String → String
unfolding unity_catalog_stack_name
unity_catalog_config_path environment domain =
    "src/configs/"
    <> (environment
        <> ("/domain_stacks/data_domain/unity_catalog/"
            <> (domain <> ("/" <> (unity_catalog_stack_name domain <> ".tm.yml")))))

unfoldable pub unity_catalog_patch : UnityCatalogParams → Fields → Fields
unfolding unity_catalog_stack_name
unity_catalog_patch params =
    bundle_instance_patch (unity_catalog_stack_name params.business_domain) params.stack_uuid
      "/src/bundles/domain_stacks/data_domain/unity_catalog" params.environment
      (field "domain_name" (str params.business_domain)
        (field "workspace_name" (value_of params.workspace_name) empty))
      (("catalog_suffix", params.catalog_suffixes) ∷ [])

pub record UnityCatalogSchemaParams : Type 0 where
  pub business_domain : String
  pub environment : String
  pub workspace_name : Option String
  pub catalog_name : Option String
  pub catalog_suffix : Option String
  pub schemas : List String
  pub stack_uuid : String

-- `UnityCatalogSchemaParams._apply_defaults`
unfoldable pub with_schema_defaults : UnityCatalogSchemaParams → UnityCatalogSchemaParams
with_schema_defaults params = record params {
  workspace_name = some (
      or_default params.workspace_name
        (default_workspace_name params.business_domain params.environment));
  catalog_name = some (
      or_default params.catalog_name
        (catalog_name params.business_domain params.environment params.catalog_suffix));
}
