-- ===== src/Recipes/WorkspaceFolder.antt =====
-- server/recipes/workspace_folder.py: the parameters and the stack file of a domain's folders.
use terramate_api_wrapper.Base.{String, ◌<>◌, Option, none, some, List, [], ◌∷◌}
use terramate_api_wrapper.Value.{str, Fields, empty, field}
use terramate_api_wrapper.Recipes.BundleInstance.{bundle_instance_patch}
use terramate_api_wrapper.Recipes.Names.{default_workspace_name, or_default, value_of}

unfoldable pub default_folder_names : String → List String
default_folder_names domain =
    (domain <> "_assets/ai_apps")
    ∷ (domain <> "_assets/ai_ml")
    ∷ (domain <> "_assets/data_aibi")
    ∷ (domain <> "_assets/data_apps")
    ∷ (domain <> "_assets/data_deng")
    ∷ (domain <> "_aibi_genie")
    ∷ (domain <> "_aibi_dashboards")
    ∷ []

pub record WorkspaceFolderParams : Type 0 where
  pub business_domain : String
  pub environment : String
  pub workspace_name : Option String
  pub folder_names : Option (List String)
  pub stack_uuid : String

-- `if self.folder_names is None`
abbrev pub folders_or : Option (List String) → List String → List String
folders_or none default = default
folders_or (some names) default = names

-- `_apply_defaults`
unfoldable pub with_folder_defaults : WorkspaceFolderParams → WorkspaceFolderParams
with_folder_defaults params = record params {
  workspace_name = some (
      or_default params.workspace_name
        (default_workspace_name params.business_domain params.environment));
  folder_names =
      some (folders_or params.folder_names (default_folder_names params.business_domain));
}

unfoldable pub workspace_folder_stack_name : String → String
workspace_folder_stack_name domain = domain <> "_workspace_folder"

unfoldable pub workspace_folder_config_path : String → String → String
unfolding workspace_folder_stack_name
workspace_folder_config_path environment domain =
    "src/configs/"
    <> (environment
        <> ("/domain_stacks/business_domain/workspace_folder/"
            <> (domain <> ("/" <> (workspace_folder_stack_name domain <> ".tm.yml")))))

-- The patch, for parameters that were validated.
unfoldable pub workspace_folder_patch : WorkspaceFolderParams → Fields → Fields
unfolding workspace_folder_stack_name
workspace_folder_patch params =
    bundle_instance_patch (workspace_folder_stack_name params.business_domain) params.stack_uuid
      "/src/bundles/domain_stacks/business_domain/workspace_folder" params.environment
      (field "domain_name" (str params.business_domain)
        (field "workspace_name" (value_of params.workspace_name) empty))
      (("folder_names", folders_or params.folder_names []) ∷ [])
