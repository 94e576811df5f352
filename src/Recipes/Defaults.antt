-- ===== src/Recipes/Defaults.antt =====
-- `_apply_defaults` of the three types of domain stacks: the engine validates stored parameters again
-- whenever it opens a pull request.
use text.Mathlib.TextLemmas.{append-eq-nil_iff}
use terramate_api_wrapper.Base.{
  String, ◌<>◌, Bool, true, false, Option, none, some, List, not, ◌==◌, string_eq, if◌then◌else◌,
  ◌≡◌, ◌≢◌, refl, arith, Bool-cases, inl, inr,
}
use terramate_api_wrapper.Recipes.Names.{default_workspace_name, or_default, catalog_name}
use terramate_api_wrapper.Recipes.WorkspaceFolder.{
  WorkspaceFolderParams, default_folder_names, folders_or, with_folder_defaults,
}
use terramate_api_wrapper.Recipes.UnityCatalog.{
  UnityCatalogParams, with_catalog_defaults, UnityCatalogSchemaParams, with_schema_defaults,
}

-- A name that is there, and not the empty one.
abbrev pub is_named : Option String → Bool
is_named none = false
is_named (some name) = not (name == "")

-- The posted name, where there is one.
abbrev pub posted_or : Option String → Option String → Option String
posted_or posted stored = if is_named posted then posted else stored

-- How the validation of posted parameters leaves a name: there is one, and it is the posted one if one was
-- posted.
pub record Stored {P : Type 0} (validate : P → P) (name : P → Option String) (posted : P)
    : Type 0 where
  pub named : is_named (name (validate posted)) ≡ true
  pub kept : posted_or (name posted) (name (validate posted)) ≡ name (validate posted)

or_default-named :
    (given : Option String) (default : String)
    → default ≢ ""
    → is_named (some (or_default given default)) ≡ true
or_default-named none default h = ground (arith, h)
or_default-named (some name) default h = ground (arith, h)

or_default-kept :
    (given : Option String) (default : String)
    → posted_or given (some (or_default given default)) ≡ some (or_default given default)
or_default-kept none default = refl
or_default-kept (some name) default = ground arith

or_default_twice :
    (given : Option String) (default : String)
    → or_default (some (or_default given default)) default ≡ or_default given default
or_default_twice none default = ground arith
or_default_twice (some name) default = ground arith

middle-ne : (a b c : String) → b ≢ "" → a <> (b <> c) ≢ ""
middle-ne a b c h e = h (append-eq-nil_iff.0 (append-eq-nil_iff.0 e).1).0

default_workspace_name-ne :
    (domain environment : String) → default_workspace_name domain environment ≢ ""
unfolding default_workspace_name
default_workspace_name-ne domain environment = middle-ne domain "_ws_" environment (λ e. cc e)

catalog_name-ne :
    (domain environment : String) (suffix : Option String)
    → catalog_name domain environment suffix ≢ ""
unfolding catalog_name
catalog_name-ne domain environment none = middle-ne domain "_" environment (λ e. cc e)
catalog_name-ne domain environment (some suffix) = elim (Bool-cases (suffix == "")) [
  | inl blank ↦ rw blank (middle-ne domain "_" environment (λ e. cc e))
  | inr given ↦ rw given (middle-ne domain "_" (suffix <> ("_" <> environment)) (λ e. cc e))
]

or_default-Stored :
    {P : Type 0} (validate : P → P) (name : P → Option String) (posted : P) (default : String)
    → name (validate posted) ≡ some (or_default (name posted) default)
    → default ≢ ""
    → Stored validate name posted
or_default-Stored validate name posted default e h = record {
  named = rw e (or_default-named (name posted) default h);
  kept = rw e (or_default-kept (name posted) default);
}

-- A list of folders that was posted, even an empty one, and else the default list.
abbrev pub listed_or : Option (List String) → Option (List String) → Option (List String)
listed_or none default = default
listed_or (some names) default = some names

-- The validation of the parameters of a domain stack, for each of the three types, leaves every name that the
-- stack file takes set and not empty, keeps each name that was posted, and the posted list of folders, and
-- changes nothing when it is applied again to what it has left, as the engine does to stored parameters.
pub defaults-Stored :
    (folder : WorkspaceFolderParams) (catalog : UnityCatalogParams)
    (schema : UnityCatalogSchemaParams)
    → Stored with_folder_defaults (λ p. p.workspace_name) folder
      × (listed_or folder.folder_names (with_folder_defaults folder).folder_names
          ≡ (with_folder_defaults folder).folder_names)
      × (with_folder_defaults (with_folder_defaults folder) ≡ with_folder_defaults folder)
      × Stored with_catalog_defaults (λ p. p.workspace_name) catalog
      × (with_catalog_defaults (with_catalog_defaults catalog) ≡ with_catalog_defaults catalog)
      × Stored with_schema_defaults (λ p. p.workspace_name) schema
      × Stored with_schema_defaults (λ p. p.catalog_name) schema
      × (with_schema_defaults (with_schema_defaults schema) ≡ with_schema_defaults schema)
unfolding with_folder_defaults with_catalog_defaults with_schema_defaults
defaults-Stored folder catalog schema = (
  or_default-Stored with_folder_defaults (λ p. p.workspace_name) folder
      (default_workspace_name folder.business_domain folder.environment) refl
      (default_workspace_name-ne folder.business_domain folder.environment),
  listed folder.folder_names,
  rw
      (or_default_twice folder.workspace_name
        (default_workspace_name folder.business_domain folder.environment))
      refl,
  or_default-Stored with_catalog_defaults (λ p. p.workspace_name) catalog
      (default_workspace_name catalog.business_domain catalog.environment) refl
      (default_workspace_name-ne catalog.business_domain catalog.environment),
  rw
      (or_default_twice catalog.workspace_name
        (default_workspace_name catalog.business_domain catalog.environment))
      refl,
  or_default-Stored with_schema_defaults (λ p. p.workspace_name) schema
      (default_workspace_name schema.business_domain schema.environment) refl
      (default_workspace_name-ne schema.business_domain schema.environment),
  or_default-Stored with_schema_defaults (λ p. p.catalog_name) schema
      (catalog_name schema.business_domain schema.environment schema.catalog_suffix) refl
      (catalog_name-ne schema.business_domain schema.environment schema.catalog_suffix),
  rw
      (
        or_default_twice schema.workspace_name
            (default_workspace_name schema.business_domain schema.environment),
        or_default_twice schema.catalog_name
            (catalog_name schema.business_domain schema.environment schema.catalog_suffix),
      )
      refl,
)
  where
    listed :
        (names : Option (List String))
        → listed_or names (some (folders_or names (default_folder_names folder.business_domain)))
          ≡ some (folders_or names (default_folder_names folder.business_domain))
    listed none = refl
    listed (some names) = refl
