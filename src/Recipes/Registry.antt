-- ===== src/Recipes/Registry.antt =====
-- server/recipes/registry.py: the Recipe of each Type. The models of the parameters are Pydantic's; what
-- the Recipes need of them is a record that stands for each.
use terramate_api_wrapper.Base.{
  ℕ, String, Bool, true, false, not, Option, none, some, List, [], ◌∷◌, all, ◌==◌, string_eq,
  if◌then◌else◌, ◌≡◌, refl, sym, ap, ◌∙◌, arith, Bool-cases, inl, inr,
}
use terramate_api_wrapper.Value.{Value, dict}
use terramate_api_wrapper.Result.{Result, ok, ◌>>=◌, ok-inj, bind-ok}
use terramate_api_wrapper.Framework.{FileEdit, edit_text, Playbook, Recipe}
use terramate_api_wrapper.Recipes.Workspace.{
  WorkspaceParams, normalize_fields, mint_stack_uuids, build_workspace,
}
use terramate_api_wrapper.Recipes.WorkspaceFolder.{WorkspaceFolderParams, with_folder_defaults}
use terramate_api_wrapper.Recipes.UnityCatalog.{
  UnityCatalogParams, with_catalog_defaults, UnityCatalogSchemaParams, with_schema_defaults,
}
use terramate_api_wrapper.Recipes.Playbooks.{
  build_workspace_folder, build_unity_catalog, build_unity_catalog_schema, SchemaParams,
  build_schema,
}

-- A model: the checks of its fields, which give each absent one its default, a new uuid included, and
-- `model_dump`, which `model_load` undoes.
pub record Model (P : Type 0) : Type 0 where
  pub fields : (ℕ → String) → Value → Result P
  pub model_dump : P → Value
  pub model_load : Value → Result P

-- The models of the Types, and the new uuid that the patch of the network foundation may ask for.
pub record Models : Type 0 where
  pub workspace : Model WorkspaceParams
  pub workspace_folder : Model WorkspaceFolderParams
  pub unity_catalog : Model UnityCatalogParams
  pub unity_catalog_schema : Model UnityCatalogSchemaParams
  pub schema : Model SchemaParams
  pub new_uuid : String

-- A Recipe with validators before and after the checks of the fields.
abbrev pub recipe_of :
    {P : Type 0}
    → Bool
    → Model P
    → (Value → Result Value)
    → ((ℕ → String) → P → P)
    → (P → Result Playbook)
    → Recipe
recipe_of parallel model before behind build = record {
  parallel = parallel;
  model_validate = λ uuids raw.
      before raw >>= λ d. model.fields uuids d >>= λ p. ok (model.model_dump (behind uuids p));
  build = λ v. model.model_load v >>= build;
}

-- `_normalize_fields`: only a dict is changed.
abbrev pub normalize : Value → Result Value
normalize (dict raw) = normalize_fields raw >>= λ d. ok (dict d)
normalize v = ok v

abbrev pub find_recipe : String → List (String × Recipe) → Option Recipe
find_recipe type [] = none
find_recipe type ((t, recipe) ∷ rest) = if t == type then some recipe else find_recipe type rest

module _ (models : Models) where
  -- `WorkspaceRecipe`, `FoundationRecipe` and `NetworkFoundationRecipe`
  abbrev pub workspace_recipe : Recipe
  workspace_recipe =
      recipe_of false models.workspace normalize mint_stack_uuids (build_workspace models.new_uuid)

  abbrev pub workspace_folder_recipe : Recipe
  workspace_folder_recipe =
      recipe_of false models.workspace_folder ok (λ uuids. with_folder_defaults)
        (λ p. ok (build_workspace_folder p))

  abbrev pub unity_catalog_recipe : Recipe
  unity_catalog_recipe =
      recipe_of false models.unity_catalog ok (λ uuids. with_catalog_defaults)
        (λ p. ok (build_unity_catalog p))

  abbrev pub unity_catalog_schema_recipe : Recipe
  unity_catalog_schema_recipe =
      recipe_of false models.unity_catalog_schema ok (λ uuids. with_schema_defaults)
        (λ p. ok (build_unity_catalog_schema p))

  abbrev pub schema_recipe : Recipe
  schema_recipe = recipe_of true models.schema ok (λ uuids p. p) (λ p. ok (build_schema p))

  abbrev pub serial_recipes : List (String × Recipe)
  serial_recipes =
      ("workspace", workspace_recipe)
      ∷ ("foundation", workspace_recipe)
      ∷ ("network_foundation", workspace_recipe)
      ∷ ("workspace_folder", workspace_folder_recipe)
      ∷ ("unity_catalog", unity_catalog_recipe)
      ∷ ("unity_catalog_schema", unity_catalog_schema_recipe)
      ∷ []

  -- `RECIPES.get(type)`
  unfoldable pub recipes : String → Option Recipe
  recipes type = find_recipe type (("schema", schema_recipe) ∷ serial_recipes)

-- No edit of the Playbook is an `EditText`.
abbrev pub is_structured : FileEdit → Bool
is_structured (edit_text path patch) = false
is_structured _ = true

abbrev pub only_structured : Playbook → Bool
only_structured playbook = all (λ s. all is_structured s.bundle_edits) playbook.steps

module _ (models : Models) where
  parallel_in :
      (recipe : Recipe) (entries : List (String × Recipe)) (type : String)
      → find_recipe type entries ≡ some recipe
      → all (λ entry. not entry.1.parallel) entries ≡ true
      → recipe.parallel ≡ true
      → ⊥
  parallel_in recipe [] type found serial parallel = cc found
  parallel_in recipe ((t, r) ∷ entries) type found serial parallel = elim (Bool-cases (t == type)) [
    | inl e ↦
        let same : r ≡ recipe = cc (rw e at found) in
        absurd (ground (arith, ap (λ (x : Recipe). x.parallel) same, serial, parallel))
    | inr e ↦ parallel_in recipe entries type (rw e at found) (ground (arith, serial)) parallel
  ]

  parallel-schema :
      (type : String) (recipe : Recipe)
      → recipes models type ≡ some recipe
      → recipe.parallel ≡ true
      → recipe ≡ schema_recipe models
  unfolding recipes
  parallel-schema type recipe found parallel = elim (Bool-cases ("schema" == type)) [
    | inl e ↦ sym (cc (rw e at found))
    | inr e ↦ absurd (parallel_in recipe (serial_recipes models) type (rw e at found) refl parallel)
  ]

  -- A Type whose pull requests may be open next to others has no Step that edits text: it registers no
  -- stack id, and so leaves the shared config file of the environment to the serial Types.
  pub parallel-only_structured :
      (type : String) (recipe : Recipe) (params : Value) (playbook : Playbook)
      → recipes models type ≡ some recipe
      → recipe.parallel ≡ true
      → recipe.build params ≡ ok playbook
      → only_structured playbook ≡ true
  unfolding build_schema
  parallel-only_structured type recipe params playbook found parallel built =
      let same = parallel-schema type recipe found parallel in
      let (p, loaded, made) =
        bind-ok (models.schema.model_load params) (λ (p : SchemaParams). ok (build_schema p))
          playbook (sym (ap (λ (r : Recipe). r.build params) same) ∙ built) in
      rw (sym (ok-inj made)) refl
