-- ===== src/Framework.antt =====
-- server/recipes/framework.py: what a Recipe generates.
use terramate_api_wrapper.Base.{ℕ, String, Bool, List}
use terramate_api_wrapper.Value.{Value}
use terramate_api_wrapper.Result.{Result, ◌>>=◌}

-- `AddFile`, `EditFile` and `EditText`. A patch may raise.
pub data FileEdit : Type 0 where
  add_file : String → String → FileEdit
  edit_file : String → (Value → Result Value) → FileEdit
  edit_text : String → (String → Result String) → FileEdit

pub record OutputRef : Type 0 where
  pub step_key : String
  pub output_name : String

-- A hook is a callable: it may answer differently from one moment to the next.
abbrev pub Hook : Type 0
Hook = ℕ → Result (Unit {0})

pub record StepSpec : Type 0 where
  pub key : String
  pub bundle_edits : List FileEdit
  pub depends_on : List String
  pub consumes : List OutputRef
  pub produces : List String
  pub preflight : List Hook
  pub postflight : List Hook

pub record Playbook : Type 0 where
  pub steps : List StepSpec

-- `params_model.model_validate` completes the raw parameters, minting uuids for those that are not
-- given, and `build` generates the Playbook from what it returns.
pub record Recipe : Type 0 where
  pub parallel : Bool
  pub model_validate : (ℕ → String) → Value → Result Value
  pub build : Value → Result Playbook

unfoldable pub build_from_params_dict : Recipe → (ℕ → String) → Value → Result Playbook
build_from_params_dict recipe uuids raw_params =
    recipe.model_validate uuids raw_params >>= recipe.build
