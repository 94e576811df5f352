-- ===== src/Orchestrator/Spec.antt =====
-- server/orchestrator.py: `_build_step_spec` and `_run_hooks`.
use terramate_api_wrapper.Base.{ℕ, String, List, [], ◌∷◌, ◌==◌, string_eq, first}
use terramate_api_wrapper.Result.{Result, key_error, stop_iteration, require, ◌>>=◌}
use terramate_api_wrapper.Framework.{Hook, StepSpec, build_from_params_dict}
use terramate_api_wrapper.Models.{Request, Step}
use terramate_api_wrapper.Session
use terramate_api_wrapper.Session.{Exec, hook_invoked}
use terramate_api_wrapper.World.{World}

module _ (w : World) where
  -- The Step's spec, built again from the request's type and parameters.
  unfoldable pub build_step_spec : Step → Request → ℕ → Result StepSpec
  build_step_spec step row moment = do
    recipe ← require (key_error row.type) (w.recipes row.type)
    playbook ← build_from_params_dict recipe (w.uuids moment) row.params
    require stop_iteration (first (λ spec. spec.key == step.key) playbook.steps)

-- Every hook in order; the first that raises ends the run.
unfoldable pub run_hooks : List Hook → Step → String → Exec (Unit {0})
run_hooks [] step hook_name = Session.pure tt
run_hooks (hook ∷ hooks) step hook_name =
    Session.◌>>◌ (Session.emit (hook_invoked step hook_name)) (
      Session.◌>>=◌ (Session.ask hook)
        (λ answer. Session.◌>>◌ (Session.lift answer) (run_hooks hooks step hook_name)))
