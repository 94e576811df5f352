-- ===== src/Orchestrator/Apply.antt =====
-- server/orchestrator.py: `record_apply_result` and `_land_after_postflight`.
use terramate_api_wrapper.Base.{
  String, ◌&&◌, Option, none, some, List, [], ◌∷◌, ◌++◌, ◌==◌, string_eq, first, if◌then◌else◌,
}
use terramate_api_wrapper.Value.{entry, Value, Fields, empty}
use terramate_api_wrapper.Result.{Result, ok, err, value_error}
use terramate_api_wrapper.Models.{StepStatus, done, rejected, Request, Step, Output, Db, save_step}
use terramate_api_wrapper.Framework.{StepSpec}
use terramate_api_wrapper.Table
use terramate_api_wrapper.Session.{
  Exec, ◌>>=◌, ◌>>◌, pure, raise, lift, query, modify, ask, commit, attempt,
}
use terramate_api_wrapper.Orchestrator.Status.{request_of, transition, roll_up_request, can_advance}
use terramate_api_wrapper.Orchestrator.Spec.{build_step_spec, run_hooks}
use terramate_api_wrapper.World.{World}

-- `APPLY_OUTCOMES`: the status that an outcome's text names, if it is one of them.
unfoldable pub apply_outcome : String → Option StepStatus
apply_outcome outcome =
    if outcome == "done"
    then some done
    else if outcome == "failed"
    then some StepStatus.failed
    else if outcome == "rejected"
    then some rejected
    else none

-- The row of one output of a Step.
unfoldable pub find_output : String → String → List Output → Option Output
find_output step_id key outputs = first (λ o. o.step_id == step_id && o.key == key) outputs

abbrev pub add_output : Output → Db → Db
add_output output db = record db { outputs = db.outputs ++ (output ∷ []) }

abbrev pub save_output : Output → Db → Db
save_output output db = record db { outputs = Table.save (λ o. o.id) output db.outputs }

-- A postflight hook that raises fails the Step.
abbrev pub landing : Result (Unit {0}) → StepStatus
landing (ok _) = done
landing (err _) = StepStatus.failed

module _ (w : World) where
  abbrev pub write_output : Step → String → Value → Option Output → Exec (Unit {0})
  write_output step key value none = do
    id ← ask w.uuid
    now ← ask w.clock
    modify (
        add_output
          (record { id = id; step_id = step.id; key = key; value = value; captured_at = now }))
  write_output step key value (some existing) =
      modify (save_output (record existing { value = value }))

  -- Each output is inserted, or overwritten in place.
  unfoldable pub upsert_outputs : Step → Fields → Exec (Unit {0})
  upsert_outputs step empty = pure tt
  upsert_outputs step (entry q key value rest) = do
    existing ← query (λ db. find_output step.id key db.outputs)
    write_output step key value existing
    upsert_outputs step rest

  abbrev pub with_postflight : Step → StepSpec → Exec (Unit {0})
  with_postflight step spec = do
    postflight ← attempt (run_hooks spec.postflight step "postflight")
    transition w step (landing postflight)
    roll_up_request step.request_id

  unfoldable pub land_after_postflight : Step → Request → Exec (Unit {0})
  land_after_postflight step row = do
    built ← ask (build_step_spec w step row)
    spec ← lift built
    with_postflight step spec

  abbrev pub settle : StepStatus → Step → Request → Exec (Unit {0})
  settle done step row = land_after_postflight step row
  settle status step row = do transition w step status; roll_up_request step.request_id

  abbrev pub settle_if : StepStatus → Step → Request → Exec (Unit {0})
  settle_if status step row = if can_advance step row then settle status step row else pure tt

  abbrev pub with_row : StepStatus → Step → Exec (Unit {0})
  with_row status step = do row ← request_of step; settle_if status step row; commit

  abbrev pub store_outputs : StepStatus → Step → Fields → Exec (Unit {0})
  store_outputs done step outputs = upsert_outputs step outputs
  store_outputs _ step outputs = pure tt

  abbrev pub record_outcome : Option StepStatus → Step → Fields → String → Exec (Unit {0})
  record_outcome none step outputs tf_console = raise (value_error "Unknown apply outcome")
  record_outcome (some status) step outputs tf_console = do
    let reported = record step { tf_console = some tf_console }
    modify (save_step reported)
    store_outputs status reported outputs
    with_row status reported

  unfoldable pub record_apply_result : Step → String → Fields → String → Exec (Unit {0})
  record_apply_result step outcome = record_outcome (apply_outcome outcome) step
