-- ===== src/Requests/Report.antt =====
-- server/routes/requests.py: `PUT /v1/requests/{id}/steps/{n}/outputs`, where CI pushes an outcome.
use terramate_api_wrapper.Base.{ℕ, String, Bool, true, false, Option, none, some, if◌then◌else◌}
use terramate_api_wrapper.Value.{Fields}
use terramate_api_wrapper.Result.{Result, ok, err, http, missing_row, require}
use terramate_api_wrapper.Models.{StepStatus, queued, Step, find_step}
use terramate_api_wrapper.Session.{Exec, ◌>>=◌, ◌>>◌, pure, raise, lift, query}
use terramate_api_wrapper.Auth.{require_ci_principal}
use terramate_api_wrapper.Orchestrator.Apply.{apply_outcome, record_apply_result}
use terramate_api_wrapper.Requests.Read.{find_step_at}
use terramate_api_wrapper.World.{World}

-- `exit_code` is accepted and ignored, so it is left out.
pub record OutputReport : Type 0 where
  pub status : String
  pub outputs : Fields
  pub tf_console : String

pub record OutputReportResponse : Type 0 where
  pub ordinal : ℕ
  pub key : String
  pub status : StepStatus

-- `step.status in _REPORTABLE_STEP_STATUSES`
abbrev pub is_reportable : StepStatus → Bool
is_reportable queued = false
is_reportable _ = true

-- `status: Literal["done", "failed", "rejected"]`
abbrev pub validated : OutputReport → Result (Unit {0})
validated body = elim (apply_outcome body.status) [
  | none ↦ err (http 422 "status")
  | some _ ↦ ok tt
]

module _ (w : World) where
  abbrev pub report_to : Step → OutputReport → Exec OutputReportResponse
  report_to step body =
      if is_reportable step.status
      then (do
        record_apply_result w step body.status body.outputs body.tf_console
        found ← query (find_step step.id)
        after ← lift (require missing_row found)
        pure (record { ordinal = after.ordinal; key = after.key; status = after.status }))
      else raise (http 409 "Step is not in a state that accepts an apply report")

  unfoldable pub report_step_outputs :
      Option String → Option String → String → ℕ → OutputReport → Exec OutputReportResponse
  report_step_outputs x_forwarded_email x_forwarded_user request_id ordinal body = do
    lift (require_ci_principal w.settings x_forwarded_email x_forwarded_user)
    lift (validated body)
    found ← query (λ db. find_step_at request_id ordinal db.steps)
    step ← lift (require (http 404 "Step not found") found)
    report_to step body
