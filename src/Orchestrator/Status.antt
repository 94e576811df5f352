-- ===== src/Orchestrator/Status.antt =====
-- server/orchestrator.py: `_transition`, `_roll_up_request`, `_can_advance`, and which statuses are
-- terminal.
use terramate_api_wrapper.Base.{
  ℕ, String, Bool, true, false, not, ◌&&◌, List, ◌==◌, string_eq, any, all, select, if◌then◌else◌,
}
use terramate_api_wrapper.Result.{missing_row, require}
use terramate_api_wrapper.Models.{
  StepStatus, queued, submitted, done, rejected, RequestStatus, in_progress, succeeded, cancelled,
  Request, Step, Db, find_request, save_step, save_request,
}
use terramate_api_wrapper.Session.{
  Exec, step_transition, request_rollup, ◌>>=◌, ◌>>◌, pure, lift, query, modify, emit, ask,
}
use terramate_api_wrapper.World.{World}

-- `status in TERMINAL_REQUEST_STATUSES`
abbrev pub is_terminal : RequestStatus → Bool
is_terminal succeeded = true
is_terminal RequestStatus.failed = true
is_terminal cancelled = true
is_terminal _ = false

-- `status in _FAILED_STEP_STATUSES`
abbrev pub is_failed : StepStatus → Bool
is_failed StepStatus.failed = true
is_failed rejected = true
is_failed _ = false

abbrev pub is_done : StepStatus → Bool
is_done done = true
is_done _ = false

abbrev pub is_queued : StepStatus → Bool
is_queued queued = true
is_queued _ = false

abbrev pub is_submitted : StepStatus → Bool
is_submitted submitted = true
is_submitted _ = false

abbrev pub is_cancelled : RequestStatus → Bool
is_cancelled cancelled = true
is_cancelled _ = false

abbrev pub same_status : RequestStatus → RequestStatus → Bool
same_status RequestStatus.pending RequestStatus.pending = true
same_status in_progress in_progress = true
same_status succeeded succeeded = true
same_status RequestStatus.failed RequestStatus.failed = true
same_status cancelled cancelled = true
same_status _ _ = false

-- `request.steps`; the roll-up does not depend on their order.
abbrev pub steps_of : String → Db → List Step
steps_of request_id db = select (λ s. s.request_id == request_id) db.steps

-- The status that a request's steps add up to.
unfoldable pub rolled_up : List Step → RequestStatus
rolled_up steps =
    if any (λ s. is_failed s.status) steps
    then RequestStatus.failed
    else if all (λ s. is_done s.status) steps
    then succeeded
    else in_progress

-- The request row of a Step, `step.request`.
abbrev pub request_of : Step → Exec Request
request_of step = do found ← query (find_request step.request_id); lift (require missing_row found)

-- The row that a transition at `now` writes.
abbrev pub moved : StepStatus → ℕ → Step → Step
moved to now step = record step { status = to; status_changed_at = now; stuck = false }

module _ (w : World) where
  unfoldable pub transition : Step → StepStatus → Exec (Unit {0})
  transition step to = do
    now ← ask w.clock
    modify (save_step (moved to now step))
    emit (step_transition step to)

unfoldable pub roll_up_request : String → Exec (Unit {0})
roll_up_request request_id = do
  found ← query (find_request request_id)
  row ← lift (require missing_row found)
  steps ← query (steps_of request_id)
  let status = rolled_up steps
  if is_cancelled row.status then pure tt else do
    modify (save_request (record row { status = status }))
    if same_status status row.status
        then pure tt
        else emit (request_rollup request_id row.status status)

-- `_can_advance`
unfoldable pub can_advance : Step → Request → Bool
can_advance step row = is_submitted step.status && not (is_terminal row.status)
