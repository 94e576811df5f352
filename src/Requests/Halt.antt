-- ===== src/Requests/Halt.antt =====
-- server/routes/requests.py: `POST /v1/requests/{id}/cancel`.
use terramate_api_wrapper.Base.{String, string_eq, if◌then◌else◌}
use terramate_api_wrapper.Result.{http, require}
use terramate_api_wrapper.Models.{RequestStatus, cancelled, Request, find_request, save_request}
use terramate_api_wrapper.Session.{Exec, ◌>>=◌, ◌>>◌, pure, raise, lift, query, modify, commit}
use terramate_api_wrapper.Orchestrator.Status.{is_terminal, is_cancelled}

pub record RequestState : Type 0 where
  pub request_id : String
  pub status : RequestStatus

abbrev pub cancelled_row : Request → Request
cancelled_row row = record row { status = cancelled }

abbrev pub cancel_row : Request → Exec RequestState
cancel_row row =
    if is_cancelled row.status
    then pure (record { request_id = row.id; status = row.status })
    else if is_terminal row.status
    then raise (http 409 "Request already reached a terminal state")
    else do
      modify (save_request (cancelled_row row))
      commit
      pure (record { request_id = row.id; status = cancelled })

unfoldable pub cancel_request : String → Exec RequestState
cancel_request request_id = do
  found ← query (find_request request_id)
  row ← lift (require (http 404 "Request not found") found)
  cancel_row row
