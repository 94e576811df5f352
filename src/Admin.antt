-- ===== src/Admin.antt =====
-- server/routes/admin.py: the intake gate and `POST /v1/admin/requests/cancel-all`.
use terramate_api_wrapper.Base.{
  String, Bool, not, Option, none, some, List, [], ◌∷◌, leb, ◌==◌, string_eq, select, if◌then◌else◌,
}
use terramate_api_wrapper.Models.{RequestStatus, Request, Step, IntakeGate, Db, save_request}
use terramate_api_wrapper.Session.{Exec, ◌>>=◌, ◌>>◌, pure, lift, query, modify, ask, commit}
use terramate_api_wrapper.Auth.{require_admin}
use terramate_api_wrapper.Orchestrator.Status.{is_terminal, is_submitted, steps_of}
use terramate_api_wrapper.Orchestrator.Queue.{sort}
use terramate_api_wrapper.Requests.Read.{in_order}
use terramate_api_wrapper.Requests.Halt.{cancelled_row}
use terramate_api_wrapper.World.{World}

pub record CancelledRequest : Type 0 where
  pub request_id : String
  pub type : String
  pub previous_status : RequestStatus
  pub open_pr_urls : List String

-- `[s.pr_url for s in request.steps if s.status == "submitted" and s.pr_url]`
abbrev pub open_url : Option String → List String → List String
open_url none rest = rest
open_url (some url) rest = if url == "" then rest else url ∷ rest

unfoldable pub open_pr_urls : List Step → List String
open_pr_urls [] = []
open_pr_urls (s ∷ ss) =
    let rest = open_pr_urls ss in if is_submitted s.status then open_url s.pr_url rest else rest

-- `order_by(ProvisioningRequest.created_at)`
abbrev pub oldest_first : Request → Request → Bool
oldest_first r q = leb r.created_at q.created_at

unfoldable pub live_requests : Db → List Request
live_requests db = sort oldest_first (select (λ r. not (is_terminal r.status)) db.requests)

abbrev pub entry : Db → Request → CancelledRequest
entry db row = record {
  request_id = row.id;
  type = row.type;
  previous_status = row.status;
  open_pr_urls = open_pr_urls (sort in_order (steps_of row.id db));
}

-- The loop of `cancel_all_requests`.
unfoldable pub cancel_each : List Request → Exec (List CancelledRequest)
cancel_each [] = pure []
cancel_each (row ∷ rows) = do
  first ← query (λ db. entry db row)
  modify (save_request (cancelled_row row))
  rest ← cancel_each rows
  pure (first ∷ rest)

-- The route behind its check.
abbrev pub cancel_listed : Exec (List CancelledRequest)
cancel_listed = do live ← query live_requests; entries ← cancel_each live; commit; pure entries

module _ (w : World) where
  unfoldable pub cancel_all_requests : Option String → Option String → Exec (List CancelledRequest)
  cancel_all_requests x_forwarded_email x_forwarded_user = do
    lift (require_admin w.settings x_forwarded_email x_forwarded_user)
    cancel_listed

  unfoldable pub read_intake_gate : Option String → Option String → Exec IntakeGate
  read_intake_gate x_forwarded_email x_forwarded_user = do
    lift (require_admin w.settings x_forwarded_email x_forwarded_user)
    query (λ db. db.gate)

  unfoldable pub set_intake_gate : Option String → Option String → Bool → Exec IntakeGate
  set_intake_gate x_forwarded_email x_forwarded_user enabled = do
    lift (require_admin w.settings x_forwarded_email x_forwarded_user)
    now ← ask w.clock
    modify (λ db. record db { gate = record { enabled = enabled; updated_at = now } })
    commit
    query (λ db. db.gate)
