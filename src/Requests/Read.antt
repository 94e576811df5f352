-- ===== src/Requests/Read.antt =====
-- server/routes/requests.py: the read routes and the responses.
use terramate_api_wrapper.Base.{
  ℕ, zero, suc, String, Bool, true, false, not, ◌&&◌, Option, List, [], ◌∷◌, map, ltb, leb, ◌==◌,
  nat_eq, string_eq, first, select, if◌then◌else◌,
}
use terramate_api_wrapper.Value.{Value}
use terramate_api_wrapper.Result.{Result, ok, err, http, require, ◌>>=◌}
use terramate_api_wrapper.Models.{StepStatus, RequestStatus, Request, Step, Db, find_request}
use terramate_api_wrapper.Orchestrator.Status.{is_terminal, steps_of}
use terramate_api_wrapper.Orchestrator.Queue.{sort}
use terramate_api_wrapper.World.{World}

pub record StepOut : Type 0 where
  pub ordinal : ℕ
  pub key : String
  pub status : StepStatus
  pub pr_number : Option ℕ
  pub pr_url : Option String
  pub depends_on : List String
  pub stuck : Bool
  pub status_changed_at : ℕ

pub record RequestDetail : Type 0 where
  pub id : String
  pub type : String
  pub params : Value
  pub version : String
  pub requester : String
  pub status : RequestStatus
  pub created_at : ℕ
  pub updated_at : ℕ
  pub steps : List StepOut

unfoldable pub step_to_out : Step → StepOut
step_to_out step = record {
  ordinal = step.ordinal;
  key = step.key;
  status = step.status;
  pr_number = step.pr_number;
  pr_url = step.pr_url;
  depends_on = step.depends_on;
  stuck = step.stuck;
  status_changed_at = step.status_changed_at;
}

-- `relationship(order_by="Step.ordinal")`
abbrev pub in_order : Step → Step → Bool
in_order s t = leb s.ordinal t.ordinal

unfoldable pub to_response : Db → Request → RequestDetail
to_response db row = record {
  id = row.id;
  type = row.type;
  params = row.params;
  version = row.version;
  requester = row.requester;
  status = row.status;
  created_at = row.created_at;
  updated_at = row.updated_at;
  steps = map step_to_out (sort in_order (steps_of row.id db));
}

unfoldable pub get_request : String → Db → Result RequestDetail
get_request request_id db = do
  row ← require (http 404 "Request not found") (find_request request_id db)
  ok (to_response db row)

-- `_find_step`
unfoldable pub find_step_at : String → ℕ → List Step → Option Step
find_step_at request_id ordinal steps =
    first (λ s. s.request_id == request_id && s.ordinal == ordinal) steps

unfoldable pub get_step : String → ℕ → Db → Result StepOut
get_step request_id ordinal db = do
  step ← require (http 404 "Step not found") (find_step_at request_id ordinal db.steps)
  ok (step_to_out step)

-- `.limit(n)`
abbrev pub take {ℓ} : {A : Type ℓ} → ℕ → List A → List A
take zero xs = []
take (suc n) [] = []
take (suc n) (x ∷ xs) = x ∷ take n xs

module _ (w : World) where
  -- `order_by(created_at.desc(), id)`
  abbrev pub newest_first : Request → Request → Bool
  newest_first r q =
      if ltb q.created_at r.created_at
      then true
      else if ltb r.created_at q.created_at
      then false
      else w.text_leb r.id q.id

  unfoldable pub list_requests : Bool → ℕ → Db → Result (List RequestDetail)
  list_requests include_finished limit db =
      if ltb limit 1
      then err (http 422 "limit")
      else if ltb 1000 limit
      then err (http 422 "limit")
      else ok (
          map (to_response db) (
            take limit (
              sort newest_first (
                if include_finished
                then db.requests
                else select (λ r. not (is_terminal r.status)) db.requests))))
