-- ===== src/Models.antt =====
-- server/models.py: the rows of the four tables, and the database that holds them.
use terramate_api_wrapper.Base.{ℕ, String, Bool, Option, List, [], ◌∷◌, ◌++◌}
use terramate_api_wrapper.Value.{Value}
use terramate_api_wrapper.Framework.{OutputRef}
use terramate_api_wrapper.Table

-- The values that the program writes to `step.status`.
pub data StepStatus : Type 0 where
  queued submitted done failed rejected : StepStatus

-- The values that the program writes to `provisioning_request.status`.
pub data RequestStatus : Type 0 where
  pending in_progress succeeded failed cancelled : RequestStatus

pub record Request : Type 0 where
  pub id : String
  pub type : String
  pub params : Value
  pub version : String
  pub requester : String
  pub idempotency_key : String
  pub status : RequestStatus
  pub asset_id : Option String
  pub created_at : ℕ
  pub updated_at : ℕ

pub record Step : Type 0 where
  pub id : String
  pub request_id : String
  pub ordinal : ℕ
  pub key : String
  pub status : StepStatus
  pub pr_number : Option ℕ
  pub pr_url : Option String
  pub depends_on : List String
  pub produces : List String
  pub consumes : List OutputRef
  pub claimed_at : Option ℕ
  pub claimed_by : Option String
  pub lock_token : Option String
  pub status_changed_at : ℕ
  pub stuck : Bool
  pub tf_console : Option String
  pub created_at : ℕ
  pub updated_at : ℕ

pub record IntakeGate : Type 0 where
  pub enabled : Bool
  pub updated_at : ℕ

pub record Output : Type 0 where
  pub id : String
  pub step_id : String
  pub key : String
  pub value : Value
  pub captured_at : ℕ

pub record Db : Type 0 where
  pub requests : List Request
  pub steps : List Step
  pub outputs : List Output
  -- the single row `intake_gate.id == 1`
  pub gate : IntakeGate

-- `session.get` and the UPDATE of one row.
abbrev pub save_step : Step → Db → Db
save_step step db = record db { steps = Table.save (λ s. s.id) step db.steps }

abbrev pub save_request : Request → Db → Db
save_request row db = record db { requests = Table.save (λ r. r.id) row db.requests }

abbrev pub find_step : String → Db → Option Step
find_step id db = Table.find (λ s. s.id) id db.steps

abbrev pub find_request : String → Db → Option Request
find_request id db = Table.find (λ r. r.id) id db.requests

-- The INSERT of a request and its Steps.
abbrev pub insert_rows : Request → List Step → Db → Db
insert_rows row steps db = record db {
  requests = db.requests ++ (row ∷ []);
  steps = db.steps ++ steps;
}
