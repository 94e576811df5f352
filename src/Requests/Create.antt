-- ===== src/Requests/Create.antt =====
-- server/routes/requests.py: `POST /v1/requests`.
use terramate_api_wrapper.Base.{
  ℕ, suc, String, Bool, true, false, ◌||◌, Option, none, some, List, [], ◌∷◌, ◌==◌, string_eq,
  first, if◌then◌else◌,
}
use terramate_api_wrapper.Value.{Value}
use terramate_api_wrapper.Result.{Result, ok, err, http, key_error, integrity_error, require}
use terramate_api_wrapper.Result as Result
use terramate_api_wrapper.Framework.{StepSpec, Recipe}
use terramate_api_wrapper.Models.{
  queued, RequestStatus, pending, Request, Step, Db, find_request, insert_rows,
}
use terramate_api_wrapper.Table.{is_some, clashes}
use terramate_api_wrapper.Session.{
  Exec, ◌>>=◌, ◌>>◌, pure, raise, lift, query, modify, ask, commit, rollback,
}
use terramate_api_wrapper.Auth.{resolve_requester}
use terramate_api_wrapper.World.{World}

pub record CreateRequestResponse : Type 0 where
  pub request_id : String
  pub status : RequestStatus

-- `_find_by_idempotency_key`
unfoldable pub find_by_idempotency_key : String → List Request → Option Request
find_by_idempotency_key idempotency_key requests =
    first (λ r. r.idempotency_key == idempotency_key) requests

-- `step_ids_by_key`, a dict from Step keys to the row ids minted for them.
abbrev pub StepIds : Type 0
StepIds = List (String × String)

unfoldable pub put_id : String → String → StepIds → StepIds
put_id k v [] = (k, v) ∷ []
put_id k v ((j, u) ∷ d) = if j == k then (j, v) ∷ d else (j, u) ∷ put_id k v d

unfoldable pub id_of : String → StepIds → Option String
id_of k [] = none
id_of k ((j, u) ∷ d) = if j == k then some u else id_of k d

-- `[step_ids_by_key[key] for key in step_spec.depends_on]`
unfoldable pub ids_of : StepIds → List String → Result (List String)
ids_of ids [] = ok []
ids_of ids (k ∷ ks) =
    Result.◌>>=◌ (require (key_error k) (id_of k ids))
      λ id. Result.◌>>=◌ (ids_of ids ks) λ rest. ok (id ∷ rest)

module _ (w : World) where
  unfoldable pub mint_ids : List StepSpec → StepIds → Exec StepIds
  mint_ids [] ids = pure ids
  mint_ids (spec ∷ specs) ids = do id ← ask w.uuid; mint_ids specs (put_id spec.key id ids)

-- The row of one Step; the server's defaults fill the times.
abbrev pub new_step : String → ℕ → String → List String → ℕ → StepSpec → Step
new_step request_id ordinal id depends_on now spec = record {
  id = id;
  request_id = request_id;
  ordinal = ordinal;
  key = spec.key;
  status = queued;
  pr_number = none;
  pr_url = none;
  depends_on = depends_on;
  produces = spec.produces;
  consumes = spec.consumes;
  claimed_at = none;
  claimed_by = none;
  lock_token = none;
  status_changed_at = now;
  stuck = false;
  tf_console = none;
  created_at = now;
  updated_at = now;
}

-- `for ordinal, step_spec in enumerate(playbook.steps)`
unfoldable pub new_steps : String → StepIds → ℕ → ℕ → List StepSpec → Result (List Step)
new_steps request_id ids now ordinal [] = ok []
new_steps request_id ids now ordinal (spec ∷ specs) =
    Result.◌>>=◌ (require (key_error spec.key) (id_of spec.key ids)) λ id.
      Result.◌>>=◌ (ids_of ids spec.depends_on) λ depends_on.
        Result.◌>>=◌ (new_steps request_id ids now (suc ordinal) specs)
          λ rest. ok (new_step request_id ordinal id depends_on now spec ∷ rest)

-- What another `POST` commits between this one's look-up and its commit.
pub record Rival : Type 0 where
  pub row : Request
  pub steps : List Step

abbrev pub arrive : Option Rival → Db → Db
arrive none db = db
arrive (some rival) db = insert_rows rival.row rival.steps db

-- The rival's rows are there for both transactions.
abbrev pub concurrently : Option Rival → Exec (Unit {0})
concurrently rival s =
    (ok tt, record s { working = arrive rival s.working; committed = arrive rival s.committed })

abbrev pub respond : Request → CreateRequestResponse
respond row = record { request_id = row.id; status = row.status }

-- `except IntegrityError`: a unique index refused a row.
abbrev pub after_conflict : String → Exec CreateRequestResponse
after_conflict idempotency_key = do
  rollback
  found ← query (λ db. find_by_idempotency_key idempotency_key db.requests)
  existing ← lift (require integrity_error found)
  pure (respond existing)

-- What the unique index on `idempotency_key` and the primary keys refuse.
unfoldable pub violates : Request → List Step → Db → Bool
violates row steps db =
    is_some (find_by_idempotency_key row.idempotency_key db.requests)
    || (is_some (find_request row.id db) || clashes (λ (s : Step). s.id) steps db.steps)

-- The commit of the new rows.
unfoldable pub flush : Request → List Step → Exec CreateRequestResponse
flush row steps = do
  refused ← query (violates row steps)
  if refused
      then after_conflict row.idempotency_key
      else do modify (insert_rows row steps); commit; pure (respond row)

-- The intake gate.
abbrev pub if_open : Bool → Exec CreateRequestResponse → Exec CreateRequestResponse
if_open true m = m
if_open false m = raise (http 503 "Intake is currently disabled")

module _ (w : World) where
  -- The request row that is added.
  abbrev pub new_row : String → String → Value → String → String → ℕ → Request
  new_row id type params requester idempotency_key now = record {
    id = id;
    type = type;
    params = params;
    version = "v1";
    requester = requester;
    idempotency_key = idempotency_key;
    status = pending;
    asset_id = none;
    created_at = now;
    updated_at = now;
  }

  -- From the open gate to the commit.
  unfoldable pub admit :
      String → Recipe → Value → String → String → Option Rival → Exec CreateRequestResponse
  admit type recipe params requester idempotency_key rival = do
    playbook ← lift (recipe.build params)
    id ← ask w.uuid
    ids ← mint_ids w playbook.steps []
    now ← ask w.clock
    steps ← lift (new_steps id ids now 0 playbook.steps)
    concurrently rival
    flush (new_row id type params requester idempotency_key now) steps

  -- `params` are what the request envelope of the type validated.
  unfoldable pub create_request :
      Option String
      → Option String
      → String
      → String
      → Value
      → Option Rival
      → Exec CreateRequestResponse
  create_request x_forwarded_email x_forwarded_user idempotency_key type raw_params rival = do
    requester ← lift (resolve_requester x_forwarded_email x_forwarded_user)
    recipe ← lift (require (http 422 "type") (w.recipes type))
    validated ← ask (λ moment. recipe.model_validate (w.uuids moment) raw_params)
    params ← lift validated
    existing ← query (λ db. find_by_idempotency_key idempotency_key db.requests)
    db ← query (λ db. db)
    elim existing [
      | some row ↦ pure (respond row)
      | none ↦ if_open db.gate.enabled (admit type recipe params requester idempotency_key rival)
    ]
