-- ===== src/Service.antt =====
-- The deployed service: the routes of server/routes, each in a request-scoped session that
-- server/database.py closes behind it, and the driver of server/scheduler.py, in any order.
pub mod Guarantees
pub mod Access
pub mod Stop
pub mod Driven
use terramate_api_wrapper.Base.{ℕ, String, Bool, true, Option, []}
use terramate_api_wrapper.Value.{Value}
use terramate_api_wrapper.Models.{IntakeGate, Db}
use terramate_api_wrapper.Session.{Session, Exec, rollback}
use terramate_api_wrapper.Requests.Create.{Rival, create_request}
use terramate_api_wrapper.Requests.Report.{OutputReport, report_step_outputs}
use terramate_api_wrapper.Requests.Halt.{cancel_request}
use terramate_api_wrapper.Admin.{cancel_all_requests, set_intake_gate}
use terramate_api_wrapper.Scheduler.{run_tick_once}
use terramate_api_wrapper.Refinement.Create.{Enters}
use terramate_api_wrapper.World.{World}

-- `get_db`: closing the session drops what was not committed.
abbrev pub served {ℓ} : {A : Type ℓ} → Exec A → Session → Session
served m s = (rollback (m s).1).1

-- After the migrations: no rows, and the gate as it was seeded.
abbrev pub migrated : IntakeGate → Session
migrated gate = record { working = tables; committed = tables; trace = []; moment = 0 }
  where
    tables : Db
    tables = record { requests = []; steps = []; outputs = []; gate = gate }

module _ (w : World) where
  -- One tick of the driver, or one call of a route that writes, with the identity headers.
  pub data Act (s : Session) : Session → Type 0 where
    driver : (fuel : ℕ) → Act s (run_tick_once w fuel s)
    post :
        (email user : Option String) (key type : String) (params : Value) (rival : Option Rival)
        → Enters w s.working rival
        → Act s (served (create_request w email user key type params rival) s)
    push :
        (email user : Option String) (request_id : String) (ordinal : ℕ) (body : OutputReport)
        → Act s (served (report_step_outputs w email user request_id ordinal body) s)
    stop : (request_id : String) → Act s (served (cancel_request request_id) s)
    stop_all : (email user : Option String) → Act s (served (cancel_all_requests w email user) s)
    switch :
        (email user : Option String) (enabled : Bool)
        → Act s (served (set_intake_gate w email user enabled) s)

  pub data Runs (s : Session) : Session → Type 0 where
    idle : Runs s s
    act : {t u : Session} → Runs s t → Act t u → Runs s u
