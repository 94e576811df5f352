-- ===== src/Examples/Rows.antt =====
-- Rows of the deployment at three moments, written out, and runs from there.
use terramate_api_wrapper.Base.{ℕ, false, none, some, [], ◌∷◌, string_eq}
use terramate_api_wrapper.Value.{null}
use terramate_api_wrapper.Models.{
  submitted, queued, done, in_progress, cancelled, Request, Step, Db,
}
use terramate_api_wrapper.Session.{Session}
use terramate_api_wrapper.Requests.Report.{report_step_outputs}
use terramate_api_wrapper.Requests.Halt.{cancel_request}
use terramate_api_wrapper.Admin.{cancel_all_requests}
use terramate_api_wrapper.Scheduler.{run_tick_once}
use terramate_api_wrapper.Service.{served, Runs, idle, act, driver, push, stop, stop_all}
use terramate_api_wrapper.Examples.Sample.{world, gate, ci, root, report}

-- The rows after the first tick, written out.
abbrev pub row : Request
row = record {
  id = "uu";
  type = "demo";
  params = null;
  version = "v1";
  requester = "dev@example.com";
  idempotency_key = "key-1";
  status = in_progress;
  asset_id = none;
  created_at = 4;
  updated_at = 4;
}

abbrev pub first_step : Step
first_step = record {
  id = "uuu";
  request_id = "uu";
  ordinal = 0;
  key = "workspace";
  status = submitted;
  pr_number = some 8;
  pr_url = some "https://github.com/org/repo/pull/1";
  depends_on = [];
  produces = "url" ∷ [];
  consumes = [];
  claimed_at = some 6;
  claimed_by = some "host:1";
  lock_token = none;
  status_changed_at = 9;
  stuck = false;
  tf_console = none;
  created_at = 4;
  updated_at = 4;
}

abbrev pub second_step : Step
second_step = record {
  id = "uuuu";
  request_id = "uu";
  ordinal = 1;
  key = "schema";
  status = queued;
  pr_number = none;
  pr_url = none;
  depends_on = "uuu" ∷ [];
  produces = [];
  consumes = record { step_key = "workspace"; output_name = "url" } ∷ [];
  claimed_at = none;
  claimed_by = none;
  lock_token = none;
  status_changed_at = 4;
  stuck = false;
  tf_console = none;
  created_at = 4;
  updated_at = 4;
}

abbrev pub after_first : Db
after_first = record {
  requests = row ∷ [];
  steps = first_step ∷ second_step ∷ [];
  outputs = [];
  gate = gate;
}

-- A session between two transactions, with one request and its two Steps.
abbrev pub between : Request → Step → Step → ℕ → Session
between r a b moment = record {
  working = record after_first { requests = r ∷ []; steps = a ∷ b ∷ [] };
  committed = record after_first { requests = r ∷ []; steps = a ∷ b ∷ [] };
  trace = [];
  moment = moment;
}

abbrev pub first_open : Session
first_open = between row first_step second_step 11

-- From there: CI reports the first Step, the driver runs, and an admin cancels everything.
abbrev pub rest_run : Runs world first_open (
    served
      (cancel_all_requests world root none)
      (run_tick_once world 5 (served (report_step_outputs world ci none "uu" 0 report) first_open)))
rest_run = act (act (act idle (push ci none "uu" 0 report)) (driver 5)) (stop_all root none)

-- The same rows, with the request cancelled.
abbrev pub halted_row : Request
halted_row = record row { status = cancelled }

abbrev pub halted : Session
halted = between halted_row first_step second_step 11

abbrev pub late_report :
    Runs world halted
      (run_tick_once world 5 (served (report_step_outputs world ci none "uu" 0 report) halted))
late_report = act (act idle (push ci none "uu" 0 report)) (driver 5)

-- The Steps after the second tick, written out.
abbrev pub landed_step : Step
landed_step = record first_step { status = done; tf_console = some "ok"; status_changed_at = 15 }

abbrev pub opened_step : Step
opened_step = record second_step {
  status = submitted;
  pr_number = some 19;
  pr_url = some "https://github.com/org/repo/pull/1";
  claimed_at = some 17;
  claimed_by = some "host:1";
  status_changed_at = 20;
}

abbrev pub second_open : Session
second_open = between row landed_step opened_step 22

-- An operator cancels the request then.
abbrev pub called_off : Session
called_off = served (cancel_request "uu") second_open

abbrev pub calling_off : Runs world second_open called_off
calling_off = act idle (stop "uu")
