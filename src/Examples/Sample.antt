-- ===== src/Examples/Sample.antt =====
-- One deployment: a non-parallel Type `demo`, whose second Step waits for the first and writes its
-- output into a file.
use terramate_api_wrapper.Base.{
  ℕ, zero, suc, String, ◌<>◌, true, false, Option, none, some, [], ◌∷◌, ◌==◌, string_eq,
  if◌then◌else◌,
}
use terramate_api_wrapper.Value.{null, str, empty, field}
use terramate_api_wrapper.Result.{ok}
use terramate_api_wrapper.Framework.{add_file, StepSpec, Recipe}
use terramate_api_wrapper.Config.{Settings}
use terramate_api_wrapper.Models.{IntakeGate}
use terramate_api_wrapper.Session.{Session}
use terramate_api_wrapper.Requests.Create.{create_request}
use terramate_api_wrapper.Requests.Report.{OutputReport, report_step_outputs}
use terramate_api_wrapper.Admin.{cancel_all_requests}
use terramate_api_wrapper.Scheduler.{run_tick_once}
use terramate_api_wrapper.Service.{served, migrated, Runs, idle, act, driver, post, push, stop_all}
use terramate_api_wrapper.World.{World}

abbrev pub tally : ℕ → String
tally zero = "u"
tally (suc n) = "u" <> tally n

abbrev pub settings : Settings
settings = record {
  app_environment = "local";
  database_url = none;
  pg_host = none;
  pg_port = none;
  pg_database = none;
  pg_user = none;
  lakebase_instance_name = none;
  log_level = "INFO";
  github_pat = some "pat";
  github_repo = some "org/repo";
  github_base_branch = "main";
  reconcile_interval_seconds = 30;
  step_stuck_threshold_seconds = 3600;
  admin_principals = "root@example.com" ∷ [];
  ci_principals = "ci@example.com" ∷ [];
  run_migrations_on_startup = true;
  api_base_url = some "api.example.com";
}

abbrev pub first_spec : StepSpec
first_spec = record {
  key = "workspace";
  bundle_edits = add_file "stacks/a.tm" "a" ∷ [];
  depends_on = [];
  consumes = [];
  produces = "url" ∷ [];
  preflight = [];
  postflight = [];
}

abbrev pub second_spec : StepSpec
second_spec = record {
  key = "schema";
  bundle_edits = add_file "stacks/b.tm" "${steps.workspace.outputs.url}" ∷ [];
  depends_on = "workspace" ∷ [];
  consumes = record { step_key = "workspace"; output_name = "url" } ∷ [];
  produces = [];
  preflight = [];
  postflight = [];
}

abbrev pub demo : Recipe
demo = record {
  parallel = false;
  model_validate = λ _ v. ok v;
  build = λ _. ok (record { steps = first_spec ∷ second_spec ∷ [] });
}

abbrev pub world : World
world = record {
  clock = λ n. n;
  uuid = tally;
  uuids = λ m n. tally n;
  worker = "host:1";
  settings = settings;
  recipes = λ type. if type == "demo" then some demo else none;
  open_pull_request =
      λ n pr. ok (record { number = n; url = "https://github.com/org/repo/pull/1" });
  locked = λ _ _. false;
  text_leb = λ _ _. true;
  dumps = λ _. "{}";
  dumps_indented = λ _. "{}";
  repr = λ _. "{}";
  decimal = tally;
}

abbrev pub gate : IntakeGate
gate = record { enabled = true; updated_at = 0 }

abbrev pub caller : Option String
caller = some "dev@example.com"

abbrev pub ci : Option String
ci = some "ci@example.com"

abbrev pub root : Option String
root = some "root@example.com"

abbrev pub report : OutputReport
report = record {
  status = "done";
  outputs = field "url" (str "https://adb") empty;
  tf_console = "ok";
}

-- A request is posted, and the driver opens the PR of its first Step.
abbrev pub posted : Session
posted = served (create_request world caller none "key-1" "demo" null none) (migrated gate)

abbrev pub opened : Session
opened = run_tick_once world 5 posted

-- CI reports the first Step done, and the driver opens the PR of the second.
abbrev pub reported : Session
reported = served (report_step_outputs world ci none "uu" 0 report) opened

abbrev pub reopened : Session
reopened = run_tick_once world 5 reported

abbrev pub stopped : Session
stopped = served (cancel_all_requests world root none) reopened

abbrev pub two_ticks : Runs world (migrated gate) reopened
two_ticks =
    act
      (act (act (act idle (post caller none "key-1" "demo" null none tt)) (driver 5))
        (push ci none "uu" 0 report))
      (driver 5)

abbrev pub stopped_run : Runs world (migrated gate) stopped
stopped_run = act two_ticks (stop_all root none)
