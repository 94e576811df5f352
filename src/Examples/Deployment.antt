-- ===== src/Examples/Deployment.antt =====
-- The theorems on the connections to the database and on the lifespan of the application, at deployments
-- that run.
use terramate_api_wrapper.Base.{
  false, none, some, List, [], ◌∷◌, ◌++◌, ◌==◌, string_eq, nat_eq, if◌then◌else◌, ◌≡◌, refl,
}
use terramate_api_wrapper.Result.{ok, err, github_error, integrity_error}
use terramate_api_wrapper.Config.{Settings}
use terramate_api_wrapper.Config.Environment.{Environ, get_settings, is_switched_on, principals}
use terramate_api_wrapper.Database.{
  create_schema, committed, schema_for, Call, Driver, connect, connect_lakebase, connect_to_url,
  ensure_schema, create_schema,
}
use terramate_api_wrapper.Database.Schemas.{opening}
use terramate_api_wrapper.Database.Again.{IsOpening, connect-again}
use terramate_api_wrapper.Startup.{
  logging_configured, connecting, locking, upgrading, unlocking, disconnected, Process, lifespan,
  run_migrations_upgrade_head,
}
use terramate_api_wrapper.Startup.Lived.{Lived, lifespan-Lived}

abbrev environ : Environ
environ key =
    if key == "PGDATABASE"
    then some "lakebase"
    else if key == "RUN_MIGRATIONS_ON_STARTUP"
    then some "true"
    else if key == "GITHUB_PAT"
    then some "p"
    else if key == "GITHUB_REPO"
    then some "o/r"
    else none

abbrev settings : Settings
settings = record {
  app_environment = "dev";
  github_pat = none;
  github_repo = none;
  github_base_branch = "main";
  database_url = none;
  pg_host = some "h";
  pg_port = none;
  pg_database = some "lakebase";
  pg_user = none;
  lakebase_instance_name = some "i";
  reconcile_interval_seconds = 15;
  log_level = "INFO";
  step_stuck_threshold_seconds = 3600;
  admin_principals = [];
  ci_principals = [];
  run_migrations_on_startup = false;
  api_base_url = none;
}

abbrev driver : Driver
driver = record {
  make_url = λ url. err (github_error "");
  lakebase_credential = λ calls instance_name. ok ("user", "token");
  answer = λ calls call. ok tt;
}

abbrev fresh : terramate_api_wrapper.Database.Process
fresh = record { schema_ready = []; calls = [] }

abbrev connected_once : terramate_api_wrapper.Database.Process
connected_once = (connect driver environ settings fresh).1

connect-again_example :
    (more : List Call) × ((connect driver environ settings connected_once).1
      ≡ record connected_once { calls = connected_once.calls ++ more })
    × IsOpening more
unfolding connect connect_lakebase ensure_schema schema_for string_eq
connect-again_example = connect-again driver environ settings fresh connected_once refl

-- The first connection makes the schema and commits it, and the second does not.
twice_run :
    (connect driver environ settings connected_once).1.calls
    ≡ opening driver environ settings (some "dev") ("user", "token")
      ∷ create_schema "dev"
      ∷ committed
      ∷ opening driver environ settings (some "dev") ("user", "token")
      ∷ []
unfolding connect connect_lakebase ensure_schema schema_for string_eq
twice_run = refl

abbrev process : Process
process = record {
  to_float = λ text. ok 15;
  environ = environ;
  connected = ok tt;
  locked = ok tt;
  upgraded = err integrity_error;
  unlocked = ok tt;
  awaited = ok tt;
  served = ok tt;
}

lifespan-Lived_example : Lived process (lifespan process []).0 (lifespan process []).1
lifespan-Lived_example = lifespan-Lived process

-- A failed migration ends the start of the application; the lock is given back.
aborted_run : lifespan process [] ≡ (
  err integrity_error,
  logging_configured "INFO" ∷ connecting ∷ locking ∷ upgrading ∷ unlocking ∷ disconnected ∷ [],
)
unfolding lifespan run_migrations_upgrade_head get_settings is_switched_on principals string_eq
    nat_eq
aborted_run = refl
