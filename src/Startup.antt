-- ===== src/Startup.antt =====
-- The lifespan of the application: server/main.py, and the migrations at its start, server/migrate.py.
pub mod Migrated
pub mod Lived
use terramate_api_wrapper.Base.{
  ℕ, String, Bool, true, false, ◌&&◌, Option, none, some, List, [], ◌∷◌, ◌++◌, if◌then◌else◌,
}
use terramate_api_wrapper.Table.{is_some}
use terramate_api_wrapper.Result.{Result, ok, err, runtime_error, ◌>>=◌}
use terramate_api_wrapper.Stateful.{Stateful, pure, from_result, ◌then_do◌, ◌finally_do◌}
use terramate_api_wrapper.Config.{Settings}
use terramate_api_wrapper.Config.Environment.{Environ, or_none, get_settings}

-- What the process does at its start and at its end, one after another.
pub data Event : Type 0 where
  logging_configured : String → Event
  -- of the migrations: the connection that holds the lock, the lock, Alembic's `upgrade` to `head`
  connecting locking upgrading unlocking disconnected : Event
  -- of the driver: its task, with the interval, and what ends it
  driver_started : ℕ → Event
  driver_cancelled driver_awaited client_closed : Event
  -- the requests that are served, until the server stops
  serving : Event

-- The repository and the token that a client is built with.
pub record ReconcileClient : Type 0 where
  pub repo : String
  pub token : String

-- The built-in `float`, the environment, and how what is outside of this code ends: the statements of the
-- migrations, the task of the driver and the server.
pub record Process : Type 0 where
  pub to_float : String → Result ℕ
  pub environ : Environ
  pub connected : Result (Unit {0})
  pub locked : Result (Unit {0})
  pub upgraded : Result (Unit {0})
  pub unlocked : Result (Unit {0})
  pub awaited : Result (Unit {0})
  pub served : Result (Unit {0})

abbrev pub Act : Type 0 → Type 0
Act A = Stateful (List Event) A

-- It is tried, and ends as it does.
abbrev pub attempt : Event → Result (Unit {0}) → Act (Unit {0})
attempt event r events = (r, events ++ event ∷ [])

abbrev pub note : Event → Act (Unit {0})
note event = attempt event (ok tt)

module _ (process : Process) where
  -- `get_settings()`
  abbrev pub settings_now : Result Settings
  settings_now = get_settings process.to_float process.environ

  -- The upgrade, under the lock.
  abbrev pub upgrade_head : Act (Unit {0})
  upgrade_head = attempt upgrading process.upgraded finally_do attempt unlocking process.unlocked

  -- `run_migrations_upgrade_head`
  unfoldable pub run_migrations_upgrade_head : Act (Unit {0})
  run_migrations_upgrade_head = attempt connecting process.connected then_do λ _.
      (attempt locking process.locked then_do λ _. upgrade_head) finally_do note disconnected

  abbrev pub client_with : Option String → Option String → Result ReconcileClient
  client_with (some pat) (some repo) = ok (record { repo = repo; token = pat })
  client_with _ _ = err runtime_error

  -- `RealGitHubClient.from_settings`, which reads the settings again.
  unfoldable pub from_settings : Result ReconcileClient
  from_settings = settings_now >>= λ settings.
      client_with (or_none settings.github_pat) (or_none settings.github_repo)

  abbrev pub has_github : Settings → Bool
  has_github settings =
      is_some (or_none settings.github_pat) && is_some (or_none settings.github_repo)

  abbrev pub some_client : Result ReconcileClient → Result (Option ReconcileClient)
  some_client (ok client) = ok (some client)
  some_client (err e) = err e

  abbrev pub client_or_none : Result Settings → Result (Option ReconcileClient)
  client_or_none (err e) = err e
  client_or_none (ok settings) = if has_github settings then some_client from_settings else ok none

  -- `_build_reconcile_client`
  unfoldable pub build_reconcile_client : Result (Option ReconcileClient)
  build_reconcile_client = client_or_none settings_now

  abbrev pub serve : Act (Unit {0})
  serve = attempt serving process.served

  -- The end of a driver: it is cancelled, awaited, and its client is closed.
  abbrev pub stop_driver : Act (Unit {0})
  stop_driver = note driver_cancelled then_do λ _.
      attempt driver_awaited process.awaited then_do λ _. note client_closed

  abbrev pub run : ℕ → Option ReconcileClient → Act (Unit {0})
  run interval none = serve
  run interval (some client) =
      note (driver_started interval) then_do λ _. serve finally_do stop_driver

  abbrev pub migrate_if : Bool → Act (Unit {0})
  migrate_if enabled = if enabled then run_migrations_upgrade_head else pure tt

  -- `lifespan`
  unfoldable pub lifespan : Act (Unit {0})
  lifespan = from_result settings_now then_do λ settings.
      note (logging_configured settings.log_level) then_do λ _.
      migrate_if settings.run_migrations_on_startup then_do λ _.
      from_result build_reconcile_client then_do λ client.
      run settings.reconcile_interval_seconds client
