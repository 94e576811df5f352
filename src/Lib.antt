-- ===== src/Lib.antt =====
-- A model of the provisioning service of terramate-api-wrapper, with proofs.
--
-- The service takes provisioning requests over HTTP. A Recipe turns a request into Steps; a driver
-- opens one GitHub pull request for each Step, in the order of their dependencies, and the CI of
-- the pull request reports the outcome back. Requests and Steps are rows of a Postgres database,
-- which the routes and the driver read and write in transactions.
--
-- What models what:
--   Base, Base/*        shared lists, tests, texts and their lemmas
--   Value, Result       JSON and YAML values; exceptions and outcomes
--   Models, Table       server/models.py: rows, and reading and writing them by primary key
--   Framework           server/recipes/framework.py: edits, Steps, Playbooks, Recipes
--   Config, Config/*    server/config.py: the settings, and reading them from the environment
--   GitHub              the interface of server/github_client.py that the engine calls
--   GitHub/Retry        _request and _retry_delay of server/github_client.py
--   GitHub/Client       open_pull_request of the same, and what it calls, as the sequence of its calls
--   Stateful            a state that is passed on, with exceptions and finally, for GitHub/Client,
--                       Database and Startup
--   Database            server/database.py: _schema_for, _ensure_schema, connect_to_url, _connect
--   Startup             the lifespan of server/main.py, and server/migrate.py
--   Recipes/*           server/recipes. BundleInstance: bundle_instance.py. ConfigLines, StackIds:
--                       stack_ids.py, its patterns as scanners of a line. Workspace: the parameters of
--                       workspace.py; NetworkFoundation: its add_business_domain_patch. Names,
--                       Defaults, WorkspaceFolder, UnityCatalog: the parameters of the domain stacks.
--                       Playbooks: the build of every Recipe. Registry: registry.py
--   Session, World      a transaction (working and committed rows, a trace of what was logged and
--                       sent); everything outside the repository's code: clock, uuids, Recipes,
--                       GitHub, other sessions' row locks, printers, asked at a moment each
--   Orchestrator/*      server/orchestrator.py. Status: _transition, _roll_up_request, _can_advance.
--                       Queue: the query and the loop of _claim_and_open_next, _dependencies_done,
--                       _serial_lane_busy. Spec: _build_step_spec, _run_hooks. Edits:
--                       _resolve_consumes, _resolve_edits, _substitute_*. Claim: tick and
--                       _claim_and_open_next. Apply: record_apply_result, _land_after_postflight.
--                       Stuck: _flag_stuck_steps
--   Scheduler           run_tick_once and reconcile_loop of server/scheduler.py
--   Auth                server/auth.py
--   Requests/*          server/routes/requests.py
--   Admin               server/routes/admin.py and get_gate of server/intake_gate.py
--   Lifecycle/*         the abstract lifecycle that docs/adr/0004 and 0006 promise, as a step
--                       relation on the rows, and its invariants
--   Refinement/*        that each operation, up to where it may raise, is a run of that lifecycle
--   Service/*           all routes that write and the driver, in any order, and what holds then
--   Examples/*          one deployment that runs, and the theorems at its states
--
-- A handler is a function from a session to an outcome and a session. What it has written when an
-- exception ends it is in the working rows only; a rollback, or the end of the route, drops it.
-- `commit` makes the working rows the committed ones. Transactions run one after another, except
-- where the code itself expects a race: another POST may commit between the look-up and the commit
-- of a POST, and other sessions may hold row locks, which the claiming query skips.
--
-- Status texts are data types with the values that the program writes. A timestamp is a natural
-- number. The loop of tick takes fuel; more fuel than there are queued Steps gives the outcome of
-- the loop itself, since each round that goes on takes one Step from the queue.
--
-- The retry loop of a call to GitHub takes `max_retries + 1` as its fuel, which is how often it may
-- try. Its delays are whole seconds, and every attempt is answered: exceptions of httpx are left out.
--
-- Not modelled: the text of a YAML file (loading and dumping it are parameters), the loader and dumper
-- classes of server/yaml_util.py, the database migrations, log lines that are not transitions, the
-- health and version routes, logging, the embedded database, the renderers of workspace.py that no
-- Recipe calls, and the frontend. GitHub, httpx, psycopg2, Alembic, PyYAML, Pydantic's models and the
-- Databricks SDK are parameters. A loop of the driver is a list of waits, each with what the routes do
-- before it ends. The unique indexes on
-- (request, ordinal) and (Step, output) are not needed: the code looks up before it inserts. The
-- JSON Schema checks of a body, apart from the Recipe's own and the outcome's, are left out.
pub mod Base
pub mod Value
pub mod Result
pub mod Framework
pub mod Table
pub mod Models
pub mod Config
pub mod Database
pub mod GitHub
pub mod Session
pub mod Stateful
pub mod World
pub mod Orchestrator
pub mod Lifecycle
pub mod Refinement
pub mod Scheduler
pub mod Auth
pub mod Requests
pub mod Admin
pub mod Recipes
pub mod Service
pub mod Startup
pub mod Examples
