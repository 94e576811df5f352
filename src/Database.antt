-- ===== src/Database.antt =====
-- server/database.py: the connections to Postgres, the schema of a deployment and its creation.
pub mod Created
pub mod Schemas
pub mod Again
use terramate_api_wrapper.Base.{
  String, ◌<>◌, Bool, true, false, Option, none, some, List, [], ◌∷◌, ◌++◌, ◌==◌, contains,
  string_eq, if◌then◌else◌,
}
use terramate_api_wrapper.Base.Text.{strip}
use terramate_api_wrapper.Table.{is_some}
use terramate_api_wrapper.Result.{Result, ok, err, runtime_error}
use terramate_api_wrapper.Stateful.{Stateful, pure, from_result, ◌then_do◌}
use terramate_api_wrapper.Config.{Settings}
use terramate_api_wrapper.Config.Environment.{Environ, env_get, or_none, or_next}

-- `_schema_for`
unfoldable pub schema_for : Environ → String → Option String
schema_for environ env =
    let override = strip (env_get environ "APP_DB_SCHEMA" "") in
    if is_some (or_none (environ "PGDATABASE"))
    then (if override == ""
        then some (if contains ("dev" ∷ "test" ∷ "prod" ∷ []) env then env else "app")
        else some override)
    else none

-- The parts of a URL that `make_url` reads, with the `host` of its query.
pub record Url : Type 0 where
  pub host : Option String
  pub port : Option String
  pub database : Option String
  pub username : Option String
  pub password : Option String
  pub query_host : Option String

-- The keyword arguments of `psycopg2.connect`.
pub record ConnectArgs : Type 0 where
  pub host : Option String
  pub port : Option String
  pub dbname : Option String
  pub user : Option String
  pub password : Option String
  pub sslmode : Option String
  pub options : Option String

-- What the process asks of Postgres.
pub data Call : Type 0 where
  connected : ConnectArgs → Call
  executed : String → Call
  committed : Call

-- `_schema_ready`, and the calls that were made so far.
pub record Process : Type 0 where
  pub schema_ready : List String
  pub calls : List Call

-- psycopg2, SQLAlchemy's `make_url`, and the user and token of the Databricks SDK: what a call is answered,
-- after those that were made before.
pub record Driver : Type 0 where
  pub make_url : String → Result Url
  pub lakebase_credential : List Call → String → Result (String × String)
  pub answer : List Call → Call → Result (Unit {0})

abbrev pub quotes : String
quotes = "\""

abbrev pub create_schema : String → Call
create_schema schema = executed ("CREATE SCHEMA IF NOT EXISTS " <> (quotes <> (schema <> quotes)))

abbrev pub with_call : Process → Call → Process
with_call p call = record p { calls = p.calls ++ call ∷ [] }

module _ (driver : Driver) where
  abbrev pub make : Call → Stateful Process (Unit {0})
  make call p = (driver.answer p.calls call, with_call p call)

  -- `_schema_ready.add(schema)`
  abbrev pub remember : String → Stateful Process (Unit {0})
  remember schema p = (ok tt, record p { schema_ready = schema ∷ p.schema_ready })

  abbrev pub new_schema : String → Stateful Process (Unit {0})
  new_schema schema =
      make (create_schema schema) then_do λ _. make committed then_do λ _. remember schema

  -- `_ensure_schema`
  unfoldable pub ensure_schema : String → Stateful Process (Unit {0})
  ensure_schema schema p = if contains p.schema_ready schema then pure tt p else new_schema schema p

  abbrev pub url_args : Url → ConnectArgs
  url_args url = record {
    host = or_next url.host url.query_host;
    port = url.port;
    dbname = url.database;
    user = url.username;
    password = url.password;
    sslmode = none;
    options = none;
  }

  -- `connect_to_url`
  unfoldable pub connect_to_url : String → Stateful Process (Unit {0})
  connect_to_url database_url =
      from_result (driver.make_url database_url) then_do λ url. make (connected (url_args url))

  abbrev pub search_path : Option String → Option String
  search_path none = none
  search_path (some schema) = some ("-c search_path=" <> schema)

  abbrev pub lakebase_args : Settings → Option String → String × String → ConnectArgs
  lakebase_args settings schema (user, token) = record {
    host = settings.pg_host;
    port = settings.pg_port;
    dbname = settings.pg_database;
    user = or_next settings.pg_user (some user);
    password = some token;
    sslmode = some "require";
    options = search_path schema;
  }

  abbrev pub ensured : Option String → Stateful Process (Unit {0})
  ensured none = pure tt
  ensured (some schema) = ensure_schema schema

  -- The connection with a token, which is fetched for each connection.
  unfoldable pub connect_lakebase : Environ → Settings → String → Stateful Process (Unit {0})
  connect_lakebase environ settings instance_name p =
      let schema = schema_for environ settings.app_environment in
      (from_result (driver.lakebase_credential p.calls instance_name) then_do λ credential.
      make (connected (lakebase_args settings schema credential)) then_do λ _. ensured schema)
        p

  abbrev pub by_instance : Environ → Settings → Option String → Stateful Process (Unit {0})
  by_instance environ settings (some instance_name) =
      connect_lakebase environ settings instance_name
  by_instance environ settings none = from_result (err runtime_error)

  abbrev pub by_url_or :
      Environ → Settings → Option String → Option String → Stateful Process (Unit {0})
  by_url_or environ settings instance_name (some database_url) = connect_to_url database_url
  by_url_or environ settings instance_name none = by_instance environ settings instance_name

  -- `_connect`
  unfoldable pub connect : Environ → Settings → Stateful Process (Unit {0})
  connect environ settings =
      by_url_or environ settings (or_none settings.lakebase_instance_name)
        (or_none settings.database_url)
