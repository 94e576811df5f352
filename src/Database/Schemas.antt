-- ===== src/Database/Schemas.antt =====
-- The schema of a deployment when `_connect` of server/database.py hands out a connection.
use terramate_api_wrapper.Base.{List, ◌++◌, String, Option, some, ◌∷◌, string_eq, ◌≡◌}
use terramate_api_wrapper.Result.{ok}
use terramate_api_wrapper.Config.{Settings}
use terramate_api_wrapper.Config.Environment.{Environ}
use terramate_api_wrapper.Database.{schema_for, Call, connected, Process, Driver, lakebase_args}
use terramate_api_wrapper.Database.Created.{IsMade, IsCreated}

module _ (driver : Driver) where
  module _ (environ : Environ) (settings : Settings) where
    abbrev pub own_schema : Option String
    own_schema = schema_for environ settings.app_environment

    -- The call that opens a connection whose search path is set to this schema.
    abbrev pub opening : Option String → String × String → Call
    opening schema credential = connected (lakebase_args driver settings schema credential)

    -- What a connection to Lakebase has done when it is handed out: it was opened first, with the search
    -- path, and Postgres has answered both the schema and its commit, now or earlier.
    pub record HandsOut (schema : String) (p q : Process) : Type 0 where
      pub credential : String × String
      pub later : List Call
      pub opens : q.calls ≡ p.calls ++ opening (some schema) credential ∷ later
      pub opened : driver.answer p.calls (opening (some schema) credential) ≡ ok tt
      pub made : IsMade driver schema q.calls
      pub kept : IsCreated driver q
