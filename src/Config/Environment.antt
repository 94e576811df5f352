-- ===== src/Config/Environment.antt =====
-- `get_settings` of server/config.py: the settings as the environment variables give them.
pub mod Principals
use Prim.Native.Char.{Char, code}
use terramate_api_wrapper.Base.{
  ℕ, ◌+◌, String, ◌<>◌, Bool, true, false, ◌&&◌, ◌||◌, Option, none, some, List, [], ◌∷◌, map,
  select, any, not, leb, ◌==◌, contains, nat_eq, string_eq, if◌then◌else◌,
}
use terramate_api_wrapper.Base.Text.{strip}
use terramate_api_wrapper.Base.Lines.{add_to_first}
use terramate_api_wrapper.Result.{Result, ok, ◌>>=◌}
use terramate_api_wrapper.Config.{Settings}

-- `s.split(",")`
abbrev pub split_commas : String → List String
split_commas String.[] = "" ∷ []
split_commas (String.◌∷◌ c s) =
    let parts = split_commas s in if code c == 44 then "" ∷ parts else add_to_first c parts

abbrev pub is_blank : String → Bool
is_blank p = strip p == ""

-- `frozenset(p.strip() for p in s.split(",") if p.strip())`
unfoldable pub principals : String → List String
principals s = map strip (select (λ p. not (is_blank p)) (split_commas s))

-- `s.lower() == word`, for a word of small letters and digits.
abbrev pub lower : ℕ → ℕ
lower n = if leb 65 n && leb n 90 then n + 32 else n

abbrev pub lowers_to : String → String → Bool
lowers_to String.[] String.[] = true
lowers_to (String.◌∷◌ c s) (String.◌∷◌ d t) = lower (code c) == code d && lowers_to s t
lowers_to _ _ = false

unfoldable pub is_switched_on : String → Bool
is_switched_on s = any (lowers_to (strip s)) ("1" ∷ "true" ∷ "yes" ∷ "on" ∷ [])

-- `os.environ`
abbrev pub Environ : Type 0
Environ = String → Option String

-- `os.environ.get(key, default)`
abbrev pub env_get : Environ → String → String → String
env_get environ key default = elim (environ key) [ none ↦ default | some value ↦ value ]

-- `value or None`
abbrev pub or_none : Option String → Option String
or_none none = none
or_none (some value) = if value == "" then none else some value

abbrev pub or_next : Option String → Option String → Option String
or_next none next = next
or_next (some value) next = if value == "" then next else some value

-- `to_float` is the built-in `float`.
unfoldable pub get_settings : (String → Result ℕ) → Environ → Result Settings
get_settings to_float environ = do
  interval ← to_float (env_get environ "RECONCILE_INTERVAL_SECONDS" "15")
  threshold ← to_float (env_get environ "STEP_STUCK_THRESHOLD_SECONDS" "3600")
  ok (record {
    app_environment = env_get environ "APP_ENVIRONMENT" "local";
    github_pat = or_none (environ "GITHUB_PAT");
    github_repo = or_none (environ "GITHUB_REPO");
    github_base_branch = env_get environ "GITHUB_BASE_BRANCH" "main";
    database_url = or_none (environ "DATABASE_URL");
    pg_host = environ "PGHOST";
    pg_port = environ "PGPORT";
    pg_database = environ "PGDATABASE";
    pg_user = environ "PGUSER";
    lakebase_instance_name = environ "LAKEBASE_INSTANCE_NAME";
    reconcile_interval_seconds = interval;
    log_level = env_get environ "LOG_LEVEL" "INFO";
    step_stuck_threshold_seconds = threshold;
    admin_principals = principals (env_get environ "ADMIN_PRINCIPALS" "");
    ci_principals = principals (env_get environ "CI_PRINCIPALS" "");
    run_migrations_on_startup = is_switched_on (env_get environ "RUN_MIGRATIONS_ON_STARTUP" "");
    api_base_url =
        or_next (environ "DATABRICKS_APP_URL")
          (or_next (environ "API_BASE_URL") (or_none (environ "APP_URL")));
  })
