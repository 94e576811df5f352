-- ===== src/Config.antt =====
-- server/config.py: the settings. Durations are counted in the unit of the clock.
pub mod Environment
use terramate_api_wrapper.Base.{ℕ, String, Bool, Option, List}

pub record Settings : Type 0 where
  pub app_environment : String
  pub github_pat : Option String
  pub github_repo : Option String
  pub github_base_branch : String
  pub database_url : Option String
  pub pg_host : Option String
  pub pg_port : Option String
  pub pg_database : Option String
  pub pg_user : Option String
  pub lakebase_instance_name : Option String
  pub reconcile_interval_seconds : ℕ
  pub log_level : String
  pub step_stuck_threshold_seconds : ℕ
  pub admin_principals : List String
  pub ci_principals : List String
  pub run_migrations_on_startup : Bool
  pub api_base_url : Option String
