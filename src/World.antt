-- ===== src/World.antt =====
-- What lies outside the repository's code: the clock, the uuid generator, the settings, the
-- registry of Recipes, GitHub, the row locks of other sessions and the printers of the standard
-- library. Everything that may change is asked at a moment.
use terramate_api_wrapper.Base.{ℕ, String, Bool, Option}
use terramate_api_wrapper.Value.{Value}
use terramate_api_wrapper.Result.{Result}
use terramate_api_wrapper.Framework.{Recipe}
use terramate_api_wrapper.Config.{Settings}
use terramate_api_wrapper.GitHub.{PullRequest, PullRequestRef}

pub record World : Type 0 where
  pub clock : ℕ → ℕ
  -- `str(uuid.uuid4())`, and the uuids that one validation of parameters mints
  pub uuid : ℕ → String
  pub uuids : ℕ → ℕ → String
  -- `f"{socket.gethostname()}:{os.getpid()}"`
  pub worker : String
  pub settings : Settings
  -- `RECIPES`
  pub recipes : String → Option Recipe
  pub open_pull_request : ℕ → PullRequest → Result PullRequestRef
  -- the Step rows that `SKIP LOCKED` skips
  pub locked : ℕ → String → Bool
  -- the database's order of texts
  pub text_leb : String → String → Bool
  -- `json.dumps(v)`, `json.dumps(v, indent=2)`, and `str(v)` of a list or a dict
  pub dumps : Value → String
  pub dumps_indented : Value → String
  pub repr : Value → String
  -- `str(n)`
  pub decimal : ℕ → String
