-- ===== src/Auth.antt =====
-- server/auth.py: the caller's identity, and who may do what.
use terramate_api_wrapper.Base.{
  String, Bool, not, ◌&&◌, Option, none, some, contains, ◌==◌, string_eq, if◌then◌else◌,
}
use terramate_api_wrapper.Result.{Result, ok, err, http, ◌>>=◌, require}
use terramate_api_wrapper.Config.{Settings}

-- `a or b`: an absent or an empty header gives way.
abbrev pub or_else : Option String → Option String → Option String
or_else none other = other
or_else (some s) other = if s == "" then other else some s

unfoldable pub forwarded_identity : Option String → Option String → Option String
forwarded_identity x_forwarded_email x_forwarded_user =
    or_else x_forwarded_email (or_else x_forwarded_user none)

unfoldable pub resolve_requester : Option String → Option String → Result String
unfolding forwarded_identity
resolve_requester x_forwarded_email x_forwarded_user =
    require (http 401 "No resolvable caller identity")
      (forwarded_identity x_forwarded_email x_forwarded_user)

abbrev forbidden_if : Bool → String → Result String
forbidden_if refused identity = if refused then err (http 403 "Not authorized") else ok identity

unfoldable pub require_admin : Settings → Option String → Option String → Result String
unfolding forwarded_identity
require_admin settings x_forwarded_email x_forwarded_user = do
  identity ←
      require (http 401 "No resolvable caller identity")
        (forwarded_identity x_forwarded_email x_forwarded_user)
  forbidden_if (not (contains settings.admin_principals identity)) identity

unfoldable pub require_ci_principal : Settings → Option String → Option String → Result String
unfolding forwarded_identity
require_ci_principal settings x_forwarded_email x_forwarded_user = do
  identity ←
      require (http 401 "No resolvable caller identity")
        (forwarded_identity x_forwarded_email x_forwarded_user)
  forbidden_if
      (not (contains settings.ci_principals identity)
        && not (contains settings.admin_principals identity))
      identity
