-- ===== src/Service/Access.antt =====
-- Who may use the guarded routes: the checks of server/auth.py in front of them.
use terramate_api_wrapper.Base.{
  ℕ, String, Bool, true, false, not, ◌&&◌, ◌||◌, Option, none, some, List, ◌≡◌, refl, ◌∙◌, contains,
  string_eq, if◌then◌else◌, arith,
}
use terramate_api_wrapper.Result.{Error, Result, ok, err, http, require}
use terramate_api_wrapper.Result as Result
use terramate_api_wrapper.Session.{Session, Exec, continue}
use terramate_api_wrapper.Auth.{forwarded_identity, require_admin, require_ci_principal}
use terramate_api_wrapper.Requests.Report.{OutputReport, report_step_outputs}
use terramate_api_wrapper.Admin.{cancel_all_requests, set_intake_gate, read_intake_gate}
use terramate_api_wrapper.World.{World}

-- An identity is given, and the list names it.
abbrev pub speaks_for : List String → Option String → Bool
speaks_for principals none = false
speaks_for principals (some identity) = contains principals identity

abbrev pub is_ok {ℓ} : {A : Type ℓ} → Result A → Bool
is_ok (ok a) = true
is_ok (err e) = false

module _ (w : World) (email user : Option String) where
  abbrev pub is_admin : Bool
  is_admin = speaks_for w.settings.admin_principals (forwarded_identity email user)

  abbrev pub is_ci : Bool
  is_ci = speaks_for w.settings.ci_principals (forwarded_identity email user)

  pub require_admin_lem : is_ok (require_admin w.settings email user) ≡ is_admin
  unfolding require_admin
  require_admin_lem = admin_of (forwarded_identity email user)
    where
      admin_of :
          (found : Option String)
          → is_ok (
              Result.◌>>=◌ (require (http 401 "No resolvable caller identity") found) (λ identity.
                if not (contains w.settings.admin_principals identity)
                then err (http 403 "Not authorized")
                else ok identity))
            ≡ speaks_for w.settings.admin_principals found
      admin_of none = refl
      admin_of (some identity) = ground arith

  require_ci_principal_lem :
      is_ok (require_ci_principal w.settings email user) ≡ (is_ci || is_admin)
  unfolding require_ci_principal
  require_ci_principal_lem = principal_of (forwarded_identity email user)
    where
      principal_of :
          (found : Option String)
          → is_ok (
              Result.◌>>=◌ (require (http 401 "No resolvable caller identity") found) (λ identity.
                if not (contains w.settings.ci_principals identity)
                  && not (contains w.settings.admin_principals identity)
                then err (http 403 "Not authorized")
                else ok identity))
            ≡ (speaks_for w.settings.ci_principals found
                || speaks_for w.settings.admin_principals found)
      principal_of none = refl
      principal_of (some identity) = ground arith

  -- The call is refused, and leaves everything as it was.
  abbrev pub Refused : {A : Type 0} → Exec A → Session → Type 0
  Refused m s = (is_ok (m s).0 ≡ false) × ((m s).1 ≡ s)

  guarded-Refused :
      {A : Type 0} (r : Result String) (f : String → Exec A) (s : Session)
      → is_ok r ≡ false
      → Refused (λ s. continue r f s) s
  guarded-Refused (ok identity) f s h = absurd (cc h)
  guarded-Refused (err e) f s h = (refl, refl)

  -- A caller whose forwarded identity is not an admin's is refused the three admin routes, and
  -- nothing is written, committed or traced.
  pub admin_only :
      (enabled : Bool) (s : Session)
      → is_admin ≡ false
      → Refused (set_intake_gate w email user enabled) s
        × Refused (read_intake_gate w email user) s
        × Refused (cancel_all_requests w email user) s
  unfolding set_intake_gate read_intake_gate cancel_all_requests
  admin_only enabled s h =
      let refused = require_admin_lem ∙ h in
      (
        guarded-Refused (require_admin w.settings email user) _ s refused,
        guarded-Refused (require_admin w.settings email user) _ s refused,
        guarded-Refused (require_admin w.settings email user) _ s refused,
      )

  -- A caller whose forwarded identity is neither a CI principal's nor an admin's can report no
  -- outcome of a Step, and nothing is written, committed or traced.
  pub principals_only :
      (request_id : String) (ordinal : ℕ) (body : OutputReport) (s : Session)
      → (is_ci || is_admin) ≡ false
      → Refused (report_step_outputs w email user request_id ordinal body) s
  unfolding report_step_outputs
  principals_only request_id ordinal body s h =
      guarded-Refused (require_ci_principal w.settings email user) _ s
        (require_ci_principal_lem ∙ h)
