-- ===== src/Config/Environment/Principals.antt =====
-- Who is a principal when the environment says nothing, or blanks.
use terramate_api_wrapper.Base.{
  ℕ, String, Bool, true, not, Option, none, some, List, [], ◌∷◌, map, select, all, nat_eq,
  string_eq, ◌≡◌, ◌≢◌, refl, sym, ap, ◌∙◌, arith,
}
use terramate_api_wrapper.Base.Text.{strip}
use terramate_api_wrapper.Result.{Result, ok, err}
use terramate_api_wrapper.Config.{Settings}
use terramate_api_wrapper.Config.Environment.{
  Environ, env_get, is_blank, split_commas, principals, get_settings,
}
use terramate_api_wrapper.Auth.{forwarded_identity, require_admin, require_ci_principal}

-- Blanks between the commas name nobody.
principals_run : principals " a@x.com , ,b@x.com," ≡ "a@x.com" ∷ "b@x.com" ∷ []
unfolding principals nat_eq string_eq
principals_run = refl

principals_blank : (s : String) → all is_blank (split_commas s) ≡ true → principals s ≡ []
unfolding principals
principals_blank s h = ap (map strip) (none_selected (split_commas s) h)
  where
    none_selected :
        (parts : List String)
        → all is_blank parts ≡ true
        → select (λ q. not (is_blank q)) parts ≡ []
    none_selected [] h = refl
    none_selected (p ∷ parts) h = ground (arith, none_selected parts)

abbrev admins_of : Result Settings → List String
admins_of (ok settings) = settings.admin_principals
admins_of (err e) = []

abbrev cis_of : Result Settings → List String
cis_of (ok settings) = settings.ci_principals
cis_of (err e) = []

module _ (to_float : String → Result ℕ) (environ : Environ) (settings : Settings)
    (read : get_settings to_float environ ≡ ok settings) where
  abbrev given : String → String
  given name = env_get environ name ""

  read_principals :
      (settings.admin_principals ≡ principals (given "ADMIN_PRINCIPALS"))
      × (settings.ci_principals ≡ principals (given "CI_PRINCIPALS"))
  unfolding get_settings
  read_principals =
      by_numbers (to_float (env_get environ "RECONCILE_INTERVAL_SECONDS" "15"))
        (to_float (env_get environ "STEP_STUCK_THRESHOLD_SECONDS" "3600")) refl refl
    where
      by_numbers :
          (r t : Result ℕ)
          → to_float (env_get environ "RECONCILE_INTERVAL_SECONDS" "15") ≡ r
          → to_float (env_get environ "STEP_STUCK_THRESHOLD_SECONDS" "3600") ≡ t
          → (settings.admin_principals ≡ principals (given "ADMIN_PRINCIPALS"))
            × (settings.ci_principals ≡ principals (given "CI_PRINCIPALS"))
      by_numbers (ok n) (ok m) e f =
          (sym (ap admins_of read) ∙ rw (e, f) refl, sym (ap cis_of read) ∙ rw (e, f) refl)
      by_numbers (err x) t e f = absurd (cc (rw e at read))
      by_numbers (ok n) (err x) e f = absurd (cc (rw (e, f) at read))

  abbrev pub all_blank : String → Bool
  all_blank s = all is_blank (split_commas s)

  -- Where the environment names no admin and no CI principal (the variables are not set, or have blanks
  -- and commas only), no identity headers get past the checks of an admin or of a CI principal.
  pub nobody_by_default :
      (email user : Option String)
      → all_blank (given "ADMIN_PRINCIPALS") ≡ true
      → all_blank (given "CI_PRINCIPALS") ≡ true
      → (identity : String)
      → (require_admin settings email user ≢ ok identity)
        × (require_ci_principal settings email user ≢ ok identity)
  unfolding require_admin require_ci_principal
  nobody_by_default email user h k identity =
      (admin (forwarded_identity email user) refl, principal (forwarded_identity email user) refl)
    where
      no_admin : settings.admin_principals ≡ []
      no_admin = read_principals.0 ∙ principals_blank (given "ADMIN_PRINCIPALS") h

      no_ci : settings.ci_principals ≡ []
      no_ci = read_principals.1 ∙ principals_blank (given "CI_PRINCIPALS") k

      admin :
          (found : Option String)
          → forwarded_identity email user ≡ found
          → require_admin settings email user ≢ ok identity
      admin none f e = cc (rw f at e)
      admin (some i) f e = cc (rw (f, no_admin) at e)

      principal :
          (found : Option String)
          → forwarded_identity email user ≡ found
          → require_ci_principal settings email user ≢ ok identity
      principal none f e = cc (rw f at e)
      principal (some i) f e = cc (rw (f, no_ci, no_admin) at e)
