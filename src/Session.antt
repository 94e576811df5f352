-- ===== src/Session.antt =====
-- A database session with what happens outside it. Handlers are actions that may raise; what was
-- written before the raise stays in `working` until a rollback, and is in `committed` only after a
-- commit. Log lines, hook calls and GitHub calls go to `trace`, which no rollback touches.
use terramate_api_wrapper.Base.{ℕ, suc, String, List, [], ◌∷◌, ◌++◌}
use terramate_api_wrapper.Result.{Error, Result, ok, err}
use terramate_api_wrapper.Models.{Db, Step, StepStatus, RequestStatus}
use terramate_api_wrapper.GitHub.{PullRequest, PullRequestRef}

pub data Event : Type 0 where
  -- the row before, and the new status
  step_transition : Step → StepStatus → Event
  request_rollup : String → RequestStatus → RequestStatus → Event
  hook_invoked : Step → String → Event
  pr_requested : PullRequest → Event
  pr_opened : Step → PullRequestRef → Event
  step_stuck : Step → Event
  -- `pg_advisory_xact_lock`
  lane_locked : Event

pub record Session : Type 0 where
  pub working : Db
  pub committed : Db
  pub trace : List Event
  -- how often the outside was asked: the clock, the uuid generator, a hook, GitHub
  pub moment : ℕ

abbrev pub Exec {ℓ} : Type ℓ → Type ℓ
Exec A = Session → Result A × Session

abbrev pub continue {ℓ} : {A B : Type ℓ} → Result A → (A → Exec B) → Exec B
continue (ok a) f s = f a s
continue (err e) f s = (err e, s)

infixl 5 ◌>>=◌ ◌>>◌
abbrev pub ◌>>=◌ {ℓ} : {A B : Type ℓ} → Exec A → (A → Exec B) → Exec B
◌>>=◌ m f s = let (r, s') = m s in continue r f s'

abbrev pub ◌>>◌ {ℓ} : {A B : Type ℓ} → Exec A → Exec B → Exec B
m >> k = m >>= λ _. k

abbrev pub pure {ℓ} : {A : Type ℓ} → A → Exec A
pure a s = (ok a, s)

abbrev pub raise {ℓ} : {A : Type ℓ} → Error → Exec A
raise e s = (err e, s)

abbrev pub lift {ℓ} : {A : Type ℓ} → Result A → Exec A
lift r s = (r, s)

-- A query of the current transaction.
abbrev pub query {ℓ} : {A : Type ℓ} → (Db → A) → Exec A
query f s = (ok (f s.working), s)

abbrev pub modify : (Db → Db) → Exec (Unit {0})
modify f s = (ok tt, record s { working = f s.working })

abbrev pub emit : Event → Exec (Unit {0})
emit e s = (ok tt, record s { trace = s.trace ++ (e ∷ []) })

-- Something outside answers, as it does at this moment.
abbrev pub ask {ℓ} : {A : Type ℓ} → (ℕ → A) → Exec A
ask f s = (ok (f s.moment), record s { moment = suc s.moment })

abbrev pub commit : Exec (Unit {0})
commit s = (ok tt, record s { committed = s.working })

abbrev pub rollback : Exec (Unit {0})
rollback s = (ok tt, record s { working = s.committed })

-- `try: …`: the outcome as a value.
abbrev pub attempt {ℓ} : {A : Type ℓ} → Exec A → Exec (Result A)
attempt m s = let (r, s') = m s in (ok r, s')
