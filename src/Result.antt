-- ===== src/Result.antt =====
-- The exceptions that the modelled code raises, and the outcome of a call that may raise.
use terramate_api_wrapper.Base.{ℕ, String, Option, none, some, ◌≡◌, refl, ◌⊎◌, inl, inr}

pub data Error : Type 0 where
  -- `HTTPException(status_code, detail)`
  http : ℕ → String → Error
  value_error : String → Error
  key_error : String → Error
  type_error attribute_error index_error runtime_error : Error
  -- SQLAlchemy's `NoResultFound`, `MultipleResultsFound` and `IntegrityError`
  no_result_found multiple_results_found integrity_error : Error
  -- `next(...)` over nothing
  stop_iteration : Error
  -- an attribute of a row that is not there
  missing_row : Error
  -- `GitHubClientError`, and what a hook or a validator raises
  github_error hook_error validation_error : String → Error

pub data Result {ℓ} (A : Type ℓ) : Type ℓ where
  ok : A → Result A
  err : Error → Result A

-- A missing value raises.
abbrev pub require {ℓ} : {A : Type ℓ} → Error → Option A → Result A
require e none = err e
require e (some a) = ok a

-- A statement after another: an exception passes it by.
infixl 5 ◌>>=◌
abbrev pub ◌>>=◌ {ℓ κ} : {A : Type ℓ} {B : Type κ} → Result A → (A → Result B) → Result B
err raised >>= rest = err raised
ok value >>= rest = rest value

-- To split on an outcome and keep the equation.
pub Result-cases {ℓ} :
    {A : Type ℓ} (r : Result A) → ((a : A) × (r ≡ ok a)) ⊎ ((e : Error) × (r ≡ err e))
Result-cases (ok a) = inl (a, refl)
Result-cases (err e) = inr (e, refl)

pub ok-inj {ℓ} : {A : Type ℓ} {a b : A} → ok a ≡ ok b → a ≡ b
ok-inj h = cc h

-- A statement after another succeeds where both do.
pub bind-ok {ℓ κ} :
    {A : Type ℓ} {B : Type κ} (r : Result A) (rest : A → Result B) (b : B)
    → r >>= rest ≡ ok b
    → (a : A) × (r ≡ ok a) × (rest a ≡ ok b)
bind-ok (ok a) rest b h = (a, refl, h)
bind-ok (err e) rest b h = absurd (cc h)
