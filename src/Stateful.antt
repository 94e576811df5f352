-- ===== src/Stateful.antt =====
-- Code that reads and writes a state and may raise: an exception keeps what was written before it.
use terramate_api_wrapper.Base.{◌≡◌, refl, ap}
use terramate_api_wrapper.Result.{Result, ok, err}

abbrev pub Stateful {ℓ} : Type ℓ → Type ℓ → Type ℓ
Stateful S A = S → Result A × S

module _ {ℓ} {S : Type ℓ} where
  abbrev pub pure : {A : Type ℓ} → A → Stateful S A
  pure a s = (ok a, s)

  abbrev pub from_result : {A : Type ℓ} → Result A → Stateful S A
  from_result r s = (r, s)

  abbrev pub go_on : {A B : Type ℓ} → (A → Stateful S B) → Result A → Stateful S B
  go_on rest (err e) s = (err e, s)
  go_on rest (ok a) s = rest a s

  infixl 5 ◌then_do◌
  abbrev pub ◌then_do◌ : {A B : Type ℓ} → Stateful S A → (A → Stateful S B) → Stateful S B
  (act then_do rest) s = go_on rest (act s).0 (act s).1

  -- A statement after another succeeds where both do.
  pub then_do-ok :
      {A B : Type ℓ} (act : Stateful S A) (rest : A → Stateful S B) (b : B) (s t : S)
      → (act then_do rest) s ≡ (ok b, t)
      → (a : A) × (u : S) × (act s ≡ (ok a, u)) × (rest a u ≡ (ok b, t))
  then_do-ok {A = A} {B = B} act rest b s t h = by_result (act s).0 (act s).1 refl h
    where
      by_result :
          (r : Result A) (u : S)
          → act s ≡ (r, u)
          → go_on rest r u ≡ (ok b, t)
          → (a : A) × (u : S) × (act s ≡ (ok a, u)) × (rest a u ≡ (ok b, t))
      by_result (ok a) u e h = (a, u, e, h)
      by_result (err x) u e h = absurd (cc (ap (λ p. p.0) h))

  -- The outcome of `try` and `finally`, where an exception of the latter takes the place of the former's.
  abbrev pub after_finally : {A : Type ℓ} {B : Type ℓ} → Result A → Result B × S → Result A × S
  after_finally r (err e, s) = (err e, s)
  after_finally r (ok _, s) = (r, s)

  infixl 5 ◌finally_do◌
  abbrev pub ◌finally_do◌ : {A B : Type ℓ} → Stateful S A → Stateful S B → Stateful S A
  (act finally_do last) s = after_finally (act s).0 (last (act s).1)
