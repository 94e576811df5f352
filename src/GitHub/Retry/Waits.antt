-- ===== src/GitHub/Retry/Waits.antt =====
-- How long `_request` sleeps at most.
use native.Mathlib.Nat.{suc-mul, mul-le-mul_right}
use terramate_api_wrapper.Base.{
  ℕ, zero, suc, ◌+◌, ◌-◌, ◌*◌, ◌^◌, ◌≤◌, none, some, List, [], ◌∷◌, ◌≡◌, arith,
}
use terramate_api_wrapper.GitHub.Retry.{
  Response, min, retry_delay, RetryPolicy, Answer, delay_of, request,
}
use terramate_api_wrapper.GitHub.Retry.Attempts.{outcome_of, delays_from, request-Concluded}

abbrev pub total : List ℕ → ℕ
total [] = 0
total (delay ∷ delays) = delay + total delays

min-bounded : (a b : ℕ) → min a b ≤ b
min-bounded a b = ground arith

module _ (policy : RetryPolicy) (send : ℕ → Response)
    (unasked : (n : ℕ) → (send n).retry_after ≡ none) where
  delay_of-bounded : (attempt : ℕ) → delay_of policy send attempt ≤ policy.retry_backoff_max_seconds
  unfolding retry_delay
  delay_of-bounded attempt = rw (unasked attempt) (
      min-bounded (policy.retry_backoff_base_seconds * 2 ^ (attempt - 1))
        policy.retry_backoff_max_seconds)

  total-delays :
      (n attempt : ℕ)
      → total (delays_from policy send attempt n) ≤ n * policy.retry_backoff_max_seconds
  total-delays zero attempt = omega arith
  total-delays (suc n) attempt =
      let first = delay_of-bounded attempt in
      let rest = total-delays n (suc attempt) in
      let product = suc-mul n policy.retry_backoff_max_seconds in
      rw product (omega (arith, first, rest))

  -- Where no response says after how long to retry, a call to GitHub ends with an answer, and it has slept
  -- `max_retries` times the longest backoff at most.
  pub request-waits :
      (answer : Answer) × (request policy send ≡ some answer)
      × (total answer.delays ≤ policy.max_retries * policy.retry_backoff_max_seconds)
  request-waits =
      let concluded = request-Concluded policy send in
      let tried : concluded.tried ≤ policy.max_retries =
        omega (arith, concluded.at, concluded.bounded) in
      let waits = total-delays concluded.tried 1 in
      let product = mul-le-mul_right policy.retry_backoff_max_seconds tried in
      (
        record {
          outcome = outcome_of (send concluded.final);
          delays = delays_from policy send 1 concluded.tried;
        },
        concluded.returns,
        omega (arith, waits, product),
      )
