-- ===== src/GitHub/Retry.antt =====
-- server/github_client.py: `_request`, which retries a call that GitHub fails transiently.
pub mod Attempts
pub mod Waits
use terramate_api_wrapper.Base.{
  ℕ, zero, suc, ◌-◌, ◌*◌, ◌^◌, String, Bool, true, false, not, ◌||◌, Option, none, some, List, [],
  ◌∷◌, ltb, leb, contains, nat_eq, if◌then◌else◌,
}
use terramate_api_wrapper.Value.{Value}
use terramate_api_wrapper.Result.{Result, ok, err, github_error}

-- What `httpx` returns: `json` is `response.json()`, and `retry_after` is the header, if there is
-- one, as the number that it reads as, if it does. An exception of `httpx` itself, which ends the call without
-- a retry, is left out.
pub record Response : Type 0 where
  pub status_code : ℕ
  pub retry_after : Option (Option ℕ)
  pub json : Value
  pub text : String

-- `response.is_error`: 4xx or 5xx
abbrev pub is_error : Response → Bool
is_error response = leb 400 response.status_code

-- `_TRANSIENT_STATUS_CODES`
abbrev pub transient_status_codes : List ℕ
transient_status_codes = 429 ∷ 500 ∷ 502 ∷ 503 ∷ 504 ∷ []

unfoldable pub is_transient : ℕ → Bool
is_transient status_code = contains transient_status_codes status_code

abbrev pub min : ℕ → ℕ → ℕ
min a b = if leb a b then a else b

-- `_retry_delay`; an attempt's number is at least 1.
unfoldable pub retry_delay : Response → ℕ → ℕ → ℕ → ℕ
retry_delay response attempt base_seconds max_seconds = elim response.retry_after [
  | some (some seconds) ↦ seconds
  | _ ↦ min (base_seconds * 2 ^ (attempt - 1)) max_seconds
]

-- How the client was built.
pub record RetryPolicy : Type 0 where
  pub max_retries : ℕ
  pub retry_backoff_base_seconds : ℕ
  pub retry_backoff_max_seconds : ℕ

-- The outcome of a call, and the delays that were slept before it.
pub record Answer : Type 0 where
  pub outcome : Result Value
  pub delays : List ℕ

abbrev pub after_delay : ℕ → Option Answer → Option Answer
after_delay delay none = none
after_delay delay (some answer) =
    some (record { outcome = answer.outcome; delays = delay ∷ answer.delays })

module _ (policy : RetryPolicy) (send : ℕ → Response) where
  abbrev pub gives_up : Response → ℕ → Bool
  gives_up response attempt =
      not (is_transient response.status_code) || ltb policy.max_retries attempt

  abbrev pub delay_of : ℕ → ℕ
  delay_of attempt =
      retry_delay (send attempt) attempt policy.retry_backoff_base_seconds
        policy.retry_backoff_max_seconds

  -- The loop from an attempt on, where `send n` is what the n-th attempt is answered.
  unfoldable pub request_from : ℕ → ℕ → Option Answer
  request_from zero attempt = none
  request_from (suc fuel) attempt =
      let response = send attempt in
      let retried = after_delay (delay_of attempt) (request_from fuel (suc attempt)) in
      if not (is_error response)
      then some (record { outcome = ok response.json; delays = [] })
      else if gives_up response attempt
      then some (record { outcome = err (github_error response.text); delays = [] })
      else retried

  -- `_request`
  unfoldable pub request : Option Answer
  request = request_from (suc policy.max_retries) 1
