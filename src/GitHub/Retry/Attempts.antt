-- ===== src/GitHub/Retry/Attempts.antt =====
-- How often `_request` tries, what it returns, and how long it sleeps.
use terramate_api_wrapper.Base.{
  ℕ, zero, suc, ◌+◌, ◌≤◌, Bool, true, false, ◌&&◌, Option, some, List, [], ◌∷◌, leb, if◌then◌else◌,
  ◌≡◌, refl, inl, inr, Bool-cases, nat_eq, arith,
}
use terramate_api_wrapper.Value.{Value}
use terramate_api_wrapper.Result.{Result, ok, err, github_error}
use terramate_api_wrapper.GitHub.Retry.{
  Response, is_error, is_transient, RetryPolicy, Answer, gives_up, delay_of, request_from, request,
}

-- The outcome that a response is.
abbrev pub outcome_of : Response → Result Value
outcome_of response =
    if is_error response then err (github_error response.text) else ok response.json

module _ (policy : RetryPolicy) (send : ℕ → Response) where
  -- This attempt's response fails for a reason that may pass.
  abbrev pub fails_for_now : ℕ → Bool
  fails_for_now attempt = is_error (send attempt) && is_transient (send attempt).status_code

  abbrev pub delays_from : ℕ → ℕ → List ℕ
  delays_from attempt zero = []
  delays_from attempt (suc n) = delay_of policy send attempt ∷ delays_from (suc attempt) n

  abbrev pub all_fail : ℕ → ℕ → Bool
  all_fail attempt zero = true
  all_fail attempt (suc n) = fails_for_now attempt && all_fail (suc attempt) n

  -- What the loop has done by returning: `tried` attempts have failed for now, and the next one was
  -- the last.
  pub record Concluded (answer : Option Answer) (attempt : ℕ) : Type 0 where
    pub tried : ℕ
    pub final : ℕ
    pub at : final ≡ attempt + tried
    pub returns :
        answer
        ≡ some (record { outcome = outcome_of (send final); delays = delays_from attempt tried })
    pub failed : all_fail attempt tried ≡ true
    pub bounded : final ≤ suc policy.max_retries
    pub last : (fails_for_now final && leb final policy.max_retries) ≡ false

  request_from-Concluded :
      (fuel attempt : ℕ)
      → attempt + fuel ≡ suc (suc policy.max_retries)
      → 1 ≤ fuel
      → Concluded (request_from policy send fuel attempt) attempt
  unfolding request_from
  request_from-Concluded zero attempt e h = absurd (omega (arith, h))
  request_from-Concluded (suc fuel) attempt e h = elim (Bool-cases (is_error (send attempt))) [
    | inr fine ↦ record {
      tried = 0;
      final = attempt;
      at = omega arith;
      returns = rw fine refl;
      failed = refl;
      bounded = omega (arith, e);
      last = ground (arith, fine);
    }
    | inl bad ↦ elim (Bool-cases (gives_up policy send (send attempt) attempt)) [
      | inl over ↦ record {
        tried = 0;
        final = attempt;
        at = omega arith;
        returns = rw (bad, over) refl;
        failed = refl;
        bounded = omega (arith, e);
        last = ground (arith, over);
      }
      | inr again ↦
          let more : attempt ≤ policy.max_retries = ground (arith, again) in
          let rest =
            request_from-Concluded fuel (suc attempt) (omega (arith, e)) (omega (arith, e, more)) in
          record {
            tried = suc rest.tried;
            final = rest.final;
            at = omega (arith, rest.at);
            returns = rw (bad, again, rest.returns) refl;
            failed = ground (arith, bad, again, rest.failed);
            bounded = rest.bounded;
            last = rest.last;
          }
    ]
  ]

  -- A call to GitHub always comes to an end, after `max_retries + 1` attempts at most. Its outcome is
  -- that of its last attempt; every attempt before it failed for now and was slept after; and if
  -- the last one failed for now too, there was no attempt left.
  pub request-Concluded : Concluded (request policy send) 1
  unfolding request
  request-Concluded = request_from-Concluded (suc policy.max_retries) 1 (omega arith) (omega arith)
