-- ===== src/GitHub/Client/Again.antt =====
-- Opening a pull request again, once its branch is there.
use mathlib.Core.List.{append_assoc}
use terramate_api_wrapper.Base.{ℕ, String, List, ◌∷◌, ◌++◌, nat_eq, ◌≡◌, refl, ap, ◌∙◌}
use terramate_api_wrapper.Value.{Value}
use terramate_api_wrapper.Result.{Error, Result, ok, err}
use terramate_api_wrapper.GitHub.{PullRequest, PullRequestRef}
use terramate_api_wrapper.GitHub.Retry.{is_transient, request, request_from}
use terramate_api_wrapper.GitHub.Client.{Call, Client, perform, create_ref, open_pull_request}
use terramate_api_wrapper.GitHub.Client.Published.{
  Published, nothing, no_branch, branch, open_pull_request-Published,
}

module _ (client : Client) where
  -- The branch was created by one of these calls, and GitHub had answered that it was.
  pub record IsThere (branch_name : String) (calls : List Call) : Type 0 where
    pub before : List Call
    pub later : List Call
    pub sha : Value
    pub answer : Value
    pub among : calls ≡ before ++ create_ref client branch_name sha ∷ later
    pub answered : (perform client (create_ref client branch_name sha) before).0 ≡ ok answer

  IsThere-append :
      (branch_name : String) (calls more : List Call)
      → IsThere branch_name calls
      → IsThere branch_name (calls ++ more)
  IsThere-append branch_name calls more there = record {
    before = there.before;
    later = there.later ++ more;
    sha = there.sha;
    answer = there.answer;
    among =
        ap (λ cs. cs ++ more) there.among
        ∙ append_assoc there.before (create_ref client branch_name there.sha ∷ there.later) more;
    answered = there.answered;
  }

  module _ (pr : PullRequest)
      (unprocessable : (calls : List Call) (sha : Value) (n : ℕ)
        → IsThere pr.branch_name calls
        → (client.send calls (create_ref client pr.branch_name sha) n).status_code ≡ 422) where
    ref_refused :
        (calls : List Call) (sha created : Value)
        → IsThere pr.branch_name calls
        → (perform client (create_ref client pr.branch_name sha) calls).0 ≡ ok created
        → ⊥
    unfolding perform request request_from is_transient nat_eq
    ref_refused calls sha created there answered =
        let status = unprocessable calls sha 1 there in cc (rw status at answered)

    refused :
        (calls : List Call)
        → IsThere pr.branch_name calls
        → (r : Result PullRequestRef) (after : List Call) → Published client pr calls r after
        → (e : Error) × (r ≡ err e)
    refused calls there r after (nothing e made quiet) = (e, refl)
    refused calls there r after (no_branch e made sha quiet committed no_ref) = (e, refl)
    refused calls there r after (branch made sha created quiet committed ref) = absurd (
        ref_refused (calls ++ made) sha created (IsThere-append pr.branch_name calls made there)
          ref)

    -- Where GitHub answers 422 to the creation of a branch that it has created before: once the branch of a
    -- pull request has been created by an earlier call, opening the pull request fails, however often it is
    -- tried, whether or not the pull request was opened then.
    pub open_pull_request-refused :
        (calls : List Call)
        → IsThere pr.branch_name calls
        → (e : Error) × ((open_pull_request client pr calls).0 ≡ err e)
    open_pull_request-refused calls there =
        refused calls there (open_pull_request client pr calls).0
          (open_pull_request client pr calls).1 (open_pull_request-Published client pr calls)
