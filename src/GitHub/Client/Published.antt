-- ===== src/GitHub/Client/Published.antt =====
-- What `open_pull_request` has created when it ends, and in which order.
use terramate_api_wrapper.Base.{false, List, [], ◌∷◌, ◌++◌, any, string_eq, ◌≡◌, refl, inl, inr}
use terramate_api_wrapper.Value.{Value}
use terramate_api_wrapper.Result.{Error, Result, ok, err, ◌>>=◌, Result-cases}
use terramate_api_wrapper.GitHub.{PullRequest, PullRequestRef}
use terramate_api_wrapper.Stateful.{from_result, go_on}
use terramate_api_wrapper.GitHub.Client.{
  Call, Client, perform, create_ref, create_pull, ref_of, commit_edits, publish, open_pull_request,
}
use terramate_api_wrapper.GitHub.Client.Committed.{Committed, commit_edits-Committed}
use terramate_api_wrapper.GitHub.Client.Quiet.{is_publishing, commit_edits-Quiet}

module _ (client : Client) where
  performed : (call : Call) (calls : List Call) → (perform client call calls).1 ≡ calls ++ call ∷ []
  unfolding perform
  performed call calls = refl

  answered :
      {A B : Type 0} (f : A → Result B) (r : Result A) (calls : List Call)
      → go_on (λ a. from_result (f a)) r calls ≡ (r >>= f, calls)
  answered f (ok a) calls = refl
  answered f (err e) calls = refl

  module _ (pr : PullRequest) (calls : List Call) where
    abbrev with_branch : List Call → Value → List Call
    with_branch made sha = (calls ++ made) ++ create_ref client pr.branch_name sha ∷ []

    -- How a call of `open_pull_request` ends: what it answers, and the calls that it has made.
    pub data Published : Result PullRequestRef → List Call → Type 0 where
      -- Something failed before the commit of the edits was there.
      nothing :
          (e : Error) (made : List Call)
          → any (is_publishing client) made ≡ false
          → Published (err e) (calls ++ made)
      -- The edits are committed; the branch is refused.
      no_branch :
          (e : Error) (made : List Call) (sha : Value)
          → any (is_publishing client) made ≡ false
          → Committed client pr calls sha (calls ++ made)
          → (perform client (create_ref client pr.branch_name sha) (calls ++ made)).0 ≡ err e
          → Published (err e) (with_branch made sha)
      -- The branch is there; the answer is what the creation of the pull request is answered.
      branch :
          (made : List Call) (sha created : Value)
          → any (is_publishing client) made ≡ false
          → Committed client pr calls sha (calls ++ made)
          → (perform client (create_ref client pr.branch_name sha) (calls ++ made)).0 ≡ ok created
          → Published
              ((perform client (create_pull client pr) (with_branch made sha)).0 >>= ref_of client)
              (with_branch made sha ++ create_pull client pr ∷ [])

    publish-Published :
        (made : List Call) (sha : Value)
        → any (is_publishing client) made ≡ false
        → Committed client pr calls sha (calls ++ made)
        → Published
            (publish client pr sha (calls ++ made)).0
            (publish client pr sha (calls ++ made)).1
    unfolding publish
    publish-Published made sha quiet committed =
        elim (Result-cases
          (perform client (create_ref client pr.branch_name sha) (calls ++ made)).0) [
            | inr (e, refused) ↦
                rw (refused, performed (create_ref client pr.branch_name sha) (calls ++ made))
                  (no_branch e made sha quiet committed refused)
            | inl (created, there) ↦
                let opening = perform client (create_pull client pr) (with_branch made sha) in
                rw
                  (
                    there,
                    performed (create_ref client pr.branch_name sha) (calls ++ made),
                    answered (ref_of client) opening.0 opening.1,
                    performed (create_pull client pr) (with_branch made sha),
                  )
                  (branch made sha created quiet committed there)
          ]

    -- `open_pull_request` creates no branch and no pull request unless every edit has been rendered from its
    -- file on the base branch and stored as a blob, in the order of the edits, and a tree with exactly these
    -- entries and a commit with that tree on top of the base branch have been created, each by a call that
    -- was answered with its sha. It creates the branch at that commit first and the pull request last; and if
    -- it answers with a pull request it has called for both once, apart from the transport's retries.
    pub open_pull_request-Published :
        Published (open_pull_request client pr calls).0 (open_pull_request client pr calls).1
    unfolding open_pull_request
    open_pull_request-Published =
        let (made, after, quiet) = commit_edits-Quiet client pr calls in
        elim (Result-cases (commit_edits client pr calls).0) [
          | inr (e, failed) ↦ rw (failed, after) (nothing e made quiet)
          | inl (sha, committed) ↦
              rw (committed, after)
                (publish-Published made sha quiet (
                  commit_edits-Committed client pr sha calls (calls ++ made)
                    (λ i. (committed i, after i))))
        ]
