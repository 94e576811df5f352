-- ===== src/Examples/Calls.antt =====
-- The theorems on the calls to GitHub that open a pull request, with a GitHub that runs.
use terramate_api_wrapper.Base.{
  ◌++◌, ℕ, Bool, true, false, ◌&&◌, none, List, [], ◌∷◌, any, ◌==◌, nat_eq, string_eq,
  if◌then◌else◌, ◌≡◌, refl, arith,
}
use terramate_api_wrapper.Value.{Value, null, number, str, dict, empty, field}
use terramate_api_wrapper.Result.{Error, ok, err, value_error}
use terramate_api_wrapper.Framework.{add_file, edit_text}
use terramate_api_wrapper.GitHub.{PullRequest}
use terramate_api_wrapper.GitHub.Retry.{Response, request, request_from, is_transient}
use terramate_api_wrapper.GitHub.Client.{
  Call, get_json, get_content, post, Client, perform, create_ref, open_pull_request, commit_edits,
  publish, get_ref_sha, create_blob, get_text_file, render_content, tree_entries,
}
use terramate_api_wrapper.GitHub.Client.Published.{Published, open_pull_request-Published}
use terramate_api_wrapper.GitHub.Client.Again.{IsThere, open_pull_request-refused}

-- A body with every key that the client reads.
abbrev json : Value
json = dict (
    field "object" (dict (field "sha" (str "base") empty)) (
      field "tree" (dict (field "sha" (str "root") empty)) (
        field "sha" (str "new") (
          field "number" (number "7")
            (field "html_url" (str "https://github.com/o/r/pull/7") empty)))))

abbrev answer : ℕ → Response
answer status = record { status_code = status; retry_after = none; json = json; text = "" }

abbrev is_ref : Call → Bool
is_ref (post path body) = path == "/repos/o/r/git/refs"
is_ref _ = false

-- No file is there, and a branch can be created once.
abbrev send : List Call → Call → ℕ → Response
send calls (get_content path ref) n = answer 404
send calls (get_json path) n = answer 200
send calls (post path body) n =
    if is_ref (post path body) && any is_ref calls then answer 422 else answer 201

abbrev client : Client
client = record {
  repo = "o/r";
  policy = record {
    max_retries = 4;
    retry_backoff_base_seconds = 1;
    retry_backoff_max_seconds = 30;
  };
  send = send;
  decode = ok;
  yaml_load = λ text. ok null;
  dump_yaml = λ v. "";
  text_of = λ v. "sha";
  int_of = λ v. 7;
}

abbrev pull_request : PullRequest
pull_request = record {
  branch_name = "provision/1/a";
  base_branch = "main";
  title = "a";
  body = "";
  edits = add_file "a.txt" "a" ∷ [];
}

abbrev unrendered : PullRequest
unrendered = record pull_request {
  edits = edit_text "b.hcl" (λ text. err (value_error "no block")) ∷ [];
}

open_pull_request-Published_example :
    Published client pull_request []
      (open_pull_request client pull_request []).0
      (open_pull_request client pull_request []).1
open_pull_request-Published_example = open_pull_request-Published client pull_request []

any-later :
    (before later : List Call) (call : Call)
    → is_ref call ≡ true
    → any is_ref (before ++ call ∷ later) ≡ true
any-later [] later call h = ground (arith, h)
any-later (c ∷ before) later call h = ground (arith, any-later before later call h)

once :
    (calls : List Call) (sha : Value) (n : ℕ)
    → IsThere client "provision/1/a" calls
    → (send calls (create_ref client "provision/1/a" sha) n).status_code ≡ 422
unfolding string_eq
once calls sha n there =
    rw
      (
        there.among,
        any-later there.before there.later (create_ref client "provision/1/a" there.sha) refl,
      )
      refl

-- The branch was created, and the call for the pull request was lost.
abbrev made : List Call
made = create_ref client "provision/1/a" (str "s") ∷ []

created_once : IsThere client "provision/1/a" made
unfolding perform request request_from is_transient nat_eq string_eq
created_once = record {
  before = [];
  later = [];
  sha = str "s";
  answer = json;
  among = refl;
  answered = refl;
}

open_pull_request-refused_example :
    (e : Error) × ((open_pull_request client pull_request made).0 ≡ err e)
open_pull_request-refused_example =
    open_pull_request-refused client pull_request once made created_once

-- The pull request that is opened, and the seven calls for it.
opened_run : (open_pull_request client pull_request []).0 ≡ ok (record { number = 7; url = "sha" })
unfolding open_pull_request commit_edits publish get_ref_sha create_blob render_content tree_entries
    perform request request_from is_transient nat_eq string_eq
opened_run = refl

-- An edit that cannot be rendered: its file is named, and no call has created anything.
unrendered_run :
    (open_pull_request client unrendered []).0 ≡ err (value_error "b.hcl on main: no block")
unfolding open_pull_request commit_edits publish get_ref_sha create_blob render_content
    get_text_file tree_entries perform request request_from is_transient nat_eq string_eq
unrendered_run = refl
