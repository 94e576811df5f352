-- ===== src/GitHub/Client.antt =====
-- `RealGitHubClient` of server/github_client.py: the calls that open a pull request. Below it are httpx,
-- PyYAML and the codecs of Python, which are parameters.
pub mod Quiet
pub mod Committed
pub mod Published
pub mod Again
use terramate_api_wrapper.Base.{
  ℕ, String, ◌<>◌, Bool, true, false, not, Option, none, some, List, [], ◌∷◌, ◌++◌, ◌==◌, nat_eq,
  string_eq, if◌then◌else◌,
}
use terramate_api_wrapper.Value.{
  Value, null, str, quoted, list, dict, Items, nil, cons, Fields, empty, field, get,
}
use terramate_api_wrapper.Result.{
  Error, Result, ok, err, require, key_error, type_error, value_error, github_error, ◌>>=◌,
}
use terramate_api_wrapper.Stateful.{Stateful, pure, from_result, ◌then_do◌}
use terramate_api_wrapper.Framework.{FileEdit, add_file, edit_file, edit_text}
use terramate_api_wrapper.GitHub.{PullRequest, PullRequestRef}
use terramate_api_wrapper.GitHub.Retry.{Response, is_error, RetryPolicy, Answer, request}
use terramate_api_wrapper.Recipes.Workspace.{truthy}

-- A call to the API: `_get(path)`, the GET of a file's content at a ref, and `_post(path, json_body)`.
pub data Call : Type 0 where
  get_json : String → Call
  get_content : String → String → Call
  post : String → Value → Call

-- One client: `send calls call n` is what the n-th attempt of a call is answered, after the calls that were
-- made before; then `base64.b64decode(text).decode("utf-8")`, the loader and the dumper of
-- server/yaml_util.py, `str(value)`, and an integer of a JSON body.
pub record Client : Type 0 where
  pub repo : String
  pub policy : RetryPolicy
  pub send : List Call → Call → ℕ → Response
  pub decode : String → Result String
  pub yaml_load : String → Result Value
  pub dump_yaml : Value → String
  pub text_of : Value → String
  pub int_of : Value → ℕ

-- A function that makes calls, with the calls that were made so far as its state.
abbrev pub Act : Type 0 → Type 0
Act A = Stateful (List Call) A

-- `value[key]`
abbrev pub subscript : String → Value → Result Value
subscript key (dict d) = require (key_error key) (get key d)
subscript key _ = err type_error

-- No answer would be a retry loop that runs out of fuel.
abbrev pub outcome : Option Answer → Result Value
outcome (some answer) = answer.outcome
outcome none = err (github_error "")

module _ (client : Client) where
  -- `_get` and `_post`
  unfoldable pub perform : Call → Act Value
  perform call calls =
      (outcome (request client.policy (client.send calls call)), calls ++ call ∷ [])

  abbrev pub repo_path : String → String
  repo_path rest = "/repos/" <> (client.repo <> rest)

  unfoldable pub get_ref_sha : String → Act Value
  get_ref_sha ref = perform (get_json (repo_path ("/git/ref/" <> ref))) then_do λ v.
      from_result (subscript "object" v >>= subscript "sha")

  abbrev pub posted : String → Value → Act Value
  posted path body = perform (post (repo_path path) body)

  abbrev pub posted_sha : String → Value → Act Value
  posted_sha path body = posted path body then_do λ v. from_result (subscript "sha" v)

  unfoldable pub create_blob : String → Act Value
  create_blob content =
      posted_sha "/git/blobs"
        (dict (field "content" (str content) (field "encoding" (str "utf-8") empty)))

  -- `response.json()["content"]`, decoded.
  abbrev pub content_of : Value → Result String
  content_of json = subscript "content" json >>= λ v. client.decode (client.text_of v)

  abbrev pub text_file : Response → Result String
  text_file response =
      if response.status_code == 404
      then ok ""
      else if is_error response
      then err (github_error response.text)
      else content_of response.json

  -- `_get_text_file`: one attempt, and no file is an empty text.
  unfoldable pub get_text_file : String → String → Act String
  get_text_file path ref calls =
      let call = get_content (repo_path ("/contents/" <> path)) ref in
      (text_file (client.send calls call 1), calls ++ call ∷ [])

  -- `yaml.load(content) or {}`
  abbrev pub load_yaml : String → Result Value
  load_yaml content = client.yaml_load content >>= λ v. ok (if truthy v then v else dict empty)

  -- `except ValueError as error`
  abbrev pub located : String → String → Result String → Result String
  located path branch (err (value_error message)) =
      err (value_error (path <> (" on " <> (branch <> (": " <> message)))))
  located path branch r = r

  abbrev pub located_in : String → String → Act String → Act String
  located_in path branch act calls = (located path branch (act calls).0, (act calls).1)

  unfoldable pub render_content : FileEdit → String → Act String
  render_content (add_file path content) base_branch = pure content
  render_content (edit_file path patch) base_branch = get_text_file path base_branch then_do λ text.
      from_result (load_yaml text >>= patch >>= λ v. ok (client.dump_yaml v))
  render_content (edit_text path patch) base_branch =
      located_in path base_branch
        (get_text_file path base_branch then_do λ text. from_result (patch text))

  abbrev pub path_of : FileEdit → String
  path_of (add_file path content) = path
  path_of (edit_file path patch) = path
  path_of (edit_text path patch) = path

  abbrev pub tree_entry : String → Value → Value
  tree_entry path sha = dict (
      field "path" (str path)
        (field "mode" (str "100644") (field "type" (str "blob") (field "sha" sha empty))))

  -- `tree_entries`
  unfoldable pub tree_entries : String → List FileEdit → Act Items
  tree_entries base_branch [] = pure nil
  tree_entries base_branch (edit ∷ edits) = render_content edit base_branch then_do λ content.
      create_blob content then_do λ sha. tree_entries base_branch edits then_do λ rest.
      pure (cons (tree_entry (path_of edit) sha) rest)

  -- The call that creates the branch.
  abbrev pub create_ref : String → Value → Call
  create_ref branch_name sha =
      post (repo_path "/git/refs")
        (dict (field "ref" (str ("refs/heads/" <> branch_name)) (field "sha" sha empty)))

  -- The call that opens the pull request.
  abbrev pub create_pull : PullRequest → Call
  create_pull pr = post (repo_path "/pulls") (
      dict (
        field "title" (str pr.title) (
          field "head" (str pr.branch_name)
            (field "base" (str pr.base_branch) (field "body" (str pr.body) empty)))))

  abbrev pub ref_of : Value → Result PullRequestRef
  ref_of v = do
    number ← subscript "number" v
    url ← subscript "html_url" v
    ok (record { number = client.int_of number; url = client.text_of url })

  -- The commit that the base branch stands at, and its tree.
  abbrev pub read_commit : Value → Act Value
  read_commit sha = perform (get_json (repo_path ("/git/commits/" <> client.text_of sha)))

  abbrev pub tree_sha_of : Value → Act Value
  tree_sha_of commit = from_result (subscript "tree" commit >>= subscript "sha")

  abbrev pub post_tree : Value → Items → Act Value
  post_tree base_tree_sha entries =
      posted_sha "/git/trees"
        (dict (field "base_tree" base_tree_sha (field "tree" (list entries) empty)))

  abbrev pub post_commit : PullRequest → Value → Value → Act Value
  post_commit pr base_commit_sha new_tree_sha = posted_sha "/git/commits" (
      dict (
        field "message" (str pr.title)
          (field "tree" new_tree_sha (field "parents" (list (cons base_commit_sha nil)) empty))))

  -- The edits as a commit on top of the base branch.
  abbrev pub commit_on : PullRequest → Value → Value → Act Value
  commit_on pr base_commit_sha base_tree_sha =
      tree_entries pr.base_branch pr.edits then_do λ entries.
      post_tree base_tree_sha entries then_do post_commit pr base_commit_sha

  abbrev pub commit_from : PullRequest → Value → Act Value
  commit_from pr base_commit_sha =
      (read_commit base_commit_sha then_do tree_sha_of) then_do commit_on pr base_commit_sha

  unfoldable pub commit_edits : PullRequest → Act Value
  commit_edits pr = get_ref_sha ("heads/" <> pr.base_branch) then_do commit_from pr

  -- The branch, and the pull request from it.
  unfoldable pub publish : PullRequest → Value → Act PullRequestRef
  publish pr new_commit_sha = perform (create_ref pr.branch_name new_commit_sha) then_do λ created.
      perform (create_pull pr) then_do λ opened. from_result (ref_of opened)

  unfoldable pub open_pull_request : PullRequest → Act PullRequestRef
  open_pull_request pr = commit_edits pr then_do publish pr
