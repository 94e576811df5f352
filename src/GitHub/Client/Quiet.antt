-- ===== src/GitHub/Client/Quiet.antt =====
-- The calls of `open_pull_request` of server/github_client.py that commit the edits of a pull request.
use mathlib.Core.List.{append_assoc, append-nil}
use text.Mathlib.TextLemmas.{append_cancel_left}
use terramate_api_wrapper.Base.{
  String, ◌<>◌, Bool, false, ◌||◌, List, [], ◌∷◌, ◌++◌, any, ◌==◌, string_eq, ◌≡◌, ◌≢◌, refl, sym,
  ap, ◌∙◌, arith, inl, inr,
}
use terramate_api_wrapper.Value.{Value, str, dict, Items, nil, cons, empty, field}
use terramate_api_wrapper.Result.{Result, ok, ◌>>=◌, Result-cases}
use terramate_api_wrapper.Framework.{FileEdit, add_file, edit_file, edit_text}
use terramate_api_wrapper.GitHub.{PullRequest}
use terramate_api_wrapper.Stateful.{pure, from_result, ◌then_do◌}
use terramate_api_wrapper.GitHub.Client.{
  Call, get_json, get_content, post, Client, Act, subscript, perform, repo_path, get_ref_sha,
  posted, posted_sha, create_blob, get_text_file, load_yaml, render_content, path_of, tree_entry,
  tree_entries, commit_edits, read_commit, tree_sha_of, post_tree, post_commit, commit_on,
  commit_from,
}

pub any-append : (p : Call → Bool) (xs ys : List Call) → any p (xs ++ ys) ≡ any p xs || any p ys
any-append p [] ys = refl
any-append p (x ∷ xs) ys = ground (arith, any-append p xs ys)

module _ (client : Client) where
  -- A call that creates a branch or a pull request.
  abbrev pub is_publishing : Call → Bool
  is_publishing (post path body) =
      path == repo_path client "/git/refs" || path == repo_path client "/pulls"
  is_publishing _ = false

  -- Whatever an act answers, it only makes calls, none of which publishes.
  abbrev Quiet : {A : Type 0} → Act A → Type 0
  Quiet act =
      (calls : List Call)
      → (made : List Call) × ((act calls).1 ≡ calls ++ made) × (any is_publishing made ≡ false)

  pure-Quiet : {A : Type 0} (r : Result A) → Quiet (from_result r)
  pure-Quiet r calls = ([], sym (append-nil calls), refl)

  then-Quiet :
      {A B : Type 0} (act : Act A) (rest : A → Act B)
      → Quiet act
      → ((a : A) → Quiet (rest a))
      → Quiet (act then_do rest)
  then-Quiet act rest q r calls =
      let (made, after, quiet) = q calls in
      elim (Result-cases (act calls).0) [
        | inr (e, failed) ↦ rw failed (made, after, quiet)
        | inl (a, succeeded) ↦
            let (more, then_after, then_quiet) = r a (act calls).1 in
            rw succeeded (
              made ++ more,
              then_after ∙ (ap (λ cs. cs ++ more) after ∙ append_assoc calls made more),
              any-append is_publishing made more ∙ ground (arith, quiet, then_quiet),
            )
      ]

  repo_path-ne : (a b : String) → a ≢ b → (repo_path client a == repo_path client b) ≡ false
  repo_path-ne a b differ = elim (string_eq.dec (repo_path client a) (repo_path client b)) [
    | yes same ↦ absurd (
        differ (
          append_cancel_left client.repo a b
            (append_cancel_left "/repos/" (client.repo <> a) (client.repo <> b) same)))
    | no other ↦ ground (arith, other)
  ]

  perform-Quiet : (call : Call) → is_publishing call ≡ false → Quiet (perform client call)
  unfolding perform
  perform-Quiet call h calls = (call ∷ [], refl, ground (arith, h))

  read-Quiet : (path : String) → Quiet (perform client (get_json path))
  read-Quiet path = perform-Quiet (get_json path) refl

  posted-Quiet :
      (path : String) (body : Value)
      → path ≢ "/git/refs"
      → path ≢ "/pulls"
      → Quiet (posted_sha client path body)
  posted-Quiet path body refs pulls =
      then-Quiet (posted client path body) (λ v. from_result (subscript "sha" v))
        (perform-Quiet (post (repo_path client path) body)
          (ground (arith, repo_path-ne path "/git/refs" refs, repo_path-ne path "/pulls" pulls)))
        (λ v. pure-Quiet (subscript "sha" v))

  get_text_file-Quiet : (path ref : String) → Quiet (get_text_file client path ref)
  unfolding get_text_file
  get_text_file-Quiet path ref calls =
      (get_content (repo_path client ("/contents/" <> path)) ref ∷ [], refl, refl)

  render_content-Quiet :
      (edit : FileEdit) (branch : String) → Quiet (render_content client edit branch)
  unfolding render_content
  render_content-Quiet (add_file path content) branch = pure-Quiet (ok content)
  render_content-Quiet (edit_file path patch) branch =
      then-Quiet (get_text_file client path branch)
        (λ text. from_result (load_yaml client text >>= patch >>= λ v. ok (client.dump_yaml v)))
        (get_text_file-Quiet path branch)
        (λ text. pure-Quiet (load_yaml client text >>= patch >>= λ v. ok (client.dump_yaml v)))
  render_content-Quiet (edit_text path patch) branch =
      then-Quiet (get_text_file client path branch) (λ text. from_result (patch text))
        (get_text_file-Quiet path branch) (λ text. pure-Quiet (patch text))

  create_blob-Quiet : (content : String) → Quiet (create_blob client content)
  unfolding create_blob string_eq
  create_blob-Quiet content =
      posted-Quiet "/git/blobs"
        (dict (field "content" (str content) (field "encoding" (str "utf-8") empty))) (λ e. cc e)
        (λ e. cc e)

  tree_entries-Quiet :
      (branch : String) (edits : List FileEdit) → Quiet (tree_entries client branch edits)
  unfolding tree_entries
  tree_entries-Quiet branch [] = pure-Quiet (ok nil)
  tree_entries-Quiet branch (edit ∷ edits) =
      then-Quiet (render_content client edit branch)
        (λ content. create_blob client content then_do λ sha.
          tree_entries client branch edits then_do λ rest.
          pure (cons (tree_entry client (path_of client edit) sha) rest))
        (render_content-Quiet edit branch)
        (λ content.
          then-Quiet (create_blob client content)
            (λ sha. tree_entries client branch edits then_do λ rest.
              pure (cons (tree_entry client (path_of client edit) sha) rest))
            (create_blob-Quiet content)
            (λ sha.
              then-Quiet (tree_entries client branch edits)
                (λ rest. pure (cons (tree_entry client (path_of client edit) sha) rest))
                (tree_entries-Quiet branch edits)
                (λ rest.
                  pure-Quiet (ok (cons (tree_entry client (path_of client edit) sha) rest)))))

  get_ref_sha-Quiet : (ref : String) → Quiet (get_ref_sha client ref)
  unfolding get_ref_sha
  get_ref_sha-Quiet ref =
      then-Quiet (perform client (get_json (repo_path client ("/git/ref/" <> ref))))
        (λ v. from_result (subscript "object" v >>= subscript "sha"))
        (read-Quiet (repo_path client ("/git/ref/" <> ref)))
        (λ v. pure-Quiet (subscript "object" v >>= subscript "sha"))

  post_tree-Quiet : (tree : Value) (entries : Items) → Quiet (post_tree client tree entries)
  unfolding string_eq
  post_tree-Quiet tree entries = posted-Quiet "/git/trees" _ (λ e. cc e) (λ e. cc e)

  post_commit-Quiet :
      (pr : PullRequest) (base tree : Value) → Quiet (post_commit client pr base tree)
  unfolding string_eq
  post_commit-Quiet pr base tree = posted-Quiet "/git/commits" _ (λ e. cc e) (λ e. cc e)

  commit_on-Quiet : (pr : PullRequest) (base tree : Value) → Quiet (commit_on client pr base tree)
  commit_on-Quiet pr base tree =
      then-Quiet (tree_entries client pr.base_branch pr.edits)
        (λ entries. post_tree client tree entries then_do post_commit client pr base)
        (tree_entries-Quiet pr.base_branch pr.edits)
        (λ entries.
          then-Quiet (post_tree client tree entries) (post_commit client pr base)
            (post_tree-Quiet tree entries) (post_commit-Quiet pr base))

  commit_from-Quiet : (pr : PullRequest) (base : Value) → Quiet (commit_from client pr base)
  commit_from-Quiet pr base =
      then-Quiet (read_commit client base then_do tree_sha_of client) (commit_on client pr base)
        (then-Quiet (read_commit client base) (tree_sha_of client)
          (read-Quiet (repo_path client ("/git/commits/" <> client.text_of base)))
          (λ commit. pure-Quiet (subscript "tree" commit >>= subscript "sha")))
        (commit_on-Quiet pr base)

  pub commit_edits-Quiet : (pr : PullRequest) → Quiet (commit_edits client pr)
  unfolding commit_edits
  commit_edits-Quiet pr =
      then-Quiet (get_ref_sha client ("heads/" <> pr.base_branch)) (commit_from client pr)
        (get_ref_sha-Quiet ("heads/" <> pr.base_branch)) (commit_from-Quiet pr)
