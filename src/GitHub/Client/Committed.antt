-- ===== src/GitHub/Client/Committed.antt =====
-- The commit that `open_pull_request` of server/github_client.py makes, by the calls for it and their
-- answers.
use terramate_api_wrapper.Base.{String, ◌<>◌, List, [], ◌∷◌, ◌++◌, ◌≡◌, refl, sym, ap, ◌∙◌, subst}
use terramate_api_wrapper.Value.{Value, str, list, dict, Items, nil, cons, empty, field}
use terramate_api_wrapper.Result.{
  Result, ok, err, ◌>>=◌, bind-ok, ok-inj, http, value_error, key_error, type_error,
  attribute_error, index_error, runtime_error, no_result_found, multiple_results_found,
  integrity_error, stop_iteration, missing_row, github_error, hook_error, validation_error,
}
use terramate_api_wrapper.Framework.{FileEdit, add_file, edit_file, edit_text}
use terramate_api_wrapper.GitHub.{PullRequest}
use terramate_api_wrapper.Stateful.{pure, from_result, ◌then_do◌, then_do-ok}
use terramate_api_wrapper.GitHub.Client.{
  Call, get_json, post, Client, subscript, perform, repo_path, get_ref_sha, create_blob,
  get_text_file, load_yaml, located, render_content, path_of, tree_entry, tree_entries,
  commit_edits, read_commit, tree_sha_of, post_tree, post_commit, commit_on, commit_from,
}

module _ (client : Client) where
  -- A call, the key path of its answer that is read, and the calls with it.
  pub record Answered (call : Call) (read : Value → Result Value) (calls : List Call) (v : Value)
      (after : List Call) : Type 0 where
    pub value : (perform client call calls).0 >>= read ≡ ok v
    pub added : after ≡ calls ++ call ∷ []

  -- The text that an edit makes of its file on the base branch.
  pub data Rendered (branch : String) : FileEdit → List Call → String → List Call → Type 0 where
    added :
        (path content : String) (calls : List Call)
        → Rendered branch (add_file path content) calls content calls
    patched_document :
        (path text : String) (patch : Value → Result Value) (document patched : Value)
        (calls after : List Call)
        → get_text_file client path branch calls ≡ (ok text, after)
        → load_yaml client text ≡ ok document
        → patch document ≡ ok patched
        → Rendered branch (edit_file path patch) calls (client.dump_yaml patched) after
    patched_text :
        (path text patched : String) (patch : String → Result String) (calls after : List Call)
        → get_text_file client path branch calls ≡ (ok text, after)
        → patch text ≡ ok patched
        → Rendered branch (edit_text path patch) calls patched after

  abbrev pub blob_of : String → Call
  blob_of content =
      post (repo_path client "/git/blobs")
        (dict (field "content" (str content) (field "encoding" (str "utf-8") empty)))

  -- The edits, each rendered, stored as a blob and entered under its path, in their order.
  pub data Entered (branch : String) : List FileEdit → List Call → Items → List Call → Type 0 where
    none_left : (calls : List Call) → Entered branch [] calls nil calls
    entered :
        (edit : FileEdit) (edits : List FileEdit) (content : String) (sha : Value) (entries : Items)
        (calls rendered stored after : List Call)
        → Rendered branch edit calls content rendered
        → Answered (blob_of content) (subscript "sha") rendered sha stored
        → Entered branch edits stored entries after
        → Entered branch
            (edit ∷ edits)
            calls
            (cons (tree_entry client (path_of client edit) sha) entries)
            after

  Answered-of :
      (call : Call) (read : Value → Result Value) (calls after : List Call) (v : Value)
      → (perform client call then_do λ u. from_result (read u)) calls ≡ (ok v, after)
      → Answered call read calls v after
  unfolding perform
  Answered-of call read calls after v h =
      let (u, c, first, second) =
        then_do-ok (perform client call) (λ u. from_result (read u)) v calls after h in
      record {
        value = ap (λ r. r.0 >>= read) first ∙ ap (λ r. r.0) second;
        added = sym (ap (λ r. r.1) second) ∙ sym (ap (λ r. r.1) first);
      }

  Rendered-subst :
      {branch content made : String} {edit : FileEdit} {calls c after : List Call}
      → Rendered branch edit calls content c
      → content ≡ made
      → c ≡ after
      → Rendered branch edit calls made after
  Rendered-subst {branch} {content = content} {edit = edit} {calls = calls} {after = after} r e a =
      subst (λ t. Rendered branch edit calls t after) e
        (subst (λ cs. Rendered branch edit calls content cs) a r)

  located-ok :
      (path branch : String) (r : Result String) (text : String)
      → located client path branch r ≡ ok text
      → r ≡ ok text
  located-ok path branch (ok t) text h = h
  located-ok path branch (err (http n d)) text h = absurd (cc h)
  located-ok path branch (err (value_error m)) text h = absurd (cc h)
  located-ok path branch (err (key_error m)) text h = absurd (cc h)
  located-ok path branch (err type_error) text h = absurd (cc h)
  located-ok path branch (err attribute_error) text h = absurd (cc h)
  located-ok path branch (err index_error) text h = absurd (cc h)
  located-ok path branch (err runtime_error) text h = absurd (cc h)
  located-ok path branch (err no_result_found) text h = absurd (cc h)
  located-ok path branch (err multiple_results_found) text h = absurd (cc h)
  located-ok path branch (err integrity_error) text h = absurd (cc h)
  located-ok path branch (err stop_iteration) text h = absurd (cc h)
  located-ok path branch (err missing_row) text h = absurd (cc h)
  located-ok path branch (err (github_error m)) text h = absurd (cc h)
  located-ok path branch (err (hook_error m)) text h = absurd (cc h)
  located-ok path branch (err (validation_error m)) text h = absurd (cc h)

  render_content-Rendered :
      (edit : FileEdit) (branch content : String) (calls after : List Call)
      → render_content client edit branch calls ≡ (ok content, after)
      → Rendered branch edit calls content after
  unfolding render_content
  render_content-Rendered (add_file path content) branch made calls after h =
      Rendered-subst (added path content calls) (ok-inj (ap (λ r. r.0) h)) (ap (λ r. r.1) h)
  render_content-Rendered (edit_file path patch) branch made calls after h =
      let (text, c, got, rest) =
        then_do-ok (get_text_file client path branch)
          (λ text. from_result (load_yaml client text >>= patch >>= λ v. ok (client.dump_yaml v)))
          made calls after h in
      let (patched, bound, e) =
        bind-ok (load_yaml client text >>= patch) (λ v. ok (client.dump_yaml v)) made
          (ap (λ r. r.0) rest) in
      let (document, loaded, p) = bind-ok (load_yaml client text) patch patched bound in
      Rendered-subst (patched_document path text patch document patched calls c got loaded p)
        (ok-inj e) (ap (λ r. r.1) rest)
  render_content-Rendered (edit_text path patch) branch made calls after h =
      let inner = get_text_file client path branch then_do λ text. from_result (patch text) in
      let (text, c, got, rest) =
        then_do-ok (get_text_file client path branch) (λ text. from_result (patch text)) made calls
          after (λ i. (located-ok path branch (inner calls).0 made (ap (λ r. r.0) h) i, (h i).1)) in
      Rendered-subst (patched_text path text made patch calls c got (ap (λ r. r.0) rest)) refl
        (ap (λ r. r.1) rest)

  tree_entries-Entered :
      (branch : String) (edits : List FileEdit) (entries : Items) (calls after : List Call)
      → tree_entries client branch edits calls ≡ (ok entries, after)
      → Entered branch edits calls entries after
  unfolding tree_entries create_blob
  tree_entries-Entered branch [] entries calls after h =
      subst (λ es. Entered branch [] calls es after) (ok-inj (ap (λ r. r.0) h))
        (subst (λ cs. Entered branch [] calls nil cs) (ap (λ r. r.1) h) (none_left calls))
  tree_entries-Entered branch (edit ∷ edits) entries calls after h =
      let (content, c, rendered, h2) =
        then_do-ok (render_content client edit branch)
          (λ content. create_blob client content then_do λ sha.
            tree_entries client branch edits then_do λ rest.
            pure (cons (tree_entry client (path_of client edit) sha) rest))
          entries calls after h in
      let (sha, d, stored, h3) =
        then_do-ok (create_blob client content)
          (λ sha. tree_entries client branch edits then_do λ rest.
            pure (cons (tree_entry client (path_of client edit) sha) rest))
          entries c after h2 in
      let (rest, e, others, h4) =
        then_do-ok (tree_entries client branch edits)
          (λ rest. pure (cons (tree_entry client (path_of client edit) sha) rest)) entries d after
          h3 in
      subst (λ es. Entered branch (edit ∷ edits) calls es after) (ok-inj (ap (λ r. r.0) h4))
        (subst
          (λ cs.
            Entered branch (edit ∷ edits) calls
              (cons (tree_entry client (path_of client edit) sha) rest) cs)
          (ap (λ r. r.1) h4)
          (entered edit edits content sha rest calls c d e
            (render_content-Rendered edit branch content calls c rendered)
            (Answered-of (blob_of content) (subscript "sha") c d sha stored)
            (tree_entries-Entered branch edits rest d e others)))

  abbrev pub tree_of : Value → Items → Call
  tree_of base_tree entries =
      post (repo_path client "/git/trees")
        (dict (field "base_tree" base_tree (field "tree" (list entries) empty)))

  abbrev pub commit_of : PullRequest → Value → Value → Call
  commit_of pr base tree = post (repo_path client "/git/commits") (
      dict (
        field "message" (str pr.title)
          (field "tree" tree (field "parents" (list (cons base nil)) empty))))

  -- A commit of the edits of a pull request on top of its base branch.
  pub record Committed (pr : PullRequest) (calls : List Call) (sha : Value) (after : List Call)
      : Type 0 where
    pub base : Value
    pub base_tree : Value
    pub entries : Items
    pub tree : Value
    pub found : List Call
    pub read : List Call
    pub stored : List Call
    pub built : List Call
    pub branch_read :
        Answered
          (get_json (repo_path client ("/git/ref/" <> ("heads/" <> pr.base_branch))))
          (λ v. subscript "object" v >>= subscript "sha")
          calls
          base
          found
    pub commit_read :
        Answered
          (get_json (repo_path client ("/git/commits/" <> client.text_of base)))
          (λ v. subscript "tree" v >>= subscript "sha")
          found
          base_tree
          read
    pub edits_entered : Entered pr.base_branch pr.edits read entries stored
    pub tree_built : Answered (tree_of base_tree entries) (subscript "sha") stored tree built
    pub made : Answered (commit_of pr base tree) (subscript "sha") built sha after

  pub commit_edits-Committed :
      (pr : PullRequest) (sha : Value) (calls after : List Call)
      → commit_edits client pr calls ≡ (ok sha, after)
      → Committed pr calls sha after
  unfolding commit_edits get_ref_sha
  commit_edits-Committed pr sha calls after h =
      let (base, found, first, h2) =
        then_do-ok (get_ref_sha client ("heads/" <> pr.base_branch)) (commit_from client pr) sha
          calls after h in
      let (base_tree, read, second, h3) =
        then_do-ok (read_commit client base then_do tree_sha_of client) (commit_on client pr base)
          sha found after h2 in
      let (entries, stored, third, h4) =
        then_do-ok (tree_entries client pr.base_branch pr.edits)
          (λ entries. post_tree client base_tree entries then_do post_commit client pr base) sha
          read after h3 in
      let (tree, built, fourth, fifth) =
        then_do-ok (post_tree client base_tree entries) (post_commit client pr base) sha stored
          after h4 in
      record {
        base = base;
        base_tree = base_tree;
        entries = entries;
        tree = tree;
        found = found;
        read = read;
        stored = stored;
        built = built;
        branch_read =
            Answered-of (get_json (repo_path client ("/git/ref/" <> ("heads/" <> pr.base_branch))))
              (λ v. subscript "object" v >>= subscript "sha") calls found base first;
        commit_read =
            Answered-of (get_json (repo_path client ("/git/commits/" <> client.text_of base)))
              (λ v. subscript "tree" v >>= subscript "sha") found read base_tree second;
        edits_entered = tree_entries-Entered pr.base_branch pr.edits entries read stored third;
        tree_built =
            Answered-of (tree_of base_tree entries) (subscript "sha") stored built tree fourth;
        made = Answered-of (commit_of pr base tree) (subscript "sha") built after sha fifth;
      }
