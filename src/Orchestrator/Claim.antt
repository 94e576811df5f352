-- ===== src/Orchestrator/Claim.antt =====
-- server/orchestrator.py: `tick` and `_claim_and_open_next`.
use text.Mathlib.Text.{starts_with}
use terramate_api_wrapper.Base.{
  ℕ, zero, suc, String, ◌<>◌, Bool, true, false, ◌||◌, Option, none, some, List, [], ◌∷◌, ◌==◌,
  string_eq, if◌then◌else◌,
}
use terramate_api_wrapper.Base.Text.{join, rstrip_slashes}
use terramate_api_wrapper.Value.{Value, number, str, dict, empty, field}
use terramate_api_wrapper.Result.{Result, ok, err}
use terramate_api_wrapper.Framework.{OutputRef, StepSpec}
use terramate_api_wrapper.GitHub.{PullRequest, PullRequestRef}
use terramate_api_wrapper.Models.{submitted, StepStatus, Request, Step, save_step}
use terramate_api_wrapper.Session.{
  Exec, pr_requested, pr_opened, lane_locked, ◌>>=◌, ◌>>◌, pure, lift, query, modify, emit, ask,
  commit, attempt,
}
use terramate_api_wrapper.Orchestrator.Status.{request_of, transition, roll_up_request}
use terramate_api_wrapper.Orchestrator.Queue.{queued_steps, pick}
use terramate_api_wrapper.Orchestrator.Spec.{build_step_spec, run_hooks}
use terramate_api_wrapper.Orchestrator.Edits.{placeholder, resolve_consumes, str_of, resolve_edits}
use terramate_api_wrapper.Orchestrator.Stuck.{flag_stuck_steps}
use terramate_api_wrapper.World.{World}

abbrev is_blank : String → Bool
is_blank s = s == ""

-- `base_url`, with a scheme if there is any base.
unfoldable pub api_base : Option String → String
api_base none = ""
api_base (some url) =
    let base = rstrip_slashes url in
    if is_blank base || (starts_with base "http://" || starts_with base "https://")
    then base
    else "https://" <> base

abbrev pub lines : List String → String
lines = join "\n"

module _ (w : World) where
  unfoldable pub outputs_url : Step → String
  unfolding api_base
  outputs_url step =
      api_base w.settings.api_base_url
      <> ("/v1/requests/"
          <> (step.request_id <> ("/steps/" <> (w.decimal step.ordinal <> "/outputs"))))

  unfoldable pub metadata : Step → Request → Value
  metadata step row = dict (
      field "request_id" (str step.request_id) (
        field "ordinal" (number (w.decimal step.ordinal)) (
          field "step_key" (str step.key)
            (field "type" (str row.type) (field "outputs_url" (str (outputs_url step)) empty)))))

  unfoldable pub resolved_lines : List (OutputRef × Value) → List String
  resolved_lines [] = []
  resolved_lines ((ref, value) ∷ rest) =
      ("- `" <> (placeholder ref <> ("` = `" <> (str_of w value <> "`")))) ∷ resolved_lines rest

  abbrev resolved_section : List (OutputRef × Value) → String
  resolved_section [] = ""
  resolved_section (r ∷ rest) = "\n\nResolved inputs:\n" <> lines (resolved_lines (r ∷ rest))

  unfoldable pub pr_body : Step → Request → List (OutputRef × Value) → String
  pr_body step row resolved =
      "<!-- provisioning-metadata: "
      <> (w.dumps (metadata step row)
          <> (" -->\n"
              <> ("Automated by the provisioning API for step `"
                  <> (step.key
                      <> ("` (ordinal "
                          <> (w.decimal step.ordinal
                              <> (") of request `"
                                  <> (step.request_id
                                      <> ("`.\n\n"
                                          <> ("```json:provisioning-metadata\n"
                                              <> (w.dumps_indented (metadata step row)
                                                  <> ("\n```"
                                                      <> resolved_section resolved))))))))))))

  -- The arguments of the call that opens the Step's PR.
  unfoldable pub pull_request_for :
      Step → Request → StepSpec → List (OutputRef × Value) → PullRequest
  pull_request_for step row spec resolved = record {
    branch_name = "provision/" <> (step.request_id <> ("/" <> step.key));
    base_branch = w.settings.github_base_branch;
    title = row.type <> (": " <> step.key);
    body = pr_body step row resolved;
    edits = resolve_edits w spec resolved;
  }

  -- A preflight hook raised.
  unfoldable pub preflight_failed : Step → Exec Bool
  preflight_failed step = do
    transition w step StepStatus.failed
    roll_up_request step.request_id
    commit
    pure true

  -- The PR is open: the Step is submitted.
  unfoldable pub submit : Step → PullRequestRef → Exec Bool
  submit step pr = do
    let opened = record step { pr_number = some pr.number; pr_url = some pr.url }
    modify (save_step opened)
    emit (pr_opened opened pr)
    transition w opened submitted
    roll_up_request step.request_id
    commit
    pure true

  abbrev pub with_resolved : Step → Request → StepSpec → List (OutputRef × Value) → Exec Bool
  with_resolved step row spec resolved = do
    let call = pull_request_for step row spec resolved
    emit (pr_requested call)
    answer ← ask (λ moment. w.open_pull_request moment call)
    pr ← lift answer
    submit step pr

  unfoldable pub open_pr : Step → Request → StepSpec → Exec Bool
  open_pr step row spec = do
    found ← query (λ db. resolve_consumes db step step.consumes)
    resolved ← lift found
    with_resolved step row spec resolved

  abbrev pub after_preflight : Step → Request → StepSpec → Result (Unit {0}) → Exec Bool
  after_preflight step row spec (ok _) = open_pr step row spec
  after_preflight step row spec (err _) = preflight_failed step

  abbrev pub with_spec : Step → Request → StepSpec → Exec Bool
  with_spec step row spec = do
    preflight ← attempt (run_hooks spec.preflight step "preflight")
    after_preflight step row spec preflight

  -- From the claim of the picked Step to the end of the round.
  unfoldable pub open_claimed : Step → Exec Bool
  open_claimed step = do
    now ← ask w.clock
    let claimed = record step { claimed_at = some now; claimed_by = some w.worker }
    modify (save_step claimed)
    row ← request_of claimed
    built ← ask (build_step_spec w claimed row)
    spec ← lift built
    with_spec claimed row spec

  -- `serial_lane_busy` was computed, so the advisory lock was taken.
  abbrev note_lock : Option Bool → Exec (Unit {0})
  note_lock none = pure tt
  note_lock (some _) = emit lane_locked

  abbrev release_lock : Option Bool → Exec (Unit {0})
  release_lock none = pure tt
  release_lock (some _) = commit

  abbrev pub with_picked : Option Step × Option Bool → Exec Bool
  with_picked (none, lane) = do note_lock lane; release_lock lane; pure false
  with_picked (some step, lane) = do note_lock lane; open_claimed step

  -- `_claim_and_open_next`
  unfoldable pub claim_and_open_next : Exec Bool
  claim_and_open_next = do
    moment ← ask (λ n. n)
    picked ← query (λ db. pick w db none (queued_steps w moment db))
    choice ← lift picked
    with_picked choice

  -- `while _claim_and_open_next(...): pass`
  unfoldable pub claim_all : ℕ → Exec (Unit {0})
  claim_all zero = pure tt
  claim_all (suc fuel) =
      claim_and_open_next >>= λ more. elim more [ true ↦ claim_all fuel | false ↦ pure tt ]

  unfoldable pub tick : ℕ → Option ℕ → Exec (Unit {0})
  tick fuel stuck_threshold_seconds = do claim_all fuel; flag_stuck_steps w stuck_threshold_seconds
