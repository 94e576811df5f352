-- ===== src/Refinement/Claim.antt =====
-- `_claim_and_open_next` and the loop of `tick` as transactions of the lifecycle.
use terramate_api_wrapper.Base.{
  ℕ, Bool, true, false, ◌&&◌, some, List, [], ◌∷◌, count, ◌≡◌, refl, ◌∙◌, sym, subst, ap, arith,
  ◌++◌, suc,
}
use terramate_api_wrapper.Result.{Result, ok, err}
use terramate_api_wrapper.Framework.{OutputRef, StepSpec}
use terramate_api_wrapper.GitHub.{PullRequestRef}
use terramate_api_wrapper.Value.{Value}
use terramate_api_wrapper.Models.{
  StepStatus, submitted, queued, Request, Step, Db, find_step, find_request, save_step,
}
use terramate_api_wrapper.Table.{one_if, count-save, save-save}
use terramate_api_wrapper.Session.{Session, pr_opened, continue}
use terramate_api_wrapper.Orchestrator.Status.{is_terminal, is_queued, moved, transition}
use terramate_api_wrapper.Orchestrator.Queue.{dependencies_done, is_serial_type, serial_lane_busy}
use terramate_api_wrapper.Orchestrator.Spec.{build_step_spec, run_hooks}
use terramate_api_wrapper.Orchestrator.Edits.{resolve_consumes}
use terramate_api_wrapper.Orchestrator.Claim.{
  preflight_failed, submit, with_resolved, open_pr, after_preflight, with_spec, open_claimed,
}
use terramate_api_wrapper.Lifecycle.{
  SameStep, Allowed, start, abort, advance, Reach, here, next, roll_up,
}
use terramate_api_wrapper.Refinement.Parts.{
  run_hooks-SameRows, move_and_roll_up, moved_db, move_and_roll_up_lem,
}
use terramate_api_wrapper.World.{World}

-- What may be started: a queued Step of a live request, with its dependencies done and, for a
-- serial Type, the lane free.
pub record IsRunnable (w : World) (db : Db) (step : Step) (row : Request) : Type 0 where
  pub found : find_step step.id db ≡ some step
  pub request : find_request step.request_id db ≡ some row
  pub live : is_terminal row.status ≡ false
  pub in_queue : step.status ≡ queued
  pub ready : dependencies_done db step ≡ true
  pub lane : (is_serial_type w row.type && serial_lane_busy w db) ≡ false

-- How many Steps are in the queue.
abbrev pub waiting : Db → ℕ
waiting db = count (λ s. is_queued s.status) db.steps

module _ (w : World) where
  -- A round that returns leaves nothing uncommitted; one that raises has committed nothing wrong.
  abbrev pub After {ℓ} : {A : Type ℓ} → Db → Result A → Session → Type 0
  After db (ok a) s = Reach w db s.committed × (s.working ≡ s.committed)
  After db (err e) s = Reach w db s.committed

  -- A Step that was claimed has left the queue.
  abbrev pub Lowered : Db → Result Bool → Session → Type 0
  Lowered db (ok true) s = suc (waiting s.working) ≡ waiting db
  Lowered db (ok false) s = ⊥
  Lowered db (err e) s = Unit

  abbrev pub Round : Db → Result Bool → Session → Type 0
  Round db r s = After db r s × Lowered db r s

  module _ (db : Db) (step : Step) (row : Request) (runnable : IsRunnable w db step row) where
    open runnable use {found, request, live, in_queue, ready, lane}

    -- The Step's row has been written, without a transition, since the transaction began.
    record Claimed (t : Step) (s : Session) : Type 0 where
      same : SameStep step t
      working : s.working ≡ save_step t db
      committed : s.committed ≡ db

    module _ (t : Step) (s : Session) (c : Claimed t s) where
      its_request : find_request t.request_id s.working ≡ some row
      its_request =
          subst (λ (d : Db). find_request t.request_id d ≡ some row) (sym c.working)
            (subst (λ k. find_request k db ≡ some row) (sym c.same.request_id) request)

      its_row : find_step t.id db ≡ some step
      its_row = subst (λ k. find_step k db ≡ some step) (sym c.same.id) found

      written_once :
          (to : StepStatus) → moved_db w t to s ≡ save_step (moved to (w.clock s.moment) t) db
      written_once to =
          let t' = moved to (w.clock s.moment) t in
          ap (save_step t') c.working
          ∙ (λ i. record db { steps = save-save (λ (x : Step). x.id) t t' db.steps refl i })

      -- The transition, its roll-up and the commit are one move of the lifecycle.
      land :
          (to : StepStatus)
          → Allowed w db step row to
          → Reach w db (move_and_roll_up w t to s).1.working
      land to a = next here (
          advance step (moved to (w.clock s.moment) t) row its_row
            (record {
              id = c.same.id;
              request_id = c.same.request_id;
              ordinal = c.same.ordinal;
              key = c.same.key;
              depends_on = c.same.depends_on;
            })
            request live a
            ((move_and_roll_up_lem w t to row s its_request live).1
              ∙ ap (roll_up row) (written_once to)))

      abbrev moved_row : StepStatus → Db
      moved_row to = save_step (moved to (w.clock s.moment) t) db

      -- The row leaves the queue.
      lowered :
          (to : StepStatus)
          → is_queued to ≡ false
          → suc (waiting (move_and_roll_up w t to s).1.working) ≡ waiting db
      lowered to left =
          let counted =
            count-save (λ (x : Step). x.id) (λ (x : Step). is_queued x.status)
              (moved to (w.clock s.moment) t) db.steps step its_row in
          let was : one_if (is_queued step.status) ≡ 1 =
            ap (λ (x : StepStatus). one_if (is_queued x)) in_queue in
          let is : one_if (is_queued to) ≡ 0 = ap one_if left in
          let same : waiting (move_and_roll_up w t to s).1.working ≡ waiting (moved_row to) =
            ap waiting (
              (move_and_roll_up_lem w t to row s its_request live).1
              ∙ ap (roll_up row) (written_once to)) in
          omega (arith, counted, was, is, same)

      preflight_failed-Round : Round db (preflight_failed w t s).0 (preflight_failed w t s).1
      unfolding preflight_failed transition
      preflight_failed-Round =
          rw ((move_and_roll_up_lem w t StepStatus.failed row s its_request live).0)
            ((land StepStatus.failed (abort in_queue ready), refl), lowered StepStatus.failed refl)

    untouched : (t : Step) (s : Session) → Claimed t s → Reach w db s.committed × Unit {0}
    untouched t s c = (rw c.committed here, tt)

    submit-Round :
        (t : Step) (pr : PullRequestRef) (s : Session)
        → Claimed t s
        → Round db (submit w t pr s).0 (submit w t pr s).1
    unfolding submit transition
    submit-Round t pr s c =
        rw ((move_and_roll_up_lem w opened submitted row sent (its_request opened sent k) live).0) (
          (land opened sent k submitted (start in_queue ready lane), refl),
          lowered opened sent k submitted refl,
        )
      where
        opened : Step
        opened = record t { pr_number = some pr.number; pr_url = some pr.url }

        sent : Session
        sent = record s {
          working = save_step opened s.working;
          trace = s.trace ++ (pr_opened opened pr ∷ []);
        }

        k : Claimed opened sent
        k = record {
          same = record {
            id = c.same.id;
            request_id = c.same.request_id;
            ordinal = c.same.ordinal;
            key = c.same.key;
            depends_on = c.same.depends_on;
          };
          working = ap (save_step opened) c.working ∙ (λ i. record db {
            steps = save-save (λ (x : Step). x.id) t opened db.steps refl i;
          });
          committed = c.committed;
        }

    module _ (t : Step) (spec : StepSpec) where
      answered-Round :
          (answer : Result PullRequestRef) (s : Session)
          → Claimed t s
          → Round db (continue answer (submit w t) s).0 (continue answer (submit w t) s).1
      answered-Round (ok pr) s c = submit-Round t pr s c
      answered-Round (err e) s c = untouched t s c

      resolved-Round :
          (found : Result (List (OutputRef × Value))) (s : Session)
          → Claimed t s
          → Round db
              (continue found (with_resolved w t row spec) s).0
              (continue found (with_resolved w t row spec) s).1
      resolved-Round (ok resolved) s c =
          answered-Round _ _
            (record { same = c.same; working = c.working; committed = c.committed })
      resolved-Round (err e) s c = untouched t s c

      open_pr-Round :
          (s : Session)
          → Claimed t s
          → Round db (open_pr w t row spec s).0 (open_pr w t row spec s).1
      unfolding open_pr
      open_pr-Round s c = resolved-Round (resolve_consumes s.working t t.consumes) s c

      preflight-Round :
          (r : Result (Unit {0})) (s : Session)
          → Claimed t s
          → Round db (after_preflight w t row spec r s).0 (after_preflight w t row spec r s).1
      preflight-Round (ok u) s c = open_pr-Round s c
      preflight-Round (err e) s c = preflight_failed-Round t s c

    spec-Round :
        (t : Step) (built : Result StepSpec) (s : Session)
        → Claimed t s
        → Round db (continue built (with_spec w t row) s).0 (continue built (with_spec w t row) s).1
    spec-Round t (ok spec) s c =
        let rows = run_hooks-SameRows spec.preflight t "preflight" s in
        preflight-Round t spec (run_hooks spec.preflight t "preflight" s).0
          (run_hooks spec.preflight t "preflight" s).1
          (record {
            same = c.same;
            working = rows.working ∙ c.working;
            committed = rows.committed ∙ c.committed;
          })
    spec-Round t (err e) s c = untouched t s c

    pub open_claimed-Round :
        (s : Session)
        → s.working ≡ db
        → s.committed ≡ db
        → Round db (open_claimed w step s).0 (open_claimed w step s).1
    unfolding open_claimed
    open_claimed-Round s e k =
        rw (subst (λ (d : Db). find_request step.request_id d ≡ some row) (sym e) request) (
          spec-Round claimed (build_step_spec w claimed row (suc s.moment))
            (record s { working = save_step claimed s.working; moment = suc (suc s.moment) })
            (record {
              same = record {
                id = refl;
                request_id = refl;
                ordinal = refl;
                key = refl;
                depends_on = refl;
              };
              working = ap (save_step claimed) e;
              committed = k;
            }))
      where
        claimed : Step
        claimed = record step { claimed_at = some (w.clock s.moment); claimed_by = some w.worker }
