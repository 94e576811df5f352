-- ===== src/Refinement/Settle.antt =====
-- The parts of `record_apply_result`: storing outputs, and moving a Step that may advance.
use terramate_api_wrapper.Base.{
  String, true, false, Option, none, some, ◌≡◌, refl, ◌∙◌, sym, subst, ap, arith, suc, inl, inr,
  Bool-cases,
}
use terramate_api_wrapper.Value.{entry, Fields, empty}
use terramate_api_wrapper.Result.{Result, ok, err}
use terramate_api_wrapper.Framework.{StepSpec}
use terramate_api_wrapper.Models.{
  StepStatus, queued, submitted, done, rejected, Request, Step, Output, Db, find_step, find_request,
  save_step,
}
use terramate_api_wrapper.Session.{Session, continue, ◌>>◌}
use terramate_api_wrapper.Orchestrator.Status.{is_terminal, moved, can_advance}
use terramate_api_wrapper.Orchestrator.Spec.{build_step_spec, run_hooks}
use terramate_api_wrapper.Orchestrator.Apply.{
  apply_outcome, find_output, write_output, upsert_outputs, landing, with_postflight,
  land_after_postflight, settle, settle_if,
}
use terramate_api_wrapper.Lifecycle.{
  Allowed, finish, fail, reject, advance, Reach, here, next, roll_up,
}
use terramate_api_wrapper.Refinement.Parts.{
  run_hooks-SameRows, move_and_roll_up, move_and_roll_up_lem,
}
use terramate_api_wrapper.World.{World}

-- Only outputs are written, and it returns.
pub record StoresOnly (s s' : Session) (r : Result (Unit {0})) : Type 0 where
  pub returns : r ≡ ok tt
  pub requests : s'.working.requests ≡ s.working.requests
  pub steps : s'.working.steps ≡ s.working.steps
  pub committed : s'.committed ≡ s.committed

can_advance-live :
    (step : Step) (row : Request) → can_advance step row ≡ true → is_terminal row.status ≡ false
unfolding can_advance
can_advance-live step row h = ground arith

can_advance-sent :
    (step : Step) (row : Request) → can_advance step row ≡ true → step.status ≡ submitted
unfolding can_advance
can_advance-sent step row h = ground arith

module _ (w : World) where
  pub upsert_outputs-StoresOnly :
      (step : Step) (outputs : Fields) (s : Session)
      → StoresOnly s (upsert_outputs w step outputs s).1 (upsert_outputs w step outputs s).0
  unfolding upsert_outputs
  upsert_outputs-StoresOnly step empty s = record {
    returns = refl;
    requests = refl;
    steps = refl;
    committed = refl;
  }
  upsert_outputs-StoresOnly step (entry q key value rest) s =
      by_row (find_output step.id key s.working.outputs) (upsert_outputs-StoresOnly step rest)
    where
      by_row :
          (found : Option Output)
          → ((t : Session)
              → StoresOnly t (upsert_outputs w step rest t).1 (upsert_outputs w step rest t).0)
          → StoresOnly s
              ((write_output w step key value found >> upsert_outputs w step rest) s).1
              ((write_output w step key value found >> upsert_outputs w step rest) s).0
      by_row none later =
          let h = later _ in
          record {
            returns = h.returns;
            requests = h.requests;
            steps = h.steps;
            committed = h.committed;
          }
      by_row (some o) later =
          let h = later _ in
          record {
            returns = h.returns;
            requests = h.requests;
            steps = h.steps;
            committed = h.committed;
          }

  -- Before the commit of the push.
  abbrev pub Settled : Db → Db → Result (Unit {0}) → Session → Type 0
  Settled db c (ok u) s = Reach w db s.working × (s.committed ≡ c)
  Settled db c (err e) s = s.committed ≡ c

  module _ (db c : Db) (step : Step) (row : Request) (stored : find_step step.id db ≡ some step)
      (request : find_request step.request_id db ≡ some row) (live : is_terminal row.status ≡ false)
      (sent : step.status ≡ submitted) where
    landed :
        (to : StepStatus) (s : Session)
        → s.working ≡ db
        → s.committed ≡ c
        → Allowed w db step row to
        → Settled db c (move_and_roll_up w step to s).0 (move_and_roll_up w step to s).1
    landed to s e k a =
        let found = subst (λ (d : Db). find_request step.request_id d ≡ some row) (sym e) request in
        let h = move_and_roll_up_lem w step to row s found live in
        rw (h.0) (
          next here (
              advance step (moved to (w.clock s.moment) step) row stored
                (record {
                  id = refl;
                  request_id = refl;
                  ordinal = refl;
                  key = refl;
                  depends_on = refl;
                })
                request live a
                (h.1
                  ∙ ap (λ (d : Db). roll_up row (save_step (moved to (w.clock s.moment) step) d))
                      e)),
          h.2 ∙ k,
        )

    after_hooks :
        (r : Result (Unit {0})) (s : Session)
        → s.working ≡ db
        → s.committed ≡ c
        → Settled db c
            (move_and_roll_up w step (landing r) s).0
            (move_and_roll_up w step (landing r) s).1
    after_hooks (ok u) s e k = landed done s e k (finish sent)
    after_hooks (err x) s e k = landed StepStatus.failed s e k (fail sent)

    with_spec-Settled :
        (built : Result StepSpec) (s : Session)
        → s.working ≡ db
        → s.committed ≡ c
        → Settled db c
            (continue built (with_postflight w step) s).0
            (continue built (with_postflight w step) s).1
    with_spec-Settled (err x) s e k = k
    with_spec-Settled (ok spec) s e k =
        let ran = run_hooks spec.postflight step "postflight" s in
        let rows = run_hooks-SameRows spec.postflight step "postflight" s in
        after_hooks ran.0 ran.1 (rows.working ∙ e) (rows.committed ∙ k)

    land-Settled :
        (s : Session)
        → s.working ≡ db
        → s.committed ≡ c
        → Settled db c (land_after_postflight w step row s).0 (land_after_postflight w step row s).1
    unfolding land_after_postflight
    land-Settled s e k =
        with_spec-Settled (build_step_spec w step row s.moment) (record s { moment = suc s.moment })
          e k

    settle-Settled :
        (outcome : String) (to : StepStatus) (s : Session)
        → apply_outcome outcome ≡ some to
        → s.working ≡ db
        → s.committed ≡ c
        → Settled db c (settle w to step row s).0 (settle w to step row s).1
    unfolding apply_outcome
    settle-Settled outcome done s o e k = land-Settled s e k
    settle-Settled outcome StepStatus.failed s o e k = landed StepStatus.failed s e k (fail sent)
    settle-Settled outcome rejected s o e k = landed rejected s e k (reject sent)
    settle-Settled outcome queued s o e k = ground arith
    settle-Settled outcome submitted s o e k = ground arith

  pub settle_if-Settled :
      (step : Step) (row : Request) (outcome : String) (to : StepStatus) (s : Session)
      → apply_outcome outcome ≡ some to
      → find_step step.id s.working ≡ some step
      → find_request step.request_id s.working ≡ some row
      → Settled s.working s.committed (settle_if w to step row s).0 (settle_if w to step row s).1
  settle_if-Settled step row outcome to s o f q = elim (Bool-cases (can_advance step row)) [
    | inl may ↦ rw may (
        settle-Settled s.working s.committed step row f q (can_advance-live step row may)
          (can_advance-sent step row may) outcome to s o refl refl)
    | inr may_not ↦ rw may_not (here, refl)
  ]
