-- ===== src/Refinement/Apply.antt =====
-- `record_apply_result` as transactions of the lifecycle.
use terramate_api_wrapper.Base.{
  String, Option, none, some, ◌≡◌, refl, ◌∙◌, sym, subst, arith, inl, inr, Option-cases,
}
use terramate_api_wrapper.Value.{Fields}
use terramate_api_wrapper.Result.{Result, ok, err}
use terramate_api_wrapper.Models.{
  StepStatus, queued, submitted, done, rejected, Step, Db, find_step, find_request, save_step,
}
use terramate_api_wrapper.Table.{find, find-save}
use terramate_api_wrapper.Session.{Session, continue, commit}
use terramate_api_wrapper.Orchestrator.Apply.{
  apply_outcome, upsert_outputs, settle_if, with_row, record_outcome, record_apply_result,
}
use terramate_api_wrapper.Lifecycle.{touch, store, Reach, here, next, Reach-trans}
use terramate_api_wrapper.Refinement.Claim.{After}
use terramate_api_wrapper.World.{World}
use terramate_api_wrapper.Refinement.Settle.{
  StoresOnly, Settled, settle_if-Settled, upsert_outputs-StoresOnly,
}

module _ (w : World) where
  reported_as : Step → String → Step
  reported_as step tf_console = record step { tf_console = some tf_console }

  -- A push for a stored Step, with nothing uncommitted before it, is a run of the lifecycle, whatever
  -- it reports: if it returns, nothing is left uncommitted, and if it raises, what is committed is
  -- still a run.
  pub record_apply_result-After :
      (step : Step) (outcome : String) (outputs : Fields) (tf_console : String) (s : Session)
      → find_step step.id s.working ≡ some step
      → s.committed ≡ s.working
      → After w s.working
          (record_apply_result w step outcome outputs tf_console s).0
          (record_apply_result w step outcome outputs tf_console s).1
  unfolding record_apply_result reported_as
  record_apply_result-After step outcome outputs tf_console s f k =
      by_outcome (apply_outcome outcome) refl
    where
      reported : Step
      reported = reported_as step tf_console

      written : Session
      written = record s { working = save_step reported s.working }

      touched : Reach w s.working written.working
      touched = next here (
          touch step reported f
            (record { id = refl; request_id = refl; ordinal = refl; key = refl; depends_on = refl })
            refl refl)

      own_row : find_step reported.id written.working ≡ some reported
      own_row =
          ground (arith, find-save (λ (x : Step). x.id) reported reported.id s.working.steps step)

      end :
          (mid c : Db) (r : Result (Unit {0})) (t : Session)
          → Reach w s.working mid
          → c ≡ s.working
          → Settled w mid c r t
          → After w s.working (continue r (λ _. commit) t).0 (continue r (λ _. commit) t).1
      end mid c (ok u) t reach own (more, e) = (Reach-trans w reach more, refl)
      end mid c (err x) t reach own e = rw (e ∙ own) here

      settled :
          (to : StepStatus) (r : Result (Unit {0})) (t : Session)
          → apply_outcome outcome ≡ some to
          → StoresOnly written t r
          → After w s.working
              (continue r (λ _. with_row w to reported) t).0
              (continue r (λ _. with_row w to reported) t).1
      settled to r t o h =
          let stored : find_step reported.id t.working ≡ some reported =
            subst (λ ss. find (λ (x : Step). x.id) reported.id ss ≡ some reported) (sym h.steps)
              own_row in
          elim (Option-cases (find_request reported.request_id t.working)) [
            | inl missing ↦ rw (h.returns, missing) (rw (h.committed ∙ k) here)
            | inr (row, there) ↦
                rw (h.returns, there)
                  (end t.working t.committed (settle_if w to reported row t).0
                    (settle_if w to reported row t).1 (next touched (store h.requests h.steps))
                    (h.committed ∙ k)
                    (settle_if-Settled w reported row outcome to t o stored there))
          ]

      by_outcome :
          (o : Option StepStatus)
          → apply_outcome outcome ≡ o
          → After w s.working
              (record_outcome w o step outputs tf_console s).0
              (record_outcome w o step outputs tf_console s).1
      by_outcome none e = rw k here
      by_outcome (some done) e =
          settled done (upsert_outputs w reported outputs written).0
            (upsert_outputs w reported outputs written).1 e
            (upsert_outputs-StoresOnly w reported outputs written)
      by_outcome (some StepStatus.failed) e =
          settled StepStatus.failed (ok tt) written e
            (record { returns = refl; requests = refl; steps = refl; committed = refl })
      by_outcome (some rejected) e =
          settled rejected (ok tt) written e
            (record { returns = refl; requests = refl; steps = refl; committed = refl })
      by_outcome (some queued) e =
          settled queued (ok tt) written e
            (record { returns = refl; requests = refl; steps = refl; committed = refl })
      by_outcome (some submitted) e =
          settled submitted (ok tt) written e
            (record { returns = refl; requests = refl; steps = refl; committed = refl })
