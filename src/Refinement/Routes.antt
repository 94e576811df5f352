-- ===== src/Refinement/Routes.antt =====
-- The routes that write, as transactions of the lifecycle.
use terramate_api_wrapper.Base.{
  ℕ, String, Bool, false, ◌&&◌, not, Option, some, List, [], ◌∷◌, In, inl, inr, ◌⊎◌, ◌≡◌, refl, sym,
  subst, arith, In-select, first-In, Bool-cases, Option-cases, string_eq, if◌then◌else◌, ◌==◌,
  nat_eq,
}
use terramate_api_wrapper.Result.{Result, ok, err, require, missing_row}
use terramate_api_wrapper.Models.{Request, Step, Db, find_step, find_request, save_request}
use terramate_api_wrapper.Table.{find-save, find-eq_of_In, save_found}
use terramate_api_wrapper.Session.{Session, Exec, continue}
use terramate_api_wrapper.Orchestrator.Status.{is_terminal, is_cancelled}
use terramate_api_wrapper.Orchestrator.Queue.Eligible.{In-sort}
use terramate_api_wrapper.Auth.{require_admin, require_ci_principal}
use terramate_api_wrapper.Requests.Read.{find_step_at}
use terramate_api_wrapper.Requests.Report.{
  OutputReport, is_reportable, validated, report_to, report_step_outputs,
}
use terramate_api_wrapper.Requests.Halt.{cancelled_row, cancel_row, cancel_request}
use terramate_api_wrapper.Admin.{
  CancelledRequest, entry, oldest_first, live_requests, cancel_each, cancel_all_requests,
  set_intake_gate,
}
use terramate_api_wrapper.Orchestrator.Apply.{record_apply_result}
use terramate_api_wrapper.Lifecycle.{store, halt, Reach, here, next}
use terramate_api_wrapper.Lifecycle.Order.{row_key}
use terramate_api_wrapper.Refinement.Claim.{After}
use terramate_api_wrapper.Refinement.Apply.{record_apply_result-After}
use terramate_api_wrapper.Refinement.Tick.{IsClean, Refines, After-seq}
use terramate_api_wrapper.World.{World}

-- Live when it was read; since then it may have been cancelled, and nothing else.
record IsHalting (db : Db) (row : Request) : Type 0 where
  live : is_terminal row.status ≡ false
  stored : (find_request row.id db ≡ some row) ⊎ (find_request row.id db ≡ some (cancelled_row row))

cancelled-IsHalting :
    (db : Db) (row x : Request)
    → IsHalting db row
    → IsHalting db x
    → IsHalting (save_request (cancelled_row row) db) x
cancelled-IsHalting db row x a b = record { live = b.live; stored = by_row a.stored b.stored }
  where
    at :
        (r : Request)
        → find_request row.id db ≡ some r
        → find_request x.id (save_request (cancelled_row row) db)
          ≡ (if row.id == x.id then some (cancelled_row row) else find_request x.id db)
    at r f = find-save (λ (y : Request). y.id) (cancelled_row row) x.id db.requests r f

    by_row :
        (find_request row.id db ≡ some row) ⊎ (find_request row.id db ≡ some (cancelled_row row))
        → (find_request x.id db ≡ some x) ⊎ (find_request x.id db ≡ some (cancelled_row x))
        → (find_request x.id (save_request (cancelled_row row) db) ≡ some x)
          ⊎ (find_request x.id (save_request (cancelled_row row) db) ≡ some (cancelled_row x))
    by_row (inl f) (inl g) = ground (arith, at row f, b.live)
    by_row (inl f) (inr g) = ground (arith, at row f, a.live)
    by_row (inr f) (inl g) = ground (arith, at (cancelled_row row) f, b.live)
    by_row (inr f) (inr g) = ground (arith, at (cancelled_row row) f)

module _ (w : World) where
  -- A guard in front of an action.
  pub guarded-Refines {ℓ} :
      {A B : Type ℓ} (r : Result A) (f : A → Exec B) (s : Session)
      → IsClean s
      → ((a : A) → r ≡ ok a → After w s.working (f a s).0 (f a s).1)
      → After w s.working (continue r f s).0 (continue r f s).1
  guarded-Refines (ok a) f s clean h = h a refl
  guarded-Refines (err e) f s clean h = rw clean.settled here

  cancel_row-After :
      (row : Request) (s : Session)
      → IsClean s
      → find_request row.id s.working ≡ some row
      → After w s.working (cancel_row row s).0 (cancel_row row s).1
  cancel_row-After row s clean f = elim (Bool-cases (is_cancelled row.status)) [
    | inl already ↦ rw already (rw clean.settled here, sym clean.settled)
    | inr other ↦ elim (Bool-cases (is_terminal row.status)) [
      | inl ended ↦ rw (other, ended) (rw clean.settled here)
      | inr live ↦ rw (other, live) (next here (halt row f live refl), refl)
    ]
  ]

  pub cancel_request-Refines : (request_id : String) → Refines w (cancel_request request_id)
  unfolding cancel_request
  cancel_request-Refines request_id s clean =
      elim (Option-cases (find_request request_id s.working)) [
        | inl missing ↦ rw missing (rw clean.settled here)
        | inr (row, f) ↦ rw f (cancel_row-After row s clean (row_key request_id s.working row f))
      ]

  record Halted (db : Db) (s s' : Session) (r : Result (List CancelledRequest)) : Type 0 where
    entries : List CancelledRequest
    returns : r ≡ ok entries
    reached : Reach w db s'.working

  cancel_each_lem :
      (db : Db) (rows : List Request) (s : Session)
      → Reach w db s.working
      → ((x : Request) → In x rows → IsHalting s.working x)
      → Halted db s (cancel_each rows s).1 (cancel_each rows s).0
  unfolding cancel_each
  cancel_each_lem db [] s r all = record { entries = []; returns = refl; reached = r }
  cancel_each_lem db (row ∷ rows) s r all =
      let a = all row (inl refl) in
      let h =
        cancel_each_lem db rows (record s { working = save_request (cancelled_row row) s.working })
          (halted a a.stored) (λ x i. cancelled-IsHalting s.working row x a (all x (inr i))) in
      rw h.returns
        (record { entries = entry s.working row ∷ h.entries; returns = refl; reached = h.reached })
    where
      halted :
          IsHalting s.working row
          → (find_request row.id s.working ≡ some row)
            ⊎ (find_request row.id s.working ≡ some (cancelled_row row))
          → Reach w db (save_request (cancelled_row row) s.working)
      halted a (inl f) = next r (halt row f a.live refl)
      halted a (inr f) =
          subst (λ rs. Reach w db (record s.working { requests = rs }))
            (sym (save_found (λ (y : Request). y.id) (cancelled_row row) s.working.requests f)) r

  pub cancel_all_requests-Refines :
      (email user : Option String) → Refines w (cancel_all_requests w email user)
  unfolding cancel_all_requests live_requests
  cancel_all_requests-Refines email user s clean =
      guarded-Refines (require_admin w.settings email user) _ s clean (λ principal _.
        let h = cancel_each_lem s.working (live_requests s.working) s here read in
        rw h.returns (h.reached, refl))
    where
      read : (x : Request) → In x (live_requests s.working) → IsHalting s.working x
      read x i =
          let (stored, live) =
            In-select (λ (r : Request). not (is_terminal r.status)) x s.working.requests
              (In-sort oldest_first x _ i) in
          record {
            live = ground arith;
            stored = inl (
                find-eq_of_In (λ (y : Request). y.id) x s.working.requests clean.keyed.requests
                  stored);
          }

  pub set_intake_gate-Refines :
      (email user : Option String) (enabled : Bool)
      → Refines w (set_intake_gate w email user enabled)
  unfolding set_intake_gate
  set_intake_gate-Refines email user enabled s clean =
      guarded-Refines (require_admin w.settings email user) _ s clean
        (λ principal _. (next here (store refl refl), refl))

  report_to-After :
      (step : Step) (body : OutputReport) (s : Session)
      → IsClean s
      → find_step step.id s.working ≡ some step
      → After w s.working (report_to w step body s).0 (report_to w step body s).1
  report_to-After step body s clean f = elim (Bool-cases (is_reportable step.status)) [
    | inl may ↦ rw may (
        After-seq w s.working
          (record_apply_result w step body.status body.outputs body.tf_console s).0
          (record_apply_result w step body.status body.outputs body.tf_console s).1 _ clean.keyed
          (record_apply_result-After w step body.status body.outputs body.tf_console s f
            clean.settled)
          (λ _ t c.
            guarded-Refines (require missing_row (find_step step.id t.working)) _ t c
              (λ after _. (rw c.settled here, sym c.settled))))
    | inr may_not ↦ rw may_not (rw clean.settled here)
  ]

  pub report_step_outputs-Refines :
      (email user : Option String) (request_id : String) (ordinal : ℕ) (body : OutputReport)
      → Refines w (report_step_outputs w email user request_id ordinal body)
  unfolding report_step_outputs find_step_at
  report_step_outputs-Refines email user request_id ordinal body s clean =
      guarded-Refines (require_ci_principal w.settings email user) _ s clean (λ principal _.
        guarded-Refines (validated body) _ s clean (λ _ _.
          elim (Option-cases (find_step_at request_id ordinal s.working.steps)) [
            | inl missing ↦ rw missing (rw clean.settled here)
            | inr (step, f) ↦ rw f (
                report_to-After step body s clean (
                  find-eq_of_In (λ (y : Step). y.id) step s.working.steps clean.keyed.steps
                    (first-In (λ x. x.request_id == request_id && x.ordinal == ordinal) step
                      s.working.steps f).0))
          ]))
