-- ===== src/Refinement/Parts.antt =====
-- What the parts of server/orchestrator.py do to a session: hooks leave the rows alone, and a
-- transition with its roll-up writes one Step and one request.
use terramate_api_wrapper.Base.{
  String, false, some, List, [], ◌∷◌, ◌≡◌, refl, sym, arith, Bool-cases, inl, inr, ◌++◌, suc, ap,
}
use terramate_api_wrapper.Result.{Result, ok, err}
use terramate_api_wrapper.Framework.{Hook}
use terramate_api_wrapper.Models.{
  StepStatus, RequestStatus, Request, Step, Db, find_request, save_step, save_request,
}
use terramate_api_wrapper.Table.{find_id}
use terramate_api_wrapper.Session.{Session, Exec, hook_invoked, continue, ◌>>◌}
use terramate_api_wrapper.Orchestrator.Status.{
  is_terminal, is_cancelled, same_status, rolled_up, steps_of, moved, transition, roll_up_request,
}
use terramate_api_wrapper.Orchestrator.Spec.{run_hooks}
use terramate_api_wrapper.Lifecycle.{roll_up}
use terramate_api_wrapper.World.{World}

-- The rows, in and out of the transaction.
pub record SameRows (s s' : Session) : Type 0 where
  pub working : s'.working ≡ s.working
  pub committed : s'.committed ≡ s.committed

pub run_hooks-SameRows :
    (hooks : List Hook) (step : Step) (name : String) (s : Session)
    → SameRows s (run_hooks hooks step name s).1
unfolding run_hooks
run_hooks-SameRows [] step name s = record { working = refl; committed = refl }
run_hooks-SameRows (hook ∷ hooks) step name s =
    let h =
      answered (hook s.moment)
        (record s { trace = s.trace ++ (hook_invoked step name ∷ []); moment = suc s.moment })
        (run_hooks-SameRows hooks step name) in
    record { working = h.working; committed = h.committed }
  where
    answered :
        (r : Result (Unit {0})) (s' : Session)
        → ((t : Session) → SameRows t (run_hooks hooks step name t).1)
        → SameRows s' (continue r (λ _. run_hooks hooks step name) s').1
    answered (ok u) s' rest = rest s'
    answered (err e) s' rest = record { working = refl; committed = refl }

not_cancelled : (status : RequestStatus) → is_terminal status ≡ false → is_cancelled status ≡ false
not_cancelled status h = ground arith

module _ (w : World) where
  abbrev pub move_and_roll_up : Step → StepStatus → Exec (Unit {0})
  move_and_roll_up step to = do transition w step to; roll_up_request step.request_id

  -- The database between the transition and the roll-up.
  abbrev pub moved_db : Step → StepStatus → Session → Db
  moved_db step to s = save_step (moved to (w.clock s.moment) step) s.working

  roll_up_key :
      (step : Step) (row : Request) (db : Db)
      → find_request step.request_id db ≡ some row
      → (after : Db)
      → save_request (record row { status = rolled_up (steps_of step.request_id after) }) after
        ≡ roll_up row after
  roll_up_key step row db q after =
      ap (λ (k : String). save_request (record row { status = rolled_up (steps_of k after) }) after)
        (sym (find_id (λ (r : Request). r.id) step.request_id db.requests row q))

  -- A transition of a Step of a live request returns, and writes those two rows and no other.
  pub move_and_roll_up_lem :
      (step : Step) (to : StepStatus) (row : Request) (s : Session)
      → find_request step.request_id s.working ≡ some row
      → is_terminal row.status ≡ false
      → ((move_and_roll_up step to s).0 ≡ ok tt)
        × ((move_and_roll_up step to s).1.working ≡ roll_up row (moved_db step to s))
        × ((move_and_roll_up step to s).1.committed ≡ s.committed)
  unfolding transition roll_up_request
  move_and_roll_up_lem step to row s q l =
      let after = moved_db step to s in
      rw (q, not_cancelled row.status l)
        (elim (Bool-cases (same_status (rolled_up (steps_of step.request_id after)) row.status)) [
          | inl e ↦ rw e (refl, roll_up_key step row s.working q after, refl)
          | inr e ↦ rw e (refl, roll_up_key step row s.working q after, refl)
        ])
