-- ===== src/Service/Guarantees.antt =====
-- What holds of the database however the service is driven.
use terramate_api_wrapper.Base.{
  suc, ◌≤◌, String, true, false, Option, some, ◌≡◌, refl, sym, subst, In, arith,
}
use terramate_api_wrapper.Result.{Result, ok, err}
use terramate_api_wrapper.Models.{RequestStatus, IntakeGate, Request, Step, find_step, find_request}
use terramate_api_wrapper.Session.{Session, Exec}
use terramate_api_wrapper.Orchestrator.Status.{is_terminal, is_done, is_queued}
use terramate_api_wrapper.Lifecycle.{Reach, here, Reach-trans}
use terramate_api_wrapper.Lifecycle.Keys.{Reach-IsKeyed}
use terramate_api_wrapper.Lifecycle.Order.{
  Onward, Frozen, Reach-Onward, Reach-Frozen, Reach-terminal_row,
}
use terramate_api_wrapper.Lifecycle.Lane.{open_serial, Reach-IsLaneSafe}
use terramate_api_wrapper.Lifecycle.Dependencies.{RespectsDependencies, Reach-RespectsDependencies}
use terramate_api_wrapper.Lifecycle.RollUp.{AddsUp, IsRolledUp, Reach-IsRolledUp}
use terramate_api_wrapper.Refinement.Claim.{After}
use terramate_api_wrapper.Refinement.Tick.{IsClean, run_tick_once-IsClean}
use terramate_api_wrapper.Refinement.Routes.{
  cancel_request-Refines, cancel_all_requests-Refines, set_intake_gate-Refines,
  report_step_outputs-Refines,
}
use terramate_api_wrapper.Refinement.Create.{Enters, create_request-After}
use terramate_api_wrapper.Requests.Create.{Rival, CreateRequestResponse, create_request}
use terramate_api_wrapper.Requests.Report.{report_step_outputs}
use terramate_api_wrapper.Requests.Halt.{cancel_request}
use terramate_api_wrapper.Admin.{cancel_all_requests, set_intake_gate}
use terramate_api_wrapper.Service.{
  served, migrated, Act, driver, post, push, stop, stop_all, switch, Runs, idle, act,
}
use terramate_api_wrapper.Value.{Value}
use terramate_api_wrapper.Framework.{Recipe}
use terramate_api_wrapper.Auth.{resolve_requester}
use terramate_api_wrapper.Lifecycle.Idempotency.{
  with_key, IsIdempotent, holder, Reach-IsIdempotent, Reach-holder,
}
use terramate_api_wrapper.Refinement.Replay.{Answers, create_request-Answers, create_request-replay}
use terramate_api_wrapper.World.{World}

module _ (w : World) where
  -- Clean again, by a run of the lifecycle.
  abbrev Kept : Session → Session → Type 0
  Kept s t = IsClean t × Reach w s.working t.working

  served-Kept {ℓ} :
      {A : Type ℓ} (m : Exec A) (s : Session)
      → IsClean s
      → After w s.working (m s).0 (m s).1
      → Kept s (served m s)
  served-Kept {A = A} m s clean h = by_result (m s).0 (m s).1 h
    where
      by_result :
          (r : Result A) (t : Session)
          → After w s.working r t
          → Kept s (record t { working = t.committed })
      by_result (ok a) t (reach, e) =
          (record { keyed = Reach-IsKeyed w clean.keyed reach; settled = refl }, reach)
      by_result (err x) t reach =
          (record { keyed = Reach-IsKeyed w clean.keyed reach; settled = refl }, reach)

  Act-Kept : {s t : Session} → IsClean s → Act w s t → Kept s t
  Act-Kept {s} clean (driver fuel) = run_tick_once-IsClean w fuel s clean
  Act-Kept {s} clean (post email user key type params rival entered) =
      served-Kept (create_request w email user key type params rival) s clean
        (create_request-After w email user key type params rival s clean entered)
  Act-Kept {s} clean (push email user request_id ordinal body) =
      served-Kept (report_step_outputs w email user request_id ordinal body) s clean
        (report_step_outputs-Refines w email user request_id ordinal body s clean)
  Act-Kept {s} clean (stop request_id) =
      served-Kept (cancel_request request_id) s clean (cancel_request-Refines w request_id s clean)
  Act-Kept {s} clean (stop_all email user) =
      served-Kept (cancel_all_requests w email user) s clean
        (cancel_all_requests-Refines w email user s clean)
  Act-Kept {s} clean (switch email user enabled) =
      served-Kept (set_intake_gate w email user enabled) s clean
        (set_intake_gate-Refines w email user enabled s clean)

  Runs-Kept : {s t : Session} → IsClean s → Runs w s t → Kept s t
  Runs-Kept clean idle = (clean, here)
  Runs-Kept clean (act r a) =
      let (c, reach) = Runs-Kept clean r in
      let (c', more) = Act-Kept c a in (c', Reach-trans w reach more)

  pub migrated-IsClean : (gate : IntakeGate) → IsClean (migrated gate)
  migrated-IsClean gate = record {
    keyed = record { steps = tt; requests = tt; linked = λ s m. absurd m };
    settled = refl;
  }

  -- From an empty database, at most one PR of a non-parallel Type is open at a time under requests
  -- that are still live, after any ticks, pushes, posts and cancellations, failing ones included.
  pub lane_exclusive :
      (gate : IntakeGate) {t : Session} → Runs w (migrated gate) t → open_serial w t.committed ≤ 1
  lane_exclusive gate {t} r =
      let (clean, reach) = Runs-Kept (migrated-IsClean gate) r in
      subst (λ d. open_serial w d ≤ 1) (sym clean.settled)
        (Reach-IsLaneSafe w (migrated-IsClean gate).keyed (omega arith) reach)

  -- From a state with nothing uncommitted, in which whatever has left the queue has its dependencies
  -- done (an empty database, say), any calls and ticks lead to such a state again: whatever
  -- dependency a stored Step that has left the queue names is the id of a stored Step that is done.
  pub dependencies_first :
      {s t : Session}
      → IsClean s
      → RespectsDependencies s.working
      → Runs w s t
      → (step : Step) → In step t.committed.steps
      → is_queued step.status ≡ false
      → (d : String) → In d step.depends_on
      → (x : Step) × In x t.committed.steps × (x.id ≡ d) × (is_done x.status ≡ true)
  dependencies_first {s} {t} clean respected r =
      let (after, reach) = Runs-Kept clean r in
      subst RespectsDependencies (sym after.settled) (Reach-RespectsDependencies w respected reach)

  -- From a state with nothing uncommitted, in which the statuses of the requests add up (an empty
  -- database, say), any calls and ticks lead to such a state again: every request is cancelled, or
  -- pending with all its Steps queued, or has the status that its Steps add up to.
  pub status-AddsUp :
      {s t : Session}
      → IsClean s
      → IsRolledUp s.working
      → Runs w s t
      → (row : Request) → In row t.committed.requests
      → AddsUp t.committed row
  status-AddsUp {s} {t} clean rolled r =
      let (after, reach) = Runs-Kept clean r in
      subst IsRolledUp (sym after.settled) (Reach-IsRolledUp w clean.keyed rolled reach)

  -- From a state with nothing uncommitted, a Step is never lost, and its status is the old one or
  -- comes later in its lifecycle.
  pub status-Onward :
      {s t : Session}
      → IsClean s
      → Runs w s t
      → (id : String) (old : Step) → find_step id s.working ≡ some old
      → Onward id old.status t.committed
  status-Onward {s} {t} clean r id old f =
      let (after, reach) = Runs-Kept clean r in
      subst (Onward id old.status) (sym after.settled) (Reach-Onward w id old f reach)

  -- From a state with nothing uncommitted, the row of a request in a terminal status never changes
  -- again, and its Steps keep their statuses.
  pub terminal_is_final :
      {s t : Session}
      → IsClean s
      → Runs w s t
      → (id : String) (row : Request) → find_request id s.working ≡ some row
      → is_terminal row.status ≡ true
      → (step_id : String) (old : Step) → find_step step_id s.working ≡ some old
      → old.request_id ≡ id
      → (find_request id t.committed ≡ some row) × Frozen step_id old t.committed
  terminal_is_final {s} {t} clean r id row f h step_id old g e =
      let (after, reach) = Runs-Kept clean r in
      subst (λ d. (find_request id d ≡ some row) × Frozen step_id old d) (sym after.settled)
        (
          Reach-terminal_row w id row f h reach,
          Reach-Frozen w step_id old row g
              (subst (λ k. find_request k s.working ≡ some row) (sym e) f) h reach,
        )

  -- From an empty database, at most one request is stored under any idempotency key.
  pub one_request_per_key :
      (gate : IntakeGate) {t : Session}
      → Runs w (migrated gate) t
      → (key : String) → with_key key t.committed ≤ 1
  one_request_per_key gate {t} r =
      let (clean, reach) = Runs-Kept (migrated-IsClean gate) r in
      subst IsIdempotent (sym clean.settled) (Reach-IsIdempotent w (λ k. omega arith) reach)

  -- After a `POST` that was answered, and any further calls and ticks, a well-formed `POST` with the
  -- same key returns the same request's id, whatever its type, its parameters and the intake gate,
  -- and writes no row, nor does it record an event.
  pub repeated_post :
      (email user : Option String) (key type : String) (raw_params : Value) (rival : Option Rival)
      (s : Session) (response : CreateRequestResponse) {t : Session} (email' user' : Option String)
      (type' : String) (raw_params' : Value) (rival' : Option Rival) (requester : String)
      (recipe : Recipe) (params : Value)
      → IsClean s
      → Enters w s.working rival
      → (create_request w email user key type raw_params rival s).0 ≡ ok response
      → Runs w (served (create_request w email user key type raw_params rival) s) t
      → resolve_requester email' user' ≡ ok requester
      → w.recipes type' ≡ some recipe
      → recipe.model_validate (w.uuids t.moment) raw_params' ≡ ok params
      → (status : RequestStatus) × (create_request w email' user' key type' raw_params' rival' t ≡ (
        ok (record { request_id = response.request_id; status = status }),
        record t { moment = suc t.moment },
      ))
  repeated_post email user key type raw_params rival s response {t} email' user' type' raw_params'
        rival' requester recipe params clean entered answered r known found valid =
      create_request-replay w email' user' key type' raw_params' rival' t requester recipe params
        response.request_id known found valid
        (Reach-holder w key response.request_id held (Runs-Kept first.0 r).1)
    where
      made : Exec CreateRequestResponse
      made = create_request w email user key type raw_params rival

      first : Kept s (served made s)
      first = Act-Kept clean (post email user key type raw_params rival entered)

      held : holder key (served made s).working.requests ≡ some response.request_id
      held =
          subst (λ (x : Result CreateRequestResponse). Answers key x (made s).1) answered
            (create_request-Answers w email user key type raw_params rival s clean.settled)
