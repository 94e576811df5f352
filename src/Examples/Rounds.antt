-- ===== src/Examples/Rounds.antt =====
-- The theorems on the loop, the routes and their checks, at concrete inputs.
use terramate_api_wrapper.Base.{
  suc, true, false, not, none, [], ◌∷◌, any, ◌≡◌, ◌↔◌, refl, string_eq, nat_eq, arith,
}
use terramate_api_wrapper.Table
use terramate_api_wrapper.Value.{Value, dict, entry, null, quoted, empty}
use terramate_api_wrapper.Result.{ok}
use terramate_api_wrapper.Models.{RequestStatus, pending}
use terramate_api_wrapper.Auth.{forwarded_identity, resolve_requester}
use terramate_api_wrapper.Orchestrator.Status.{is_terminal}
use terramate_api_wrapper.Orchestrator.Queue.{
  dependencies_done, queued_steps, sort, joined, pick, turn,
}
use terramate_api_wrapper.Orchestrator.Queue.Ready.{DependenciesDone, dependencies_done_iff}
use terramate_api_wrapper.Orchestrator.Edits.{substitute_structure}
use terramate_api_wrapper.Orchestrator.Edits.Quotes.{has_quoted, shape, substitution-quotes}
use terramate_api_wrapper.Orchestrator.Claim.{claim_and_open_next, claim_all}
use terramate_api_wrapper.Orchestrator.Apply.{record_apply_result}
use terramate_api_wrapper.Requests.Create.{
  create_request, find_by_idempotency_key, admit, mint_ids, put_id, id_of, ids_of, new_steps,
  violates, flush,
}
use terramate_api_wrapper.Requests.Report.{report_step_outputs}
use terramate_api_wrapper.Admin.{cancel_all_requests, set_intake_gate, read_intake_gate}
use terramate_api_wrapper.Scheduler.{run_tick_once}
use terramate_api_wrapper.Lifecycle.{Reach}
use terramate_api_wrapper.Refinement.Claim.{After}
use terramate_api_wrapper.Refinement.Round.{Rests, claim_and_open_next-Rests}
use terramate_api_wrapper.Refinement.Drain.{Idle, claim_all-enough, claim_all-drained}
use terramate_api_wrapper.Refinement.Tick.{IsClean, run_tick_once-IsClean}
use terramate_api_wrapper.Refinement.Apply.{record_apply_result-After}
use terramate_api_wrapper.Refinement.Create.{create_request-After}
use terramate_api_wrapper.Service.{migrated, idle}
use terramate_api_wrapper.Service.Guarantees.{migrated-IsClean, repeated_post}
use terramate_api_wrapper.Service.Access.{Refused, is_ok, admin_only, principals_only}
use terramate_api_wrapper.Service.Stop.{cancel_all-is_final}
use terramate_api_wrapper.Examples.Witnesses.{first_open-IsClean}
use terramate_api_wrapper.Examples.Sample.{world, gate, caller, root, report, posted, demo}
use terramate_api_wrapper.Examples.Rows.{first_open, second_open, first_step, opened_step}

run_tick_once-IsClean_example :
    IsClean (run_tick_once world 5 first_open)
    × Reach world first_open.working (run_tick_once world 5 first_open).working
run_tick_once-IsClean_example = run_tick_once-IsClean world 5 first_open first_open-IsClean

claim_and_open_next-Rests_example :
    After world first_open.working
      (claim_and_open_next world first_open).0
      (claim_and_open_next world first_open).1
    × Rests world first_open
        (claim_and_open_next world first_open).0
        (claim_and_open_next world first_open).1
claim_and_open_next-Rests_example =
    claim_and_open_next-Rests world first_open first_open-IsClean.keyed.steps
      first_open-IsClean.settled

claim_all-enough_example : claim_all world 2 first_open ≡ claim_all world 7 first_open
claim_all-enough_example =
    claim_all-enough world 2 7 first_open first_open-IsClean (omega arith) (omega arith)

finished : (claim_all world 2 first_open).0 ≡ ok tt
unfolding claim_all claim_and_open_next pick turn queued_steps sort joined dependencies_done
    Table.find string_eq
finished = refl

claim_all-drained_example : Idle world (claim_all world 2 first_open).1
claim_all-drained_example =
    claim_all-drained world 2 first_open first_open-IsClean (omega arith) finished

record_apply_result-After_example :
    After world first_open.working
      (record_apply_result world first_step "done" empty "log" first_open).0
      (record_apply_result world first_step "done" empty "log" first_open).1
unfolding Table.find string_eq
record_apply_result-After_example =
    record_apply_result-After world first_step "done" empty "log" first_open refl refl

create_request-After_example :
    After world
      (migrated gate).working
      (create_request world caller none "key-1" "demo" null none (migrated gate)).0
      (create_request world caller none "key-1" "demo" null none (migrated gate)).1
create_request-After_example =
    create_request-After world caller none "key-1" "demo" null none (migrated gate)
      (migrated-IsClean world gate) tt

dependencies_done_iff_example :
    (dependencies_done second_open.working opened_step ≡ true)
    ↔ DependenciesDone second_open.working opened_step
dependencies_done_iff_example = dependencies_done_iff second_open.working opened_step

-- A quoted key and a quoted text.
abbrev document : Value
document = dict (entry true "k" (quoted "a") empty)

substitution-quotes_example :
    (substitute_structure world document [] ≡ document)
    × (has_quoted (substitute_structure world document (("p", null) ∷ [])) ≡ false)
    × (shape (substitute_structure world document (("p", null) ∷ [])) ≡ shape document)
substitution-quotes_example = substitution-quotes world ("p", null) [] document

admin_only_example :
    Refused world caller none (set_intake_gate world caller none false) first_open
    × Refused world caller none (read_intake_gate world caller none) first_open
    × Refused world caller none (cancel_all_requests world caller none) first_open
unfolding forwarded_identity string_eq
admin_only_example = admin_only world caller none false first_open refl

principals_only_example :
    Refused world caller none (report_step_outputs world caller none "uu" 0 report) first_open
unfolding forwarded_identity string_eq
principals_only_example = principals_only world caller none "uu" 0 report first_open refl

cancel_all-is_final_example :
    let t = (cancel_all_requests world root none first_open).1 in
    (is_ok (cancel_all_requests world root none first_open).0 ≡ true)
    × (any (λ r. not (is_terminal r.status)) t.committed.requests ≡ false)
    × (claim_all world 5 t ≡ (ok tt, record t { moment = suc t.moment }))
unfolding forwarded_identity string_eq
cancel_all-is_final_example =
    cancel_all-is_final world root none first_open 4 first_open-IsClean refl

repeated_post_example :
    (status : RequestStatus) × (create_request world none caller "key-1" "demo" null none posted ≡ (
      ok (record { request_id = "uu"; status = status }),
      record posted { moment = suc posted.moment },
    ))
unfolding create_request resolve_requester find_by_idempotency_key admit mint_ids put_id id_of
    ids_of new_steps violates flush Table.clashes Table.find string_eq forwarded_identity
repeated_post_example =
    repeated_post world caller none "key-1" "demo" null none (migrated gate)
      (record { request_id = "uu"; status = pending }) none caller "demo" null none
      "dev@example.com" demo null (migrated-IsClean world gate) tt refl idle refl refl refl
