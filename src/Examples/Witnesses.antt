-- ===== src/Examples/Witnesses.antt =====
-- The theorems at the runs of Examples/Sample.
use terramate_api_wrapper.Base.{
  ℕ, ◌≤◌, true, none, some, In, inl, inr, ◌≡◌, refl, sym, subst, string_eq,
}
use terramate_api_wrapper.Table
use terramate_api_wrapper.Models.{Request, Step, find_request}
use terramate_api_wrapper.Orchestrator.Status.{is_done, rolled_up, steps_of}
use terramate_api_wrapper.Lifecycle.Lane.{open_serial}
use terramate_api_wrapper.Lifecycle.Order.{Onward, Frozen}
use terramate_api_wrapper.Lifecycle.RollUp.{IsRolledUp, AddsUp}
use terramate_api_wrapper.Lifecycle.Idempotency.{with_key}
use terramate_api_wrapper.Refinement.Tick.{IsClean}
use terramate_api_wrapper.Service.Guarantees.{
  lane_exclusive, dependencies_first, status-AddsUp, status-Onward, terminal_is_final,
  one_request_per_key,
}
use terramate_api_wrapper.Lifecycle.Dependencies.{RespectsDependencies}
use terramate_api_wrapper.Requests.Halt.{cancel_request}
use terramate_api_wrapper.Admin.{cancel_all_requests}
use terramate_api_wrapper.Scheduler.{run_tick_once}
use terramate_api_wrapper.Service.{served}
use terramate_api_wrapper.Requests.Report.{report_step_outputs}
use terramate_api_wrapper.Examples.Sample.{world, gate, ci, report, reopened, two_ticks, root}
use terramate_api_wrapper.Examples.Rows.{
  first_step, first_open, rest_run, halted_row, second_open, called_off, calling_off, landed_step,
  opened_step, halted, late_report, between, row, second_step,
}

lane_exclusive_example : open_serial world reopened.committed ≤ 1
lane_exclusive_example = lane_exclusive world gate two_ticks

one_request_per_key_example : with_key "key-1" reopened.committed ≤ 1
one_request_per_key_example = one_request_per_key world gate two_ticks "key-1"

between-IsClean :
    (r : Request) (a b : Step) (moment : ℕ)
    → r.id ≡ "uu"
    → a.id ≡ "uuu"
    → b.id ≡ "uuuu"
    → a.request_id ≡ "uu"
    → b.request_id ≡ "uu"
    → IsClean (between r a b moment)
unfolding Table.find string_eq
between-IsClean r a b moment h i j k l = record {
  keyed = record {
    steps = (rw (i, j) refl, (refl, tt));
    requests = (refl, tt);
    linked = λ s m. elim m [
      | inl e ↦ rw (e, k, h) refl
      | inr (inl e) ↦ rw (e, l, h) refl
      | inr (inr x) ↦ absurd x
    ];
  };
  settled = refl;
}

pub first_open-IsClean : IsClean first_open
first_open-IsClean = between-IsClean row first_step second_step 11 refl refl refl refl refl

pub halted-IsClean : IsClean halted
halted-IsClean = between-IsClean halted_row first_step second_step 11 refl refl refl refl refl

status-Onward_example :
    Onward "uuu" first_step.status
      (served (cancel_all_requests world root none) (
        run_tick_once world 5
          (served (report_step_outputs world ci none "uu" 0 report) first_open))).committed
unfolding Table.find string_eq
status-Onward_example = status-Onward world first_open-IsClean rest_run "uuu" first_step refl

terminal_is_final_example :
    (find_request "uu"
        (run_tick_once world 5
          (served (report_step_outputs world ci none "uu" 0 report) halted)).committed
      ≡ some halted_row)
    × Frozen "uuu" first_step
        (run_tick_once world 5
          (served (report_step_outputs world ci none "uu" 0 report) halted)).committed
unfolding Table.find string_eq
terminal_is_final_example =
    terminal_is_final world halted-IsClean late_report "uu" halted_row refl refl "uuu" first_step
      refl refl

pub second_open-IsClean : IsClean second_open
second_open-IsClean = between-IsClean row landed_step opened_step 22 refl refl refl refl refl

second_open-RespectsDependencies : RespectsDependencies second_open.working
second_open-RespectsDependencies s (inl e) left d m =
    absurd (subst (λ (x : Step). In d x.depends_on) e m)
second_open-RespectsDependencies s (inr (inl e)) left d m =
    elim (subst (λ (x : Step). In d x.depends_on) e m) [
      | inl same ↦ (landed_step, inl refl, sym same, refl)
      | inr x ↦ absurd x
    ]
second_open-RespectsDependencies s (inr (inr x)) left d m = absurd x

dependencies_first_example :
    (x : Step) × In x called_off.committed.steps × (x.id ≡ "uuu") × (is_done x.status ≡ true)
unfolding cancel_request Table.find Table.save string_eq
dependencies_first_example =
    dependencies_first world second_open-IsClean second_open-RespectsDependencies calling_off
      opened_step (inr (inl refl)) refl "uuu" (inl refl)

second_open-IsRolledUp : IsRolledUp second_open.working
unfolding rolled_up string_eq
second_open-IsRolledUp r (inl e) = inr (
    inr (
      subst (λ (x : Request). x.status ≡ rolled_up (steps_of x.id second_open.working)) (sym e)
        refl))
second_open-IsRolledUp r (inr x) = absurd x

status-AddsUp_example : AddsUp called_off.committed halted_row
unfolding cancel_request Table.find Table.save string_eq
status-AddsUp_example =
    status-AddsUp world second_open-IsClean second_open-IsRolledUp calling_off halted_row (inl refl)
