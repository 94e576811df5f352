-- ===== src/Examples/Driving.antt =====
-- The theorems on the loop of the driver: a push of CI arrives during its first wait, and its second is cut
-- short.
use terramate_api_wrapper.Base.{ℕ, none}
use terramate_api_wrapper.Session.{Session}
use terramate_api_wrapper.Requests.Report.{report_step_outputs}
use terramate_api_wrapper.Scheduler.{Pause, elapsed, stopped}
use terramate_api_wrapper.Service.{served}
use terramate_api_wrapper.Examples.Sample.{world, ci, report}

abbrev pushing : Pause
pushing = record {
  meanwhile = λ s. served (report_step_outputs world ci none "uu" 0 report) s;
  wait = elapsed;
}

abbrev stopping : Pause
stopping = record { meanwhile = λ s. s; wait = stopped }

abbrev fuel : Session → ℕ
fuel s = 5
