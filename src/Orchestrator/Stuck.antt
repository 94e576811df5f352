-- ===== src/Orchestrator/Stuck.antt =====
-- server/orchestrator.py: `_flag_stuck_steps`.
use terramate_api_wrapper.Base.{
  ℕ, ◌-◌, Bool, true, not, ◌&&◌, Option, none, some, List, [], ◌∷◌, ltb, select, if◌then◌else◌,
}
use terramate_api_wrapper.Result.{Result, ok, missing_row, require, ◌>>=◌}
use terramate_api_wrapper.Models.{Step, Db, find_request, save_step}
use terramate_api_wrapper.Session
use terramate_api_wrapper.Session.{Exec, step_stuck}
use terramate_api_wrapper.Orchestrator.Status.{is_terminal, is_submitted}
use terramate_api_wrapper.World.{World}

-- Submitted, not flagged yet, and unchanged since before the cutoff. Truncated subtraction is exact
-- here: nothing changed before time 0.
abbrev pub is_overdue : ℕ → Step → Bool
is_overdue cutoff s = is_submitted s.status && (not s.stuck && ltb s.status_changed_at cutoff)

-- `[s for s in candidates if s.request.status not in TERMINAL_REQUEST_STATUSES]`
unfoldable pub of_live_requests : Db → List Step → Result (List Step)
of_live_requests db [] = ok []
of_live_requests db (s ∷ ss) = do
  row ← require missing_row (find_request s.request_id db)
  rest ← of_live_requests db ss
  ok (if is_terminal row.status then rest else s ∷ rest)

abbrev pub threshold_or : ℕ → Option ℕ → ℕ
threshold_or configured none = configured
threshold_or configured (some seconds) = seconds

abbrev pub flagged : Step → Step
flagged step = record step { stuck = true }

module _ (w : World) where
  unfoldable pub flag_each : List Step → Exec (Unit {0})
  flag_each [] = Session.pure tt
  flag_each (s ∷ ss) = Session.◌>>◌ (Session.modify (save_step (flagged s))) (
      Session.◌>>=◌ (Session.ask w.clock)
        (λ now. Session.◌>>◌ (Session.emit (step_stuck s)) (flag_each ss)))

  abbrev pub commit_if_any : List Step → Exec (Unit {0})
  commit_if_any [] = Session.pure tt
  commit_if_any (s ∷ ss) = Session.commit

  unfoldable pub flag_stuck_steps : Option ℕ → Exec (Unit {0})
  flag_stuck_steps stuck_threshold_seconds = Session.◌>>=◌ (Session.ask w.clock) λ now.
      let cutoff =
        now - threshold_or w.settings.step_stuck_threshold_seconds stuck_threshold_seconds in
      Session.◌>>=◌
        (Session.query (λ db. of_live_requests db (select (is_overdue cutoff) db.steps)))
        λ found.
          Session.◌>>=◌ (Session.lift found)
            λ newly_stuck. Session.◌>>◌ (flag_each newly_stuck) (commit_if_any newly_stuck)
