-- ===== src/Scheduler.antt =====
-- server/scheduler.py: the driver that calls `tick` in a session of its own.
use terramate_api_wrapper.Base.{ℕ, Bool, none, List, [], ◌∷◌, if◌then◌else◌}
use terramate_api_wrapper.Result.{Result, ok, err}
use terramate_api_wrapper.Session.{Session, rollback}
use terramate_api_wrapper.Orchestrator.Claim.{tick}
use terramate_api_wrapper.World.{World}

-- `except Exception: session.rollback()`
abbrev pub after_tick : Result (Unit {0}) → Session → Session
after_tick (ok _) s = s
after_tick (err _) s = (rollback s).1

-- How the wait behind a tick ends: the interval is over, `stop_event` is set, or the task is cancelled. A
-- task that is cancelled while its tick runs in the worker thread does not end the tick.
pub data Wait : Type 0 where
  elapsed stopped cancelled : Wait

-- A wait, and what the rest of the service does to the database before it ends.
pub record Pause : Type 0 where
  pub meanwhile : Session → Session
  pub wait : Wait

-- How a loop ends: `running` is a loop that is still waiting where the list of its pauses ends.
pub data Ending : Type 0 where
  returned raised_cancelled running : Ending

module _ (w : World) where
  -- `run_tick_once`: it returns whatever the tick does.
  unfoldable pub run_tick_once : ℕ → Session → Session
  run_tick_once fuel s = let (r, s') = tick w fuel none s in after_tick r s'

  -- A tick and the wait behind it.
  abbrev pub next_round : (Session → ℕ) → Pause → Session → Session
  next_round fuel pause s = pause.meanwhile (run_tick_once (fuel s) s)

  -- The rounds of the loop, where `stop_event` is not set; each tick is given fuel by the rows it finds.
  unfoldable pub rounds : (Session → ℕ) → List Pause → Session → Ending × Session
  rounds fuel [] s = (running, s)
  rounds fuel (pause ∷ pauses) s =
      let s' = next_round fuel pause s in
      elim pause.wait [
        | elapsed ↦ rounds fuel pauses s'
        | stopped ↦ (returned, s')
        | cancelled ↦ (raised_cancelled, s')
      ]

  -- `reconcile_loop`, with whether `stop_event` is set when it starts.
  unfoldable pub reconcile_loop : (Session → ℕ) → Bool → List Pause → Session → Ending × Session
  reconcile_loop fuel stop_set pauses s = if stop_set then (returned, s) else rounds fuel pauses s
