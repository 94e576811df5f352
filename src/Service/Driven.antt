-- ===== src/Service/Driven.antt =====
-- `reconcile_loop` of server/scheduler.py as acts of the service.
use terramate_api_wrapper.Base.{
  ℕ, suc, ◌+◌, Bool, true, false, List, [], ◌∷◌, map, ◌≡◌, if◌then◌else◌,
}
use terramate_api_wrapper.Session.{Session}
use terramate_api_wrapper.Scheduler.{
  Wait, elapsed, stopped, cancelled, Pause, Ending, returned, raised_cancelled, running,
}
use terramate_api_wrapper.Service.{Act, driver, Runs, idle, act}
use terramate_api_wrapper.World.{World}

-- This wait is not cut short.
abbrev pub is_over : Wait → Bool
is_over elapsed = true
is_over _ = false

-- How many ticks belong to these waits: one before each, up to the first that is cut short.
abbrev pub due : List Pause → ℕ
due [] = 0
due (pause ∷ pauses) = let rest = due pauses in suc (if is_over pause.wait then rest else 0)

-- The first wait that is cut short says how the loop ends.
abbrev pub ending_of : List Wait → Ending
ending_of [] = running
ending_of (elapsed ∷ waits) = ending_of waits
ending_of (stopped ∷ waits) = returned
ending_of (cancelled ∷ waits) = raised_cancelled

module _ (w : World) where
  abbrev pub ticks_of : {s t : Session} → Act w s t → ℕ
  ticks_of (driver fuel) = 1
  ticks_of _ = 0

  -- How often the driver ticks in a run of the service.
  abbrev pub ticks : {s t : Session} → Runs w s t → ℕ
  ticks idle = 0
  ticks (act run a) = ticks_of a + ticks run

  -- A run of the service in which the driver ticks so often.
  abbrev pub Ticks : ℕ → Session → Session → Type 0
  Ticks n s t = (run : Runs w s t) × (ticks run ≡ n)

  -- What happens during a wait is what the routes do.
  abbrev pub IsServed : Pause → Type 0
  IsServed pause = (t : Session) → Ticks 0 t (pause.meanwhile t)

  module _ (fuel : Session → ℕ) where
    -- How the rounds end, and how often they tick.
    abbrev Drives : Session → List Pause → Ending × Session → Type 0
    Drives s pauses (ending, t) =
        Ticks (due pauses) s t × (ending ≡ ending_of (map (λ (p : Pause). p.wait) pauses))
