-- ===== src/Refinement/Tick.antt =====
-- A whole `tick`, and the driver's `run_tick_once`, as transactions of the lifecycle.
use terramate_api_wrapper.Base.{ℕ, zero, suc, true, false, Option, none, ◌≡◌, refl, sym}
use terramate_api_wrapper.Result.{Result, ok, err}
use terramate_api_wrapper.Models.{Db}
use terramate_api_wrapper.Session.{Session, Exec, continue, ◌>>=◌}
use terramate_api_wrapper.Orchestrator.Claim.{claim_and_open_next, claim_all, tick}
use terramate_api_wrapper.Scheduler.{after_tick, run_tick_once}
use terramate_api_wrapper.Lifecycle.{Reach, here, Reach-trans}
use terramate_api_wrapper.Lifecycle.Keys.{IsKeyed, Reach-IsKeyed}
use terramate_api_wrapper.Refinement.Claim.{After}
use terramate_api_wrapper.Refinement.Round.{claim_and_open_next-Rests}
use terramate_api_wrapper.Refinement.Stuck.{flag_stuck_steps-After}
use terramate_api_wrapper.World.{World}

-- Nothing is uncommitted, and the primary keys differ.
pub record IsClean (s : Session) : Type 0 where
  pub keyed : IsKeyed s.working
  pub settled : s.committed ≡ s.working

module _ (w : World) where
  -- What holds after an action that was started in a clean session.
  abbrev pub Refines {ℓ} : {A : Type ℓ} → Exec A → Type 0
  Refines m = (s : Session) → IsClean s → After w s.working (m s).0 (m s).1

  pub After-trans {ℓ} :
      {A : Type ℓ} (db mid : Db) (r : Result A) (s : Session)
      → Reach w db mid
      → After w mid r s
      → After w db r s
  After-trans db mid (ok a) s p (more, e) = (Reach-trans w p more, e)
  After-trans db mid (err x) s p more = Reach-trans w p more

  pub After-seq {ℓ} :
      {A B : Type ℓ} (db : Db) (r : Result A) (s : Session) (f : A → Exec B)
      → IsKeyed db
      → After w db r s
      → ((a : A) → Refines (f a))
      → After w db (continue r f s).0 (continue r f s).1
  After-seq db (ok a) s f keyed (reach, same) h =
      After-trans db s.working (f a s).0 (f a s).1 (rw same reach)
        (h a s (record { keyed = rw same (Reach-IsKeyed w keyed reach); settled = sym same }))
  After-seq db (err e) s f keyed reach h = reach

  -- One action after another, each from a clean session.
  pub Refines-bind {ℓ} :
      {A B : Type ℓ} (m : Exec A) (f : A → Exec B)
      → Refines m
      → ((a : A) → Refines (f a))
      → Refines (m >>= f)
  Refines-bind m f hm hf s clean = After-seq s.working (m s).0 (m s).1 f clean.keyed (hm s clean) hf

  claim_all-Refines : (fuel : ℕ) → Refines (claim_all w fuel)
  unfolding claim_all
  claim_all-Refines zero s clean = (rw clean.settled here, sym clean.settled)
  claim_all-Refines (suc fuel) s clean =
      Refines-bind (claim_and_open_next w) _
        (λ s clean. (claim_and_open_next-Rests w s clean.keyed.steps clean.settled).0)
        (elim [
          | true ↦ claim_all-Refines fuel
          | false ↦ λ t settled. (rw settled.settled here, sym settled.settled)
        ])
        s clean

  -- Whatever a tick does, to the end or up to an exception, what it commits is a run of the
  -- lifecycle from the state that it found.
  pub tick-Refines : (fuel : ℕ) (threshold : Option ℕ) → Refines (tick w fuel threshold)
  unfolding tick
  tick-Refines fuel threshold =
      Refines-bind (claim_all w fuel) _ (claim_all-Refines fuel)
        (λ _ s clean. flag_stuck_steps-After w threshold s clean.keyed clean.settled)

  -- From a state with nothing uncommitted, the driver's tick, whether it runs to the end or is ended by
  -- an exception, leaves nothing uncommitted, and its rows are reached by a run of the lifecycle.
  pub run_tick_once-IsClean :
      (fuel : ℕ) (s : Session)
      → IsClean s
      → IsClean (run_tick_once w fuel s) × Reach w s.working (run_tick_once w fuel s).working
  unfolding run_tick_once
  run_tick_once-IsClean fuel s clean =
      by_result (tick w fuel none s).0 (tick w fuel none s).1 (tick-Refines fuel none s clean)
    where
      by_result :
          (r : Result (Unit {0})) (t : Session)
          → After w s.working r t
          → IsClean (after_tick r t) × Reach w s.working (after_tick r t).working
      by_result (ok u) t (reach, e) =
          (record { keyed = rw e (Reach-IsKeyed w clean.keyed reach); settled = sym e }, rw e reach)
      by_result (err x) t reach =
          (record { keyed = Reach-IsKeyed w clean.keyed reach; settled = refl }, reach)
