-- ===== src/Refinement/Drain.antt =====
-- The loop `while _claim_and_open_next(...): pass` ends: every round that goes on has taken a Step
-- from the queue.
use terramate_api_wrapper.Base.{
  ℕ, zero, suc, ◌≤◌, Bool, true, false, Option, none, some, not, ◌&&◌, Option-cases, Bool-cases,
  inl, inr, In, In-select_of, any, any_of_none, ◌≡◌, refl, sym, subst, arith,
}
use terramate_api_wrapper.Result.{Result, ok, err}
use terramate_api_wrapper.Models.{Request, Step, Db, find_request}
use terramate_api_wrapper.Session.{Session, Exec, continue, pure}
use terramate_api_wrapper.Orchestrator.Claim.{claim_and_open_next, claim_all}
use terramate_api_wrapper.Lifecycle.Keys.{Reach-IsKeyed}
use terramate_api_wrapper.Refinement.Claim.{After, waiting}
use terramate_api_wrapper.Refinement.Round.{Rests, claim_and_open_next-Rests}
use terramate_api_wrapper.Refinement.Tick.{IsClean}
use terramate_api_wrapper.Orchestrator.Status.{is_terminal, is_queued}
use terramate_api_wrapper.Orchestrator.Queue.{
  dependencies_done, is_serial_type, serial_lane_busy, queued_steps, comes_before, pick,
}
use terramate_api_wrapper.Orchestrator.Queue.Eligible.{In-sort_of, In-joined_of, pick-none}
use terramate_api_wrapper.World.{World}

module _ (w : World) where
  -- What a round goes on with.
  abbrev loop : ℕ → Bool → Exec (Unit {0})
  loop fuel true = claim_all w fuel
  loop fuel false = pure tt

  -- With more fuel than there are queued Steps, the loop does the same whatever the fuel is.
  pub claim_all-enough :
      (n m : ℕ) (s : Session)
      → IsClean s
      → suc (waiting s.working) ≤ n
      → suc (waiting s.working) ≤ m
      → claim_all w n s ≡ claim_all w m s
  unfolding claim_all
  claim_all-enough zero m s clean h k = absurd (omega (arith, h))
  claim_all-enough (suc n) zero s clean h k = absurd (omega (arith, k))
  claim_all-enough (suc n) (suc m) s clean h k =
      by_round (claim_and_open_next w s).0 (claim_and_open_next w s).1
        (claim_and_open_next-Rests w s clean.keyed.steps clean.settled).0
        (claim_and_open_next-Rests w s clean.keyed.steps clean.settled).1
        (λ t. claim_all-enough n m t)
    where
      by_round :
          (r : Result Bool) (t : Session)
          → After w s.working r t
          → Rests w s r t
          → ((u : Session)
              → IsClean u
              → suc (waiting u.working) ≤ n
              → suc (waiting u.working) ≤ m
              → claim_all w n u ≡ claim_all w m u)
          → continue r (loop n) t ≡ continue r (loop m) t
      by_round (err x) t after rests later = refl
      by_round (ok false) t after rests later = refl
      by_round (ok true) t (reach, same) fewer later =
          later t
            (record { keyed = rw same (Reach-IsKeyed w clean.keyed reach); settled = sym same })
            (omega (arith, fewer, h)) (omega (arith, fewer, k))

  -- `step` could be started: it is queued, no other session has locked its row, its request is
  -- live, its dependencies are done, and the lane is free if its Type needs it.
  abbrev pub may_start_for : Db → Step → Option Request → Bool
  may_start_for db step none = false
  may_start_for db step (some row) =
      not (is_terminal row.status)
      && (dependencies_done db step && not (is_serial_type w row.type && serial_lane_busy w db))

  unfoldable pub may_start : ℕ → Db → Step → Bool
  may_start moment db step =
      is_queued step.status
      && (not (w.locked moment step.id) && may_start_for db step (find_request step.request_id db))

  started_by :
      (moment : ℕ) (db : Db) (step : Step) (after : Option Bool)
      → In step db.steps
      → pick w db none (queued_steps w moment db) ≡ ok (none, after)
      → may_start moment db step ≡ false
  unfolding may_start queued_steps
  started_by moment db step after i h = elim (Option-cases (find_request step.request_id db)) [
    | inl missing ↦ rw missing (ground arith)
    | inr (row, f) ↦
        rw f
          (elim (Bool-cases (
            is_queued step.status
            && (not (w.locked moment step.id) && may_start_for db step (some row)))) [
              | inr no_start ↦ no_start
              | inl starts ↦ absurd (
                  pick-none w db none after (queued_steps w moment db) step row refl h
                    (In-sort_of (comes_before w) _ _ (
                      In-joined_of db step row _
                        (In-select_of
                          (λ (s : Step). is_queued s.status && not (w.locked moment s.id)) step
                          db.steps i (ground arith))
                        f))
                    (record { live = ground arith; ready = ground arith; lane = ground arith }))
            ])
  ]

  -- The last thing that was asked of the outside is what was locked, and nothing can be started by it.
  abbrev pub Idle : Session → Type 0
  Idle t =
      (moment : ℕ) × (t.moment ≡ suc moment)
      × (any (may_start moment t.working) t.working.steps ≡ false)

  -- A loop with enough fuel that no exception ends stops right behind a look at the locked rows, the last
  -- thing that it asks of the outside, and by that look no Step of the rows that it leaves could be started.
  pub claim_all-drained :
      (n : ℕ) (s : Session)
      → IsClean s
      → suc (waiting s.working) ≤ n
      → (claim_all w n s).0 ≡ ok tt
      → Idle (claim_all w n s).1
  unfolding claim_all
  claim_all-drained zero s clean h = absurd (omega (arith, h))
  claim_all-drained (suc n) s clean h =
      let (after, rests) = claim_and_open_next-Rests w s clean.keyed.steps clean.settled in
      by_round (claim_and_open_next w s).0 (claim_and_open_next w s).1 after rests
        (λ t. claim_all-drained n t)
    where
      by_round :
          (r : Result Bool) (t : Session)
          → After w s.working r t
          → Rests w s r t
          → ((u : Session)
              → IsClean u
              → suc (waiting u.working) ≤ n
              → (claim_all w n u).0 ≡ ok tt
              → Idle (claim_all w n u).1)
          → (continue r (loop n) t).0 ≡ ok tt
          → Idle (continue r (loop n) t).1
      by_round (err x) t after rests later e = absurd (cc e)
      by_round (ok false) t after (same, last, lane, picked) later e = (
        s.moment,
        last,
        subst (λ (d : Db). any (may_start s.moment d) d.steps ≡ false) (sym same)
            (any_of_none (may_start s.moment s.working) s.working.steps
              (λ x i. started_by s.moment s.working x lane i picked)),
      )
      by_round (ok true) t (reach, same) fewer later e =
          later t
            (record { keyed = rw same (Reach-IsKeyed w clean.keyed reach); settled = sym same })
            (omega (arith, fewer, h)) e
