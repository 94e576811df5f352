-- ===== src/Refinement/Round.antt =====
-- `_claim_and_open_next`: one round of the loop of `tick`, and that the loop ends.
use terramate_api_wrapper.Base.{
  ℕ, Bool, true, false, not, ◌&&◌, Option, none, some, [], ◌∷◌, In-select, ◌≡◌, refl, sym, arith,
  ◌++◌, suc,
}
use terramate_api_wrapper.Result.{Result, ok, err}
use terramate_api_wrapper.Models.{Request, Step, Db}
use terramate_api_wrapper.Orchestrator.Queue.Eligible.{In-sort, In-joined, pick-IsTurn}
use terramate_api_wrapper.Table.{HasKeys, find-eq_of_In}
use terramate_api_wrapper.Session.{Session, lane_locked, continue}
use terramate_api_wrapper.Orchestrator.Status.{is_queued}
use terramate_api_wrapper.Orchestrator.Queue.{queued_steps, comes_before, pick}
use terramate_api_wrapper.Orchestrator.Claim.{with_picked, claim_and_open_next}
use terramate_api_wrapper.Lifecycle.{here}
use terramate_api_wrapper.World.{World}
use terramate_api_wrapper.Refinement.Claim.{IsRunnable, After, Round, waiting, open_claimed-Round}

module _ (w : World) where
  -- Everything that `pick` may return can be started.
  picked-IsRunnable :
      (moment : ℕ) (db : Db) (after : Option Bool) (step : Step)
      → HasKeys (λ (s : Step). s.id) db.steps
      → pick w db none (queued_steps w moment db) ≡ ok (some step, after)
      → (row : Request) × IsRunnable w db step row
  unfolding queued_steps
  picked-IsRunnable moment db after step keys h =
      let (row, i, t) = pick-IsTurn w db none after (queued_steps w moment db) step refl h in
      let (selected, q) = In-joined db step row _ (In-sort (comes_before w) (step, row) _ i) in
      let (stored, chosen) =
        In-select (λ (s : Step). is_queued s.status && not (w.locked moment s.id)) step db.steps
          selected in
      (
        row,
        record {
          found = find-eq_of_In (λ (s : Step). s.id) step db.steps keys stored;
          request = q;
          live = t.live;
          in_queue = ground arith;
          ready = t.ready;
          lane = t.lane;
        },
      )

  -- What a round of the loop says by returning: it has taken a Step from the queue, or it has
  -- picked none and written nothing.
  abbrev pub Rests : Session → Result Bool → Session → Type 0
  Rests s (ok true) t = suc (waiting t.working) ≡ waiting s.working
  Rests s (ok false) t =
      (t.working ≡ s.working)
      × (t.moment ≡ suc s.moment)
      × (after : Option Bool) × (pick w s.working none (queued_steps w s.moment s.working)
          ≡ ok (none, after))
  Rests s (err e) t = Unit

  Round-Rests :
      (s : Session) (r : Result Bool) (t : Session)
      → Round w s.working r t
      → After w s.working r t × Rests s r t
  Round-Rests s (ok true) t (after, lowered) = (after, lowered)
  Round-Rests s (ok false) t (after, lowered) = absurd lowered
  Round-Rests s (err e) t (after, lowered) = (after, tt)

  -- One round of the loop, from a session with nothing uncommitted, is a transaction of the
  -- lifecycle, up to where it may raise; if it goes on, the queue has lost exactly one Step, and if
  -- it stops, there was no candidate to start when it looked, and it has asked the outside for nothing after that.
  pub claim_and_open_next-Rests :
      (s : Session)
      → HasKeys (λ (x : Step). x.id) s.working.steps
      → s.committed ≡ s.working
      → After w s.working (claim_and_open_next w s).0 (claim_and_open_next w s).1
        × Rests s (claim_and_open_next w s).0 (claim_and_open_next w s).1
  unfolding claim_and_open_next
  claim_and_open_next-Rests s keys k =
      by_choice (pick w s.working none (queued_steps w s.moment s.working)) refl
    where
      asked : Session
      asked = record s { moment = suc s.moment }

      by_choice :
          (choice : Result (Option Step × Option Bool))
          → pick w s.working none (queued_steps w s.moment s.working) ≡ choice
          → After w s.working
              (continue choice (with_picked w) asked).0
              (continue choice (with_picked w) asked).1
            × Rests s
                (continue choice (with_picked w) asked).0
                (continue choice (with_picked w) asked).1
      by_choice (err x) e = (rw k here, tt)
      by_choice (ok (none, none)) e = ((rw k here, sym k), (refl, refl, none, e))
      by_choice (ok (none, some busy)) e = ((here, refl), (refl, refl, some busy, e))
      by_choice (ok (some step, none)) e =
          let (row, r) = picked-IsRunnable s.moment s.working none step keys e in
          Round-Rests s _ _ (open_claimed-Round w s.working step row r asked refl k)
      by_choice (ok (some step, some busy)) e =
          let (row, r) = picked-IsRunnable s.moment s.working (some busy) step keys e in
          Round-Rests s _ _ (
            open_claimed-Round w s.working step row r
              (record asked { trace = s.trace ++ (lane_locked ∷ []) }) refl k)
