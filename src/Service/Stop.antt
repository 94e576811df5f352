-- ===== src/Service/Stop.antt =====
-- `POST /v1/admin/requests/cancel-all` of server/routes/admin.py as the switch that it is meant to
-- be: nothing is live after it, and the driver finds nothing to do.
use terramate_api_wrapper.Base.{
  ℕ, suc, String, true, false, not, Option, none, some, List, [], ◌∷◌, In, In-select, In-select_of,
  inl, inr, ◌⊎◌, ◌≡◌, refl, sym, ap, subst, ◌∙◌, Bool-cases, Option-cases, any, any_of_In,
  any_of_none, ◌==◌, string_eq, arith,
}
use terramate_api_wrapper.Result.{Result, ok, err}
use terramate_api_wrapper.Models.{Request, Db, find_request, save_request}
use terramate_api_wrapper.Table.{
  HasKeys, is_some, find-In, find-save, find-eq_of_In, In-save_keyed, save-HasKeys,
}
use terramate_api_wrapper.Session.{Session, continue}
use terramate_api_wrapper.Auth.{require_admin}
use terramate_api_wrapper.Orchestrator.Status.{is_terminal}
use terramate_api_wrapper.Orchestrator.Queue.{Candidate, queued_steps, comes_before, turn, pick}
use terramate_api_wrapper.Orchestrator.Queue.Eligible.{In-sort, In-sort_of, In-joined}
use terramate_api_wrapper.Orchestrator.Claim.{claim_and_open_next, claim_all}
use terramate_api_wrapper.Requests.Halt.{cancelled_row}
use terramate_api_wrapper.Admin.{
  CancelledRequest, oldest_first, live_requests, cancel_each, cancel_listed, cancel_all_requests,
}
use terramate_api_wrapper.Refinement.Tick.{IsClean}
use terramate_api_wrapper.Service.Access.{is_ok, is_admin, require_admin_lem}
use terramate_api_wrapper.World.{World}

-- No request is live.
abbrev pub AllEnded : Db → Type 0
AllEnded db = (r : Request) → In r db.requests → is_terminal r.status ≡ true

-- Each of these requests is stored.
abbrev AreStored : List Request → Db → Type 0
AreStored rows db = (x : Request) → In x rows → is_some (find_request x.id db) ≡ true

saved-AreStored :
    (rows : List Request) (new old : Request) (db : Db)
    → find_request new.id db ≡ some old
    → AreStored rows db
    → AreStored rows (save_request new db)
saved-AreStored rows new old db f h x i =
    ground (arith, find-save (λ (r : Request). r.id) new x.id db.requests old f, h x i)

-- What the loop over the live requests leaves: a request that it has ended, or another one.
abbrev Left : List Request → Db → Request → Type 0
Left rows db r =
    (is_terminal r.status ≡ true)
    ⊎ (In r db.requests × (any (λ (x : Request). x.id == r.id) rows ≡ false))

record Ended (rows : List Request) (s s' : Session) (r : Result (List CancelledRequest))
    : Type 0 where
  entries : List CancelledRequest
  returns : r ≡ ok entries
  left : (x : Request) → In x s'.working.requests → Left rows s.working x

cancel_each-Ended :
    (rows : List Request) (s : Session)
    → HasKeys (λ (r : Request). r.id) s.working.requests
    → AreStored rows s.working
    → Ended rows s (cancel_each rows s).1 (cancel_each rows s).0
unfolding cancel_each
cancel_each-Ended [] s keys stored = record {
  entries = [];
  returns = refl;
  left = λ x i. inr (i, refl);
}
cancel_each-Ended (row ∷ rows) s keys stored = elim (Option-cases (find_request row.id s.working)) [
  | inl missing ↦ absurd (ground (arith, missing, stored row (inl refl)))
  | inr (old, f) ↦
      let t : Session = record s { working = save_request (cancelled_row row) s.working } in
      let h =
        cancel_each-Ended rows t
          (save-HasKeys (λ (r : Request). r.id) (cancelled_row row) s.working.requests old f keys)
          (saved-AreStored rows (cancelled_row row) old s.working f (λ x i. stored x (inr i))) in
      rw h.returns (record {
        entries = _;
        returns = refl;
        left = λ x i. elim (h.left x i) [
          | inl ended ↦ inl ended
          | inr (there, others) ↦
              elim (In-save_keyed (λ (r : Request). r.id) (cancelled_row row) x s.working.requests
                old keys f there) [
                  | inl e ↦ inl (ap (λ (r : Request). is_terminal r.status) e)
                  | inr (before, differ) ↦ inr (before, ground (arith, differ, others))
                ]
        ];
      })
]

-- With the loop over all the live requests, none is left.
live_requests-Ended :
    (db : Db) (x : Request) → Left (live_requests db) db x → is_terminal x.status ≡ true
unfolding live_requests
live_requests-Ended db x (inl ended) = ended
live_requests-Ended db x (inr (i, others)) = elim (Bool-cases (is_terminal x.status)) [
  | inl ended ↦ ended
  | inr live ↦
      let listed : In x (live_requests db) = In-sort_of oldest_first x _ (
        In-select_of (λ (r : Request). not (is_terminal r.status)) x db.requests i
          (ground arith)) in
      absurd (
        ground (
          arith,
          others,
          any_of_In (λ (r : Request). r.id == x.id) x (live_requests db) listed (ground arith),
        ))
]

live_requests-AreStored :
    (db : Db) → HasKeys (λ (r : Request). r.id) db.requests → AreStored (live_requests db) db
unfolding live_requests
live_requests-AreStored db keys x i =
    let (there, live) =
      In-select (λ (r : Request). not (is_terminal r.status)) x db.requests
        (In-sort oldest_first x _ i) in
    ap is_some (find-eq_of_In (λ (r : Request). r.id) x db.requests keys there)

-- No candidate of an ended request is picked.
pick-ended :
    (w : World) (db : Db) (cs : List Candidate)
    → ((c : Candidate) → In c cs → is_terminal c.1.status ≡ true)
    → pick w db none cs ≡ ok (none, none)
unfolding pick turn
pick-ended w db [] ended = refl
pick-ended w db ((s, row) ∷ cs) ended =
    rw (ended (s, row) (inl refl)) (pick-ended w db cs (λ c i. ended c (inr i)))

queued_steps-ended :
    (w : World) (moment : ℕ) (db : Db)
    → AllEnded db
    → (c : Candidate) → In c (queued_steps w moment db)
    → is_terminal c.1.status ≡ true
unfolding queued_steps
queued_steps-ended w moment db ended (s, row) i =
    let (there, f) = In-joined db s row _ (In-sort (comes_before w) (s, row) _ i) in
    ended row (find-In (λ (r : Request). r.id) s.request_id db.requests row f)

-- The loop of the driver, where every request has ended: it only looks.
claim_all-ended :
    (w : World) (n : ℕ) (s : Session)
    → AllEnded s.working
    → claim_all w (suc n) s ≡ (ok tt, record s { moment = suc s.moment })
unfolding claim_all claim_and_open_next
claim_all-ended w n s ended =
    rw
      (pick-ended w s.working (queued_steps w s.moment s.working)
        (queued_steps-ended w s.moment s.working ended))
      refl

module _ (w : World) (email user : Option String) where
  record Stopped (s s' : Session) (r : Result (List CancelledRequest)) : Type 0 where
    returns : is_ok r ≡ true
    ended : AllEnded s'.working
    settled : s'.committed ≡ s'.working

  cancel_all-Stopped :
      (s : Session)
      → HasKeys (λ (r : Request). r.id) s.working.requests
      → is_admin w email user ≡ true
      → Stopped s (cancel_all_requests w email user s).1 (cancel_all_requests w email user s).0
  unfolding cancel_all_requests
  cancel_all-Stopped s keys h =
      admitted (require_admin w.settings email user) (require_admin_lem w email user ∙ h)
    where
      admitted :
          (r : Result String)
          → is_ok r ≡ true
          → Stopped s (continue r (λ _. cancel_listed) s).1 (continue r (λ _. cancel_listed) s).0
      admitted (ok identity) e =
          let h =
            cancel_each-Ended (live_requests s.working) s keys
              (live_requests-AreStored s.working keys) in
          rw h.returns (record {
            returns = refl;
            ended = λ r i. live_requests-Ended s.working r (h.left r i);
            settled = refl;
          })
      admitted (err x) e = absurd (cc e)

  -- An admin's cancel-all, from a state with nothing uncommitted, always returns, and commits a
  -- database without live requests; a loop of the driver after it, with any fuel but zero, finds
  -- nothing to claim: it returns, and writes, commits and traces nothing.
  pub cancel_all-is_final :
      (s : Session) (n : ℕ)
      → IsClean s
      → is_admin w email user ≡ true
      → let t = (cancel_all_requests w email user s).1 in
        (is_ok (cancel_all_requests w email user s).0 ≡ true)
        × (any (λ r. not (is_terminal r.status)) t.committed.requests ≡ false)
        × (claim_all w (suc n) t ≡ (ok tt, record t { moment = suc t.moment }))
  cancel_all-is_final s n clean h =
      let stopped = cancel_all-Stopped s clean.keyed.requests h in
      (
        stopped.returns,
        subst (λ (d : Db). any (λ (r : Request). not (is_terminal r.status)) d.requests ≡ false)
            (sym stopped.settled)
            (any_of_none (λ (r : Request). not (is_terminal r.status))
              (cancel_all_requests w email user s).1.working.requests
              (λ r i. ground (arith, stopped.ended r i))),
        claim_all-ended w n (cancel_all_requests w email user s).1 stopped.ended,
      )
