-- ===== src/Refinement/Stuck.antt =====
-- `_flag_stuck_steps` as transactions of the lifecycle.
use terramate_api_wrapper.Base.{
  ℕ, ◌-◌, suc, Option, none, some, List, [], ◌∷◌, ◌++◌, In, inl, inr, In-select, ◌≡◌, refl, sym,
  arith, select, string_eq, if◌then◌else◌,
}
use terramate_api_wrapper.Result.{Result, ok, err, require, missing_row, ◌>>=◌}
use terramate_api_wrapper.Session
use terramate_api_wrapper.Models.{Step, Request, Db, find_step, find_request, save_step}
use terramate_api_wrapper.Table.{find-save, find-eq_of_In}
use terramate_api_wrapper.Session.{Session, step_stuck, continue}
use terramate_api_wrapper.Orchestrator.Status.{is_terminal}
use terramate_api_wrapper.Orchestrator.Stuck.{
  of_live_requests, flagged, is_overdue, flag_each, flag_stuck_steps, threshold_or, commit_if_any,
}
use terramate_api_wrapper.Lifecycle.{SameStep, touch, Reach, here, next}
use terramate_api_wrapper.Lifecycle.Keys.{IsKeyed}
use terramate_api_wrapper.Refinement.Claim.{After}
use terramate_api_wrapper.World.{World}

-- The stored row of a Step that was read earlier: nothing but a flag has changed.
record IsStored (db : Db) (x : Step) : Type 0 where
  row : Step
  found : find_step x.id db ≡ some row
  same : SameStep row x
  status : x.status ≡ row.status

SameStep-refl : (s : Step) → SameStep s s
SameStep-refl s = record {
  id = refl;
  request_id = refl;
  ordinal = refl;
  key = refl;
  depends_on = refl;
}

flagged-IsStored :
    (db : Db) (s x : Step) → IsStored db s → IsStored db x → IsStored (save_step (flagged s) db) x
flagged-IsStored db s x a b = elim (string_eq.dec s.id x.id) [
  | yes e ↦
      let at : a.row ≡ b.row = ground (arith, a.found, b.found) in
      record {
        row = flagged s;
        found =
            ground (arith, find-save (λ (y : Step). y.id) (flagged s) x.id db.steps a.row, a.found);
        same = record {
          id = ground (arith, at, a.same.id, b.same.id);
          request_id = ground (arith, at, a.same.request_id, b.same.request_id);
          ordinal = ground (arith, at, a.same.ordinal, b.same.ordinal);
          key = ground (arith, at, a.same.key, b.same.key);
          depends_on = ground (arith, at, a.same.depends_on, b.same.depends_on);
        };
        status = ground (arith, at, a.status, b.status);
      }
  | no n ↦ record {
    row = b.row;
    found =
        ground
          (arith, find-save (λ (y : Step). y.id) (flagged s) x.id db.steps a.row, a.found, b.found);
    same = b.same;
    status = b.status;
  }
]

AllStored : Db → List Step → Type 0
AllStored db xs = (x : Step) → In x xs → IsStored db x

module _ (w : World) where
  record Flagged (db : Db) (s s' : Session) (r : Result (Unit {0})) : Type 0 where
    returns : r ≡ ok tt
    reached : Reach w db s'.working
    committed : s'.committed ≡ s.committed

  flag_each_lem :
      (db : Db) (xs : List Step) (s : Session)
      → Reach w db s.working
      → AllStored s.working xs
      → Flagged db s (flag_each w xs s).1 (flag_each w xs s).0
  unfolding flag_each AllStored
  flag_each_lem db [] s r all = record { returns = refl; reached = r; committed = refl }
  flag_each_lem db (x ∷ xs) s r all =
      let a = all x (inl refl) in
      let h =
        flag_each_lem db xs
          (record s {
            working = save_step (flagged x) s.working;
            moment = suc s.moment;
            trace = s.trace ++ (step_stuck x ∷ []);
          })
          (next r (
            touch a.row (flagged x) a.found
              (record {
                id = a.same.id;
                request_id = a.same.request_id;
                ordinal = a.same.ordinal;
                key = a.same.key;
                depends_on = a.same.depends_on;
              })
              a.status refl))
          (λ y i. flagged-IsStored s.working x y a (all y (inr i))) in
      record { returns = h.returns; reached = h.reached; committed = h.committed }

In-of_live_requests :
    (db : Db) (xs ys : List Step) (x : Step) → of_live_requests db xs ≡ ok ys → In x ys → In x xs
unfolding of_live_requests
In-of_live_requests db [] ys x e i = ground arith
In-of_live_requests db (y ∷ xs) ys x e i =
    by_row (find_request y.request_id db) (of_live_requests db xs) e
      (λ zs k. In-of_live_requests db xs zs x k)
  where
    by_row :
        (found : Option Request) (later : Result (List Step))
        → (require missing_row found >>= λ row.
            later >>= λ rest. ok (if is_terminal row.status then rest else y ∷ rest))
          ≡ ok ys
        → ((zs : List Step) → later ≡ ok zs → In x zs → In x xs)
        → In x (y ∷ xs)
    by_row none later k ih = absurd (cc k)
    by_row (some row) (err z) k ih = absurd (cc k)
    by_row (some row) (ok zs) k ih = ground (arith, ih zs refl)

flag_each-nil : (w : World) (s : Session) → flag_each w [] s ≡ (ok tt, s)
unfolding flag_each
flag_each-nil w s = refl

module _ (w : World) where
  -- From a session with nothing uncommitted to another, by moves of the lifecycle.
  pub flag_stuck_steps-After :
      (threshold : Option ℕ) (s : Session)
      → IsKeyed s.working
      → s.committed ≡ s.working
      → After w s.working (flag_stuck_steps w threshold s).0 (flag_stuck_steps w threshold s).1
  unfolding flag_stuck_steps AllStored
  flag_stuck_steps-After threshold s keyed k = by_found (of_live_requests s.working overdue) refl
    where
      overdue : List Step
      overdue =
          select
            (is_overdue
              (w.clock s.moment - threshold_or w.settings.step_stuck_threshold_seconds threshold))
            s.working.steps

      asked : Session
      asked = record s { moment = suc s.moment }

      stored :
          (ys : List Step)
          → of_live_requests s.working overdue ≡ ok ys
          → (x : Step) → In x ys
          → IsStored s.working x
      stored ys e x i =
          let read =
            (In-select _ x s.working.steps (In-of_live_requests s.working overdue ys x e i)).0 in
          record {
            row = x;
            found = find-eq_of_In (λ (y : Step). y.id) x s.working.steps keyed.steps read;
            same = SameStep-refl x;
            status = refl;
          }

      by_found :
          (found : Result (List Step))
          → of_live_requests s.working overdue ≡ found
          → After w s.working
              (continue found
                (λ newly_stuck.
                  Session.◌>>◌ (flag_each w newly_stuck) (commit_if_any w newly_stuck))
                asked).0
              (continue found
                (λ newly_stuck.
                  Session.◌>>◌ (flag_each w newly_stuck) (commit_if_any w newly_stuck))
                asked).1
      by_found (err x) e = rw k here
      by_found (ok []) e = rw flag_each-nil (rw k here, sym k)
      by_found (ok (x ∷ xs)) e =
          let h = flag_each_lem w s.working (x ∷ xs) asked here (stored (x ∷ xs) e) in
          rw h.returns (h.reached, refl)
