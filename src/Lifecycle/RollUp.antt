-- ===== src/Lifecycle/RollUp.antt =====
-- A request's status is what its Steps add up to.
use mathlib.Core.List.{append-nil}
use terramate_api_wrapper.Base.{
  String, true, Bool, ◌≡◌, refl, sym, ap, subst, ◌∙◌, List, [], ◌∷◌, ◌++◌, In, In-append, inl, inr,
  ◌⊎◌, some, none, all, any, select, select-append, select-eq-nil, In-select, all_of_In, ◌==◌,
  string_eq, arith,
}
use terramate_api_wrapper.Models.{
  StepStatus, Step, Request, pending, cancelled, Db, find_step, find_request, save_step,
  insert_rows,
}
use terramate_api_wrapper.Table.{
  find_id, find-eq_of_In, In-save_keyed, any-select-save, all-select-save,
}
use terramate_api_wrapper.Orchestrator.Status.{is_done, is_failed, is_queued, rolled_up, steps_of}
use terramate_api_wrapper.Lifecycle.{
  Move, touch, store, advance, halt, enter, roll_up, cancel, Reach, here, next,
}
use terramate_api_wrapper.Lifecycle.Keys.{IsKeyed, Reach-IsKeyed}
use terramate_api_wrapper.Lifecycle.Order.{row_key}
use terramate_api_wrapper.World.{World}

abbrev pub all_queued : List Step → Bool
all_queued = all (λ s. is_queued s.status)

-- An operator cancelled it; or nothing has moved yet; or the Steps say what it is.
abbrev pub AddsUp : Db → Request → Type 0
AddsUp db row =
    (row.status ≡ cancelled)
    ⊎ ((row.status ≡ pending) × (all_queued (steps_of row.id db) ≡ true)
        ⊎ (row.status ≡ rolled_up (steps_of row.id db)))

abbrev pub IsRolledUp : Db → Type 0
IsRolledUp db = (row : Request) → In row db.requests → AddsUp db row

-- The Steps of a request look alike in two databases.
record SameSteps (k : String) (db db' : Db) : Type 0 where
  rolled : rolled_up (steps_of k db') ≡ rolled_up (steps_of k db)
  queued : all_queued (steps_of k db') ≡ all_queued (steps_of k db)

SameSteps-AddsUp :
    (db db' : Db) (row : Request) → SameSteps row.id db db' → AddsUp db row → AddsUp db' row
SameSteps-AddsUp db db' row same (inl c) = inl c
SameSteps-AddsUp db db' row same (inr (inl (p, q))) = inr (inl (p, same.queued ∙ q))
SameSteps-AddsUp db db' row same (inr (inr e)) = inr (inr (e ∙ sym same.rolled))

save-SameSteps :
    (t s : Step) (db : Db) (k : String)
    → find_step t.id db ≡ some s
    → t.request_id ≡ s.request_id
    → ((s.request_id == k) ≡ true → t.status ≡ s.status)
    → SameSteps k db (save_step t db)
unfolding rolled_up
save-SameSteps t s db k f e h = record { rolled = cc (failed, done); queued = waiting }
  where
    of_request : Step → Bool
    of_request x = x.request_id == k

    own : of_request t ≡ of_request s
    own = ap (λ (j : String). j == k) e

    failed :
        any (λ (x : Step). is_failed x.status) (steps_of k (save_step t db))
        ≡ any (λ (x : Step). is_failed x.status) (steps_of k db)
    failed =
        any-select-save (λ (x : Step). x.id) (λ (x : Step). is_failed x.status) of_request t s own
          (λ m. ap is_failed (h m)) db.steps f

    done :
        all (λ (x : Step). is_done x.status) (steps_of k (save_step t db))
        ≡ all (λ (x : Step). is_done x.status) (steps_of k db)
    done =
        all-select-save (λ (x : Step). x.id) (λ (x : Step). is_done x.status) of_request t s own
          (λ m. ap is_done (h m)) db.steps f

    waiting : all_queued (steps_of k (save_step t db)) ≡ all_queued (steps_of k db)
    waiting =
        all-select-save (λ (x : Step). x.id) (λ (x : Step). is_queued x.status) of_request t s own
          (λ m. ap is_queued (h m)) db.steps f

-- The rows other than the moved Step's request see no difference.
roll_up-IsRolledUp :
    (t s : Step) (row : Request) (db : Db)
    → IsKeyed db
    → find_step t.id db ≡ some s
    → t.request_id ≡ s.request_id
    → find_request s.request_id db ≡ some row
    → IsRolledUp db
    → IsRolledUp (roll_up row (save_step t db))
roll_up-IsRolledUp t s row db keyed f e q r x m =
    elim (In-save_keyed (λ (y : Request). y.id) new x db.requests row keyed.requests
      (row_key s.request_id db row q) m) [
        | inl at ↦ subst (AddsUp (roll_up row (save_step t db))) (sym at) (inr (inr refl))
        | inr (old, other) ↦
            SameSteps-AddsUp db (roll_up row (save_step t db)) x
              (let same = save-SameSteps t s db x.id f e (λ own. absurd (
                  ground
                    (arith, find_id (λ (y : Request). y.id) s.request_id db.requests row q))) in
                record { rolled = same.rolled; queued = same.queued })
              (r x old)
      ]
  where
    new : Request
    new = record row { status = rolled_up (steps_of row.id (save_step t db)) }

cancel-IsRolledUp :
    (row : Request) (db : Db)
    → IsKeyed db
    → find_request row.id db ≡ some row
    → IsRolledUp db
    → IsRolledUp (cancel row db)
cancel-IsRolledUp row db keyed f r x m =
    elim (In-save_keyed (λ (y : Request). y.id) (record row { status = cancelled }) x db.requests
      row keyed.requests f m) [
        | inl at ↦ subst (AddsUp (cancel row db)) (sym at) (inl refl)
        | inr (old, other) ↦ r x old
      ]

insert_rows-IsRolledUp :
    (row : Request) (steps : List Step) (db : Db)
    → IsKeyed db
    → row.status ≡ pending
    → find_request row.id db ≡ none
    → ((s : Step) → In s steps → (s.status ≡ StepStatus.queued) × (s.request_id ≡ row.id))
    → IsRolledUp db
    → IsRolledUp (insert_rows row steps db)
insert_rows-IsRolledUp row steps db keyed p n q r x m =
    elim (In-append x db.requests (row ∷ []) m) [
      | inl old ↦
          SameSteps-AddsUp db (insert_rows row steps db) x
            (record {
              rolled = ap rolled_up (unchanged x old);
              queued = ap all_queued (unchanged x old);
            })
            (r x old)
      | inr new ↦ subst (AddsUp (insert_rows row steps db)) (sym (only new)) (inr (inl (p, fresh)))
    ]
  where
    only : In x (row ∷ []) → x ≡ row
    only (inl e) = e
    only (inr none_left) = absurd none_left

    fresh : all_queued (steps_of row.id (insert_rows row steps db)) ≡ true
    fresh =
        all_of_In (λ (s : Step). is_queued s.status) (steps_of row.id (insert_rows row steps db))
          (λ y i.
            let (there, own) =
              In-select (λ (s : Step). s.request_id == row.id) y (db.steps ++ steps) i in
            elim (In-append y db.steps steps there) [
              | inl old ↦ absurd (ground (arith, keyed.linked y old))
              | inr new ↦ ground (arith, (q y new).0)
            ])

    unchanged :
        (x : Request)
        → In x db.requests
        → steps_of x.id (insert_rows row steps db) ≡ steps_of x.id db
    unchanged x old =
        select-append (λ (s : Step). s.request_id == x.id) db.steps steps
        ∙ ap (λ l. steps_of x.id db ++ l)
            (select-eq-nil (λ (s : Step). s.request_id == x.id) steps
              (λ s i. ground (
                arith,
                (q s i).1,
                find-eq_of_In (λ (y : Request). y.id) x db.requests keyed.requests old,
              )))
        ∙ append-nil (steps_of x.id db)

module _ (w : World) where
  Move-IsRolledUp : {db db' : Db} → IsKeyed db → Move w db db' → IsRolledUp db → IsRolledUp db'
  Move-IsRolledUp {db} k (touch s t f same e d) r = subst IsRolledUp (sym d) (λ x m.
      SameSteps-AddsUp db (save_step t db) x (save-SameSteps t s db x.id f same.request_id (λ _. e))
        (r x m))
  Move-IsRolledUp {db} {db'} k (store q e) r = λ x m.
      SameSteps-AddsUp db db' x
        (record {
          rolled = ap (λ ss. rolled_up (select (λ (s : Step). s.request_id == x.id) ss)) e;
          queued = ap (λ ss. all_queued (select (λ (s : Step). s.request_id == x.id) ss)) e;
        })
        (r x (subst (In x) q m))
  Move-IsRolledUp {db} k (advance s t row f same q l a d) r =
      subst IsRolledUp (sym d) (roll_up-IsRolledUp t s row db k f same.request_id q r)
  Move-IsRolledUp {db} k (halt row f l d) r =
      subst IsRolledUp (sym d) (cancel-IsRolledUp row db k f r)
  Move-IsRolledUp {db} k (enter row steps p n fresh c q d) r =
      subst IsRolledUp (sym d) (insert_rows-IsRolledUp row steps db k p n q r)

  -- The roll-up stays true, whatever transactions run.
  pub Reach-IsRolledUp :
      {db db' : Db} → IsKeyed db → IsRolledUp db → Reach w db db' → IsRolledUp db'
  Reach-IsRolledUp k r here = r
  Reach-IsRolledUp k r (next p m) = Move-IsRolledUp (Reach-IsKeyed w k p) m (Reach-IsRolledUp k r p)
