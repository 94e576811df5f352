-- ===== src/Lifecycle/Lane.antt =====
-- The serial lane (docs/adr/0006): at most one PR of a non-parallel Type is open at a time.
use terramate_api_wrapper.Base.{
  ℕ, ◌+◌, ◌≤◌, true, false, ◌≡◌, refl, sym, subst, some, none, List, [], ◌∷◌, In, inl, inr, count,
  count_mono, count-eq-zero, count-append, count-eq-zero_of_none, ◌∙◌, Option-cases, string_eq,
  arith,
}
use terramate_api_wrapper.Models.{
  StepStatus, Request, Step, Db, find_step, find_request, save_step, save_request, cancelled,
  insert_rows, queued,
}
use terramate_api_wrapper.Table.{one_if, find-save, count-save, is_some, find-append_some}
use terramate_api_wrapper.Lifecycle.Keys.{IsKeyed, IsLinked, Reach-IsKeyed}
use terramate_api_wrapper.Orchestrator.Status.{is_terminal, rolled_up, steps_of}
use terramate_api_wrapper.Orchestrator.Queue.{holds_lane, serial_lane_busy}
use terramate_api_wrapper.Lifecycle.{
  SameStep, Allowed, start, abort, finish, fail, reject, Move, touch, store, advance, halt, enter,
  Reach, here, next,
}
use terramate_api_wrapper.World.{World}
use native.Mathlib.Nat.{le_trans}
use terramate_api_wrapper.Lifecycle.Order.{row_key}

module _ (w : World) where
  -- How many PRs of non-parallel Types are open under live requests.
  abbrev pub open_serial : Db → ℕ
  open_serial db = count (holds_lane w db) db.steps

  abbrev pub IsLaneSafe : Db → Type 0
  IsLaneSafe db = open_serial db ≤ 1

  -- Rewriting a Step's row changes the count by what its two versions hold.
  open_serial-save :
      (t s : Step) (db : Db)
      → find_step t.id db ≡ some s
      → open_serial (save_step t db) + one_if (holds_lane w db s)
        ≡ open_serial db + one_if (holds_lane w db t)
  open_serial-save t s db f = count-save (λ (x : Step). x.id) (holds_lane w db) t db.steps s f

  -- Writing the row of a live request of the same Type frees the lane at most.
  open_serial-request :
      (new live : Request) (db : Db)
      → find_request new.id db ≡ some live
      → is_terminal live.status ≡ false
      → new.type ≡ live.type
      → open_serial (save_request new db) ≤ open_serial db
  open_serial-request new live db f l e =
      count_mono (holds_lane w (save_request new db)) (holds_lane w db) db.steps (λ x m h.
        ground (arith, find-save (λ (r : Request). r.id) new x.request_id db.requests live f))

  -- A Step that starts holds the lane only if the lane was free.
  saved-IsLaneSafe :
      (t s : Step) (row : Request) (db : Db)
      → find_step t.id db ≡ some s
      → SameStep s t
      → find_request s.request_id db ≡ some row
      → Allowed w db s row t.status
      → IsLaneSafe db
      → IsLaneSafe (save_step t db)
  unfolding serial_lane_busy
  saved-IsLaneSafe t s row db f same q a safe = by_status t.status refl a
    where
      counted :
          open_serial (save_step t db) + one_if (holds_lane w db s)
          ≡ open_serial db + one_if (holds_lane w db t)
      counted = open_serial-save t s db f

      by_status :
          (to : StepStatus) → t.status ≡ to → Allowed w db s row to → IsLaneSafe (save_step t db)
      by_status to e (start waiting deps free) =
          ground (arith, counted, count-eq-zero (holds_lane w db) db.steps)
      by_status to e (abort waiting deps) = ground (arith, counted)
      by_status to e (finish sent) = ground (arith, counted)
      by_status to e (fail sent) = ground (arith, counted)
      by_status to e (reject sent) = ground (arith, counted)

  -- Only the requests and the Steps matter.
  store-open_serial :
      (db db' : Db)
      → db'.requests ≡ db.requests
      → db'.steps ≡ db.steps
      → open_serial db' ≡ open_serial db
  store-open_serial db db' r e =
      λ i. count (holds_lane w (record db' { requests = r i; steps = e i })) (e i)

  -- A stored Step holds the lane after an insertion only if it did before.
  insert_rows-holds_lane :
      (row : Request) (steps : List Step) (db : Db) (x : Step)
      → is_some (find_request x.request_id db) ≡ true
      → holds_lane w (insert_rows row steps db) x ≡ holds_lane w db x
  insert_rows-holds_lane row steps db x h = elim (Option-cases (find_request x.request_id db)) [
    | inl absent ↦ absurd (ground arith)
    | inr (r, there) ↦ rw (
      find-append_some (λ (y : Request). y.id) x.request_id db.requests (row ∷ []) r there,
      there,
    )
  ]

  enter-IsLaneSafe :
      (row : Request) (steps : List Step) (db : Db)
      → find_request row.id db ≡ none
      → ((s : Step) → In s steps → (s.status ≡ queued) × (s.request_id ≡ row.id))
      → IsLinked db.requests db.steps
      → IsLaneSafe db
      → IsLaneSafe (insert_rows row steps db)
  enter-IsLaneSafe row steps db n q linked safe =
      let after = holds_lane w (insert_rows row steps db) in
      ground (
        arith,
        count-append after db.steps steps,
        count-eq-zero_of_none after steps (λ s m. ground (arith, (q s m).0)),
        count_mono after (holds_lane w db) db.steps
            (λ x m h. sym (insert_rows-holds_lane row steps db x (linked x m)) ∙ h),
      )

  Move-IsLaneSafe : {db db' : Db} → IsKeyed db → Move w db db' → IsLaneSafe db → IsLaneSafe db'
  Move-IsLaneSafe {db} k (touch s t f same e d) safe =
      subst IsLaneSafe (sym d) (ground (arith, open_serial-save t s db f))
  Move-IsLaneSafe {db} {db'} k (store r e) safe = rw (store-open_serial db db' r e) safe
  Move-IsLaneSafe {db} k (advance s t live f same q l a d) safe = subst IsLaneSafe (sym d) (
      le_trans
        (open_serial-request
          (record live { status = rolled_up (steps_of live.id (save_step t db)) }) live
          (save_step t db) (row_key s.request_id db live q) l refl)
        (saved-IsLaneSafe t s live db f same q a safe))
  Move-IsLaneSafe {db} k (halt live f l d) safe =
      subst IsLaneSafe (sym d)
        (ground (arith, open_serial-request (record live { status = cancelled }) live db f l refl))
  Move-IsLaneSafe {db} k (enter row steps p n fresh c q d) safe =
      subst IsLaneSafe (sym d) (enter-IsLaneSafe row steps db n q k.linked safe)

  -- The lane stays safe, whatever transactions run.
  pub Reach-IsLaneSafe :
      {db db' : Db} → IsKeyed db → IsLaneSafe db → Reach w db db' → IsLaneSafe db'
  Reach-IsLaneSafe k safe here = safe
  Reach-IsLaneSafe k safe (next r m) =
      Move-IsLaneSafe (Reach-IsKeyed w k r) m (Reach-IsLaneSafe k safe r)
