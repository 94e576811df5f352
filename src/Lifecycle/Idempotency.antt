-- ===== src/Lifecycle/Idempotency.antt =====
-- At most one request has an idempotency key, and the key finds that request for good.
use terramate_api_wrapper.Base.{
  ℕ, ◌≤◌, String, false, ◌≡◌, refl, sym, ap, subst, ◌∙◌, List, [], ◌∷◌, ◌++◌, Option, some, none,
  count, count-append, count-eq-zero, any, ◌==◌, string_eq, arith,
}
use terramate_api_wrapper.Models.{
  Request, Step, Db, find_request, save_request, save_step, cancelled, insert_rows,
}
use terramate_api_wrapper.Table
use terramate_api_wrapper.Table.{one_if, count-save}
use terramate_api_wrapper.Orchestrator.Status.{rolled_up, steps_of}
use terramate_api_wrapper.Requests.Create.{find_by_idempotency_key}
use terramate_api_wrapper.Lifecycle.{Move, touch, store, advance, halt, enter, Reach, here, next}
use terramate_api_wrapper.Lifecycle.Order.{row_key}
use terramate_api_wrapper.World.{World}

-- How many requests have the key `k`.
abbrev pub with_key : String → Db → ℕ
with_key k db = count (λ r. r.idempotency_key == k) db.requests

abbrev pub IsIdempotent : Db → Type 0
IsIdempotent db = (k : String) → with_key k db ≤ 1

with_key-save :
    (k : String) (new row : Request) (db : Db)
    → find_request new.id db ≡ some row
    → new.idempotency_key ≡ row.idempotency_key
    → with_key k (save_request new db) ≡ with_key k db
with_key-save k new row db f e =
    let counted =
      count-save (λ (r : Request). r.id) (λ r. r.idempotency_key == k) new db.requests row f in
    let alike : one_if (row.idempotency_key == k) ≡ one_if (new.idempotency_key == k) =
      ap (λ (x : String). one_if (x == k)) (sym e) in
    omega (arith, counted, alike)

with_key-insert :
    (k : String) (row : Request) (steps : List Step) (db : Db)
    → any (λ (r : Request). r.idempotency_key == row.idempotency_key) db.requests ≡ false
    → with_key k db ≤ 1
    → with_key k (insert_rows row steps db) ≤ 1
with_key-insert k row steps db fresh h =
    let total = count-append (λ (r : Request). r.idempotency_key == k) db.requests (row ∷ []) in
    let none_yet =
      count-eq-zero (λ (r : Request). r.idempotency_key == row.idempotency_key) db.requests fresh in
    elim (string_eq.dec row.idempotency_key k) [
      | yes e ↦
          let none_of_it = subst (λ (x : String). with_key x db ≡ 0) e none_yet in
          ground (arith, total, none_of_it)
      | no d ↦ ground (arith, total, h)
    ]

abbrev pub row_id : Option Request → Option String
row_id none = none
row_id (some row) = some row.id

-- The id of the request that the key `k` finds.
abbrev pub holder : String → List Request → Option String
holder k requests = row_id (find_by_idempotency_key k requests)

-- A row that is rewritten keeps its place and its key.
holder-save :
    (k : String) (new row : Request) (rs : List Request)
    → Table.find (λ (r : Request). r.id) new.id rs ≡ some row
    → new.idempotency_key ≡ row.idempotency_key
    → holder k (Table.save (λ (r : Request). r.id) new rs) ≡ holder k rs
unfolding find_by_idempotency_key Table.find Table.save
holder-save k new row [] f e = absurd (cc f)
holder-save k new row (x ∷ rs) f e = ground (arith, holder-save k new row rs)

holder-append :
    (k id : String) (rs new : List Request) → holder k rs ≡ some id → holder k (rs ++ new) ≡ some id
unfolding find_by_idempotency_key
holder-append k id [] new h = absurd (cc h)
holder-append k id (x ∷ rs) new h = ground (arith, holder-append k id rs new)

module _ (w : World) where
  Move-IsIdempotent : {db db' : Db} → Move w db db' → IsIdempotent db → IsIdempotent db'
  Move-IsIdempotent (touch s t f same e d) h k = rw d (h k)
  Move-IsIdempotent {db} (store q e) h k =
      subst (λ rs. count (λ (r : Request). r.idempotency_key == k) rs ≤ 1) (sym q) (h k)
  Move-IsIdempotent {db} (advance s t row f same q l a d) h k =
      rw
        (
          d,
          with_key-save k (record row { status = rolled_up (steps_of row.id (save_step t db)) }) row
              db (row_key s.request_id db row q) refl,
        )
        (h k)
  Move-IsIdempotent {db} (halt row f l d) h k =
      rw (d, with_key-save k (record row { status = cancelled }) row db f refl) (h k)
  Move-IsIdempotent {db} (enter row steps p n fresh c q d) h k =
      rw d (with_key-insert k row steps db fresh (h k))

  pub Reach-IsIdempotent : {db db' : Db} → IsIdempotent db → Reach w db db' → IsIdempotent db'
  Reach-IsIdempotent h here = h
  Reach-IsIdempotent h (next r m) = Move-IsIdempotent m (Reach-IsIdempotent h r)

  Move-holder :
      {db db' : Db} (k id : String)
      → holder k db.requests ≡ some id
      → Move w db db'
      → holder k db'.requests ≡ some id
  Move-holder k id h (touch s t f same e d) = rw d h
  Move-holder k id h (store q e) = rw q h
  Move-holder {db} k id h (advance s t row f same q l a d) = rw d (
      holder-save k (record row { status = rolled_up (steps_of row.id (save_step t db)) }) row
        db.requests (row_key s.request_id db row q) refl
      ∙ h)
  Move-holder {db} k id h (halt row f l d) =
      rw d (holder-save k (record row { status = cancelled }) row db.requests f refl ∙ h)
  Move-holder {db} k id h (enter row steps p n fresh c q d) =
      rw d (holder-append k id db.requests (row ∷ []) h)

  -- A key that finds a request finds that request for good.
  pub Reach-holder :
      {db db' : Db} (k id : String)
      → holder k db.requests ≡ some id
      → Reach w db db'
      → holder k db'.requests ≡ some id
  Reach-holder k id h here = h
  Reach-holder k id h (next r m) = Move-holder k id (Reach-holder k id h r) m
