-- ===== src/Lifecycle/Keys.antt =====
-- Primary keys stay unique, and no Step loses its request.
use terramate_api_wrapper.Base.{
  true, false, ◌≡◌, sym, subst, ap, ◌∙◌, some, none, List, [], ◌∷◌, ◌++◌, In, In-append, inl, inr,
  arith, string_eq, Option-cases,
}
use terramate_api_wrapper.Models.{
  cancelled, Request, Step, Db, find_step, find_request, save_step, save_request, insert_rows,
}
use terramate_api_wrapper.Table.{
  find, clashes, is_some, HasKeys, save-HasKeys, append-HasKeys, find-In, find-save, In-save,
  find-append_some, find-append_none,
}
use terramate_api_wrapper.Orchestrator.Status.{rolled_up, steps_of}
use terramate_api_wrapper.Lifecycle.{
  SameStep, Move, touch, store, advance, halt, enter, Reach, here, next,
}
use terramate_api_wrapper.Lifecycle.Order.{row_key}
use terramate_api_wrapper.World.{World}

abbrev pub IsLinked : List Request → List Step → Type 0
IsLinked requests steps =
    (s : Step) → In s steps → is_some (find (λ (r : Request). r.id) s.request_id requests) ≡ true

pub record IsKeyed (db : Db) : Type 0 where
  pub steps : HasKeys (λ (s : Step). s.id) db.steps
  pub requests : HasKeys (λ (r : Request). r.id) db.requests
  pub linked : IsLinked db.requests db.steps

save_step-IsKeyed :
    (t s : Step) (db : Db)
    → find_step t.id db ≡ some s
    → SameStep s t
    → IsKeyed db
    → IsKeyed (save_step t db)
save_step-IsKeyed t s db f same k = record {
  steps = save-HasKeys (λ (x : Step). x.id) t db.steps s f k.steps;
  requests = k.requests;
  linked = λ x m. elim (In-save (λ (y : Step). y.id) t x db.steps m) [
    | inl e ↦
        subst (λ k'. is_some (find_request k' db) ≡ true)
          (sym (ap (λ (y : Step). y.request_id) e ∙ same.request_id))
          (k.linked s (find-In (λ (y : Step). y.id) t.id db.steps s f))
    | inr i ↦ k.linked x i
  ];
}

save_request-IsKeyed :
    (new row : Request) (db : Db)
    → find_request new.id db ≡ some row
    → IsKeyed db
    → IsKeyed (save_request new db)
save_request-IsKeyed new row db f k = record {
  steps = k.steps;
  requests = save-HasKeys (λ (x : Request). x.id) new db.requests row f k.requests;
  linked = λ x m.
      ground
        (arith, find-save (λ (r : Request). r.id) new x.request_id db.requests row f, k.linked x m);
}

find-single : (row : Request) → find (λ (r : Request). r.id) row.id (row ∷ []) ≡ some row
unfolding find
find-single row = ground arith

clashes-single :
    (row : Request) (old : List Request)
    → find (λ (r : Request). r.id) row.id old ≡ none
    → clashes (λ (r : Request). r.id) (row ∷ []) old ≡ false
unfolding clashes find
clashes-single row old n = rw n

insert_rows-IsLinked :
    (row : Request) (steps : List Step) (db : Db)
    → find_request row.id db ≡ none
    → ((s : Step) → In s steps → s.request_id ≡ row.id)
    → IsLinked db.requests db.steps
    → (x : Step) → In x (db.steps ++ steps)
    → is_some (find_request x.request_id (insert_rows row steps db)) ≡ true
insert_rows-IsLinked row steps db n own linked x m = elim (In-append x db.steps steps m) [
  | inl old ↦ elim (Option-cases (find_request x.request_id db)) [
    | inl absent ↦ absurd (ground (arith, linked x old))
    | inr (r, there) ↦
        rw (find-append_some (λ (y : Request). y.id) x.request_id db.requests (row ∷ []) r there)
  ]
  | inr new ↦
      subst (λ k. is_some (find_request k (insert_rows row steps db)) ≡ true) (sym (own x new))
        (rw (
          find-append_none (λ (y : Request). y.id) row.id db.requests (row ∷ []) n,
          find-single row,
        ))
]

module _ (w : World) where
  Move-IsKeyed : {db db' : Db} → Move w db db' → IsKeyed db → IsKeyed db'
  Move-IsKeyed {db} (touch s t f same e d) k =
      subst IsKeyed (sym d) (save_step-IsKeyed t s db f same k)
  Move-IsKeyed (store r e) k = record {
    steps = rw e k.steps;
    requests = rw r k.requests;
    linked = rw (r, e) k.linked;
  }
  Move-IsKeyed {db} (advance s t row f same q l a d) k = subst IsKeyed (sym d) (
      save_request-IsKeyed (record row { status = rolled_up (steps_of row.id (save_step t db)) })
        row (save_step t db) (row_key s.request_id db row q) (save_step-IsKeyed t s db f same k))
  Move-IsKeyed {db} (halt row f l d) k =
      subst IsKeyed (sym d) (save_request-IsKeyed (record row { status = cancelled }) row db f k)
  Move-IsKeyed {db} (enter row steps p n fresh c q d) k = subst IsKeyed (sym d) (record {
    steps = append-HasKeys (λ (s : Step). s.id) steps db.steps k.steps c;
    requests =
        append-HasKeys (λ (r : Request). r.id) (row ∷ []) db.requests k.requests
          (clashes-single row db.requests n);
    linked = insert_rows-IsLinked row steps db n (λ s m. (q s m).1) k.linked;
  })

  pub Reach-IsKeyed : {db db' : Db} → IsKeyed db → Reach w db db' → IsKeyed db'
  Reach-IsKeyed k here = k
  Reach-IsKeyed k (next r m) = Move-IsKeyed m (Reach-IsKeyed k r)
