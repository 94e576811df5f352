-- ===== src/Lifecycle/Dependencies.antt =====
-- No Step leaves the queue before its dependencies are done, and done Steps stay done.
use terramate_api_wrapper.Base.{
  true, false, ◌≡◌, refl, sym, ap, subst, ◌∙◌, In, In-append, In-append_left, inl, inr, some, arith,
}
use terramate_api_wrapper.Models.{StepStatus, Step, Request, Db, find_step, save_step, insert_rows}
use terramate_api_wrapper.Table.{find-In, In-save, In-save_of, In-save_self}
use terramate_api_wrapper.Orchestrator.Status.{is_done, is_queued}
use terramate_api_wrapper.Orchestrator.Queue.Ready.{DependenciesDone, dependencies_done_sound}
use terramate_api_wrapper.Lifecycle.{
  SameStep, Allowed, start, abort, finish, fail, reject, Move, touch, store, advance, halt, enter,
  Reach, here, next,
}
use terramate_api_wrapper.World.{World}

-- Whatever has left the queue has its dependencies done.
abbrev pub RespectsDependencies : Db → Type 0
RespectsDependencies db =
    (s : Step) → In s db.steps → is_queued s.status ≡ false → DependenciesDone db s

-- A done row has a done successor.
abbrev KeepsDone : Db → Db → Type 0
KeepsDone db db' =
    (x : Step)
    → In x db.steps
    → is_done x.status ≡ true
    → (y : Step) × In y db'.steps × (y.id ≡ x.id) × (is_done y.status ≡ true)

KeepsDone-DependenciesDone :
    (db db' : Db) (s t : Step)
    → KeepsDone db db'
    → t.depends_on ≡ s.depends_on
    → DependenciesDone db s
    → DependenciesDone db' t
KeepsDone-DependenciesDone db db' s t keeps e h d m =
    let (x, i, k, o) = h d (subst (λ ds. In d ds) e m) in
    let (y, j, k', o') = keeps x i o in (y, j, k' ∙ k, o')

save-KeepsDone :
    (t s : Step) (db : Db)
    → find_step t.id db ≡ some s
    → SameStep s t
    → (is_done s.status ≡ true → is_done t.status ≡ true)
    → KeepsDone db (save_step t db)
save-KeepsDone t s db f same kept x i o =
    elim (In-save_of (λ (y : Step). y.id) t x db.steps s f i) [
      | inl e ↦ (
        t,
        In-save_self (λ (y : Step). y.id) t db.steps s f,
        same.id ∙ ap (λ (y : Step). y.id) (sym e),
        kept (subst (λ (y : Step). is_done y.status ≡ true) e o),
      )
      | inr stays ↦ (x, stays, refl, o)
    ]

save-RespectsDependencies :
    (t s : Step) (db : Db)
    → find_step t.id db ≡ some s
    → SameStep s t
    → (is_done s.status ≡ true → is_done t.status ≡ true)
    → (is_queued t.status ≡ false → DependenciesDone db s)
    → RespectsDependencies db
    → RespectsDependencies (save_step t db)
save-RespectsDependencies t s db f same kept ready r x m left =
    let keeps = save-KeepsDone t s db f same kept in
    elim (In-save (λ (y : Step). y.id) t x db.steps m) [
      | inl e ↦
          KeepsDone-DependenciesDone db (save_step t db) s x keeps
            (ap (λ (y : Step). y.depends_on) e ∙ same.depends_on)
            (ready (subst (λ (y : Step). is_queued y.status ≡ false) e left))
      | inr i ↦ KeepsDone-DependenciesDone db (save_step t db) x x keeps refl (r x i left)
    ]

module _ (w : World) where
  Allowed-not_done :
      {db : Db} {s : Step} {row : Request} {to : StepStatus}
      → Allowed w db s row to
      → is_done s.status ≡ true
      → is_done to ≡ true
  Allowed-not_done (start q d l) o = ground arith
  Allowed-not_done (abort q d) o = ground arith
  Allowed-not_done (finish q) o = ground arith
  Allowed-not_done (fail q) o = ground arith
  Allowed-not_done (reject q) o = ground arith

  -- A Step that may move has its dependencies done already.
  Allowed-DependenciesDone :
      {db : Db} {s : Step} {row : Request} {to : StepStatus}
      → In s db.steps
      → RespectsDependencies db
      → Allowed w db s row to
      → DependenciesDone db s
  Allowed-DependenciesDone {db} {s} i r (start q d l) = dependencies_done_sound db s d
  Allowed-DependenciesDone {db} {s} i r (abort q d) = dependencies_done_sound db s d
  Allowed-DependenciesDone {db} {s} i r (finish q) = r s i (ground arith)
  Allowed-DependenciesDone {db} {s} i r (fail q) = r s i (ground arith)
  Allowed-DependenciesDone {db} {s} i r (reject q) = r s i (ground arith)

  Move-RespectsDependencies :
      {db db' : Db} → Move w db db' → RespectsDependencies db → RespectsDependencies db'
  Move-RespectsDependencies {db} (touch s t f same e d) r = subst RespectsDependencies (sym d) (
      save-RespectsDependencies t s db f same (λ o. rw e o)
        (λ left. r s (find-In (λ (y : Step). y.id) t.id db.steps s f) (rw (← e) left)) r)
  Move-RespectsDependencies {db} {db'} (store q e) r = rw e r
  Move-RespectsDependencies {db} (advance s t row f same q l a d) r =
      subst RespectsDependencies (sym d) (
        save-RespectsDependencies t s db f same (Allowed-not_done a)
          (λ left. Allowed-DependenciesDone (find-In (λ (y : Step). y.id) t.id db.steps s f) r a) r)
  Move-RespectsDependencies {db} (halt row f l d) r = subst RespectsDependencies (sym d) r
  Move-RespectsDependencies {db} (enter row steps p n fresh c q d) r =
      subst RespectsDependencies (sym d) (λ s m left. elim (In-append s db.steps steps m) [
        | inl i ↦
            KeepsDone-DependenciesDone db (insert_rows row steps db) s s
              (λ x j o. (x, In-append_left x db.steps steps j, refl, o)) refl (r s i left)
        | inr new ↦ absurd (ground (arith, (q s new).0))
      ])

  -- The order of dependencies is respected, whatever transactions run.
  pub Reach-RespectsDependencies :
      {db db' : Db} → RespectsDependencies db → Reach w db db' → RespectsDependencies db'
  Reach-RespectsDependencies r here = r
  Reach-RespectsDependencies r (next p m) =
      Move-RespectsDependencies m (Reach-RespectsDependencies r p)
