-- ===== src/Lifecycle/Order.antt =====
-- Statuses only go onward, and a halted request is frozen.
use terramate_api_wrapper.Base.{
  String, Bool, true, false, ◌≡◌, refl, string_eq, some, ◌∙◌, arith, subst, sym, ap, [], ◌∷◌,
}
use terramate_api_wrapper.Models.{
  StepStatus, queued, submitted, done, failed, rejected, Request, Step, Db, find_step, find_request,
  save_step, save_request, cancelled,
}
use terramate_api_wrapper.Table.{find-save, find_id, find-append_some}
use terramate_api_wrapper.Orchestrator.Status.{is_terminal, rolled_up, steps_of}
use terramate_api_wrapper.Lifecycle.{
  SameStep, Allowed, start, abort, finish, fail, reject, Move, touch, store, advance, halt, enter,
  Reach, here, next,
}
use terramate_api_wrapper.World.{World}

-- queued -> submitted -> { done | failed | rejected }, with the preflight failure of a queued Step;
-- the last three are final.
abbrev pub is_onward : StepStatus → StepStatus → Bool
is_onward queued queued = true
is_onward queued submitted = true
is_onward queued _ = true
is_onward submitted queued = false
is_onward submitted _ = true
is_onward done done = true
is_onward failed failed = true
is_onward rejected rejected = true
is_onward _ _ = false

is_onward_trans :
    (a b c : StepStatus) → is_onward a b ≡ true → is_onward b c ≡ true → is_onward a c ≡ true
is_onward_trans a b c p q = ground arith

is_onward_refl : (a : StepStatus) → is_onward a a ≡ true
is_onward_refl a = ground arith

-- The row of a Step after, and how it relates to the row before.
abbrev pub Onward : String → StepStatus → Db → Type 0
Onward id before db = (t : Step) × (find_step id db ≡ some t) × (is_onward before t.status ≡ true)

module _ (w : World) where
  Allowed-is_onward :
      {db : Db} {s : Step} {row : Request} {to : StepStatus}
      → Allowed w db s row to
      → is_onward s.status to ≡ true
  Allowed-is_onward (start q d l) = ground arith
  Allowed-is_onward (abort q d) = ground arith
  Allowed-is_onward (finish q) = ground arith
  Allowed-is_onward (fail q) = ground arith
  Allowed-is_onward (reject q) = ground arith

saved-Onward :
    (t s : Step) (db : Db) (id : String) (old : Step)
    → find_step t.id db ≡ some s
    → is_onward s.status t.status ≡ true
    → find_step id db ≡ some old
    → Onward id old.status (save_step t db)
saved-Onward t s db id old h o k = elim (string_eq.dec t.id id) [
  | yes e ↦ (t, ground (arith, find-save (λ (x : Step). x.id) t id db.steps s), ground arith)
  | no n ↦ (
    old,
    ground (arith, find-save (λ (x : Step). x.id) t id db.steps s),
    is_onward_refl old.status,
  )
]

module _ (w : World) where
  Move-Onward :
      {db db' : Db} (id : String) (old : Step)
      → find_step id db ≡ some old
      → Move w db db'
      → Onward id old.status db'
  Move-Onward {db} id old k (touch s t f same e d) =
      subst (Onward id old.status) (sym d)
        (saved-Onward t s db id old f (rw e (is_onward_refl s.status)) k)
  Move-Onward {db} id old k (store r e) = (old, rw e k, is_onward_refl old.status)
  Move-Onward {db} id old k (advance s t row f same q l a d) =
      subst (Onward id old.status) (sym d) (saved-Onward t s db id old f (Allowed-is_onward w a) k)
  Move-Onward {db} id old k (halt row f l d) =
      subst (Onward id old.status) (sym d) (old, k, is_onward_refl old.status)
  Move-Onward {db} id old k (enter row steps p n fresh c q d) =
      subst (Onward id old.status) (sym d) (
        old,
        find-append_some (λ (x : Step). x.id) id db.steps steps old k,
        is_onward_refl old.status,
      )

  -- Whatever transactions run, a Step stays, and its status only goes onward.
  pub Reach-Onward :
      {db db' : Db} (id : String) (old : Step)
      → find_step id db ≡ some old
      → Reach w db db'
      → Onward id old.status db'
  Reach-Onward id old k here = (old, k, is_onward_refl old.status)
  Reach-Onward id old k (next r m) =
      let (mid, found, o) = Reach-Onward id old k r in
      let (new, found', o') = Move-Onward id mid found m in
      (new, found', is_onward_trans old.status mid.status new.status o o')

-- A row is found again under its own key.
pub row_key :
    (k : String) (db : Db) (row : Request)
    → find_request k db ≡ some row
    → find_request row.id db ≡ some row
row_key k db row h =
    subst (λ j. find_request j db ≡ some row)
      (sym (find_id (λ (r : Request). r.id) k db.requests row h)) h

-- Writing a live request's row leaves every halted request's row alone.
saved-terminal_row :
    (new live : Request) (db : Db) (id : String) (row : Request)
    → find_request new.id db ≡ some live
    → is_terminal live.status ≡ false
    → find_request id db ≡ some row
    → is_terminal row.status ≡ true
    → find_request id (save_request new db) ≡ some row
saved-terminal_row new live db id row f l k h =
    ground (arith, find-save (λ (r : Request). r.id) new id db.requests live)

module _ (w : World) where
  Move-terminal_row :
      {db db' : Db} (id : String) (row : Request)
      → find_request id db ≡ some row
      → is_terminal row.status ≡ true
      → Move w db db'
      → find_request id db' ≡ some row
  Move-terminal_row id row k h (touch s t f same e d) = rw d k
  Move-terminal_row id row k h (store r e) = rw r k
  Move-terminal_row {db} id row k h (advance s t live f same q l a d) =
      subst (λ (x : Db). find_request id x ≡ some row) (sym d)
        (saved-terminal_row (record live { status = rolled_up (steps_of live.id (save_step t db)) })
          live (save_step t db) id row (row_key s.request_id db live q) l k h)
  Move-terminal_row {db} id row k h (halt live f l d) =
      subst (λ (x : Db). find_request id x ≡ some row) (sym d)
        (saved-terminal_row (record live { status = cancelled }) live db id row f l k h)
  Move-terminal_row {db} id row k h (enter new steps p n fresh c q d) =
      subst (λ (x : Db). find_request id x ≡ some row) (sym d)
        (find-append_some (λ (r : Request). r.id) id db.requests (new ∷ []) row k)

  -- A request that has reached a terminal status keeps its row, whatever transactions run.
  pub Reach-terminal_row :
      {db db' : Db} (id : String) (row : Request)
      → find_request id db ≡ some row
      → is_terminal row.status ≡ true
      → Reach w db db'
      → find_request id db' ≡ some row
  Reach-terminal_row id row k h here = k
  Reach-terminal_row id row k h (next r m) =
      Move-terminal_row id row (Reach-terminal_row id row k h r) h m

-- The row of a Step after, with the status that it had.
abbrev pub Frozen : String → Step → Db → Type 0
Frozen id old db =
    (t : Step) × (find_step id db ≡ some t)
    × (t.status ≡ old.status)
    × (t.request_id ≡ old.request_id)

saved-Frozen :
    (t s : Step) (db : Db) (id : String) (old : Step)
    → find_step t.id db ≡ some s
    → SameStep s t
    → (s ≡ old → t.status ≡ s.status)
    → find_step id db ≡ some old
    → Frozen id old (save_step t db)
saved-Frozen t s db id old h same e k = elim (string_eq.dec t.id id) [
  | yes p ↦
      let at : s ≡ old = ground arith in
      (
        t,
        ground (arith, find-save (λ (x : Step). x.id) t id db.steps s),
        e at ∙ ap (λ (x : Step). x.status) at,
        same.request_id ∙ ap (λ (x : Step). x.request_id) at,
      )
  | no n ↦ (old, ground (arith, find-save (λ (x : Step). x.id) t id db.steps s), refl, refl)
]

module _ (w : World) where
  Move-Frozen :
      {db db' : Db} (id : String) (old : Step) (row : Request)
      → find_step id db ≡ some old
      → find_request old.request_id db ≡ some row
      → is_terminal row.status ≡ true
      → Move w db db'
      → Frozen id old db'
  Move-Frozen {db} id old row k q h (touch s t f same e d) =
      subst (Frozen id old) (sym d) (saved-Frozen t s db id old f same (λ _. e) k)
  Move-Frozen id old row k q h (store r e) = (old, rw e k, refl, refl)
  Move-Frozen {db} id old row k q h (advance s t live f same g l a d) =
      subst (Frozen id old) (sym d) (
        saved-Frozen t s db id old f same
          (λ p. absurd (ground (arith, ap (λ (x : Step). x.request_id) p))) k)
  Move-Frozen id old row k q h (halt live f l d) =
      subst (Frozen id old) (sym d) (old, k, refl, refl)
  Move-Frozen {db} id old row k q h (enter new steps p n fresh c i d) =
      subst (Frozen id old) (sym d)
        (old, find-append_some (λ (x : Step). x.id) id db.steps steps old k, refl, refl)

  -- Halt, no rollback, no further advance: no Step of a terminal request ever changes its status.
  pub Reach-Frozen :
      {db db' : Db} (id : String) (old : Step) (row : Request)
      → find_step id db ≡ some old
      → find_request old.request_id db ≡ some row
      → is_terminal row.status ≡ true
      → Reach w db db'
      → Frozen id old db'
  Reach-Frozen id old row k q h here = (old, k, refl, refl)
  Reach-Frozen id old row k q h (next r m) =
      let (mid, found, e, g) = Reach-Frozen id old row k q h r in
      let halted = Reach-terminal_row w old.request_id row q h r in
      let (new, found', e', g') = Move-Frozen id mid row found (rw g halted) h m in
      (new, found', e' ∙ e, g' ∙ g)
