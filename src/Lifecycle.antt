-- ===== src/Lifecycle.antt =====
-- The lifecycle that server/orchestrator.py and docs/adr/0004 and 0006 promise, as a step relation
-- on the database: what one transaction may do to the Steps and the requests.
pub mod Order
pub mod Lane
pub mod Keys
pub mod RollUp
pub mod Dependencies
pub mod Idempotency
use terramate_api_wrapper.Base.{true, false, ◌&&◌, ◌≡◌, some, none, List, In, any, ◌==◌, string_eq}
use terramate_api_wrapper.Table.{clashes}
use terramate_api_wrapper.Models.{
  StepStatus, queued, submitted, done, failed, rejected, cancelled, Request, Step, Db, find_step,
  find_request, save_step, save_request, insert_rows, pending,
}
use terramate_api_wrapper.Orchestrator.Status.{is_terminal, rolled_up, steps_of}
use terramate_api_wrapper.Orchestrator.Queue.{dependencies_done, is_serial_type, serial_lane_busy}
use terramate_api_wrapper.World.{World}

-- What no transition of a Step changes.
pub record SameStep (s t : Step) : Type 0 where
  pub id : t.id ≡ s.id
  pub request_id : t.request_id ≡ s.request_id
  pub ordinal : t.ordinal ≡ s.ordinal
  pub key : t.key ≡ s.key
  pub depends_on : t.depends_on ≡ s.depends_on

-- The status of a request after one of its Steps has moved.
abbrev pub roll_up : Request → Db → Db
roll_up row db = save_request (record row { status = rolled_up (steps_of row.id db) }) db

abbrev pub cancel : Request → Db → Db
cancel row db = save_request (record row { status = cancelled }) db

module _ (w : World) where
  -- Where a Step of the request `row` may go next.
  pub data Allowed (db : Db) (s : Step) (row : Request) : StepStatus → Type 0 where
    start :
        s.status ≡ queued
        → dependencies_done db s ≡ true
        → (is_serial_type w row.type && serial_lane_busy w db) ≡ false
        → Allowed db s row submitted
    abort : s.status ≡ queued → dependencies_done db s ≡ true → Allowed db s row failed
    finish : s.status ≡ submitted → Allowed db s row done
    fail : s.status ≡ submitted → Allowed db s row failed
    reject : s.status ≡ submitted → Allowed db s row rejected

  pub data Move (db db' : Db) : Type 0 where
    -- a Step's row is written without a transition: a claim, a PR number, a console text, a flag
    touch :
        (s t : Step)
        → find_step t.id db ≡ some s
        → SameStep s t
        → t.status ≡ s.status
        → db' ≡ save_step t db
        → Move db db'
    -- outputs or the intake gate are written
    store : db'.requests ≡ db.requests → db'.steps ≡ db.steps → Move db db'
    -- a Step of a live request moves, and its request is rolled up
    advance :
        (s t : Step) (row : Request)
        → find_step t.id db ≡ some s
        → SameStep s t
        → find_request s.request_id db ≡ some row
        → is_terminal row.status ≡ false
        → Allowed db s row t.status
        → db' ≡ roll_up row (save_step t db)
        → Move db db'
    -- an operator cancels a live request
    halt :
        (row : Request)
        → find_request row.id db ≡ some row
        → is_terminal row.status ≡ false
        → db' ≡ cancel row db
        → Move db db'
    -- a new request enters, with queued Steps
    enter :
        (row : Request) (steps : List Step)
        → row.status ≡ pending
        → find_request row.id db ≡ none
        → any (λ r. r.idempotency_key == row.idempotency_key) db.requests ≡ false
        → clashes (λ (s : Step). s.id) steps db.steps ≡ false
        → ((s : Step) → In s steps → (s.status ≡ queued) × (s.request_id ≡ row.id))
        → db' ≡ insert_rows row steps db
        → Move db db'

  pub data Reach (db : Db) : Db → Type 0 where
    here : Reach db db
    next : {mid last : Db} → Reach db mid → Move mid last → Reach db last

  pub Reach-trans : {a b c : Db} → Reach a b → Reach b c → Reach a c
  Reach-trans p here = p
  Reach-trans p (next q m) = next (Reach-trans p q) m
