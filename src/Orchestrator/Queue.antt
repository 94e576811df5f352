-- ===== src/Orchestrator/Queue.antt =====
-- server/orchestrator.py: which queued Step is next. The query of `_claim_and_open_next`, its loop
-- over the candidates, `_dependencies_done` and `_serial_lane_busy`.
pub mod Eligible
pub mod Ready
use terramate_api_wrapper.Base.{
  ℕ, String, Bool, true, false, not, ◌&&◌, ◌||◌, Option, none, some, List, [], ◌∷◌, map, ltb, ◌==◌,
  contains, nat_eq, string_eq, any, all, select, if◌then◌else◌,
}
use terramate_api_wrapper.Result.{Result, ok, key_error, ◌>>=◌, require}
use terramate_api_wrapper.Framework.{Recipe}
use terramate_api_wrapper.Models.{Request, Step, Db, find_request}
use terramate_api_wrapper.Orchestrator.Status.{is_terminal, is_done, is_queued, is_submitted}
use terramate_api_wrapper.World.{World}

-- `_dependencies_done`: the done rows among the dependencies are all of them.
pub done_ids : Db → Step → List String
done_ids db step =
    map (λ s. s.id) (select (λ s. contains step.depends_on s.id && is_done s.status) db.steps)

abbrev pub same_set : List String → List String → Bool
same_set xs ys = all (contains ys) xs && all (contains xs) ys

abbrev pub is_empty : List String → Bool
is_empty [] = true
is_empty (x ∷ xs) = false

unfoldable pub dependencies_done : Db → Step → Bool
unfolding done_ids
dependencies_done db step =
    if is_empty step.depends_on then true else same_set (done_ids db step) step.depends_on

-- A candidate with its `request` row.
abbrev pub Candidate : Type 0
Candidate = Step × Request

-- `.join(Step.request)`: a Step whose request is missing is not selected.
abbrev pub join_with : Option Request → Step → List Candidate → List Candidate
join_with none step rest = rest
join_with (some row) step rest = (step, row) ∷ rest

unfoldable pub joined : Db → List Step → List Candidate
joined db [] = []
joined db (s ∷ ss) = join_with (find_request s.request_id db) s (joined db ss)

module _ {A : Type 0} (le : A → A → Bool) where
  pub insert_sorted : A → List A → List A
  insert_sorted x [] = x ∷ []
  insert_sorted x (y ∷ ys) = if le x y then x ∷ y ∷ ys else y ∷ insert_sorted x ys

  unfoldable pub sort : List A → List A
  unfolding insert_sorted
  sort [] = []
  sort (x ∷ xs) = insert_sorted x (sort xs)

module _ (w : World) where
  -- `order_by(ProvisioningRequest.created_at, ProvisioningRequest.id, Step.ordinal)`
  unfoldable pub comes_before : Candidate → Candidate → Bool
  comes_before (s, r) (t, q) =
      if ltb r.created_at q.created_at
      then true
      else if ltb q.created_at r.created_at
      then false
      else if r.id == q.id
      then not (ltb t.ordinal s.ordinal)
      else w.text_leb r.id q.id

  unfoldable pub queued_steps : ℕ → Db → List Candidate
  queued_steps moment db =
      sort comes_before
        (joined db (select (λ s. is_queued s.status && not (w.locked moment s.id)) db.steps))

  -- `t in serial_types`
  abbrev pub is_serial_recipe : Option Recipe → Bool
  is_serial_recipe none = false
  is_serial_recipe (some recipe) = not recipe.parallel

  abbrev pub is_serial_type : String → Bool
  is_serial_type type = is_serial_recipe (w.recipes type)

  abbrev pub is_serial_live : Option Request → Bool
  is_serial_live none = false
  is_serial_live (some row) = is_serial_type row.type && not (is_terminal row.status)

  -- The Steps that `_serial_lane_busy` selects.
  abbrev pub holds_lane : Db → Step → Bool
  holds_lane db step = is_submitted step.status && is_serial_live (find_request step.request_id db)

  unfoldable pub serial_lane_busy : Db → Bool
  serial_lane_busy db = any (holds_lane db) db.steps

  -- What the loop decides about one candidate. `take` and `wait` carry the new value of
  -- `serial_lane_busy`.
  pub data Turn : Type 0 where
    skip : Turn
    take : Option Bool → Turn
    wait : Option Bool → Turn

  abbrev pub lane_state : Option Bool → Db → Bool
  lane_state none db = serial_lane_busy db
  lane_state (some busy) db = busy

  unfoldable pub turn : Db → Option Bool → Candidate → Result Turn
  turn db lane (step, row) =
      if is_terminal row.status || not (dependencies_done db step) then ok skip else do
        recipe ← require (key_error row.type) (w.recipes row.type)
        if recipe.parallel
            then ok (take lane)
            else let busy = lane_state lane db in
              if busy then ok (wait (some busy)) else ok (take (some busy))

  -- The first candidate whose turn it is, and whether the lane was looked at.
  unfoldable pub pick : Db → Option Bool → List Candidate → Result (Option Step × Option Bool)
  pick db lane [] = ok (none, lane)
  pick db lane (c ∷ cs) = turn db lane c >>= λ t. elim t [
    | skip ↦ pick db lane cs
    | take lane' ↦ ok (some c.0, lane')
    | wait lane' ↦ pick db lane' cs
  ]
