-- ===== src/Refinement/Create.antt =====
-- `POST /v1/requests` as a transaction of the lifecycle, with a rival's transaction before its commit.
use terramate_api_wrapper.Base.{
  ℕ, suc, String, Bool, true, false, Option, none, some, List, [], ◌∷◌, In, inl, inr, ◌≡◌, refl,
  ◌∙◌, sym, subst, ap, arith, Bool-cases, Option-cases, any, any-eq-false_of_first, ◌==◌, string_eq,
}
use terramate_api_wrapper.Value.{Value}
use terramate_api_wrapper.Result.{Result, ok, err, require, http, key_error, integrity_error}
use terramate_api_wrapper.Result as Result
use terramate_api_wrapper.Framework.{StepSpec, Recipe}
use terramate_api_wrapper.Models.{queued, pending, Request, Step, Db, find_request}
use terramate_api_wrapper.Table.{clashes, is_some}
use terramate_api_wrapper.Session.{Session, Exec, continue, ◌>>◌}
use terramate_api_wrapper.Auth.{resolve_requester}
use terramate_api_wrapper.Requests.Create.{
  StepIds, id_of, ids_of, mint_ids, new_step, new_steps, Rival, arrive, concurrently,
  after_conflict, find_by_idempotency_key, violates, flush, new_row, CreateRequestResponse, if_open,
  admit, create_request,
}
use terramate_api_wrapper.Lifecycle.{enter, Reach, here, next}
use terramate_api_wrapper.Refinement.Claim.{After}
use terramate_api_wrapper.Refinement.Tick.{IsClean, After-trans}
use terramate_api_wrapper.Refinement.Routes.{guarded-Refines}
use terramate_api_wrapper.World.{World}

-- A queued Step of one request.
abbrev IsNew : String → Step → Type 0
IsNew request_id s = (s.status ≡ queued) × (s.request_id ≡ request_id)

new_steps-IsNew :
    (request_id : String) (ids : StepIds) (now ordinal : ℕ) (specs : List StepSpec)
    (steps : List Step)
    → new_steps request_id ids now ordinal specs ≡ ok steps
    → (s : Step) → In s steps
    → IsNew request_id s
unfolding new_steps
new_steps-IsNew request_id ids now ordinal [] steps e s m = ground arith
new_steps-IsNew request_id ids now ordinal (spec ∷ specs) steps e s m =
    by_parts (require (key_error spec.key) (id_of spec.key ids)) (ids_of ids spec.depends_on)
      (new_steps request_id ids now (suc ordinal) specs) e
      (λ rest k. new_steps-IsNew request_id ids now (suc ordinal) specs rest k s)
  where
    by_parts :
        (id : Result String) (deps : Result (List String)) (later : Result (List Step))
        → Result.◌>>=◌ id (λ i.
          Result.◌>>=◌ deps
            λ ds. Result.◌>>=◌ later λ rest. ok (new_step request_id ordinal i ds now spec ∷ rest))
          ≡ ok steps
        → ((rest : List Step) → later ≡ ok rest → In s rest → IsNew request_id s)
        → IsNew request_id s
    by_parts (err x) deps later k ih = absurd (cc k)
    by_parts (ok i) (err x) later k ih = absurd (cc k)
    by_parts (ok i) (ok ds) (err x) k ih = absurd (cc k)
    by_parts (ok i) (ok ds) (ok rest) k ih = elim (subst (In s) (list_of k) m) [
      | inl e ↦ ground (arith, e)
      | inr there ↦ ih rest refl there
    ]
      where
        list_of :
            ok (new_step request_id ordinal i ds now spec ∷ rest) ≡ ok steps
            → steps ≡ new_step request_id ordinal i ds now spec ∷ rest
        list_of q = cc q

unused :
    (row : Request) (db : Db)
    → is_some (find_by_idempotency_key row.idempotency_key db.requests) ≡ false
    → any (λ (r : Request). r.idempotency_key == row.idempotency_key) db.requests ≡ false
unfolding find_by_idempotency_key
unused row db h = any-eq-false_of_first _ db.requests (ground arith)

module _ (w : World) where
  -- It returns, and writes nothing.
  record Minted (s s' : Session) (r : Result StepIds) : Type 0 where
    ids : StepIds
    returns : r ≡ ok ids
    working : s'.working ≡ s.working
    committed : s'.committed ≡ s.committed

  mint_ids_lem :
      (specs : List StepSpec) (ids : StepIds) (s : Session)
      → Minted s (mint_ids w specs ids s).1 (mint_ids w specs ids s).0
  unfolding mint_ids
  mint_ids_lem [] ids s = record { ids = ids; returns = refl; working = refl; committed = refl }
  mint_ids_lem (spec ∷ specs) ids s =
      let h = mint_ids_lem specs _ (record s { moment = suc s.moment }) in
      record { ids = h.ids; returns = h.returns; working = h.working; committed = h.committed }

  -- What the rival committed is a request that enters.
  abbrev pub Enters : Db → Option Rival → Type 0
  Enters db none = Unit
  Enters db (some rival) =
      (rival.row.status ≡ pending)
      × (find_request rival.row.id db ≡ none)
      × (any (λ r. r.idempotency_key == rival.row.idempotency_key) db.requests ≡ false)
      × (clashes (λ (s : Step). s.id) rival.steps db.steps ≡ false)
      × ((s : Step) → In s rival.steps → IsNew rival.row.id s)

  after_conflict-After :
      (key : String) (s : Session)
      → s.committed ≡ s.working
      → After w s.working (after_conflict key s).0 (after_conflict key s).1
  after_conflict-After key s k =
      elim (Option-cases (find_by_idempotency_key key s.committed.requests)) [
        | inl missing ↦ rw missing (rw k here)
        | inr (row, f) ↦ rw f (rw k here, refl)
      ]

  flush-After :
      (row : Request) (steps : List Step) (s : Session)
      → s.committed ≡ s.working
      → row.status ≡ pending
      → ((x : Step) → In x steps → IsNew row.id x)
      → After w s.working (flush row steps s).0 (flush row steps s).1
  unfolding flush violates
  flush-After row steps s k p q = elim (Bool-cases (violates row steps s.working)) [
    | inl refused ↦ rw refused (after_conflict-After row.idempotency_key s k)
    | inr fine ↦ rw fine (
      next here (
          enter row steps p (ground arith) (unused row s.working (ground arith)) (ground arith) q
            refl),
      refl,
    )
  ]

  Enters-Reach : (db : Db) (rival : Option Rival) → Enters db rival → Reach w db (arrive rival db)
  Enters-Reach db none e = here
  Enters-Reach db (some rival) (p, n, u, c, q) =
      next here (enter rival.row rival.steps p n u c q refl)

  module _ (db : Db) (rival : Option Rival) (entered : Enters db rival) where
    arrived-After :
        (row : Request) (steps : List Step) (s : Session)
        → s.working ≡ db
        → s.committed ≡ db
        → row.status ≡ pending
        → ((x : Step) → In x steps → IsNew row.id x)
        → After w db
            ((concurrently rival >> flush row steps) s).0
            ((concurrently rival >> flush row steps) s).1
    arrived-After row steps s e k p q =
        let t : Session = record s {
          working = arrive rival s.working;
          committed = arrive rival s.committed;
        } in
        After-trans w db t.working (flush row steps t).0 (flush row steps t).1
          (rw e (Enters-Reach db rival entered))
          (flush-After row steps t (ap (arrive rival) (k ∙ sym e)) p q)

    stepped-After :
        (row : Request) (ids : StepIds) (now : ℕ) (specs : List StepSpec) (s : Session)
        → s.working ≡ db
        → s.committed ≡ db
        → row.status ≡ pending
        → After w db
            (continue
              (new_steps row.id ids now 0 specs)
              (λ steps. concurrently rival >> flush row steps)
              s).0
            (continue
              (new_steps row.id ids now 0 specs)
              (λ steps. concurrently rival >> flush row steps)
              s).1
    stepped-After row ids now specs s e k p = by_steps (new_steps row.id ids now 0 specs) refl
      where
        by_steps :
            (made : Result (List Step))
            → new_steps row.id ids now 0 specs ≡ made
            → After w db
                (continue made (λ steps. concurrently rival >> flush row steps) s).0
                (continue made (λ steps. concurrently rival >> flush row steps) s).1
        by_steps (err x) made = rw k here
        by_steps (ok steps) made =
            arrived-After row steps s e k p (new_steps-IsNew row.id ids now 0 specs steps made)

  admit-After :
      (type : String) (recipe : Recipe) (params : Value) (requester key : String)
      (rival : Option Rival) (s : Session)
      → IsClean s
      → Enters s.working rival
      → After w s.working
          (admit w type recipe params requester key rival s).0
          (admit w type recipe params requester key rival s).1
  unfolding admit
  admit-After type recipe params requester key rival s clean entered =
      guarded-Refines w (recipe.build params) _ s clean (λ playbook _.
        let asked : Session = record s { moment = suc s.moment } in
        let minted = mint_ids_lem playbook.steps [] asked in
        let t = (mint_ids w playbook.steps [] asked).1 in
        rw minted.returns (
          stepped-After s.working rival entered
            (new_row w (w.uuid s.moment) type params requester key (w.clock t.moment)) minted.ids
            (w.clock t.moment) playbook.steps (record t { moment = suc t.moment }) minted.working
            (minted.committed ∙ clean.settled) refl))

  if_open-After :
      (enabled : Bool) (m : Exec CreateRequestResponse) (s : Session)
      → IsClean s
      → After w s.working (m s).0 (m s).1
      → After w s.working (if_open enabled m s).0 (if_open enabled m s).1
  if_open-After true m s clean h = h
  if_open-After false m s clean h = rw clean.settled here

  -- A `POST` from a state with nothing uncommitted, with or without a rival's transaction before its
  -- commit, is a run of the lifecycle: if it returns, nothing is left uncommitted, and if it raises,
  -- what is committed is still a run.
  pub create_request-After :
      (email user : Option String) (key type : String) (raw_params : Value) (rival : Option Rival)
      (s : Session)
      → IsClean s
      → Enters s.working rival
      → After w s.working
          (create_request w email user key type raw_params rival s).0
          (create_request w email user key type raw_params rival s).1
  unfolding create_request
  create_request-After email user key type raw_params rival s clean entered =
      guarded-Refines w (resolve_requester email user) _ s clean (λ requester _.
        guarded-Refines w (require (http 422 "type") (w.recipes type)) _ s clean (λ recipe _.
          let asked : Session = record s { moment = suc s.moment } in
          let settled : IsClean asked = record { keyed = clean.keyed; settled = clean.settled } in
          guarded-Refines w (recipe.model_validate (w.uuids s.moment) raw_params) _ asked settled
            (λ params _. elim (Option-cases (find_by_idempotency_key key s.working.requests)) [
              | inr (row, f) ↦ rw f (rw clean.settled here, sym clean.settled)
              | inl fresh ↦ rw fresh (
                  if_open-After s.working.gate.enabled _ asked settled
                    (admit-After type recipe params requester key rival asked settled entered))
            ])))
