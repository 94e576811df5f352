-- ===== src/Refinement/Replay.antt =====
-- A repeated `POST /v1/requests`: the key that a call answered for finds the same request again.
use terramate_api_wrapper.Base.{
  suc, String, Bool, true, false, Option, some, List, [], ◌∷◌, ◌++◌, inl, inr, ◌≡◌, sym, ap, subst,
  Bool-cases, Option-cases, string_eq, arith,
}
use terramate_api_wrapper.Value.{Value}
use terramate_api_wrapper.Result.{Result, ok, err, require, http}
use terramate_api_wrapper.Framework.{Recipe}
use terramate_api_wrapper.Models.{Request, RequestStatus, Step, Db}
use terramate_api_wrapper.Table.{is_some}
use terramate_api_wrapper.Session.{Session, Exec, continue}
use terramate_api_wrapper.Auth.{resolve_requester}
use terramate_api_wrapper.Requests.Create.{
  Rival, after_conflict, find_by_idempotency_key, violates, flush, new_row, new_steps, mint_ids,
  CreateRequestResponse, if_open, admit, create_request,
}
use terramate_api_wrapper.Lifecycle.Idempotency.{holder, row_id}
use terramate_api_wrapper.World.{World}

-- What was answered for a key is what the committed rows have for it.
abbrev pub Answers : String → Result CreateRequestResponse → Session → Type 0
Answers key (ok response) s = holder key s.committed.requests ≡ some response.request_id
Answers key (err e) s = Unit

continue-Answers :
    {A : Type 0} (key : String) (r : Result A) (f : A → Exec CreateRequestResponse) (s : Session)
    → ((a : A) → Answers key (f a s).0 (f a s).1)
    → Answers key (continue r f s).0 (continue r f s).1
continue-Answers key (ok a) f s h = h a
continue-Answers key (err e) f s h = tt

-- A row at the end is found by its key if no earlier one is.
holder-new :
    (row : Request) (rs : List Request)
    → is_some (find_by_idempotency_key row.idempotency_key rs) ≡ false
    → holder row.idempotency_key (rs ++ (row ∷ [])) ≡ some row.id
unfolding find_by_idempotency_key
holder-new row [] h = ground arith
holder-new row (x ∷ rs) h = ground (arith, holder-new row rs)

after_conflict-Answers :
    (key : String) (s : Session) → Answers key (after_conflict key s).0 (after_conflict key s).1
after_conflict-Answers key s =
    elim (Option-cases (find_by_idempotency_key key s.committed.requests)) [
      | inl missing ↦ rw missing tt
      | inr (row, f) ↦ rw f (ap row_id f)
    ]

flush-Answers :
    (row : Request) (steps : List Step) (s : Session)
    → Answers row.idempotency_key (flush row steps s).0 (flush row steps s).1
unfolding flush violates
flush-Answers row steps s = elim (Bool-cases (violates row steps s.working)) [
  | inl refused ↦ rw refused (after_conflict-Answers row.idempotency_key s)
  | inr fine ↦ rw fine (holder-new row s.working.requests (ground arith))
]

if_open-Answers :
    (key : String) (enabled : Bool) (m : Exec CreateRequestResponse) (s : Session)
    → Answers key (m s).0 (m s).1
    → Answers key (if_open enabled m s).0 (if_open enabled m s).1
if_open-Answers key true m s h = h
if_open-Answers key false m s h = tt

module _ (w : World) where
  admit-Answers :
      (type : String) (recipe : Recipe) (params : Value) (requester key : String)
      (rival : Option Rival) (s : Session)
      → Answers key
          (admit w type recipe params requester key rival s).0
          (admit w type recipe params requester key rival s).1
  unfolding admit
  admit-Answers type recipe params requester key rival s =
      continue-Answers key (recipe.build params) _ s (λ playbook.
        let asked : Session = record s { moment = suc s.moment } in
        continue-Answers key (mint_ids w playbook.steps [] asked).0 _
          (mint_ids w playbook.steps [] asked).1
          (λ ids. continue-Answers key (new_steps _ ids _ 0 playbook.steps) _ _ (λ steps.
            flush-Answers (new_row w (w.uuid s.moment) type params requester key _) steps _)))

  pub create_request-Answers :
      (email user : Option String) (key type : String) (raw_params : Value) (rival : Option Rival)
      (s : Session)
      → s.committed ≡ s.working
      → Answers key
          (create_request w email user key type raw_params rival s).0
          (create_request w email user key type raw_params rival s).1
  unfolding create_request
  create_request-Answers email user key type raw_params rival s settled =
      continue-Answers key (resolve_requester email user) _ s (λ requester.
        continue-Answers key (require (http 422 "type") (w.recipes type)) _ s (λ recipe.
          let asked : Session = record s { moment = suc s.moment } in
          continue-Answers key (recipe.model_validate (w.uuids s.moment) raw_params) _ asked
            (λ params. elim (Option-cases (find_by_idempotency_key key s.working.requests)) [
              | inr (row, f) ↦ rw f (
                  subst (λ (d : Db). holder key d.requests ≡ some row.id) (sym settled)
                    (ap row_id f))
              | inl fresh ↦ rw fresh (
                  if_open-Answers key s.working.gate.enabled _ asked
                    (admit-Answers type recipe params requester key rival asked))
            ])))

  -- A well-formed call whose key is taken answers with the request that has it, whatever the gate
  -- says, and writes nothing.
  pub create_request-replay :
      (email user : Option String) (key type : String) (raw_params : Value) (rival : Option Rival)
      (s : Session) (requester : String) (recipe : Recipe) (params : Value) (id : String)
      → resolve_requester email user ≡ ok requester
      → w.recipes type ≡ some recipe
      → recipe.model_validate (w.uuids s.moment) raw_params ≡ ok params
      → holder key s.working.requests ≡ some id
      → (status : RequestStatus) × (create_request w email user key type raw_params rival s
          ≡ (ok (record { request_id = id; status = status }), record s { moment = suc s.moment }))
  unfolding create_request
  create_request-replay email user key type raw_params rival s requester recipe params id known
        found valid held =
      elim (Option-cases (find_by_idempotency_key key s.working.requests)) [
        | inl fresh ↦ absurd (cc (held, ap row_id fresh))
        | inr (row, f) ↦
            let same : row.id ≡ id = cc (held, ap row_id f) in
            rw (known, found, valid, f)
              (
                row.status,
                ap
                    (λ (i : String). (
                      ok (record { request_id = i; status = row.status }),
                      record s { moment = suc s.moment },
                    ))
                    same,
              )
      ]
