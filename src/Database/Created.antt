-- ===== src/Database/Created.antt =====
-- `_ensure_schema` of server/database.py, and the schemas that the process takes for ready.
use mathlib.Core.List.{append_assoc, append-nil}
use terramate_api_wrapper.Base.{
  List, String, Option, none, some, [], ◌∷◌, ◌++◌, In, contains, string_eq, ◌≡◌, refl, sym, ap, ◌∙◌,
  Bool-cases, subst, contains-In, inl, inr,
}
use terramate_api_wrapper.Result.{ok}
use terramate_api_wrapper.Stateful.{◌then_do◌, then_do-ok}
use terramate_api_wrapper.Database.{
  Call, committed, Process, Driver, create_schema, with_call, make, remember, new_schema,
  ensure_schema, ensured,
}

module _ (driver : Driver) where
  -- Postgres has made the schema and committed it, in these calls.
  pub record IsMade (schema : String) (calls : List Call) : Type 0 where
    pub before : List Call
    pub later : List Call
    pub among : calls ≡ before ++ create_schema schema ∷ committed ∷ later
    pub created : driver.answer before (create_schema schema) ≡ ok tt
    pub saved : driver.answer (before ++ create_schema schema ∷ []) committed ≡ ok tt

  pub IsMade-append :
      (schema : String) (calls more : List Call)
      → IsMade schema calls
      → IsMade schema (calls ++ more)
  IsMade-append schema calls more made = record {
    before = made.before;
    later = made.later ++ more;
    among =
        ap (λ cs. cs ++ more) made.among
        ∙ append_assoc made.before (create_schema schema ∷ committed ∷ made.later) more;
    created = made.created;
    saved = made.saved;
  }

  -- Every schema that the process takes for ready was made by it.
  abbrev pub IsCreated : Process → Type 0
  IsCreated p = (schema : String) → In schema p.schema_ready → IsMade schema p.calls

  -- What a call that succeeds has done.
  pub make-ok :
      (call : Call) (p q : Process)
      → make driver call p ≡ (ok tt, q)
      → (driver.answer p.calls call ≡ ok tt) × (q ≡ with_call p call)
  make-ok call p q h = (ap (λ r. r.0) h, sym (ap (λ r. r.1) h))

  -- The process after it has made a schema.
  abbrev pub with_schema : Process → String → Process
  with_schema p schema = record {
    schema_ready = schema ∷ p.schema_ready;
    calls = p.calls ++ create_schema schema ∷ committed ∷ [];
  }

  pub new_schema-ok :
      (schema : String) (p q : Process)
      → new_schema driver schema p ≡ (ok tt, q)
      → (q ≡ with_schema p schema) × IsMade schema (with_schema p schema).calls
  new_schema-ok schema p q h =
      let (_, u, first, h2) =
        then_do-ok (make driver (create_schema schema))
          (λ _. make driver committed then_do λ _. remember driver schema) tt p q h in
      let (_, v, second, h3) =
        then_do-ok (make driver committed) (λ _. remember driver schema) tt u q h2 in
      let (created, after) = make-ok (create_schema schema) p u first in
      let (saved, done) = make-ok committed u v second in
      (
        sym (ap (λ r. r.1) h3)
            ∙ ap (λ (r : Process). record r { schema_ready = schema ∷ r.schema_ready })
                (done ∙ ap (λ r. with_call r committed) after)
            ∙ ap (λ cs. record { schema_ready = schema ∷ p.schema_ready; calls = cs })
                (append_assoc p.calls (create_schema schema ∷ []) (committed ∷ [])),
        record {
          before = p.calls;
          later = [];
          among = refl;
          created = created;
          saved = subst (λ (r : Process). driver.answer r.calls committed ≡ ok tt) after saved;
        },
      )

  pub with_call-IsCreated : (p : Process) (call : Call) → IsCreated p → IsCreated (with_call p call)
  with_call-IsCreated p call created schema there =
      IsMade-append schema p.calls (call ∷ []) (created schema there)

  with_schema-IsCreated :
      (schema : String) (p : Process)
      → IsCreated p
      → IsMade schema (with_schema p schema).calls
      → IsCreated (with_schema p schema)
  with_schema-IsCreated schema p created made s (inl e) =
      subst (λ t. IsMade t (with_schema p schema).calls) (sym e) made
  with_schema-IsCreated schema p created made s (inr there) =
      IsMade-append s p.calls (create_schema schema ∷ committed ∷ []) (created s there)

  -- What making sure of a schema leaves: the calls that it has added, and the schema among the ready ones.
  pub record Ensures (schema : Option String) (p q : Process) : Type 0 where
    pub added : List Call
    pub calls : q.calls ≡ p.calls ++ added
    pub kept : IsCreated q
    pub ready : (s : String) → schema ≡ some s → In s q.schema_ready

  pub ensured-Ensures :
      (schema : Option String) (p q : Process)
      → IsCreated p
      → ensured driver schema p ≡ (ok tt, q)
      → Ensures schema p q
  unfolding ensure_schema
  ensured-Ensures none p q created h = rw (sym (ap (λ r. r.1) h)) (record {
    added = [];
    calls = sym (append-nil p.calls);
    kept = created;
    ready = λ s e. absurd (cc e);
  })
  ensured-Ensures (some schema) p q created h = elim (Bool-cases (contains p.schema_ready schema)) [
    | inl there ↦ rw (ap (λ r. r.1) (sym (rw there at h))) (record {
      added = [];
      calls = sym (append-nil p.calls);
      kept = created;
      ready =
          λ s e. subst (λ t. In t p.schema_ready) (cc e) (contains-In schema p.schema_ready there);
    })
    | inr missing ↦
        let (after, made) = new_schema-ok schema p q (rw missing at h) in
        rw after (record {
          added = create_schema schema ∷ committed ∷ [];
          calls = refl;
          kept = with_schema-IsCreated schema p created made;
          ready = λ s e. inl (cc e);
        })
  ]
