-- ===== src/Database/Again.antt =====
-- `_connect` of server/database.py, once a connection has been handed out.
use mathlib.Core.List.{append-nil}
use terramate_api_wrapper.Base.{
  ◌⊎◌, String, Option, none, some, List, [], ◌∷◌, ◌++◌, contains, string_eq, ◌≡◌, refl, sym, ap,
  Bool-cases, In-contains, inl, inr,
}
use terramate_api_wrapper.Result.{Result, ok, err, Result-cases}
use terramate_api_wrapper.Stateful.{Stateful, ◌then_do◌, from_result, then_do-ok}
use terramate_api_wrapper.Config.{Settings}
use terramate_api_wrapper.Config.Environment.{Environ, or_none}
use terramate_api_wrapper.Database.{
  schema_for, ConnectArgs, url_args, connect_to_url, by_url_or, Call, connected, Process, Driver,
  with_call, make, ensure_schema, ensured, lakebase_args, connect_lakebase, connect,
}
use terramate_api_wrapper.Database.Created.{new_schema-ok}

-- No call, or the opening of one connection.
abbrev pub IsOpening : List Call → Type 0
IsOpening calls = (calls ≡ []) ⊎ ((args : ConnectArgs) × (calls ≡ connected args ∷ []))

module _ (driver : Driver) where
  module _ (environ : Environ) (settings : Settings) where
    abbrev own_schema : Option String
    own_schema = schema_for environ settings.app_environment

    -- A connection that is opened, or not, and no more.
    abbrev Plain : Process → Process → Type 0
    Plain p q = (more : List Call) × (q ≡ record p { calls = p.calls ++ more }) × IsOpening more

    ensured-again :
        (schema : Option String) (p q : Process)
        → ensured driver schema p ≡ (ok tt, q)
        → (r : Process) → r.schema_ready ≡ q.schema_ready
        → ensured driver schema r ≡ (ok tt, r)
    unfolding ensure_schema
    ensured-again none p q h r same = refl
    ensured-again (some schema) p q h r same = elim (Bool-cases (contains p.schema_ready schema)) [
      | inl ready ↦
          let e = ap (λ t. t.1.schema_ready) (rw ready at h) in rw (same, sym e, ready) refl
      | inr missing ↦
          rw
            (
              same,
              ap (λ (t : Process). t.schema_ready)
                  (new_schema-ok driver schema p q (rw missing at h)).0,
              In-contains schema (schema ∷ p.schema_ready) (inl refl),
            )
            refl
    ]

    silent-Plain : (q : Process) → Plain q q
    silent-Plain q =
        ([], ap (λ calls. record q { calls = calls }) (sym (append-nil q.calls)), inl refl)

    opened-Plain :
        {A : Type 0} (r : Result A) (args : A → ConnectArgs) (rest : Stateful Process (Unit {0}))
        (q : Process)
        → ((call : Call) → rest (with_call q call) ≡ (ok tt, with_call q call))
        → Plain q
            ((from_result r then_do λ a. make driver (connected (args a)) then_do λ _. rest) q).1
    opened-Plain (err e) args rest q quiet = silent-Plain q
    opened-Plain (ok a) args rest q quiet =
        elim (Result-cases (driver.answer q.calls (connected (args a)))) [
          | inr (e, refused) ↦ rw refused (connected (args a) ∷ [], refl, inr (args a, refl))
          | inl (_, answered) ↦
              rw (answered, quiet (connected (args a)))
                (connected (args a) ∷ [], refl, inr (args a, refl))
        ]

    connect_to_url-Plain : (url : String) (q : Process) → Plain q (connect_to_url driver url q).1
    unfolding connect_to_url
    connect_to_url-Plain url q = elim (Result-cases (driver.make_url url)) [
      | inr (e, refused) ↦ rw refused (silent-Plain q)
      | inl (parts, parsed) ↦
          rw parsed
            (connected (url_args driver parts) ∷ [], refl, inr (url_args driver parts, refl))
    ]

    connect_lakebase-Plain :
        (name : String) (p q : Process)
        → connect_lakebase driver environ settings name p ≡ (ok tt, q)
        → Plain q (connect_lakebase driver environ settings name q).1
    unfolding connect_lakebase
    connect_lakebase-Plain name p q h =
        let (credential, u, fetched, h2) =
          then_do-ok (from_result (driver.lakebase_credential p.calls name))
            (λ c. make driver (connected (lakebase_args driver settings own_schema c)) then_do λ _.
              ensured driver own_schema)
            tt p q h in
        let (_, v, there, h3) =
          then_do-ok (make driver (connected (lakebase_args driver settings own_schema credential)))
            (λ _. ensured driver own_schema) tt u q h2 in
        opened-Plain (driver.lakebase_credential q.calls name)
          (lakebase_args driver settings own_schema) (ensured driver own_schema) q
          (λ call. ensured-again own_schema v q h3 (with_call q call) refl)

    -- Once `_connect` has handed out a connection, connecting again, however it ends, calls Postgres at most
    -- once, and that is to open a connection: no statement is made, no second connection is opened, and the
    -- set of the schemas that are ready stays as it is.
    pub connect-again :
        (p q : Process)
        → connect driver environ settings p ≡ (ok tt, q)
        → (more : List Call) × ((connect driver environ settings q).1
            ≡ record q { calls = q.calls ++ more })
          × IsOpening more
    unfolding connect
    connect-again p q h =
        by_settings (or_none settings.database_url) (or_none settings.lakebase_instance_name) h
      where
        by_settings :
            (url name : Option String)
            → by_url_or driver environ settings name url p ≡ (ok tt, q)
            → Plain q (by_url_or driver environ settings name url q).1
        by_settings (some url) name h = connect_to_url-Plain url q
        by_settings none none h = absurd (cc (ap (λ r. r.0) h))
        by_settings none (some name) h = connect_lakebase-Plain name p q h
