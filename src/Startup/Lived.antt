-- ===== src/Startup/Lived.antt =====
-- How a lifespan of the application ends, and what it has done by then.
use mathlib.Core.List.{append_assoc, append-nil}
use terramate_api_wrapper.Base.{
  ℕ, String, true, false, ◌&&◌, Option, none, some, List, [], ◌∷◌, ◌++◌, ◌≡◌, refl, sym, ap, ◌∙◌,
  inl, inr, Bool-cases,
}
use terramate_api_wrapper.Table.{is_some}
use terramate_api_wrapper.Result.{Error, Result, ok, err, Result-cases}
use terramate_api_wrapper.Stateful.{from_result, go_on, ◌then_do◌, after_finally}
use terramate_api_wrapper.Config.{Settings}
use terramate_api_wrapper.Config.Environment.{or_none}
use terramate_api_wrapper.Startup.{
  Event, logging_configured, driver_started, driver_cancelled, driver_awaited, client_closed,
  serving, ReconcileClient, Process, note, settings_now, run_migrations_upgrade_head, client_with,
  from_settings, some_client, has_github, build_reconcile_client, run, migrate_if, lifespan,
}
use terramate_api_wrapper.Startup.Migrated.{overridden, Migrated, migrate-Migrated}

-- The client of a driver is closed unless awaiting its task raised.
abbrev pub closing : Result (Unit {0}) → List Event
closing (ok _) = client_closed ∷ []
closing (err e) = []

closing_lem :
    (r : Result (Unit {0})) (events : List Event)
    → go_on (λ _. note client_closed) r events ≡ (r, events ++ closing r)
closing_lem (ok _) events = refl
closing_lem (err e) events = ap (λ es. (err e, es)) (sym (append-nil events))

overridden_lem :
    (r s : Result (Unit {0})) (events : List Event)
    → after_finally r (s, events) ≡ (overridden r s, events)
overridden_lem r (ok _) events = refl
overridden_lem r (err e) events = refl

chain :
    (events more : List Event) (a b c d : Event)
    → (((events ++ a ∷ []) ++ b ∷ []) ++ c ∷ []) ++ d ∷ more ≡ events ++ a ∷ b ∷ c ∷ d ∷ more
chain [] more a b c d = refl
chain (x ∷ events) more a b c d = ap (λ es. x ∷ es) (chain events more a b c d)

module _ (process : Process) where
  -- The schema may be served: the migrations are not asked for, or were made.
  pub data Ready (settings : Settings) : List Event → Type 0 where
    unasked : settings.run_migrations_on_startup ≡ false → Ready settings []
    made :
        (events : List Event)
        → settings.run_migrations_on_startup ≡ true
        → Migrated process (ok tt) events
        → Ready settings events

  -- A lifespan: how it ends, and what it has done.
  pub data Lived : Result (Unit {0}) → List Event → Type 0 where
    unread : (e : Error) → settings_now process ≡ err e → Lived (err e) []
    unmigrated :
        (settings : Settings) (e : Error) (events : List Event)
        → settings_now process ≡ ok settings
        → settings.run_migrations_on_startup ≡ true
        → Migrated process (err e) events
        → Lived (err e) (logging_configured settings.log_level ∷ events)
    undriven :
        (settings : Settings) (events : List Event)
        → settings_now process ≡ ok settings
        → Ready settings events
        → has_github process settings ≡ false
        → Lived process.served (logging_configured settings.log_level ∷ events ++ serving ∷ [])
    driven :
        (settings : Settings) (events : List Event)
        → settings_now process ≡ ok settings
        → Ready settings events
        → has_github process settings ≡ true
        → Lived (overridden process.served process.awaited) (
            logging_configured settings.log_level ∷ events
            ++ driver_started settings.reconcile_interval_seconds
              ∷ serving
              ∷ driver_cancelled
              ∷ driver_awaited
              ∷ closing process.awaited)

  client_there :
      (settings : Settings)
      → settings_now process ≡ ok settings
      → has_github process settings ≡ true
      → (client : ReconcileClient) × (build_reconcile_client process ≡ ok (some client))
  unfolding build_reconcile_client from_settings
  client_there settings read there =
      rw (read, there, read)
        (by_parts (or_none settings.github_pat) (or_none settings.github_repo) there)
    where
      by_parts :
          (pat repo : Option String)
          → is_some pat && is_some repo ≡ true
          → (client : ReconcileClient) × (some_client process (client_with process pat repo)
              ≡ ok (some client))
      by_parts (some pat) (some repo) h = (record { repo = repo; token = pat }, refl)
      by_parts (some pat) none h = absurd (cc h)
      by_parts none repo h = absurd (cc h)

  no_client :
      (settings : Settings)
      → settings_now process ≡ ok settings
      → has_github process settings ≡ false
      → build_reconcile_client process ≡ ok none
  unfolding build_reconcile_client
  no_client settings read missing = rw (read, missing) refl

  run-driven :
      (interval : ℕ) (client : ReconcileClient) (events : List Event)
      → run process interval (some client) events ≡ (
        overridden process.served process.awaited,
        events
            ++ driver_started interval
              ∷ serving
              ∷ driver_cancelled
              ∷ driver_awaited
              ∷ closing process.awaited,
      )
  run-driven interval client events =
      let before =
        (((events ++ driver_started interval ∷ []) ++ serving ∷ []) ++ driver_cancelled ∷ [])
        ++ driver_awaited ∷ [] in
      ap (after_finally process.served) (closing_lem process.awaited before)
      ∙ overridden_lem process.served process.awaited (before ++ closing process.awaited)
      ∙ ap (λ es. (overridden process.served process.awaited, es))
          (append_assoc
              (((events ++ driver_started interval ∷ []) ++ serving ∷ []) ++ driver_cancelled ∷ [])
              (driver_awaited ∷ []) (closing process.awaited)
            ∙ chain events (closing process.awaited) (driver_started interval) serving
                driver_cancelled driver_awaited)

  served-Lived :
      (settings : Settings) (events : List Event)
      → settings_now process ≡ ok settings
      → Ready settings events
      → let before = logging_configured settings.log_level ∷ events in
        let rest = run process settings.reconcile_interval_seconds in
        Lived
          (go_on rest (build_reconcile_client process) before).0
          (go_on rest (build_reconcile_client process) before).1
  served-Lived settings events read ready = elim (Bool-cases (has_github process settings)) [
    | inr missing ↦
        rw (no_client settings read missing) (undriven settings events read ready missing)
    | inl there ↦
        let (client, built) = client_there settings read there in
        rw
          (
            built,
            run-driven settings.reconcile_interval_seconds client
                (logging_configured settings.log_level ∷ events),
          )
          (driven settings events read ready there)
  ]

  asked-Lived :
      (settings : Settings) (r : Result (Unit {0})) (events events' : List Event)
      → settings_now process ≡ ok settings
      → settings.run_migrations_on_startup ≡ true
      → Migrated process r events
      → events' ≡ logging_configured settings.log_level ∷ events
      → let rest = λ (_ : Unit {0}). from_result (build_reconcile_client process) then_do λ client.
          run process settings.reconcile_interval_seconds client in
        Lived (go_on rest r events').0 (go_on rest r events').1
  asked-Lived settings (err e) events events' read asked migrated same =
      rw same (unmigrated settings e events read asked migrated)
  asked-Lived settings (ok _) events events' read asked migrated same =
      rw same (served-Lived settings events read (made events asked migrated))

  -- The application serves only if its settings could be read and the migrations, if they are asked for,
  -- were made under the lock; the lock is given back however they end. The driver runs exactly if a token
  -- and a repository are set, and building its client never fails then; when the server stops, the driver is
  -- cancelled and awaited, and its client is closed unless awaiting it raised.
  pub lifespan-Lived : Lived (lifespan process []).0 (lifespan process []).1
  unfolding lifespan
  lifespan-Lived = elim (Result-cases (settings_now process)) [
    | inr (e, failed) ↦ rw failed (unread e failed)
    | inl (settings, read) ↦ rw read (by_switch settings read)
  ]
    where
      by_switch :
          (settings : Settings)
          → settings_now process ≡ ok settings
          → let rest = λ (_ : Unit {0}).
            from_result (build_reconcile_client process) then_do λ client.
            run process settings.reconcile_interval_seconds client in
            let before = logging_configured settings.log_level ∷ [] in
            Lived
              ((migrate_if process settings.run_migrations_on_startup then_do rest) before).0
              ((migrate_if process settings.run_migrations_on_startup then_do rest) before).1
      by_switch settings read = elim (Bool-cases settings.run_migrations_on_startup) [
        | inr off ↦ rw off (served-Lived settings [] read (unasked off))
        | inl on ↦
            let before = logging_configured settings.log_level in
            let (events, after, migrated) = migrate-Migrated process before in
            rw on (
              asked-Lived settings (run_migrations_upgrade_head process (before ∷ [])).0 events
                (run_migrations_upgrade_head process (before ∷ [])).1 read on migrated after)
      ]
