-- ===== src/Startup/Migrated.antt =====
-- How a run of the migrations ends, and what it has done by then.
use terramate_api_wrapper.Base.{List, [], ◌∷◌, ◌≡◌, refl}
use terramate_api_wrapper.Result.{Error, Result, ok, err}
use terramate_api_wrapper.Startup.{
  Event, connecting, locking, upgrading, unlocking, disconnected, Process,
  run_migrations_upgrade_head,
}

-- The later of two outcomes, where it is an exception.
abbrev pub overridden : Result (Unit {0}) → Result (Unit {0}) → Result (Unit {0})
overridden r (err e) = err e
overridden r (ok _) = r

module _ (process : Process) where
  -- A run of the migrations: what it answers, and what it has done.
  pub data Migrated : Result (Unit {0}) → List Event → Type 0 where
    unconnected : (e : Error) → process.connected ≡ err e → Migrated (err e) (connecting ∷ [])
    unlocked :
        (e : Error)
        → process.connected ≡ ok tt
        → process.locked ≡ err e
        → Migrated (err e) (connecting ∷ locking ∷ disconnected ∷ [])
    -- The lock is given back and the connection closed however the upgrade ends.
    tried :
        process.connected ≡ ok tt
        → process.locked ≡ ok tt
        → Migrated
            (overridden process.upgraded process.unlocked)
            (connecting ∷ locking ∷ upgrading ∷ unlocking ∷ disconnected ∷ [])

abbrev pub MigratedAfter : Process → Event → Type 0
MigratedAfter process before =
    (made : List Event) × ((run_migrations_upgrade_head process (before ∷ [])).1 ≡ before ∷ made)
    × Migrated process (run_migrations_upgrade_head process (before ∷ [])).0 made

pub migrate-Migrated : (process : Process) (before : Event) → MigratedAfter process before
unfolding run_migrations_upgrade_head
migrate-Migrated process before =
    by_outcomes process.connected process.locked process.upgraded process.unlocked
  where
    by_outcomes :
        (connected locked upgraded unlocked : Result (Unit {0}))
        → MigratedAfter
            (record process {
              connected = connected;
              locked = locked;
              upgraded = upgraded;
              unlocked = unlocked;
            })
            before
    by_outcomes (err e) l u k = (connecting ∷ [], refl, unconnected e refl)
    by_outcomes (ok _) (err e) u k =
        (connecting ∷ locking ∷ disconnected ∷ [], refl, unlocked e refl refl)
    by_outcomes (ok _) (ok _) u (ok _) =
        (connecting ∷ locking ∷ upgrading ∷ unlocking ∷ disconnected ∷ [], refl, tried refl refl)
    by_outcomes (ok _) (ok _) u (err e) =
        (connecting ∷ locking ∷ upgrading ∷ unlocking ∷ disconnected ∷ [], refl, tried refl refl)
