-- ===== src/Interventions/Frozen.antt =====
-- The freeze of governance.
use sentinel_soroban_v.Base.{String, true, false, some, List, ◌∷◌, ◌≡◌, refl}
use sentinel_soroban_v.World.{Event, RouteKey, sql}
use sentinel_soroban_v.World.Db.{Cause, Evidence}
use sentinel_soroban_v.World.Monad.{Env, World, ok, ◌>>=◌, catch, query, statement}
use sentinel_soroban_v.World.Cost.{submissions}
use sentinel_soroban_v.Interventions.Executor.{
  frozen, pause_route, revive_route, guarded, ensure_table, gov_frozen, is_admin, still_frozen,
}

-- While governance is frozen and the database answers, an automated pause or revival of a route
-- changes no table and sends no transaction.
pub pause_route-frozen :
    (env : Env) (key : RouteKey) (cause : Cause) (evidence : Evidence) (actor : String) (w : World)
    → ((log : List Event) → env.sql_answers log ≡ true)
    → env.db_configured ≡ true
    → is_admin cause ≡ false
    → w.db.frozen ≡ some true
    → let paused = pause_route env key cause evidence actor w in
      let revived = revive_route env key cause actor w in
      (paused.0 ≡ ok (record { outcome = frozen; disabled_on_chain = false }))
      × (paused.1.db ≡ w.db)
      × (submissions paused.1.log ≡ submissions w.log)
      × (revived.0 ≡ ok still_frozen)
      × (revived.1.db ≡ w.db)
      × (submissions revived.1.log ≡ submissions w.log)
unfolding pause_route revive_route guarded ensure_table gov_frozen statement query ◌>>=◌ catch
pause_route-frozen env key cause evidence actor w up configured automated is_frozen =
    rw (configured, automated)
      (rw (up w.log, up (sql true ∷ w.log))
        (rw
          (up (sql true ∷ sql true ∷ w.log), up (sql true ∷ sql true ∷ sql true ∷ w.log), is_frozen)
          (refl, refl, refl, refl, refl, refl)))
