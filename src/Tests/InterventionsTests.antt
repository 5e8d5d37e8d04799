-- ===== src/Tests/InterventionsTests.antt =====
-- Tests and instances for Interventions.
use sentinel_soroban_v.Base.{Bool, false, some}
use sentinel_soroban_v.World.Monad.{World}
use sentinel_soroban_v.World.{RouteKey}
use sentinel_soroban_v.Base.{◌≡◌, refl, true, ◌-◌, min, List, [], ◌∷◌, arith}
use sentinel_soroban_v.World.Db.{Cause, remark}
use sentinel_soroban_v.World.Cost.{submissions}
use sentinel_soroban_v.Interventions.Unique.{IsUnique}
use sentinel_soroban_v.Interventions.Executor.{revive_route}
use sentinel_soroban_v.Interventions.Operations.{
  Operation, pause, revive, perform_all, perform_all-IsUnique,
}
use sentinel_soroban_v.Interventions.Guardrails.{is_held, revive_route-held}
use sentinel_soroban_v.Interventions.Slots.{granted, slot_count, granted-min}
use sentinel_soroban_v.World.Monad.{ok}
use sentinel_soroban_v.Interventions.Executor.{frozen, still_frozen, pause_route}
use sentinel_soroban_v.Interventions.Frozen.{pause_route-frozen}
use sentinel_soroban_v.Interventions.HoldSets.{view}
use sentinel_soroban_v.Interventions.Replay.{Agrees, replay, perform_all-replay}
use sentinel_soroban_v.Tests.Fixtures.{start, db_env, route, held_start}

empty-IsUnique : IsUnique []
empty-IsUnique key cause = omega arith

abbrev operations : List Operation
operations =
    pause route Cause.cancellation (remark "five dead days") "guard"
    ∷ pause route Cause.cancellation (remark "still dead") "guard"
    ∷ pause route Cause.admin (remark "held") "ops"
    ∷ revive route Cause.cancellation "cron"
    ∷ []

perform_all-IsUnique_example : IsUnique (perform_all db_env operations start).db.interventions
perform_all-IsUnique_example = perform_all-IsUnique db_env operations start empty-IsUnique

revive_route-held_example :
    let after = (revive_route db_env route Cause.cancellation "cron" held_start).1 in
    (is_held route Cause.admin after.db ≡ true)
    × (after.db.routes ≡ held_start.db.routes)
    × (submissions after.log ≡ submissions held_start.log)
revive_route-held_example =
    revive_route-held db_env route Cause.cancellation Cause.admin "cron" held_start refl refl

granted-min_example : granted 3 5 4 [] ≡ min 4 (3 - slot_count 5 [])
unfolding slot_count
granted-min_example = granted-min 3 5 4 [] (omega arith) (omega arith)

abbrev frozen_start : World
frozen_start = record held_start { db = record held_start.db { frozen = some true } }

pause_route-frozen_example :
    let paused = pause_route db_env route Cause.weather (remark "storm") "cron" frozen_start in
    let revived = revive_route db_env route Cause.weather "cron" frozen_start in
    (paused.0 ≡ ok (record { outcome = frozen; disabled_on_chain = false }))
    × (paused.1.db ≡ frozen_start.db)
    × (submissions paused.1.log ≡ submissions frozen_start.log)
    × (revived.0 ≡ ok still_frozen)
    × (revived.1.db ≡ frozen_start.db)
    × (submissions revived.1.log ≡ submissions frozen_start.log)
pause_route-frozen_example =
    pause_route-frozen db_env route Cause.weather (remark "storm") "cron" frozen_start (λ log. refl)
      refl refl refl

perform_all-replay_example :
    (took : List Bool) × Agrees db_env operations took start
    × ((key : RouteKey) (cause : Cause)
        → is_held key cause (perform_all db_env operations start).db
          ≡ replay operations took (view start.db) key cause)
perform_all-replay_example = perform_all-replay db_env operations start
