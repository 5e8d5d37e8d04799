-- ===== src/Tests/ReviveTests.antt =====
-- Tests and instances for Revive.
use sentinel_soroban_v.Base.{suc, true, false, some, none, [], ◌∷◌, ◌==◌, ◌≡◌, refl, if◌then◌else◌}
use sentinel_soroban_v.World.Db.{Cause, cause_eq}
use sentinel_soroban_v.World.Monad.{Env, World, RouteState, ok}
use sentinel_soroban_v.Interventions.Executor.{revived, still_held, revive_route}
use sentinel_soroban_v.Interventions.Guardrails.{is_held}
use sentinel_soroban_v.Interventions.Holds.{enables}
use sentinel_soroban_v.Interventions.Closed.{is_on_sale}
use sentinel_soroban_v.Interventions.Reopens.{revive_route-reopens}
use sentinel_soroban_v.Revive.{run}
use sentinel_soroban_v.Interventions.Texts.{revive_text}
use sentinel_soroban_v.Revive.Owners.{run-held}
use sentinel_soroban_v.Revive.DryRun.{IsUntouched, run-IsUntouched}
use sentinel_soroban_v.Tests.Fixtures.{db_env, route, start, empty_db, held_start, row_for}

run-held_example :
    let after = (run db_env false 500000 true held_start).1 in
    (is_held route Cause.admin after.db ≡ true)
    × (enables route after.log ≡ enables route held_start.log)
run-held_example = run-held db_env false true 500000 route Cause.admin held_start refl refl

run-IsUntouched_example : IsUntouched held_start (run db_env true 500000 true held_start).1
run-IsUntouched_example = run-IsUntouched db_env 500000 true held_start

-- A chain that shows a route as disabled until a transaction that enables it is sent, and then as
-- active.
abbrev closed_env : Env
closed_env = record db_env {
  route_status =
      λ log key. some (if enables key log == 0 then RouteState.disabled else RouteState.active);
}

-- A route that a storm alone holds.
abbrev stormy_start : World
stormy_start = record start {
  db = record empty_db {
    interventions = row_for 1 Cause.weather ∷ [];
    next_id = 2;
    routes = record { route = route; active = false; pinned = false; pin_until = none } ∷ [];
  };
}

only_weather :
    (other : Cause)
    → cause_eq Cause.weather other ≡ false
    → is_held route other stormy_start.db ≡ false
only_weather Cause.cancellation h = refl
only_weather Cause.exposure h = refl
only_weather Cause.weather h = cc
only_weather Cause.pricing h = refl
only_weather Cause.admin h = refl

revive_route-reopens_example :
    let after = revive_route closed_env route Cause.weather "cron:revive" stormy_start in
    (after.0 ≡ ok revived)
    × (enables route after.1.log ≡ suc (enables route stormy_start.log))
    × ((other : Cause) → is_held route other after.1.db ≡ false)
    × (is_on_sale route after.1.db.routes ≡ true)
revive_route-reopens_example =
    revive_route-reopens closed_env route Cause.weather "cron:revive" stormy_start (λ log. refl)
      (λ log once. rw once refl) (λ log. refl) refl refl only_weather

still_held_text :
    revive_text Cause.weather (still_held (Cause.admin ∷ Cause.pricing ∷ []))
    ≡ "weather cleared; still paused (admin+pricing)"
unfolding revive_text
still_held_text = refl
