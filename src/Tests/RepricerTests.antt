-- ===== src/Tests/RepricerTests.antt =====
-- Tests and instances for Repricer.
use sentinel_soroban_v.Base.{true, false, none, some, [], ◌∷◌, ◌≡◌, refl, inr, arith}
use sentinel_soroban_v.World.{exception, json}
use sentinel_soroban_v.World.Db.{Cause}
use sentinel_soroban_v.World.Monad.{Env, World, RouteState}
use sentinel_soroban_v.Weather.{Terms}
use sentinel_soroban_v.Interventions.Guardrails.{is_held}
use sentinel_soroban_v.Interventions.Holds.{enables}
use sentinel_soroban_v.Revive.DryRun.{IsUntouched}
use sentinel_soroban_v.Repricer.{Service, millionths, read_prediction, run}
use sentinel_soroban_v.Repricer.Evidence.{run-is_held, dry-IsUntouched}
use sentinel_soroban_v.Tests.Fixtures.{db_env, route, start, empty_db, row_for}

abbrev fleet_env : Env
fleet_env = record db_env {
  fleet =
      some
        (record { flight_id = "AA100"; origin = "JFK"; destination = "LAX"; enabled = true } ∷ []);
  route_status = λ log key. some RouteState.disabled;
}

abbrev terms : Terms
terms = record {
  rails = record {
    premium_min = 10000000;
    premium_max = 500000000;
    base_premium_max = 300000000;
    surcharge_elevated = 20000000;
    surcharge_severe = 100000000;
  };
  default_premium = 1000;
  premium_override = λ r. none;
}

-- a service that is down
abbrev down : Service
down = record {
  health = λ log. none;
  predict = λ log req. exception;
  terms = terms;
  carrier = λ r. "AAL";
  staged = λ key. record { dep_time_hhmm = none; distance_mi = none };
}

-- a service that gives five per cent
abbrev calm : Service
calm = record down { predict = λ log req. json (some (record { p_covered = millionths 50000 })) }

-- a route that the pricing brake holds
abbrev braked : World
braked = record start {
  db = record empty_db {
    interventions = row_for 1 Cause.pricing ∷ [];
    next_id = 2;
    routes = record { route = route; active = false; pinned = false; pin_until = none } ∷ [];
  };
}

run-is_held_example :
    let after = (run fleet_env down false braked).1 in
    (is_held route Cause.pricing after.db ≡ true)
    × (enables route after.log ≡ enables route braked.log)
unfolding read_prediction
run-is_held_example =
    run-is_held fleet_env down false route Cause.pricing braked
      (inr (λ r iata day p log same read. ground arith)) refl

dry-IsUntouched_example : IsUntouched braked (run fleet_env calm true braked).1
dry-IsUntouched_example = dry-IsUntouched fleet_env calm braked
