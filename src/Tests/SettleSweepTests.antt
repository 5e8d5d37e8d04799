-- ===== src/Tests/SettleSweepTests.antt =====
-- Tests and instances for SettleSweep.
use mathlib.Core.Option.{some-injective}
use sentinel_soroban_v.Base.{sym, refl}
use sentinel_soroban_v.World.Monad.{Env}
use sentinel_soroban_v.Base.{◌≤◌, some, List}
use sentinel_soroban_v.World.{Event}
use sentinel_soroban_v.World.Requirement.{Respects}
use sentinel_soroban_v.SettleSweep.{run}
use sentinel_soroban_v.SettleSweep.Justified.{Needs}
use sentinel_soroban_v.World.Monad.{FlightData, word}
use sentinel_soroban_v.World.Cost.{fetches}
use sentinel_soroban_v.SettleSweep.Economy.{AreEarly, run-AreEarly}
use sentinel_soroban_v.SettleSweep.Safety.{run-Respects}
use sentinel_soroban_v.Tests.Fixtures.{env, start}

abbrev sweep_log : List Event
sweep_log = (run env 18000 start).1.log

run-Respects_example : Respects Needs (run env 18000 start).1.log
run-Respects_example = run-Respects env 18000 start tt

abbrev in_the_air : FlightData
in_the_air = record { status = word "Active"; estimated_arrival_time = some 1728345000 }

-- The clock is within the delay after the arrival.
abbrev early_env : Env
early_env = record env { flight_data = λ log id date. some in_the_air }

early : AreEarly early_env 18000
early log later flight_id date d same =
    let answer = some-injective in_the_air d same in rw (sym answer) (refl, refl)

run-AreEarly_example : fetches (run early_env 18000 start).1.log ≤ fetches start.log
run-AreEarly_example = run-AreEarly early_env 18000 start early
