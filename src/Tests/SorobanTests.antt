-- ===== src/Tests/SorobanTests.antt =====
-- Tests and instances for Soroban.
use sentinel_soroban_v.Base.{◌≢◌, ◌≤◌, refl, true, false}
use sentinel_soroban_v.World.{classify_flights}
use sentinel_soroban_v.World.Monad.{Env, ok, throws}
use sentinel_soroban_v.World.Cost.{submissions}
use sentinel_soroban_v.Soroban.{invoke}
use sentinel_soroban_v.Soroban.Costs.{invoke-refused}
use sentinel_soroban_v.Tests.Fixtures.{env, start}

-- every submission collides with another one
abbrev colliding_env : Env
colliding_env = record env { send = λ log c. throws true }

-- the contract is paused
abbrev paused_env : Env
paused_env = record env { simulate = λ log c. throws false }

invoke-refused_example :
    (submissions (invoke paused_env classify_flights start).1.log ≤ submissions start.log)
    × ((invoke paused_env classify_flights start).0 ≢ ok tt)
invoke-refused_example = invoke-refused paused_env classify_flights start (λ log. (false, refl))
