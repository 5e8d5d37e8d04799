-- ===== src/Tests/SettlerTests.antt =====
-- Tests and instances for Settler.
use sentinel_soroban_v.Base.{ℕ, List, length, arith, ◌≢◌, ◌≤◌, ◌+◌, refl, true, some}
use sentinel_soroban_v.World.{Event}
use sentinel_soroban_v.World.Monad.{Env, ok}
use sentinel_soroban_v.World.Cost.{submissions}
use sentinel_soroban_v.Settler.{run}
use sentinel_soroban_v.Settler.Stall.{run-stalled}
use sentinel_soroban_v.Tests.Fixtures.{env, start}

-- seven outcomes, and one more with each event
abbrev pending : List Event → ℕ
pending log = length log + 7

abbrev stuck_env : Env
stuck_env = record env { counter = λ log q. some (pending log) }

run-stalled_example :
    (submissions (run stuck_env start).1.log ≤ submissions start.log + 16)
    × ((run stuck_env start).0 ≢ ok true)
run-stalled_example =
    run-stalled stuck_env pending start (λ log. refl) (λ e log. omega arith) (omega arith)
