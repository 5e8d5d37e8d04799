-- ===== src/Tests/KeeperTests.antt =====
-- Tests and instances for Classifier and Queue.
use sentinel_soroban_v.Base.{◌+◌, ◌/◌, min, ◌≡◌, ◌≤◌, refl, some}
use sentinel_soroban_v.World.Monad.{Env, ok}
use sentinel_soroban_v.World.Cost.{submissions}
use sentinel_soroban_v.Classifier.{swept, run}
use sentinel_soroban_v.Classifier.Passes.{passes_made, run-swept}
use sentinel_soroban_v.Queue.{run as queue_run}
use sentinel_soroban_v.Queue.Transactions.{queue-barrier}
use sentinel_soroban_v.Tests.Fixtures.{env, start}

-- an active set of twenty flights, and as many pending outcomes
abbrev busy_env : Env
busy_env = record env { counter = λ log q. some 20 }

run-swept_example :
    let passes = min (19 / 8 + 1) 12 in
    let r = run busy_env start in
    (r.0 ≡ ok (swept passes passes)) × (passes_made r.1.log ≡ passes_made start.log + passes)
run-swept_example =
    run-swept busy_env 19 start (λ log. refl) (λ log later. refl)
      (record {
        accounts = λ log c. refl;
        simulates = λ log c. refl;
        sends = λ log c. refl;
        succeeds = λ log c. refl;
      })

queue-barrier_example : submissions (queue_run busy_env start).1.log ≤ submissions start.log
queue-barrier_example = queue-barrier busy_env 19 start (λ log. refl)
