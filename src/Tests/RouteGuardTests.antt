-- ===== src/Tests/RouteGuardTests.antt =====
-- Tests and instances for RouteGuard.
use sentinel_soroban_v.Base.{◌≡◌, refl, true, some, none, []}
use sentinel_soroban_v.World.{Schedules}
use sentinel_soroban_v.Base.{false}
use sentinel_soroban_v.World.Monad.{World, ok}
use sentinel_soroban_v.Tests.Fixtures.{env, start, route}
use sentinel_soroban_v.RouteGuard.Calls.{sweep_verdict-tripped}
use sentinel_soroban_v.RouteGuard.{
  SweepVerdict, sweep_verdict, verdict_of, near_day, far_day, judge_instances, judge_published,
}
use sentinel_soroban_v.RouteGuard.Verdict.{is_gone_for_all, verdict_of-all_dead}

abbrev no_rows : Schedules
no_rows = record { scheduled = []; next = none }

-- a route without flights and without a schedule is dead
verdict_dead : (verdict_of "AA100" 20000 (some []) (some no_rows)).all_dead ≡ true
unfolding verdict_of near_day far_day judge_instances judge_published
verdict_dead = refl

verdict_of-all_dead_example :
    (verdict_of "AA100" 20000 (some []) (some no_rows)).all_dead
    ≡ is_gone_for_all "AA100" 20000 (some []) (some no_rows)
verdict_of-all_dead_example = verdict_of-all_dead "AA100" 20000 (some []) (some no_rows)

-- the breaker has tripped
abbrev tripped : World
tripped = record start { quota_exhausted = true }

sweep_verdict-tripped_example :
    (v : SweepVerdict) × (sweep_verdict env route 20000 tripped ≡ (ok v, tripped))
    × (v.all_dead ≡ false)
sweep_verdict-tripped_example = sweep_verdict-tripped env route 20000 tripped refl
