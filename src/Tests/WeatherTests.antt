-- ===== src/Tests/WeatherTests.antt =====
-- Tests and instances for Weather.
use sentinel_soroban_v.Base.{
  ℕ, ◌+◌, ◌*◌, ◌/◌, ◌≤◌, true, false, ◌&&◌, some, none, [], ◌∷◌, ◌≡◌, count, arith,
}
use sentinel_soroban_v.World.Monad.{Env, FleetRoute}
use sentinel_soroban_v.Revive.{Cache}
use sentinel_soroban_v.Weather.{Terms, is_calm, is_due, run}
use sentinel_soroban_v.Weather.Rotation.{is_due-rotation}
use sentinel_soroban_v.Weather.Premiums.{Sends, overpriced, run-premiums}
use sentinel_soroban_v.Weather.Pays.{updates, update_calls, thrown_updates}
use sentinel_soroban_v.Weather.Budget.{run-updates}
use sentinel_soroban_v.Tests.Fixtures.{db_env, start}

abbrev fleet_route : FleetRoute
fleet_route = record { flight_id = "AA100"; origin = "JFK"; destination = "LAX"; enabled = true }

abbrev calm_cache : ℕ → Cache
calm_cache k = ("JFK", none) ∷ ("LAX", none) ∷ []

abbrev pass_time : ℕ → ℕ
pass_time k = (240000 + k) * 7200000 + 60000

pass_time_lem : (k : ℕ) → pass_time k / 7200000 ≡ 240000 + k
pass_time_lem k = omega arith

is_due-rotation_example :
    ((k : ℕ)
      → (is_calm (calm_cache k) "JFK" && is_calm (calm_cache k) "LAX") ≡ false
      → is_due (calm_cache k) (pass_time k) fleet_route ≡ true)
    × (((k : ℕ) → (is_calm (calm_cache k) "JFK" && is_calm (calm_cache k) "LAX") ≡ true)
        → count (λ k. is_due (calm_cache k) (pass_time k) fleet_route) (0 ∷ 1 ∷ 2 ∷ 3 ∷ []) ≡ 1)
is_due-rotation_example = is_due-rotation fleet_route 240000 pass_time calm_cache pass_time_lem

-- the fleet file's base of ten dollars, where the chain shows five
abbrev terms : Terms
terms = record {
  rails = record {
    premium_min = 10000000;
    premium_max = 500000000;
    base_premium_max = 300000000;
    surcharge_elevated = 20000000;
    surcharge_severe = 100000000;
  };
  default_premium = 1000;
  premium_override = λ r. none;
}

-- a pass of the route's quarter
abbrev fleet_env : Env
fleet_env = record db_env { fleet = some (fleet_route ∷ []); now = λ log. 1728367200000 }

run-premiums_example :
    let after = (run fleet_env false terms start).1 in
    (overpriced 500000000 after.log ≡ overpriced 500000000 start.log) × Sends false start after
run-premiums_example = run-premiums fleet_env false terms start (omega arith)

run-updates_example :
    let after = (run fleet_env false terms start).1.log in
    (updates after ≤ updates start.log + 15)
    × (update_calls after + thrown_updates start.log
        ≤ update_calls start.log + 15 + thrown_updates after)
run-updates_example = run-updates fleet_env false terms start
