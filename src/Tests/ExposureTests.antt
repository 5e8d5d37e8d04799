-- ===== src/Tests/ExposureTests.antt =====
-- Tests and instances for Exposure.
use sentinel_soroban_v.Base.{
  ◌+◌, ◌/◌, ◌≤◌, max, Bool, true, false, ◌&&◌, some, none, List, [], ◌∷◌, ◌≡◌, refl, any, length,
  select, str_eq, if◌then◌else◌, arith,
}
use sentinel_soroban_v.World.Db.{key_eq}
use sentinel_soroban_v.World.Monad.{Env, FleetRoute, word}
use sentinel_soroban_v.Exposure.{
  FlightExposure, Cutoffs, compute_concentrations, compute_exposure_signals, fraction, units_of,
}
use sentinel_soroban_v.Exposure.Sums.{liability, flies, touches, compute_concentrations-sums}
use sentinel_soroban_v.Exposure.Thresholds.{
  signalled, is_route, is_origin, is_dest, overexposed, compute_exposure_signals-severe,
}
use sentinel_soroban_v.Exposure.Collector.{measure_and_act}
use sentinel_soroban_v.Exposure.Brake.{
  disables, disable_calls, thrown_disables, measure_and_act-disables,
}
use sentinel_soroban_v.Tests.Fixtures.{db_env, start, route}

abbrev flights : List FlightExposure
flights =
    record { route = route; liability_units = 300 }
    ∷ record { route = record route { dest = "SFO" }; liability_units = 250 }
    ∷ record { route = route; liability_units = 10 }
    ∷ []

abbrev cutoffs : Cutoffs
cutoffs = record { elevated_at = 250000; severe_at = 500000 }

compute_concentrations-sums_example :
    let conc = compute_concentrations flights 1000 in
    (units_of key_eq route conc.routes ≡ (
      if any (flies route) flights
      then some (fraction 1000 (liability (flies route) flights))
      else none))
    × (units_of str_eq "JFK" conc.airports ≡ (
        if any (touches "JFK") flights
        then some (fraction 1000 (liability (touches "JFK") flights))
        else none))
compute_concentrations-sums_example = compute_concentrations-sums flights 1000 route "JFK"

-- the hub carries 56% of the capacity, neither route half of it
hub_is_severe :
    let specs = compute_exposure_signals cutoffs flights 1000 in
    (signalled (is_origin "JFK") specs ≡ true) × (signalled (is_route route) specs ≡ false)
unfolding compute_exposure_signals
hub_is_severe = (refl, refl)

compute_exposure_signals-severe_example :
    let specs = compute_exposure_signals cutoffs flights 1000 in
    let at_airport : Bool =
      any (touches "JFK") flights && overexposed cutoffs 1000 (liability (touches "JFK") flights) in
    (signalled (is_route route) specs
      ≡ (any (flies route) flights && overexposed cutoffs 1000 (liability (flies route) flights)))
    × (signalled (is_origin "JFK") specs ≡ at_airport)
    × (signalled (is_dest "JFK") specs ≡ at_airport)
compute_exposure_signals-severe_example =
    compute_exposure_signals-severe cutoffs flights 1000 route "JFK" (omega arith)

abbrev fleet : List FleetRoute
fleet =
    record { flight_id = "AA100"; origin = "JFK"; destination = "LAX"; enabled = true }
    ∷ record { flight_id = "AA200"; origin = "JFK"; destination = "SFO"; enabled = true }
    ∷ []

-- ten policies of a hundred each, in a vault of a thousand
abbrev exposed_env : Env
exposed_env = record db_env {
  fleet = some fleet;
  counter = λ log q. some 1000;
  flight_config = λ log id date. some (
      some (record {
        status = word "Active";
        payoff = some 100;
        claim_expiry = none;
        buyer_count = some 10;
        claimed_count = none;
      }));
}

measure_and_act-disables_example :
    let after = (measure_and_act exposed_env false cutoffs start).1.log in
    let cap = if false then 0 else max 3 ((length (select (λ r. r.enabled) fleet) + 4) / 5) in
    (disables after ≤ disables start.log + cap)
    × (disable_calls after + thrown_disables start.log
        ≤ disable_calls start.log + cap + thrown_disables after)
measure_and_act-disables_example =
    measure_and_act-disables exposed_env fleet false cutoffs start (λ log. refl) refl
