-- ===== src/Exposure.antt =====
-- dapp/api/_lib/governance/exposure_collector.ts: how much of the vault's capacity stands behind one
-- route or one airport, and the brake. Amounts are natural numbers, and a fraction is counted in
-- millionths, as `fraction` computes it.
pub mod Collector
pub mod Sums
pub mod Thresholds
pub mod Brake
use sentinel_soroban_v.Base.{
  ℕ, ◌+◌, ◌-◌, ◌*◌, ◌/◌, String, Bool, not, Option, none, some, List, [], ◌∷◌, ◌++◌, ◌==◌, leb,
  if◌then◌else◌, str_eq,
}
use sentinel_soroban_v.World.{RouteKey}
use sentinel_soroban_v.World.Db.{key_eq}

-- `FlightExposure`
pub record FlightExposure : Type 0 where
  pub route : RouteKey
  pub liability_units : ℕ

-- An entry of a map of `computeConcentrations`; the entries stand in order of insertion
pub record Bucket (K : Type 0) : Type 0 where
  pub key : K
  pub units : ℕ

module _ {K : Type 0} (same : K → K → Bool) where
  -- `m.set(key, (m.get(key) ?? 0n) + n)`
  unfoldable pub add_units : K → ℕ → List (Bucket K) → List (Bucket K)
  add_units key n [] = record { key = key; units = n } ∷ []
  add_units key n (b ∷ rest) =
      let rest' = add_units key n rest in
      if same b.key key then record b { units = b.units + n } ∷ rest else b ∷ rest'

  -- `m.get(key)`
  unfoldable pub units_of : K → List (Bucket K) → Option ℕ
  units_of key [] = none
  units_of key (b ∷ rest) = if same b.key key then some b.units else units_of key rest

-- a flight whose ends are one airport counts once there
unfoldable pub add_ends : FlightExposure → List (Bucket String) → List (Bucket String)
unfolding add_units
add_ends f airports =
    let once = add_units str_eq f.route.origin f.liability_units airports in
    if str_eq f.route.dest f.route.origin
    then once
    else add_units str_eq f.route.dest f.liability_units once

-- the loop over the flights
unfoldable pub sum_routes : List FlightExposure → List (Bucket RouteKey) → List (Bucket RouteKey)
unfolding add_units
sum_routes [] routes = routes
sum_routes (f ∷ rest) routes = sum_routes rest (add_units key_eq f.route f.liability_units routes)

unfoldable pub sum_airports : List FlightExposure → List (Bucket String) → List (Bucket String)
unfolding add_ends
sum_airports [] airports = airports
sum_airports (f ∷ rest) airports = sum_airports rest (add_ends f airports)

-- `fraction`, rounded up; nought where there is no capacity
unfoldable pub fraction : ℕ → ℕ → ℕ
fraction total units = if total == 0 then 0 else (units * 1000000 + total - 1) / total

-- `Concentrations`
pub record Concentrations : Type 0 where
  pub routes : List (Bucket RouteKey)
  pub airports : List (Bucket String)

unfoldable pub to_fractions : {K : Type 0} → ℕ → List (Bucket K) → List (Bucket K)
unfolding fraction
to_fractions total [] = []
to_fractions total (b ∷ rest) =
    record b { units = fraction total b.units } ∷ to_fractions total rest

-- `computeConcentrations`, with fractions for units
unfoldable pub compute_concentrations : List FlightExposure → ℕ → Concentrations
unfolding sum_routes sum_airports to_fractions
compute_concentrations flights total = record {
  routes = to_fractions total (sum_routes flights []);
  airports = to_fractions total (sum_airports flights []);
}

-- the severities of `computeExposureSignals`
pub data Level : Type 0 where
  elevated severe : Level

-- The cutoffs, in millionths
pub record Cutoffs : Type 0 where
  pub elevated_at : ℕ
  pub severe_at : ℕ

-- `severityFor`
unfoldable pub severity_for : Cutoffs → ℕ → Option Level
severity_for cut frac =
    if leb cut.severe_at frac
    then some severe
    else if leb cut.elevated_at frac
    then some elevated
    else none

pub data Scope : Type 0 where
  on_route : RouteKey → Scope
  on_origin on_dest : String → Scope

-- `ExposureSignalSpec`
pub record ExposureSignalSpec : Type 0 where
  pub severity : Level
  pub scope : Scope
  pub fraction : ℕ

abbrev pub spec_of : Level → Scope → ℕ → ExposureSignalSpec
spec_of severity scope frac = record { severity = severity; scope = scope; fraction = frac }

-- a signal of each scope, where the fraction crosses a cutoff
abbrev pub route_specs :
    Bucket RouteKey → Option Level → List ExposureSignalSpec → List ExposureSignalSpec
route_specs r none rest = rest
route_specs r (some level) rest = spec_of level (on_route r.key) r.units ∷ rest

abbrev pub airport_specs :
    Bucket String → Option Level → List ExposureSignalSpec → List ExposureSignalSpec
airport_specs a none rest = rest
airport_specs a (some level) rest =
    spec_of level (on_origin a.key) a.units ∷ spec_of level (on_dest a.key) a.units ∷ rest

unfoldable pub signal_airports : Cutoffs → List (Bucket String) → List ExposureSignalSpec
unfolding severity_for
signal_airports cut [] = []
signal_airports cut (a ∷ rest) =
    airport_specs a (severity_for cut a.units) (signal_airports cut rest)

unfoldable pub signal_routes :
    Cutoffs → List (Bucket RouteKey) → List ExposureSignalSpec → List ExposureSignalSpec
unfolding severity_for
signal_routes cut [] behind = behind
signal_routes cut (r ∷ rest) behind =
    route_specs r (severity_for cut r.units) (signal_routes cut rest behind)

-- `computeExposureSignals`
unfoldable pub compute_exposure_signals :
    Cutoffs → List FlightExposure → ℕ → List ExposureSignalSpec
unfolding compute_concentrations signal_routes signal_airports
compute_exposure_signals cut flights total =
    if total == 0
    then []
    else (let conc = compute_concentrations flights total in
        signal_routes cut conc.routes (signal_airports cut conc.airports))
