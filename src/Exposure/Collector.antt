-- ===== src/Exposure/Collector.antt =====
-- dapp/api/_lib/governance/exposure_collector.ts: the reads of the chain, and the brake of a run;
-- dapp/api/_lib/governance/exposure_history.ts: the row that each measured run appends.
use sentinel_soroban_v.FlightStatus
use sentinel_soroban_v.Base.{
  ℕ, ◌+◌, ◌*◌, max, String, Bool, true, false, not, ◌||◌, Option, none, some, List, [], ◌∷◌, ◌++◌,
  ◌==◌, ltb, leb, if◌then◌else◌, length, select, any, or_else, str_eq,
}
use sentinel_soroban_v.World.{
  RouteKey, active_flights, flight_config, total_managed_assets, routes_file,
}
use sentinel_soroban_v.World.Db.{Cause, concentration, ExposureRow, Db, key_eq}
use sentinel_soroban_v.World.Monad.{
  Env, M, FleetRoute, FlightConfig, transition, skipped, error, unscoped, pure, skip, or_raise,
  push, ◌>>=◌, ◌>>◌, catch, read_as, statement,
}
use sentinel_soroban_v.Status.{parse_flight_status}
use sentinel_soroban_v.Interventions.Ledger.{compute_disable_cap}
use sentinel_soroban_v.Interventions.Texts.{pause_text}
use sentinel_soroban_v.Interventions.Executor.{
  claim_disable_slot, release_disable_slot, pause_route,
}
use sentinel_soroban_v.Exposure.{
  FlightExposure, Bucket, compute_concentrations, Level, elevated, severe, Cutoffs, Scope, on_route,
  on_origin, on_dest, ExposureSignalSpec, compute_exposure_signals,
}

-- What `readExposure` returns
pub record Reading : Type 0 where
  pub flights : List FlightExposure
  pub total_managed : ℕ
  pub unknown_liability : ℕ
  pub unknown_flights : List String
  pub open_policies : ℕ

-- `new Map(routes.map(...)).get(flightId)`: the last route of the id
unfoldable pub route_by_flight : String → List FleetRoute → Option FleetRoute
route_by_flight id [] = none
route_by_flight id (r ∷ rest) = elim (route_by_flight id rest) [
  | none ↦ if str_eq r.flight_id id then some r else none
  | some later ↦ some later
]

-- the statuses whose policies are live; an unknown one counts as live
unfoldable pub is_live : String → Bool
is_live s =
    str_eq s FlightStatus.active
    || (str_eq s FlightStatus.not_initiated || str_eq s FlightStatus.unknown)

-- `if (!unknownFlights.includes(id)) unknownFlights.push(id)`
abbrev pub note_unknown : String → List String → List String
note_unknown id ids = if any (λ x. str_eq x id) ids then ids else ids ++ (id ∷ [])

-- the flight's policies, under its route or under no route
unfoldable pub add_policies : String → ℕ → ℕ → Option FleetRoute → Reading → Reading
add_policies id payoff buyers none r = record r {
  unknown_liability = r.unknown_liability + payoff * buyers;
  unknown_flights = note_unknown id r.unknown_flights;
  open_policies = r.open_policies + buyers;
}
add_policies id payoff buyers (some route) r = record r {
  flights =
      r.flights
      ++ (record {
        route = record { flight_id = id; origin = route.origin; dest = route.destination };
        liability_units = payoff * buyers;
      }
          ∷ []);
  open_policies = r.open_policies + buyers;
}

-- one flight of the active list
unfoldable pub add_flight : List FleetRoute → String → Option FlightConfig → Reading → Reading
unfolding add_policies is_live route_by_flight
add_flight fleet id none r = r
add_flight fleet id (some cfg) r =
    if not (is_live (parse_flight_status cfg.status))
    then r
    else if or_else cfg.buyer_count 0 == 0
    then r
    else add_policies id (or_else cfg.payoff 0) (or_else cfg.buyer_count 0)
        (route_by_flight id fleet) r

-- A route that a severe signal reaches, and why
pub record Affected : Type 0 where
  pub route : RouteKey
  pub why : Option String
  pub fraction : ℕ

-- `affected.set`
unfoldable pub put_affected : Affected → List Affected → List Affected
put_affected a [] = a ∷ []
put_affected a (x ∷ rest) =
    let rest' = put_affected a rest in if key_eq x.route a.route then a ∷ rest else x ∷ rest'

abbrev pub key_of : FleetRoute → RouteKey
key_of r = record { flight_id = r.flight_id; origin = r.origin; dest = r.destination }

-- the enabled routes at the airport, those that are there already left alone
unfoldable pub add_at_airport : String → ℕ → List FleetRoute → List Affected → List Affected
add_at_airport iata frac [] affected = affected
add_at_airport iata frac (r ∷ rest) affected = add_at_airport iata frac rest (
    if not (str_eq r.origin iata || str_eq r.destination iata)
      || any (λ a. key_eq a.route (key_of r)) affected
    then affected
    else affected ++ (record { route = key_of r; why = some iata; fraction = frac } ∷ []))

abbrev pub add_scope : Scope → ℕ → List FleetRoute → List Affected → List Affected
add_scope (on_route key) frac enabled affected =
    put_affected (record { route = key; why = none; fraction = frac }) affected
add_scope (on_origin iata) frac enabled affected = add_at_airport iata frac enabled affected
add_scope (on_dest iata) frac enabled affected = add_at_airport iata frac enabled affected

abbrev pub level_is_severe : Level → Bool
level_is_severe severe = true
level_is_severe elevated = false

-- the routes of the severe signals
unfoldable pub affected_by :
    List FleetRoute → List ExposureSignalSpec → List Affected → List Affected
unfolding put_affected add_at_airport
affected_by enabled [] affected = affected
affected_by enabled (s ∷ rest) affected =
    affected_by enabled rest (
      if level_is_severe s.severity
      then add_scope s.scope s.fraction enabled affected
      else affected)

-- `Math.max(0, ...values)`
unfoldable pub worst : {K : Type 0} → List (Bucket K) → ℕ
worst [] = 0
worst (b ∷ rest) = max b.units (worst rest)

unfoldable pub total_liability : List FlightExposure → ℕ
total_liability [] = 0
total_liability (f ∷ rest) = f.liability_units + total_liability rest

unfoldable pub add_exposure_row : ExposureRow → Db → Db
add_exposure_row row db = record db { exposure_history = row ∷ db.exposure_history }

-- the row of a reading
unfoldable pub history_row : Reading → ExposureRow
unfolding worst total_liability
history_row r =
    let conc = compute_concentrations r.flights r.total_managed in
    record {
      total_liability = total_liability r.flights + r.unknown_liability;
      total_managed = r.total_managed;
      unknown_liability = r.unknown_liability;
      open_policies = r.open_policies;
      insured_flights = length r.flights;
      worst_route = worst conc.routes;
      worst_airport = worst conc.airports;
    }

abbrev pub scope_label : Scope → String
scope_label (on_route key) = key.flight_id
scope_label (on_origin iata) = iata
scope_label (on_dest iata) = iata

module _ (env : Env) where
  -- the loop over the active flights
  unfoldable pub read_flights : List FleetRoute → List (String × ℕ) → Reading → M Reading
  unfolding add_flight
  read_flights fleet [] r = pure r
  read_flights fleet ((id, date) ∷ rest) r = do
    cfg ← read_as env (flight_config id date) (λ log. env.flight_config log id date)
    read_flights fleet rest (add_flight fleet id cfg r)

  -- `readExposure`
  unfoldable pub read_exposure : M Reading
  read_exposure = do
    fleet ← or_raise env.fleet routes_file
    total ← read_as env total_managed_assets (λ log. env.counter log total_managed_assets)
    active ← read_as env active_flights env.active_flights
    read_flights fleet active (record {
      flights = [];
      total_managed = total;
      unknown_liability = 0;
      unknown_flights = [];
      open_policies = 0;
    })

  -- `recordExposureHistory`, with the three statements of its table
  unfoldable pub record_exposure_history : ExposureRow → M Unit
  unfolding add_exposure_row
  record_exposure_history row =
      if env.db_configured
      then catch
          (do
            statement env (λ db. db)
            statement env (λ db. db)
            statement env (λ db. db)
            statement env (add_exposure_row row))
          (λ e. skip)
      else skip

  -- the elevated signals are notes
  unfoldable pub note_elevated : List ExposureSignalSpec → M Unit
  note_elevated [] = skip
  note_elevated (s ∷ rest) = do
    (if level_is_severe s.severity
        then skip
        else push (scope_label s.scope) (skipped "elevated exposure (advisory)"))
    note_elevated rest

  -- a claimed slot: the pause, and the slot back where nothing was disabled
  unfoldable pub pause_claimed : Affected → M Bool
  pause_claimed a =
      catch
        (do
          result ←
              pause_route env a.route Cause.exposure (concentration a.why a.fraction)
                "cron:gov_exposure"
          (if result.disabled_on_chain then skip else release_disable_slot env)
          push a.route.flight_id (transition (pause_text Cause.exposure result.outcome))
          pure result.disabled_on_chain)
        (λ e. do release_disable_slot env; push a.route.flight_id (error e); pure false)

  -- one route, and whether the run has disabled it
  unfoldable pub pause_one : Bool → ℕ → ℕ → Affected → M Bool
  pause_one dry_run cap disables a =
      if dry_run
      then (do push a.route.flight_id (skipped "[dry-run] would pause"); pure false)
      else if leb cap disables
      then (do push a.route.flight_id (skipped "circuit breaker: cap reached"); pure false)
      else (do
        claimed ← claim_disable_slot env cap
        if claimed then pause_claimed a else (do
          push a.route.flight_id (skipped "circuit breaker: hourly cap spent across runs")
          pure false))

  -- the loop over the affected routes
  unfoldable pub pause_affected : Bool → ℕ → ℕ → List Affected → M Unit
  unfolding pause_one
  pause_affected dry_run cap disables [] = skip
  pause_affected dry_run cap disables (a ∷ rest) = do
    disabled ← pause_one dry_run cap disables a
    pause_affected dry_run cap (if disabled then disables + 1 else disables) rest

  -- what follows the signals
  unfoldable pub act_on : Bool → List ExposureSignalSpec → M Bool
  act_on dry_run specs =
      if any (λ s. level_is_severe s.severity) specs
      then (do
        fleet ← or_raise env.fleet routes_file
        let enabled = select (λ r. r.enabled) fleet
        pause_affected dry_run (compute_disable_cap (length enabled)) 0
            (affected_by enabled specs [])
        pure true)
      else pure true

  -- what follows a reading
  unfoldable pub act_on_reading : Bool → Cutoffs → Reading → M Bool
  unfolding history_row
  act_on_reading dry_run cut r = do
    record_exposure_history (history_row r)
    (if ltb 0 r.unknown_liability then push "-" (unscoped r.unknown_liability) else skip)
    let specs = compute_exposure_signals cut r.flights r.total_managed
    note_elevated specs
    act_on dry_run specs

  -- the run behind the mirror of the chain's events: whether it reports success
  unfoldable pub measure_and_act : Bool → Cutoffs → M Bool
  measure_and_act dry_run cut =
      catch
        (do
          reading ← catch (do r ← read_exposure; pure (some r)) (λ e. pure none)
          elim reading [ none ↦ pure false | some r ↦ act_on_reading dry_run cut r ])
        (λ e. pure false)
