-- ===== src/Weather.antt =====
-- dapp/api/_lib/jobs/weather.ts: the surcharges of storms, and the pauses of extreme ones.
pub mod Rotation
pub mod Premiums
pub mod Pays
pub mod Budget
use Prim.Native.String.{◌++◌ as str_append}
use sentinel_soroban_v.Base.{
  ℕ, ◌+◌, ◌*◌, ◌/◌, ◌%◌, String, Bool, true, false, not, ◌&&◌, ◌||◌, Option, none, some, List, [],
  ◌∷◌, ◌++◌, ◌==◌, ltb, leb, if◌then◌else◌, select, or_else,
}
use sentinel_soroban_v.Base.Text.{codes}
use sentinel_soroban_v.World.{RouteKey, routes_file, route_status}
use sentinel_soroban_v.World.Db.{Cause, DailyForecast, storm, key_eq}
use sentinel_soroban_v.World.Monad.{
  Env, FleetRoute, RouteState, M, transition, skipped, error, unscoped, deferred, pure, skip,
  or_raise, push, now, read_as, catch, ◌>>=◌, ◌>>◌,
}
use sentinel_soroban_v.RouteRules.{
  RouteRails, Severity, fair, is_severe, is_elevated, is_extreme_forecast, classify_forecast,
  combine_severity, clamp_premium, weather_surcharge_units,
}
use sentinel_soroban_v.Submitter.{update_terms}
use sentinel_soroban_v.Interventions.Texts.{pause_text}
use sentinel_soroban_v.Interventions.Executor.{PauseResult, pause_route}
use sentinel_soroban_v.Revive.{Cache, cached, cached_forecast}
use sentinel_soroban_v.Ttl.{hash_from}

-- What the job reads of the routes file besides its routes: the rails, and the premiums in cents, the
-- default and the overrides.
pub record Terms : Type 0 where
  pub rails : RouteRails
  pub default_premium : ℕ
  pub premium_override : FleetRoute → Option ℕ

-- `usdcToBaseUnits`, from the cents that `Math.round` gives
abbrev pub usdc_to_base_units : ℕ → ℕ
usdc_to_base_units cents = cents * 100000

-- the premium of `fileTerms`
abbrev pub file_premium : Terms → FleetRoute → ℕ
file_premium terms r = usdc_to_base_units (or_else (terms.premium_override r) terms.default_premium)

abbrev pub key_of_route : FleetRoute → RouteKey
key_of_route r = record { flight_id = r.flight_id; origin = r.origin; dest = r.destination }

-- the hash and the shard of `inShard`
unfoldable pub quarter_of : FleetRoute → ℕ
quarter_of r =
    hash_from 0 (
      codes (
        str_append r.flight_id
          (str_append "|" (str_append r.origin (str_append "|" r.destination)))))
    % 4

-- `shardIdx`
abbrev pub quarter_at : ℕ → ℕ
quarter_at now = now / 7200000 % 4

abbrev pub is_fair : Severity → Bool
is_fair s = not (is_severe s) && not (is_elevated s)

-- `calmAirports.has`
unfoldable pub is_calm : Cache → String → Bool
is_calm cache iata = elim (cached iata cache) [
  | none ↦ false
  | some f ↦ not (is_extreme_forecast f) && is_fair (classify_forecast f)
]

-- `extremeAirports.has`
unfoldable pub is_extreme : Cache → String → Bool
is_extreme cache iata = elim (cached iata cache) [ none ↦ false | some f ↦ is_extreme_forecast f ]

abbrev pub touches_extreme : Cache → FleetRoute → Bool
touches_extreme cache r = is_extreme cache r.origin || is_extreme cache r.destination

-- the routes that a pass takes
unfoldable pub is_due : Cache → ℕ → FleetRoute → Bool
is_due cache now r =
    not (is_calm cache r.origin)
    || (not (is_calm cache r.destination) || quarter_of r == quarter_at now)

-- the stable sort: routes that touch an extreme airport first
unfoldable pub to_process : Cache → ℕ → List FleetRoute → List FleetRoute
unfolding is_due
to_process cache now routes =
    let due = select (is_due cache now) routes in
    select (touches_extreme cache) due ++ select (λ r. not (touches_extreme cache r)) due

-- A status and, of an active route, its premium
pub record OnChainRoute : Type 0 where
  pub status : RouteState
  pub premium : Option ℕ

abbrev pub premium_if : RouteState → ℕ → Option ℕ
premium_if RouteState.active units = some units
premium_if _ units = none

-- `fromRouteStatus`
unfoldable pub from_route_status : Option RouteState → ℕ → Option OnChainRoute
from_route_status none units = none
from_route_status (some state) units =
    some (record { status = state; premium = premium_if state units })

-- `statusByKey`, the latest entry first; none where the read failed
abbrev pub Statuses : Type 0
Statuses = List (RouteKey × Option OnChainRoute)

unfoldable pub status_of : RouteKey → Statuses → Option OnChainRoute
status_of key [] = none
status_of key ((k, s) ∷ rest) = let found = status_of key rest in if key_eq k key then s else found

abbrev pub is_active : RouteState → Bool
is_active RouteState.active = true
is_active _ = false

abbrev pub is_at : Option ℕ → ℕ → Bool
is_at none target = false
is_at (some units) target = units == target

-- `target`
unfoldable pub target_premium : Terms → FleetRoute → Option DailyForecast → Option DailyForecast → ℕ
target_premium terms r o d =
    clamp_premium
      (file_premium terms r
        + weather_surcharge_units (combine_severity (classify_forecast o) (classify_forecast d))
            terms.rails)
      terms.rails

-- `txCount` and `deferred`
pub record Pass : Type 0 where
  pub txs : ℕ
  pub deferred_routes : ℕ

module _ (env : Env) (dry_run : Bool) (terms : Terms) where
  -- one forecast for each airport of the enabled routes
  unfoldable pub gather : List FleetRoute → Cache → M Cache
  gather [] cache = pure cache
  gather (r ∷ rest) cache = do
    o ← cached_forecast env dry_run r.origin cache
    d ← cached_forecast env dry_run r.destination o.1
    gather rest d.1

  unfoldable pub read_on_chain : RouteKey → M OnChainRoute
  unfolding from_route_status
  read_on_chain key =
      read_as env (route_status key)
        (λ log. from_route_status (env.route_status log key) (env.route_premium log key))

  unfoldable pub read_statuses : List FleetRoute → Statuses → M Statuses
  unfolding read_on_chain
  read_statuses [] found = pure found
  read_statuses (r ∷ rest) found = do
    s ← catch (do s ← read_on_chain (key_of_route r); pure (some s)) (λ e. pure none)
    read_statuses rest ((key_of_route r, s) ∷ found)

  -- an extreme forecast pauses the route
  unfoldable pub pause_for_storm :
      FleetRoute → Option DailyForecast → Option DailyForecast → Pass → M Pass
  pause_for_storm r o d p =
      if dry_run
      then (do push r.flight_id (skipped "[dry-run] EXTREME forecast — would pause"); pure p)
      else (do
        result ← pause_route env (key_of_route r) Cause.weather (storm o d) "cron:weather"
        push r.flight_id (
            transition (str_append "EXTREME forecast — " (pause_text Cause.weather result.outcome)))
        pure (record p { txs = p.txs + 1 }))

  unfoldable pub update_price : FleetRoute → ℕ → Pass → M Pass
  update_price r target p =
      if dry_run
      then (do push r.flight_id (skipped "[dry-run]"); pure p)
      else if leb 15 p.txs
      then pure (record p { deferred_routes = p.deferred_routes + 1 })
      else (do
        update_terms env "cron:weather" (key_of_route r) target
        push r.flight_id (transition "premium")
        pure (record p { txs = p.txs + 1 }))

  -- an active route whose premium is another than the target gets it
  unfoldable pub reprice : FleetRoute → ℕ → Option OnChainRoute → Pass → M Pass
  unfolding update_price
  reprice r target none p = do
    push r.flight_id (skipped "on-chain status read failed — next pass heals")
    pure p
  reprice r target (some s) p =
      if not (is_active s.status)
      then (do push r.flight_id (skipped "weather only reprices active routes"); pure p)
      else if is_at s.premium target
      then (do push r.flight_id (skipped "at target"); pure p)
      else update_price r target p

  unfoldable pub process_route :
      FleetRoute → Statuses → Option DailyForecast → Option DailyForecast → Pass → M Pass
  unfolding pause_for_storm reprice target_premium status_of
  process_route r statuses o d p =
      if is_extreme_forecast o || is_extreme_forecast d
      then pause_for_storm r o d p
      else reprice r (target_premium terms r o d) (status_of (key_of_route r) statuses) p

  -- a route within the time budget; every forecast is in the cache by now
  unfoldable pub try_route : Statuses → FleetRoute → Cache → Pass → M (Pass × Cache)
  unfolding process_route
  try_route statuses r cache p =
      catch
        (do
          o ← cached_forecast env dry_run r.origin cache
          d ← cached_forecast env dry_run r.destination o.1
          p' ← process_route r statuses o.0 d.0 p
          pure (p', d.1))
        (λ e. do push r.flight_id (error e); pure (p, cache))

  unfoldable pub try_or_defer : ℕ → Statuses → FleetRoute → Cache → Pass → M (Pass × Cache)
  unfolding try_route
  try_or_defer start statuses r cache p = do
    t ← now env
    if ltb (start + 220000) t
        then pure (record p { deferred_routes = p.deferred_routes + 1 }, cache)
        else try_route statuses r cache p

  unfoldable pub process_all : ℕ → Statuses → List FleetRoute → Cache → Pass → M Pass
  unfolding try_or_defer
  process_all start statuses [] cache p = pure p
  process_all start statuses (r ∷ rest) cache p = do
    next ← try_or_defer start statuses r cache p
    process_all start statuses rest next.1 next.0

  unfoldable pub note_pass : Pass → M Unit
  note_pass p =
      if ltb 0 p.deferred_routes
      then push "-" (skipped "deferred (tx/time budget) — next 2h pass continues")
      else skip

  -- `run`: whether it reports success
  unfoldable pub run : M Bool
  unfolding gather read_statuses process_all note_pass to_process
  run = do
    start ← now env
    catch
        (do
          fleet ← or_raise env.fleet routes_file
          let enabled = select (λ r. r.enabled) fleet
          cache ← gather enabled []
          t ← now env
          let routes = to_process cache t enabled
          statuses ← read_statuses routes []
          p ← process_all start statuses routes cache (record { txs = 0; deferred_routes = 0 })
          note_pass p
          pure true)
        (λ e. pure false)
