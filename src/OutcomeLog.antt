-- ===== src/OutcomeLog.antt =====
-- dapp/api/_lib/outcome_log.ts: one row for each insured flight and day; the first write wins.
use sentinel_soroban_v.Base.{
  ℕ, ◌/◌, String, Bool, not, ◌&&◌, Option, none, some, List, ◌∷◌, ◌==◌, if◌then◌else◌, str_eq, find,
  any,
}
use sentinel_soroban_v.Base.Int.{ℤ}
use sentinel_soroban_v.World.{routes_file}
use sentinel_soroban_v.World.Db.{Outcome, OutcomeRow, Db}
use sentinel_soroban_v.World.Monad.{
  Env, M, FleetRoute, skip, gets, or_raise, ◌>>=◌, ◌>>◌, catch, statement, query, returning,
}

abbrev pub same_key : OutcomeRow → OutcomeRow → Bool
same_key a b =
    str_eq a.flight_id b.flight_id
    && (str_eq a.origin b.origin && (str_eq a.dest b.dest && a.flight_date == b.flight_date))

-- `insert … on conflict do nothing`
unfoldable pub insert_outcome : OutcomeRow → List OutcomeRow → List OutcomeRow
insert_outcome row rows = if any (same_key row) rows then rows else row ∷ rows

-- the insert, and whether it returned a row
unfoldable pub add_outcome : OutcomeRow → Db → Bool × Db
unfolding insert_outcome
add_outcome row db =
    (not (any (same_key row) db.outcomes), record db { outcomes = insert_outcome row db.outcomes })

module _ (env : Env) where
  -- the weather of both airports, then the row; where one is there already it is read to compare
  unfoldable pub log_route : FleetRoute → ℕ → Outcome → Option ℤ → M Unit
  log_route route date outcome delay = do
    let day = date / 86400
    origin_weather ← gets (λ w. env.past_weather w.log route.origin day)
    dest_weather ← gets (λ w. env.past_weather w.log route.destination day)
    statement env (λ db. db)
    statement env (λ db. db)
    inserted ← returning env (λ t. add_outcome (record {
      flight_id = route.flight_id;
      origin = route.origin;
      dest = route.destination;
      flight_date = day;
      outcome = outcome;
      delay_minutes = delay;
      origin_weather = origin_weather;
      dest_weather = dest_weather;
    }))
    if inserted then skip else query env (λ db. tt)

  -- a flight of the fleet is logged, any other is not
  unfoldable pub log_found : Option FleetRoute → ℕ → Outcome → Option ℤ → M Unit
  log_found none date outcome delay = skip
  log_found (some route) date outcome delay = log_route route date outcome delay

  -- `logFlightOutcome`
  unfoldable pub log_flight_outcome : String → ℕ → Outcome → Option ℤ → M Unit
  unfolding log_found
  log_flight_outcome flight_id date outcome delay =
      if env.db_configured
      then catch
          (do
            routes ← or_raise env.fleet routes_file
            log_found (find (λ r. str_eq r.flight_id flight_id) routes) date outcome delay)
          (λ e. skip)
      else skip
