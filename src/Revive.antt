-- ===== src/Revive.antt =====
-- dapp/api/_lib/jobs/revive.ts: the hourly run that turns paused routes back on.
pub mod Frame
pub mod Owners
pub mod DryRun
use Prim.Native.String.{◌++◌ as str_append}
use sentinel_soroban_v.Base.{
  ℕ, zero, suc, ◌+◌, ◌*◌, ◌/◌, String, Bool, true, false, not, ◌&&◌, ◌||◌, Option, none, some, List,
  [], ◌∷◌, ltb, leb, if◌then◌else◌, select, any, take, or_else, str_eq,
}
use sentinel_soroban_v.World.{RouteKey, routes_file}
use sentinel_soroban_v.World.Db.{
  Cause, InterventionRow, DailyForecast, sweep, fractions, cause_eq, key_eq,
}
use sentinel_soroban_v.World.Monad.{
  Env, M, transition, skipped, error, pure, skip, or_raise, push, set_deadline, ◌>>=◌, ◌>>◌, catch,
  now,
}
use sentinel_soroban_v.Aero.Client.{day_secs}
use sentinel_soroban_v.RouteGuard.{SweepVerdict, sweep_verdict, is_alive}
use sentinel_soroban_v.RouteRules.{is_extreme_forecast}
use sentinel_soroban_v.WeatherClient.{get_forecast}
use sentinel_soroban_v.Interventions.Texts.{revive_text}
use sentinel_soroban_v.Interventions.Executor.{
  ReviveOutcome, revived, no_key, still_frozen, still_held, open_interventions, revive_route,
  touch_intervention, record_clear_check,
}
use sentinel_soroban_v.Exposure.{Concentrations, compute_concentrations, units_of}
use sentinel_soroban_v.Exposure.Collector.{read_exposure}

abbrev pub cancellation_recheck_hours : ℕ
cancellation_recheck_hours = 20

abbrev pub cancellation_batch : ℕ
cancellation_batch = 20

abbrev pub exposure_clear_streak : ℕ
exposure_clear_streak = 2

abbrev pub run_budget_ms : ℕ
run_budget_ms = 240000

abbrev pub of_cause : Cause → List InterventionRow → List InterventionRow
of_cause cause rows = select (λ r. cause_eq r.cause cause) rows

-- `forecastCache`
abbrev pub Cache : Type 0
Cache = List (String × Option DailyForecast)

unfoldable pub cached : String → Cache → Option (Option DailyForecast)
cached iata [] = none
cached iata ((key, f) ∷ rest) = if str_eq key iata then some f else cached iata rest

-- both forecasts, and whether one of them is extreme
abbrev pub still_extreme : Option DailyForecast → Option DailyForecast → Bool
still_extreme o d = is_extreme_forecast o || is_extreme_forecast d

-- The fractions of a route and of its airports, in millionths; nought where there is none
abbrev pub route_fraction : Concentrations → InterventionRow → ℕ
route_fraction conc row = or_else (units_of key_eq row.route conc.routes) 0

abbrev pub origin_fraction : Concentrations → InterventionRow → ℕ
origin_fraction conc row = or_else (units_of str_eq row.route.origin conc.airports) 0

abbrev pub dest_fraction : Concentrations → InterventionRow → ℕ
dest_fraction conc row = or_else (units_of str_eq row.route.dest conc.airports) 0

unfoldable pub is_eased : ℕ → Concentrations → InterventionRow → Bool
is_eased severe_at conc row =
    ltb (route_fraction conc row) severe_at
    && (ltb (origin_fraction conc row) severe_at && ltb (dest_fraction conc row) severe_at)

module _ (env : Env) (dry_run : Bool) where
  -- the revival of one row's cause
  unfoldable pub revive_row : Cause → InterventionRow → M Unit
  revive_row cause row = do
    outcome ← revive_route env row.route cause "cron:revive"
    push row.route.flight_id (transition (revive_text cause outcome))

  -- the cancellation rows that were not checked for long
  unfoldable pub filter_due : List InterventionRow → M (List InterventionRow)
  filter_due [] = pure []
  filter_due (row ∷ rest) = do
    t ← now env
    due ← filter_due rest
    pure (
        if ltb (row.last_checked_at * 1000 + cancellation_recheck_hours * 3600000) t
        then row ∷ due
        else due)

  unfoldable pub due_rows : Bool → List InterventionRow → M (List InterventionRow)
  due_rows true rows = pure rows
  due_rows false rows = do due ← filter_due rows; pure (take cancellation_batch due)

  -- what a sweep's verdict comes to
  unfoldable pub on_sweep : InterventionRow → SweepVerdict → M Unit
  on_sweep row verdict =
      if any is_alive verdict.days && not dry_run
      then revive_row Cause.cancellation row
      else if any is_alive verdict.days
      then push row.route.flight_id (skipped "[dry-run] would revive — schedule is back")
      else (do
        touch_intervention env row.id (some (sweep verdict.days))
        push row.route.flight_id (skipped "still dead/unverifiable — stays paused"))

  unfoldable pub sweep_row : InterventionRow → M Unit
  sweep_row row = do
    t ← now env
    verdict ← sweep_verdict env row.route (t / 1000 / day_secs)
    on_sweep row verdict

  unfoldable pub check_cancelled : ℕ → InterventionRow → M Unit
  unfolding sweep_row
  check_cancelled deadline row = do
    t ← now env
    if ltb deadline t
        then push row.route.flight_id (skipped "run time budget exhausted")
        else catch (sweep_row row) (λ e. push row.route.flight_id (error e))

  unfoldable pub check_all_cancelled : ℕ → List InterventionRow → M Unit
  unfolding check_cancelled
  check_all_cancelled deadline [] = skip
  check_all_cancelled deadline (row ∷ rest) = do
    check_cancelled deadline row
    check_all_cancelled deadline rest

  -- `getForecast` of the job: one request for each airport
  unfoldable pub forecast_from :
      String → Cache → Option (Option DailyForecast) → M (Option DailyForecast × Cache)
  forecast_from iata cache (some f) = pure (f, cache)
  forecast_from iata cache none = do f ← get_forecast env iata; pure (f, (iata, f) ∷ cache)

  unfoldable pub cached_forecast : String → Cache → M (Option DailyForecast × Cache)
  unfolding forecast_from cached
  cached_forecast iata cache = forecast_from iata cache (cached iata cache)

  unfoldable pub on_forecasts :
      InterventionRow → Option DailyForecast → Option DailyForecast → M Unit
  on_forecasts row o d =
      if not (still_extreme o d) && not dry_run
      then revive_row Cause.weather row
      else if not (still_extreme o d)
      then push row.route.flight_id (skipped "[dry-run] would revive — forecast cleared")
      else (do
        touch_intervention env row.id none
        push row.route.flight_id (skipped "forecast still extreme — stays paused"))

  -- the loop over the weather rows; reading a forecast never throws
  unfoldable pub check_weather : List InterventionRow → Cache → M Unit
  unfolding cached_forecast
  check_weather [] cache = skip
  check_weather (row ∷ rest) cache = do
    o ← cached_forecast row.route.origin cache
    d ← cached_forecast row.route.dest o.1
    catch (on_forecasts row o.0 d.0) (λ e. push row.route.flight_id (error e))
    check_weather rest d.1

  unfoldable pub check_all_weather : List InterventionRow → M Unit
  unfolding check_weather
  check_all_weather [] = skip
  check_all_weather (row ∷ rest) = do or_raise env.fleet routes_file; check_weather (row ∷ rest) []

  -- an eased row counts a clear check, and revives with the second in a row
  unfoldable pub on_streak : InterventionRow → ℕ → M Unit
  on_streak row streak =
      if leb exposure_clear_streak streak
      then revive_row Cause.exposure row
      else push row.route.flight_id (skipped "eased — clear check (hysteresis)")

  unfoldable pub check_exposed : ℕ → Concentrations → InterventionRow → M Unit
  unfolding is_eased
  check_exposed severe_at conc row =
      if not (is_eased severe_at conc row)
      then (do
        touch_intervention env row.id (
            some (
              fractions (route_fraction conc row) (origin_fraction conc row)
                (dest_fraction conc row)))
        push row.route.flight_id (skipped "still concentrated"))
      else if dry_run
      then push row.route.flight_id (skipped "[dry-run] would count clear check")
      else (do streak ← record_clear_check env row.id; on_streak row streak)

  unfoldable pub check_each_exposed : ℕ → Concentrations → List InterventionRow → M Unit
  unfolding check_exposed
  check_each_exposed severe_at conc [] = skip
  check_each_exposed severe_at conc (row ∷ rest) = do
    check_exposed severe_at conc row
    check_each_exposed severe_at conc rest

  -- the exposure rows are checked on one reading of the chain, and all wait where it fails
  unfoldable pub check_all_exposed : ℕ → List InterventionRow → M Unit
  unfolding check_each_exposed
  check_all_exposed severe_at [] = skip
  check_all_exposed severe_at (row ∷ rest) =
      catch
        (do
          reading ← read_exposure env
          check_each_exposed severe_at
              (compute_concentrations reading.flights reading.total_managed) (row ∷ rest))
        (λ e. push "-/exposure" (error e))

  -- the rows of other owners are noted only
  unfoldable pub note_rows : String → List InterventionRow → M Unit
  note_rows why [] = skip
  note_rows why (row ∷ rest) = do push row.route.flight_id (skipped why); note_rows why rest

  unfoldable pub review : ℕ → Bool → ℕ → List InterventionRow → M Bool
  unfolding due_rows check_all_cancelled check_all_weather check_all_exposed note_rows
  review severe_at force_all start [] = pure true
  review severe_at force_all start (r ∷ rows) = do
    set_deadline (start + run_budget_ms)
    due ← due_rows force_all (of_cause Cause.cancellation (r ∷ rows))
    check_all_cancelled (start + run_budget_ms) due
    check_all_weather (of_cause Cause.weather (r ∷ rows))
    check_all_exposed severe_at (of_cause Cause.exposure (r ∷ rows))
    note_rows "owned by the monthly reprice run" (of_cause Cause.pricing (r ∷ rows))
    note_rows "admin hold — never auto-revived" (of_cause Cause.admin (r ∷ rows))
    pure true

  -- `run`: whether it reports success
  unfoldable pub run : ℕ → Bool → M Bool
  unfolding review
  run severe_at force_all = do
    start ← now env
    catch
        (if env.db_configured
          then (do
            open_rows ← open_interventions env none
            review severe_at force_all start open_rows)
          else (do push "-" (skipped "no DB — nothing to revive"); pure true))
        (λ e. pure false)
