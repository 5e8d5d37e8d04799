-- ===== src/Revive/Frame.antt =====
-- What a run of the revive engine keeps, if the operations of the ledger keep it.
use sentinel_soroban_v.Base.{
  ℕ, String, Bool, true, false, not, ◌&&◌, Option, none, some, List, [], ◌∷◌, ◌≡◌, refl, any, leb,
  arith,
}
use sentinel_soroban_v.World.{RouteKey}
use sentinel_soroban_v.World.Db.{Cause, Evidence, InterventionRow, DailyForecast}
use sentinel_soroban_v.World.Monad.{Env, World, FleetRoute}
use sentinel_soroban_v.World.Keeps.{
  Keeps, Keeps-bind, Keeps-if, Keeps-catch, Keeps-skip, Keeps-pure,
}
use sentinel_soroban_v.World.Quiet.{IsQuiet, quiet_rules}
use sentinel_soroban_v.Aero.Quiet.{Quiet-get_flight_instances, Quiet-get_schedules}
use sentinel_soroban_v.RouteGuard.{SweepVerdict, sweep_verdict, is_alive}
use sentinel_soroban_v.WeatherClient.{get_forecast}
use sentinel_soroban_v.Interventions.Executor.{
  ensure_table, open_interventions, revive_route, touch_intervention, record_clear_check,
}
use sentinel_soroban_v.Exposure.{Concentrations}
use sentinel_soroban_v.Exposure.Collector.{Reading, read_exposure, read_flights}
use sentinel_soroban_v.Revive.{
  Cache, cached, still_extreme, is_eased, revive_row, filter_due, due_rows, on_sweep,
  check_cancelled, check_all_cancelled, forecast_from, cached_forecast, on_forecasts, check_weather,
  check_all_weather, on_streak, check_exposed, check_each_exposed, check_all_exposed, note_rows,
  review, run,
}

-- The causes whose rows the engine closes.
abbrev pub is_healed : Cause → Bool
is_healed Cause.cancellation = true
is_healed Cause.exposure = true
is_healed Cause.weather = true
is_healed _ = false

wet_of : (dry b : Bool) → (b && not dry) ≡ true → dry ≡ false
wet_of dry b h = ground arith

module _ (P : World → Type 0) (quiet : IsQuiet P) (env : Env) (dry_run : Bool)
    (revives : (k : RouteKey) (cause : Cause)
      → is_healed cause ≡ true
      → dry_run ≡ false
      → Keeps P (revive_route env k cause "cron:revive"))
    (touches : (id : ℕ) (evidence : Option Evidence) → Keeps P (touch_intervention env id evidence))
    (clears : (id : ℕ) → dry_run ≡ false → Keeps P (record_clear_check env id)) where
  Keeps-revive_row :
      (cause : Cause) (row : InterventionRow)
      → is_healed cause ≡ true
      → dry_run ≡ false
      → Keeps P (revive_row env dry_run cause row)
  unfolding revive_row
  Keeps-revive_row cause row healed wet = search (quiet_rules, revives)

  Keeps-filter_due : (rows : List InterventionRow) → Keeps P (filter_due env dry_run rows)
  unfolding filter_due
  Keeps-filter_due [] = Keeps-pure _
  Keeps-filter_due (row ∷ rest) =
      Keeps-bind _ _ (search quiet_rules)
        (λ t. Keeps-bind _ _ (Keeps-filter_due rest) (λ due. Keeps-pure _))

  Keeps-due_rows :
      (force_all : Bool) (rows : List InterventionRow)
      → Keeps P (due_rows env dry_run force_all rows)
  unfolding due_rows
  Keeps-due_rows true rows = Keeps-pure _
  Keeps-due_rows false rows = search (quiet_rules, Keeps-filter_due)

  Keeps-on_sweep :
      (row : InterventionRow) (verdict : SweepVerdict) → Keeps P (on_sweep env dry_run row verdict)
  unfolding on_sweep
  Keeps-on_sweep row verdict =
      Keeps-if (any is_alive verdict.days && not dry_run) _ _
        (λ go. Keeps-revive_row Cause.cancellation row refl (wet_of dry_run _ go))
        (λ stay. search (quiet_rules, touches) depth 9)

  Keeps-sweep_verdict : (route : RouteKey) (today : ℕ) → Keeps P (sweep_verdict env route today)
  unfolding sweep_verdict
  Keeps-sweep_verdict route today =
      search (quiet_rules, Quiet-get_flight_instances, Quiet-get_schedules) depth 9

  Keeps-check_cancelled :
      (deadline : ℕ) (row : InterventionRow) → Keeps P (check_cancelled env dry_run deadline row)
  unfolding check_cancelled
  Keeps-check_cancelled deadline row =
      search (quiet_rules, Keeps-sweep_verdict, Keeps-on_sweep) depth 14

  Keeps-check_all_cancelled :
      (deadline : ℕ) (rows : List InterventionRow)
      → Keeps P (check_all_cancelled env dry_run deadline rows)
  unfolding check_all_cancelled
  Keeps-check_all_cancelled deadline [] = Keeps-skip
  Keeps-check_all_cancelled deadline (row ∷ rest) =
      Keeps-bind _ _ (Keeps-check_cancelled deadline row)
        (λ u. Keeps-check_all_cancelled deadline rest)

  Keeps-get_forecast : (iata : String) → Keeps P (get_forecast env iata)
  unfolding get_forecast
  Keeps-get_forecast iata = search quiet_rules depth 9

  Keeps-forecast_from :
      (iata : String) (cache : Cache) (o : Option (Option DailyForecast))
      → Keeps P (forecast_from env dry_run iata cache o)
  unfolding forecast_from
  Keeps-forecast_from iata cache (some f) = Keeps-pure _
  Keeps-forecast_from iata cache none = search (quiet_rules, Keeps-get_forecast)

  Keeps-cached_forecast :
      (iata : String) (cache : Cache) → Keeps P (cached_forecast env dry_run iata cache)
  unfolding cached_forecast
  Keeps-cached_forecast iata cache = Keeps-forecast_from iata cache (cached iata cache)

  Keeps-on_forecasts :
      (row : InterventionRow) (o d : Option DailyForecast)
      → Keeps P (on_forecasts env dry_run row o d)
  unfolding on_forecasts
  Keeps-on_forecasts row o d =
      Keeps-if (not (still_extreme o d) && not dry_run) _ _
        (λ go. Keeps-revive_row Cause.weather row refl (wet_of dry_run _ go))
        (λ stay. search (quiet_rules, touches) depth 9)

  Keeps-check_weather :
      (rows : List InterventionRow) (cache : Cache) → Keeps P (check_weather env dry_run rows cache)
  unfolding check_weather
  Keeps-check_weather [] cache = Keeps-skip
  Keeps-check_weather (row ∷ rest) cache =
      Keeps-bind _ _ (Keeps-cached_forecast row.route.origin cache) (λ o.
        Keeps-bind _ _ (Keeps-cached_forecast row.route.dest o.1) (λ d.
          Keeps-bind _ _
            (Keeps-catch _ _ (Keeps-on_forecasts row o.0 d.0) (λ e. search quiet_rules))
            (λ u. Keeps-check_weather rest d.1)))

  Keeps-check_all_weather :
      (rows : List InterventionRow) → Keeps P (check_all_weather env dry_run rows)
  unfolding check_all_weather
  Keeps-check_all_weather [] = Keeps-skip
  Keeps-check_all_weather (row ∷ rest) = search (quiet_rules, Keeps-check_weather)

  Keeps-read_flights :
      (fleet : List FleetRoute) (active : List (String × ℕ)) (r : Reading)
      → Keeps P (read_flights env fleet active r)
  unfolding read_flights
  Keeps-read_flights fleet [] r = Keeps-pure _
  Keeps-read_flights fleet ((id, date) ∷ rest) r =
      Keeps-bind _ _ (search quiet_rules) (λ cfg. Keeps-read_flights fleet rest _)

  Keeps-read_exposure : Keeps P (read_exposure env)
  unfolding read_exposure
  Keeps-read_exposure = search (quiet_rules, Keeps-read_flights) depth 9

  Keeps-on_streak :
      (row : InterventionRow) (streak : ℕ)
      → dry_run ≡ false
      → Keeps P (on_streak env dry_run row streak)
  unfolding on_streak
  Keeps-on_streak row streak wet =
      Keeps-if (leb 2 streak) _ _ (λ go. Keeps-revive_row Cause.exposure row refl wet)
        (λ stay. search quiet_rules)

  Keeps-check_exposed :
      (severe_at : ℕ) (conc : Concentrations) (row : InterventionRow)
      → Keeps P (check_exposed env dry_run severe_at conc row)
  unfolding check_exposed
  Keeps-check_exposed severe_at conc row =
      Keeps-if (not (is_eased severe_at conc row)) _ _
        (λ high. search (quiet_rules, touches) depth 9)
        (λ eased.
          Keeps-if dry_run _ _ (λ dry. search quiet_rules)
            (λ wet. Keeps-bind _ _ (clears row.id wet) (λ streak. Keeps-on_streak row streak wet)))

  Keeps-check_each_exposed :
      (severe_at : ℕ) (conc : Concentrations) (rows : List InterventionRow)
      → Keeps P (check_each_exposed env dry_run severe_at conc rows)
  unfolding check_each_exposed
  Keeps-check_each_exposed severe_at conc [] = Keeps-skip
  Keeps-check_each_exposed severe_at conc (row ∷ rest) =
      Keeps-bind _ _ (Keeps-check_exposed severe_at conc row)
        (λ u. Keeps-check_each_exposed severe_at conc rest)

  Keeps-check_all_exposed :
      (severe_at : ℕ) (rows : List InterventionRow)
      → Keeps P (check_all_exposed env dry_run severe_at rows)
  unfolding check_all_exposed
  Keeps-check_all_exposed severe_at [] = Keeps-skip
  Keeps-check_all_exposed severe_at (row ∷ rest) =
      search (quiet_rules, Keeps-read_exposure, Keeps-check_each_exposed) depth 9

  Keeps-note_rows :
      (why : String) (rows : List InterventionRow) → Keeps P (note_rows env dry_run why rows)
  unfolding note_rows
  Keeps-note_rows why [] = Keeps-skip
  Keeps-note_rows why (row ∷ rest) =
      Keeps-bind _ _ (search quiet_rules) (λ u. Keeps-note_rows why rest)

  Keeps-review :
      (severe_at : ℕ) (force_all : Bool) (start : ℕ) (rows : List InterventionRow)
      → Keeps P (review env dry_run severe_at force_all start rows)
  unfolding review
  Keeps-review severe_at force_all start [] = Keeps-pure _
  Keeps-review severe_at force_all start (r ∷ rows) =
      search
        (
          quiet_rules, Keeps-due_rows, Keeps-check_all_cancelled, Keeps-check_all_weather,
          Keeps-check_all_exposed, Keeps-note_rows,
        )
        depth 14

  Keeps-open_interventions : (cause : Option Cause) → Keeps P (open_interventions env cause)
  unfolding open_interventions ensure_table
  Keeps-open_interventions cause = search quiet_rules depth 14

  pub Keeps-run : (severe_at : ℕ) (force_all : Bool) → Keeps P (run env dry_run severe_at force_all)
  unfolding run
  Keeps-run severe_at force_all =
      search (quiet_rules, Keeps-review, Keeps-open_interventions) depth 14
