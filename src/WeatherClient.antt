-- ===== src/WeatherClient.antt =====
-- dapp/api/_lib/weather_client.ts: the forecast of an airport, and dapp/api/_lib/airports.ts: the
-- airports whose coordinates are known.
use sentinel_soroban_v.Base.{
  ℕ, ◌+◌, min, max, String, Option, none, some, List, [], ◌∷◌, if◌then◌else◌, any, or_else, str_eq,
}
use sentinel_soroban_v.World.{Answer, json, status, exception, Daily, WeatherJson, got_weather}
use sentinel_soroban_v.World.Db.{DailyForecast}
use sentinel_soroban_v.World.Monad.{Env, M, pure, gets, emit, ◌>>=◌, ◌>>◌}

-- the keys of `AIRPORTS`
abbrev pub airports : List String
airports =
    "ATL" ∷ "BOS" ∷ "BWI" ∷ "CLT" ∷ "DCA" ∷ "DEN" ∷ "DFW" ∷ "DTW" ∷ "EWR" ∷ "IAD" ∷ "IAH" ∷ "JFK"
    ∷ "LAS" ∷ "LAX" ∷ "LGA" ∷ "MCO" ∷ "MIA" ∷ "MSP" ∷ "ORD" ∷ "PHL" ∷ "PDX" ∷ "PHX" ∷ "SAN" ∷ "SEA"
    ∷ "SFO" ∷ "SLC" ∷ "TPA" ∷ "AMS" ∷ "CDG" ∷ "DXB" ∷ "FRA" ∷ "HND" ∷ "LHR" ∷ "NRT" ∷ "SIN" ∷ "SYD"
    ∷ "YYZ" ∷ []

-- `nums`: the values that are numbers
unfoldable pub nums : List (Option ℕ) → List ℕ
nums [] = []
nums (none ∷ rest) = nums rest
nums (some n ∷ rest) = n ∷ nums rest

-- `Math.max(0, ...xs)`
unfoldable pub greatest : List ℕ → ℕ
greatest [] = 0
greatest (n ∷ rest) = max n (greatest rest)

unfoldable pub total : List ℕ → ℕ
total [] = 0
total (n ∷ rest) = n + total rest

unfoldable pub to_forecast : Daily → DailyForecast
unfolding nums greatest total
to_forecast d = record {
  max_wind_gust_kmh = greatest (nums (or_else d.wind_gusts []));
  total_snowfall_cm = total (nums (or_else d.snowfall []));
  max_precip_prob_pct = greatest (nums (or_else d.precipitation []));
  weather_codes = or_else d.weather_code [];
}

-- `null` where the answer is no forecast
unfoldable pub read_forecast : Answer WeatherJson → Option DailyForecast
unfolding to_forecast
read_forecast (json none) = none
read_forecast (json (some body)) = elim body.daily [ none ↦ none | some d ↦ some (to_forecast d) ]
read_forecast (status code) = none
read_forecast exception = none

module _ (env : Env) where
  -- `getForecast`
  unfoldable pub get_forecast : String → M (Option DailyForecast)
  unfolding read_forecast
  get_forecast iata =
      if any (str_eq iata) airports
      then (do
        let days = min (max env.weather_horizon_days 1) 16
        answer ← gets (λ w. env.fetch_weather w.log iata days)
        emit (got_weather iata days)
        pure (read_forecast answer))
      else pure none
