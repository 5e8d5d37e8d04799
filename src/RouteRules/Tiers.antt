-- ===== src/RouteRules/Tiers.antt =====
-- Forecasts: pauses, surcharges and the worst of two airports.
use sentinel_soroban_v.Base.{true, Option, none, some, ◌≡◌, arith}
use sentinel_soroban_v.World.Db.{DailyForecast}
use sentinel_soroban_v.RouteRules.{severe, is_extreme_forecast, classify_forecast}

-- A forecast that pauses a route also carries the surcharge for severe weather.
extreme-severe :
    (f : Option DailyForecast) → is_extreme_forecast f ≡ true → classify_forecast f ≡ severe
unfolding is_extreme_forecast classify_forecast
extreme-severe none h = ground arith
extreme-severe (some f) h = ground arith
