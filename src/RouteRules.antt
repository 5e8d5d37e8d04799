-- ===== src/RouteRules.antt =====
-- dapp/api/_lib/route_rules.ts: the severity of a forecast, and the arithmetic of premiums.
pub mod Tiers
pub mod Pricing
use sentinel_soroban_v.Base.{
  ℕ, ◌+◌, ◌-◌, ◌*◌, ◌/◌, ◌%◌, Bool, true, false, ◌||◌, Option, none, some, List, ◌==◌, ltb, leb,
  if◌then◌else◌, any,
}
use sentinel_soroban_v.World.Db.{DailyForecast}

-- `WeatherSeverity`
pub data Severity : Type 0 where
  fair elevated severe : Severity

-- `RouteRails`, in base units (7 decimals)
pub record RouteRails : Type 0 where
  pub premium_min : ℕ
  pub premium_max : ℕ
  pub base_premium_max : ℕ
  pub surcharge_elevated : ℕ
  pub surcharge_severe : ℕ

abbrev pub one_dollar_units : ℕ
one_dollar_units = 10000000

-- The thresholds, in tenths as the forecasts are.
abbrev pub severe_gust_kmh : ℕ
severe_gust_kmh = 900

abbrev pub severe_snow_cm : ℕ
severe_snow_cm = 200

abbrev pub elevated_gust_kmh : ℕ
elevated_gust_kmh = 600

abbrev pub elevated_snow_cm : ℕ
elevated_snow_cm = 50

abbrev pub elevated_precip_prob_pct : ℕ
elevated_precip_prob_pct = 800

abbrev pub extreme_gust_kmh : ℕ
extreme_gust_kmh = 1200

abbrev pub extreme_snow_cm : ℕ
extreme_snow_cm = 400

abbrev pub is_severe_code : ℕ → Bool
is_severe_code c = c == 96 || c == 99

abbrev pub is_elevated_code : ℕ → Bool
is_elevated_code c = c == 95

-- `isExtremeForecast`
unfoldable pub is_extreme_forecast : Option DailyForecast → Bool
is_extreme_forecast none = false
is_extreme_forecast (some f) =
    leb extreme_gust_kmh f.max_wind_gust_kmh || leb extreme_snow_cm f.total_snowfall_cm

-- `classifyForecast`
unfoldable pub classify_forecast : Option DailyForecast → Severity
classify_forecast none = fair
classify_forecast (some f) =
    if leb severe_gust_kmh f.max_wind_gust_kmh
      || (leb severe_snow_cm f.total_snowfall_cm || any is_severe_code f.weather_codes)
    then severe
    else if leb elevated_gust_kmh f.max_wind_gust_kmh
        || (leb elevated_snow_cm f.total_snowfall_cm
            || (leb elevated_precip_prob_pct f.max_precip_prob_pct
                || any is_elevated_code f.weather_codes))
    then elevated
    else fair

abbrev pub is_severe : Severity → Bool
is_severe severe = true
is_severe _ = false

abbrev pub is_elevated : Severity → Bool
is_elevated elevated = true
is_elevated _ = false

-- `combineSeverity`
unfoldable pub combine_severity : Severity → Severity → Severity
combine_severity a b =
    if is_severe a || is_severe b
    then severe
    else if is_elevated a || is_elevated b
    then elevated
    else fair

-- `expectedLossPremiumUnits`, from the basis points that `Math.round` gives
unfoldable pub expected_loss_premium_units : ℕ → ℕ → ℕ
expected_loss_premium_units p_bps payoff_units = payoff_units * p_bps / 10000

-- `roundUpToWholeDollar`
unfoldable pub round_up_to_whole_dollar : ℕ → ℕ
round_up_to_whole_dollar units =
    let rem : ℕ = units % one_dollar_units in
    if rem == 0 then units else units + (one_dollar_units - rem)

abbrev pub at_least_min : ℕ → RouteRails → ℕ
at_least_min units rails = if ltb units rails.premium_min then rails.premium_min else units

abbrev pub at_most : ℕ → ℕ → ℕ
at_most units most = if ltb most units then most else units

-- `mlBasePremiumUnits`
unfoldable pub ml_base_premium_units : ℕ → ℕ → RouteRails → Option ℕ
unfolding expected_loss_premium_units round_up_to_whole_dollar
ml_base_premium_units p_bps payoff_units rails =
    let honest = expected_loss_premium_units p_bps payoff_units in
    if ltb rails.base_premium_max honest
    then none
    else some
        (at_most (at_least_min (round_up_to_whole_dollar honest) rails) rails.base_premium_max)

-- `clampPremium`
unfoldable pub clamp_premium : ℕ → RouteRails → ℕ
clamp_premium target rails = at_most (at_least_min target rails) rails.premium_max

-- `weatherSurchargeUnits`
unfoldable pub weather_surcharge_units : Severity → RouteRails → ℕ
weather_surcharge_units severe rails = rails.surcharge_severe
weather_surcharge_units elevated rails = rails.surcharge_elevated
weather_surcharge_units fair rails = 0
