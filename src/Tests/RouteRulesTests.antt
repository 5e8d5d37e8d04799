-- ===== src/Tests/RouteRulesTests.antt =====
-- Tests and instances for RouteRules.
use sentinel_soroban_v.Base.{◌≡◌, ◌<◌, ◌⊎◌, refl, ℕ, some, none, [], arith}
use sentinel_soroban_v.World.Db.{DailyForecast}
use sentinel_soroban_v.RouteRules.{RouteRails, ml_base_premium_units, expected_loss_premium_units}
use sentinel_soroban_v.RouteRules.Pricing.{AreSound, IsFairFor, ml_base_premium_units-IsFairFor}

abbrev rails : RouteRails
rails = record {
  premium_min = 100000000;
  premium_max = 300000000;
  base_premium_max = 200000000;
  surcharge_elevated = 20000000;
  surcharge_severe = 100000000;
}

rails-AreSound : AreSound rails
rails-AreSound = record { ordered = omega arith; min_whole = refl; max_whole = refl }

-- a tenth of $120 is $12, and 10.7% of it rounds up to $13
premium_13 : ml_base_premium_units 1070 1200000000 rails ≡ some 130000000
unfolding ml_base_premium_units
premium_13 = refl

ml_base_premium_units-IsFairFor_example :
    ((ml_base_premium_units 1070 1200000000 rails ≡ none)
      × (rails.base_premium_max < expected_loss_premium_units 1070 1200000000))
    ⊎ ((premium : ℕ) × (ml_base_premium_units 1070 1200000000 rails ≡ some premium)
        × IsFairFor rails (expected_loss_premium_units 1070 1200000000) premium)
ml_base_premium_units-IsFairFor_example =
    ml_base_premium_units-IsFairFor 1070 1200000000 rails rails-AreSound

abbrev hurricane : DailyForecast
hurricane = record {
  max_wind_gust_kmh = 1300;
  total_snowfall_cm = 0;
  max_precip_prob_pct = 900;
  weather_codes = [];
}
