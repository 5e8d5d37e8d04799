-- ===== src/RouteRules/Pricing.antt =====
-- The premium of a route: its rails, its rounding and when a route is excluded.
use sentinel_soroban_v.Base.{
  ℕ, ◌+◌, ◌%◌, none, some, ◌≡◌, ◌≤◌, ◌<◌, ◌⊎◌, inl, inr, Bool-cases, refl, arith, ltb,
}
use sentinel_soroban_v.RouteRules.{
  RouteRails, one_dollar_units, expected_loss_premium_units, round_up_to_whole_dollar,
  ml_base_premium_units, clamp_premium, at_least_min, at_most, Severity, weather_surcharge_units,
  combine_severity,
}

round_up_to_whole_dollar-mod : (units : ℕ) → round_up_to_whole_dollar units % one_dollar_units ≡ 0
unfolding round_up_to_whole_dollar
round_up_to_whole_dollar-mod units = ground arith

round_up_to_whole_dollar-bounds :
    (units : ℕ)
    → (units ≤ round_up_to_whole_dollar units)
      × (round_up_to_whole_dollar units < units + one_dollar_units)
unfolding round_up_to_whole_dollar
round_up_to_whole_dollar-bounds units = ground arith

-- Rails of whole dollars, whose minimum is below the cap of base premiums.
pub record AreSound (rails : RouteRails) : Type 0 where
  pub ordered : rails.premium_min ≤ rails.base_premium_max
  pub min_whole : rails.premium_min % one_dollar_units ≡ 0
  pub max_whole : rails.base_premium_max % one_dollar_units ≡ 0

-- A base premium that covers the honest price, within the rails.
abbrev pub IsFairFor : RouteRails → ℕ → ℕ → Type 0
IsFairFor rails honest premium =
    (rails.premium_min ≤ premium)
    × (premium ≤ rails.base_premium_max)
    × (premium % one_dollar_units ≡ 0)
    × (honest ≤ premium)
    × ((premium < honest + one_dollar_units) ⊎ (premium ≡ rails.premium_min))

rounded-IsFairFor :
    (rails : RouteRails) (honest : ℕ)
    → AreSound rails
    → honest ≤ rails.base_premium_max
    → IsFairFor rails honest
        (at_most (at_least_min (round_up_to_whole_dollar honest) rails) rails.base_premium_max)
rounded-IsFairFor rails honest sound within =
    let bounds = round_up_to_whole_dollar-bounds honest in
    let whole = round_up_to_whole_dollar-mod honest in
    ground (arith, bounds.0, bounds.1, whole, sound.ordered, sound.min_whole, sound.max_whole)

-- With sound rails, a route whose expected loss is above the cap of base premiums is excluded, and
-- any other gets a premium of whole dollars within the rails that covers the expected loss, and
-- that is either the minimum or less than a dollar above it.
pub ml_base_premium_units-IsFairFor :
    (p_bps payoff_units : ℕ) (rails : RouteRails)
    → AreSound rails
    → let honest = expected_loss_premium_units p_bps payoff_units in
      ((ml_base_premium_units p_bps payoff_units rails ≡ none) × (rails.base_premium_max < honest))
      ⊎ ((premium : ℕ) × (ml_base_premium_units p_bps payoff_units rails ≡ some premium)
          × IsFairFor rails honest premium)
unfolding ml_base_premium_units
ml_base_premium_units-IsFairFor p_bps payoff_units rails sound =
    let honest = expected_loss_premium_units p_bps payoff_units in
    elim (Bool-cases (ltb rails.base_premium_max honest)) [
      | inl above ↦ inl (rw above refl, ground arith)
      | inr within ↦ inr (_, rw within refl, rounded-IsFairFor rails honest sound (ground arith))
    ]

-- The total premium of a route, base and surcharge clamped, stays within the rails of its total
-- where those are in order, and a worse forecast never makes it cheaper where the surcharge for
-- severe weather is not below that for elevated.
clamp_premium-surcharge :
    (base : ℕ) (a b : Severity) (rails : RouteRails)
    → rails.premium_min ≤ rails.premium_max
    → rails.surcharge_elevated ≤ rails.surcharge_severe
    → let total : Severity → ℕ =
        λ s. clamp_premium (base + weather_surcharge_units s rails) rails in
      (rails.premium_min ≤ total a)
      × (total a ≤ rails.premium_max)
      × (total a ≤ total (combine_severity a b))
unfolding clamp_premium weather_surcharge_units combine_severity
clamp_premium-surcharge base a b rails ordered worse = ground arith
