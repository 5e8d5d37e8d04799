-- ===== src/Exposure/Thresholds.antt =====
-- Which routes and airports get a severe signal.
use native.Mathlib.Nat.{le-div_iff_mul-le}
use sentinel_soroban_v.Base.{
  ℕ, ◌+◌, ◌-◌, ◌*◌, ◌<◌, String, Bool, true, false, ◌&&◌, ◌||◌, Option, none, some, List, [], ◌∷◌,
  ◌≡◌, refl, ◌∙◌, ap, if◌then◌else◌, ◌==◌, leb, str_eq, eq_iff, any, arith, Bool-cases, inl, inr,
}
use sentinel_soroban_v.World.{RouteKey}
use sentinel_soroban_v.World.Db.{key_eq, key_eq_iff}
use sentinel_soroban_v.Exposure.{
  FlightExposure, Bucket, units_of, add_ends, sum_routes, sum_airports, fraction,
  compute_concentrations, Level, elevated, severe, Cutoffs, severity_for, Scope, on_route,
  on_origin, on_dest, ExposureSignalSpec, signal_routes, signal_airports, compute_exposure_signals,
}
use sentinel_soroban_v.Exposure.Sums.{
  liability, flies, touches, IsMap, add_units-IsMap, fractions-IsMap, compute_concentrations-sums,
}

abbrev pub is_severe : Level → Bool
is_severe severe = true
is_severe elevated = false

abbrev pub is_route : RouteKey → Scope → Bool
is_route key (on_route k) = key_eq k key
is_route key _ = false

abbrev pub is_origin : String → Scope → Bool
is_origin iata (on_origin a) = str_eq a iata
is_origin iata _ = false

abbrev pub is_dest : String → Scope → Bool
is_dest iata (on_dest a) = str_eq a iata
is_dest iata _ = false

-- The scope has a severe signal.
abbrev pub signalled : (Scope → Bool) → List ExposureSignalSpec → Bool
signalled p specs = any (λ s. is_severe s.severity && p s.scope) specs

abbrev reaches : Cutoffs → Option ℕ → Bool
reaches cut none = false
reaches cut (some frac) = leb cut.severe_at frac

module _ (cut : Cutoffs) where
  signalled-airports_route :
      (key : RouteKey) (airports : List (Bucket String))
      → signalled (is_route key) (signal_airports cut airports) ≡ false
  unfolding signal_airports severity_for
  signalled-airports_route key [] = refl
  signalled-airports_route key (a ∷ rest) = ground (arith, signalled-airports_route key rest)

  signalled-routes :
      (key : RouteKey) (routes : List (Bucket RouteKey)) (behind : List ExposureSignalSpec)
      → IsMap key_eq key_eq_iff routes
      → signalled (is_route key) (signal_routes cut routes behind)
        ≡ (reaches cut (units_of key_eq key routes) || signalled (is_route key) behind)
  unfolding signal_routes severity_for units_of
  signalled-routes key [] behind h = refl
  signalled-routes key (r ∷ rest) behind h =
      ground (arith, signalled-routes key rest behind h.1, key_eq_iff r.key key, h.0)

  signalled-airports_origin :
      (iata : String) (airports : List (Bucket String))
      → IsMap str_eq eq_iff airports
      → signalled (is_origin iata) (signal_airports cut airports)
        ≡ reaches cut (units_of str_eq iata airports)
  unfolding signal_airports severity_for units_of
  signalled-airports_origin iata [] h = refl
  signalled-airports_origin iata (a ∷ rest) h =
      ground (arith, signalled-airports_origin iata rest h.1, eq_iff a.key iata, h.0)

  signalled-routes_origin :
      (iata : String) (routes : List (Bucket RouteKey)) (behind : List ExposureSignalSpec)
      → signalled (is_origin iata) (signal_routes cut routes behind)
        ≡ signalled (is_origin iata) behind
  unfolding signal_routes severity_for
  signalled-routes_origin iata [] behind = refl
  signalled-routes_origin iata (r ∷ rest) behind =
      ground (arith, signalled-routes_origin iata rest behind)

  signalled-airports_dest :
      (iata : String) (airports : List (Bucket String))
      → IsMap str_eq eq_iff airports
      → signalled (is_dest iata) (signal_airports cut airports)
        ≡ reaches cut (units_of str_eq iata airports)
  unfolding signal_airports severity_for units_of
  signalled-airports_dest iata [] h = refl
  signalled-airports_dest iata (a ∷ rest) h =
      ground (arith, signalled-airports_dest iata rest h.1, eq_iff a.key iata, h.0)

  signalled-routes_dest :
      (iata : String) (routes : List (Bucket RouteKey)) (behind : List ExposureSignalSpec)
      → signalled (is_dest iata) (signal_routes cut routes behind) ≡ signalled (is_dest iata) behind
  unfolding signal_routes severity_for
  signalled-routes_dest iata [] behind = refl
  signalled-routes_dest iata (r ∷ rest) behind =
      ground (arith, signalled-routes_dest iata rest behind)

sum_routes-IsMap :
    (flights : List FlightExposure) (routes : List (Bucket RouteKey))
    → IsMap key_eq key_eq_iff routes
    → IsMap key_eq key_eq_iff (sum_routes flights routes)
unfolding sum_routes
sum_routes-IsMap [] routes h = h
sum_routes-IsMap (f ∷ rest) routes h =
    sum_routes-IsMap rest _ (add_units-IsMap key_eq key_eq_iff f.route f.liability_units routes h)

add_ends-IsMap :
    (f : FlightExposure) (airports : List (Bucket String))
    → IsMap str_eq eq_iff airports
    → IsMap str_eq eq_iff (add_ends f airports)
unfolding add_ends
add_ends-IsMap f airports h =
    let once = add_units-IsMap str_eq eq_iff f.route.origin f.liability_units airports h in
    elim (Bool-cases (str_eq f.route.dest f.route.origin)) [
      | inl round ↦ rw round once
      | inr apart ↦ rw apart (add_units-IsMap str_eq eq_iff f.route.dest f.liability_units _ once)
    ]

sum_airports-IsMap :
    (flights : List FlightExposure) (airports : List (Bucket String))
    → IsMap str_eq eq_iff airports
    → IsMap str_eq eq_iff (sum_airports flights airports)
unfolding sum_airports
sum_airports-IsMap [] airports h = h
sum_airports-IsMap (f ∷ rest) airports h = sum_airports-IsMap rest _ (add_ends-IsMap f airports h)

-- rounded up, a share reaches a cutoff as its product does
leb-fraction :
    (cutoff total units : ℕ)
    → 0 < total
    → leb cutoff (fraction total units) ≡ leb (cutoff * total) (units * 1000000 + total - 1)
unfolding fraction
leb-fraction cutoff total units h =
    ground (arith, le-div_iff_mul-le {k = total} {x = cutoff} {y = units * 1000000 + total - 1} h)

-- The share of the capacity, rounded up to millionths, reaches the cutoff.
abbrev pub overexposed : Cutoffs → ℕ → ℕ → Bool
overexposed cut total units = leb (cut.severe_at * total) (units * 1000000 + total - 1)

reaches-sum :
    (cut : Cutoffs) (total units : ℕ) (b : Bool)
    → 0 < total
    → reaches cut (if b then some (fraction total units) else none)
      ≡ (b && overexposed cut total units)
reaches-sum cut total units true h = leb-fraction cut.severe_at total units h
reaches-sum cut total units false h = refl

concentrations-IsMap :
    (flights : List FlightExposure) (total : ℕ)
    → let conc = compute_concentrations flights total in
      IsMap key_eq key_eq_iff conc.routes × IsMap str_eq eq_iff conc.airports
unfolding compute_concentrations
concentrations-IsMap flights total = (
  fractions-IsMap key_eq key_eq_iff total _ (sum_routes-IsMap flights [] tt),
  fractions-IsMap str_eq eq_iff total _ (sum_airports-IsMap flights [] tt),
)

or-false : (b : Bool) → (b || false) ≡ b
or-false true = refl
or-false false = refl

-- With a vault that holds something, a route gets a severe signal exactly if some flight of it is
-- live and the liabilities of all its flights, as a share of the capacity rounded up to millionths,
-- reach the cutoff; and an airport gets a severe signal, as an origin and as a destination, exactly
-- if some live flight touches it and the liabilities of all that do, each counted once, reach it.
pub compute_exposure_signals-severe :
    (cut : Cutoffs) (flights : List FlightExposure) (total : ℕ) (key : RouteKey) (iata : String)
    → 0 < total
    → let specs = compute_exposure_signals cut flights total in
      let at_airport : Bool =
        any (touches iata) flights && overexposed cut total (liability (touches iata) flights) in
      (signalled (is_route key) specs
        ≡ (any (flies key) flights && overexposed cut total (liability (flies key) flights)))
      × (signalled (is_origin iata) specs ≡ at_airport)
      × (signalled (is_dest iata) specs ≡ at_airport)
unfolding compute_exposure_signals
compute_exposure_signals-severe cut flights total key iata h =
    let conc = compute_concentrations flights total in
    let maps = concentrations-IsMap flights total in
    let sums = compute_concentrations-sums flights total key iata in
    let airports = signal_airports cut conc.airports in
    let nonzero : (total == 0) ≡ false = ground arith in
    let at_route = ap (reaches cut) sums.0 ∙ reaches-sum cut total _ (any (flies key) flights) h in
    let at_airport =
      ap (reaches cut) sums.1 ∙ reaches-sum cut total _ (any (touches iata) flights) h in
    rw nonzero (
      signalled-routes cut key conc.routes airports maps.0
          ∙ ap (λ b. b || signalled (is_route key) airports) at_route
          ∙ ap
              (λ b.
                any (flies key) flights && overexposed cut total (liability (flies key) flights)
                || b)
              (signalled-airports_route cut key conc.airports)
          ∙ or-false _,
      signalled-routes_origin cut iata conc.routes airports
          ∙ signalled-airports_origin cut iata conc.airports maps.1
          ∙ at_airport,
      signalled-routes_dest cut iata conc.routes airports
          ∙ signalled-airports_dest cut iata conc.airports maps.1
          ∙ at_airport,
    )
