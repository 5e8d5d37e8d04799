-- ===== src/Exposure/Sums.antt =====
-- The concentrations are the sums over the flights.
use sentinel_soroban_v.Base.{
  ℕ, ◌+◌, String, Bool, true, false, ◌||◌, Option, none, some, List, [], ◌∷◌, ◌≡◌, ◌↔◌, refl, ◌∙◌,
  ap, if◌then◌else◌, str_eq, eq_iff, any, arith, Bool-cases, inl, inr, or_else,
}
use mathlib.Core.Option
use sentinel_soroban_v.World.{RouteKey}
use sentinel_soroban_v.World.Db.{key_eq, key_eq_iff}
use sentinel_soroban_v.Exposure.{
  FlightExposure, Bucket, add_units, units_of, add_ends, sum_routes, sum_airports, fraction,
  to_fractions, compute_concentrations,
}

-- The liability of the flights that a test selects.
unfoldable pub liability : (FlightExposure → Bool) → List FlightExposure → ℕ
liability p [] = 0
liability p (f ∷ rest) = (if p f then f.liability_units else 0) + liability p rest

abbrev pub flies : RouteKey → FlightExposure → Bool
flies key f = key_eq f.route key

abbrev pub touches : String → FlightExposure → Bool
touches iata f = str_eq f.route.origin iata || str_eq f.route.dest iata

module _ {K : Type 0} (same : K → K → Bool)
    (same_iff : (a b : K) → (same a b ≡ true) ↔ (a ≡ b)) where
  units_of-add :
      (key other : K) (n : ℕ) (buckets : List (Bucket K))
      → units_of same key (add_units same other n buckets) ≡ (
          if same other key
          then some (or_else (units_of same key buckets) 0 + n)
          else units_of same key buckets)
  unfolding units_of add_units
  units_of-add key other n [] = ground arith
  units_of-add key other n (b ∷ rest) = ground (
    arith,
    units_of-add key other n rest,
    same_iff b.key other,
    same_iff b.key key,
    same_iff other key,
  )

  -- No key stands twice.
  abbrev pub IsMap : List (Bucket K) → Type 0
  IsMap [] = Unit
  IsMap (b ∷ rest) = (units_of same b.key rest ≡ none) × IsMap rest

  apart :
      (b : Bucket K) (key : K) (n : ℕ) (rest : List (Bucket K))
      → units_of same b.key rest ≡ none
      → same b.key key ≡ false
      → units_of same b.key (add_units same key n rest) ≡ none
  apart b key n rest h other =
      ground (arith, units_of-add b.key key n rest, same_iff b.key key, same_iff key b.key)

  pub add_units-IsMap :
      (key : K) (n : ℕ) (buckets : List (Bucket K))
      → IsMap buckets
      → IsMap (add_units same key n buckets)
  unfolding add_units units_of
  add_units-IsMap key n [] h = (refl, tt)
  add_units-IsMap key n (b ∷ rest) h = elim (Bool-cases (same b.key key)) [
    | inl here ↦ rw here h
    | inr other ↦ rw other (apart b key n rest h.0 other, add_units-IsMap key n rest h.1)
  ]

  pub units_of-fractions :
      (key : K) (total : ℕ) (buckets : List (Bucket K))
      → units_of same key (to_fractions total buckets)
        ≡ Option.map (fraction total) (units_of same key buckets)
  unfolding units_of to_fractions
  units_of-fractions key total [] = refl
  units_of-fractions key total (b ∷ rest) = elim (Bool-cases (same b.key key)) [
    | inl here ↦ rw here refl
    | inr there ↦ rw there (units_of-fractions key total rest)
  ]

  pub fractions-IsMap :
      (total : ℕ) (buckets : List (Bucket K)) → IsMap buckets → IsMap (to_fractions total buckets)
  unfolding to_fractions
  fractions-IsMap total [] h = tt
  fractions-IsMap total (b ∷ rest) h = (
    units_of-fractions b.key total rest ∙ ap (Option.map (fraction total)) h.0,
    fractions-IsMap total rest h.1,
  )

-- a flight adds its liability once to an airport that it touches
airport_units-add_ends :
    (iata : String) (f : FlightExposure) (airports : List (Bucket String))
    → units_of str_eq iata (add_ends f airports) ≡ (
        if touches iata f
        then some (or_else (units_of str_eq iata airports) 0 + f.liability_units)
        else units_of str_eq iata airports)
unfolding add_ends
airport_units-add_ends iata f airports = ground (
  arith,
  units_of-add str_eq eq_iff iata f.route.origin f.liability_units airports,
  units_of-add str_eq eq_iff iata f.route.dest f.liability_units
      (add_units str_eq f.route.origin f.liability_units airports),
  eq_iff f.route.origin iata,
  eq_iff f.route.dest iata,
  eq_iff f.route.dest f.route.origin,
)

-- what a map holds after some flights more
abbrev grown : Option ℕ → Bool → ℕ → Option ℕ
grown before some_more n = if some_more then some (or_else before 0 + n) else before

liability-none :
    (p : FlightExposure → Bool) (flights : List FlightExposure)
    → any p flights ≡ false
    → liability p flights ≡ 0
unfolding liability
liability-none p [] h = refl
liability-none p (f ∷ rest) h = ground (arith, liability-none p rest)

route_units-sum :
    (key : RouteKey) (flights : List FlightExposure) (routes : List (Bucket RouteKey))
    → units_of key_eq key (sum_routes flights routes)
      ≡ grown (units_of key_eq key routes) (any (flies key) flights) (liability (flies key) flights)
unfolding sum_routes liability
route_units-sum key [] routes = refl
route_units-sum key (f ∷ rest) routes = ground (
  arith,
  route_units-sum key rest (add_units key_eq f.route f.liability_units routes),
  units_of-add key_eq key_eq_iff key f.route f.liability_units routes,
  liability-none (flies key) rest,
)

airport_units-sum :
    (iata : String) (flights : List FlightExposure) (airports : List (Bucket String))
    → units_of str_eq iata (sum_airports flights airports)
      ≡ grown
          (units_of str_eq iata airports)
          (any (touches iata) flights)
          (liability (touches iata) flights)
unfolding sum_airports liability
airport_units-sum iata [] airports = refl
airport_units-sum iata (f ∷ rest) airports = ground (
  arith,
  airport_units-sum iata rest (add_ends f airports),
  airport_units-add_ends iata f airports,
  liability-none (touches iata) rest,
)

-- The concentration of a route is the fraction of the capacity that the liabilities of all its
-- flights come to, and that of an airport is the fraction of all flights that start or end there,
-- each counted once. A route without a flight, or an airport that no flight touches, has none.
pub compute_concentrations-sums :
    (flights : List FlightExposure) (total : ℕ) (key : RouteKey) (iata : String)
    → let conc = compute_concentrations flights total in
      (units_of key_eq key conc.routes ≡ (
        if any (flies key) flights
        then some (fraction total (liability (flies key) flights))
        else none))
      × (units_of str_eq iata conc.airports ≡ (
          if any (touches iata) flights
          then some (fraction total (liability (touches iata) flights))
          else none))
unfolding compute_concentrations units_of
compute_concentrations-sums flights total key iata = (
  units_of-fractions key_eq key_eq_iff key total (sum_routes flights [])
      ∙ ap (Option.map (fraction total)) (route_units-sum key flights [])
      ∙ pushed (any (flies key) flights) (liability (flies key) flights),
  units_of-fractions str_eq eq_iff iata total (sum_airports flights [])
      ∙ ap (Option.map (fraction total)) (airport_units-sum iata flights [])
      ∙ pushed (any (touches iata) flights) (liability (touches iata) flights),
)
  where
    pushed :
        (b : Bool) (n : ℕ)
        → Option.map (fraction total) (grown none b n)
          ≡ (if b then some (fraction total n) else none)
    pushed true n = let e : 0 + n ≡ n = omega arith in ap (λ t. some (fraction total t)) e
    pushed false n = refl
