-- ===== src/Repricer/Frame.antt =====
-- What a run of the repricing job keeps, and the routes that it finds under the cap.
use sentinel_soroban_v.Base.{
  ℕ, String, Bool, true, false, not, ◌&&◌, Option, none, some, List, [], ◌∷◌, ◌≡◌, refl, any, ◌||◌,
  Bool-cases, inl, inr, arith,
}
use sentinel_soroban_v.World.{Event, RouteKey}
use sentinel_soroban_v.World.Db.{Cause, Evidence, InterventionRow, PricingRun, key_eq, key_eq_iff}
use sentinel_soroban_v.World.Monad.{Env, World, FleetRoute, Result, ok, err, pure, ◌>>=◌}
use sentinel_soroban_v.World.Keeps.{
  Keeps, Keeps-bind, Keeps-if, Keeps-catch, Keeps-skip, Keeps-pure, Keeps-then, Ends, IsLax,
  Ends-bind, Ends-if, Ends-when,
}
use sentinel_soroban_v.World.Quiet.{IsQuiet, Suits, quiet_rules}
use sentinel_soroban_v.Weather.{key_of_route}
use sentinel_soroban_v.Interventions.Executor.{
  ensure_table, open_interventions, pause_route, revive_route,
}
use sentinel_soroban_v.Repricer.{
  Service, Tally, read_prediction, actor, nothing, proposed_of, request_for, predict, exclude,
  propose, by_cap, on_prediction, price_tracked, price_all, review_row, review_rows, review_pauses,
  add_pricing_run, log_pricing_run, read_health, reprice_fleet, run,
}
use sentinel_soroban_v.Repricer.Carriers.{to_iata}

-- What holds of every key of a list.
abbrev pub Each : (RouteKey → Type 0) → List RouteKey → Type 0
Each R [] = Unit
Each R (k ∷ rest) = R k × Each R rest

Each-any :
    (R : RouteKey → Type 0) (k : RouteKey) (keys : List RouteKey)
    → Each R keys
    → any (key_eq k) keys ≡ true
    → R k
Each-any R k [] h found = ground arith
Each-any R k (l ∷ rest) h found = elim (Bool-cases (key_eq k l)) [
  | inl same ↦ rw ((key_eq_iff k l).0 same) h.0
  | inr apart ↦ Each-any R k rest h.1 (tail_lem (key_eq k l) _ apart found)
]
  where
    tail_lem : (a b : Bool) → a ≡ false → (a || b) ≡ true → b ≡ true
    tail_lem a b h k = ground arith

module _ (P : World → Type 0) (quiet : IsQuiet P) (env : Env) (svc : Service) (dry_run : Bool)
    (R : RouteKey → Type 0)
    (fair : (r : FleetRoute) (iata : String) (day p units : ℕ) (log : List Event)
      → read_prediction (svc.predict log (request_for env svc dry_run r iata day)) ≡ some p
      → proposed_of env svc dry_run p ≡ some units
      → R (key_of_route r))
    (pauses : (k : RouteKey) (evidence : Evidence)
      → dry_run ≡ false
      → Keeps P (pause_route env k Cause.pricing evidence actor))
    (revives : (k : RouteKey)
      → dry_run ≡ false
      → R k
      → Keeps P (revive_route env k Cause.pricing actor))
    (logs : (row : PricingRun) → Suits P (add_pricing_run env svc dry_run row)) where
  Fair : Result Tally × World → Type 0
  Fair (ok t, w) = Each R t.under_cap
  Fair (err e, w) = Unit

  Fair-IsLax : IsLax Fair
  unfolding Fair
  Fair-IsLax = record { errs = λ e w. tt }

  Fair-pure : (t : Tally) → Each R t.under_cap → Ends Fair (pure t)
  unfolding Fair pure
  Fair-pure t h = record { at = λ w. h }

  -- what a prediction was read from
  Read : FleetRoute → String → ℕ → Result (Option ℕ) × World → Type 0
  Read r iata day (ok o, w) =
      (log : List Event) × (read_prediction
          (svc.predict log (request_for env svc dry_run r iata day))
        ≡ o)
  Read r iata day (err e, w) = Unit

  predict-Read :
      (r : FleetRoute) (iata : String) (day : ℕ)
      → Ends (Read r iata day) (predict env svc dry_run (request_for env svc dry_run r iata day))
  unfolding predict Read ◌>>=◌
  predict-Read r iata day = record { at = λ w. (w.log, refl) }

  Fair-exclude :
      (r : FleetRoute) (p : ℕ) (t : Tally)
      → Each R t.under_cap
      → Ends Fair (exclude env svc dry_run r p t)
  unfolding exclude
  Fair-exclude r p t h =
      Ends-if _ _ _ (Ends-bind _ _ Fair-IsLax (λ u. Fair-pure _ h))
        (Ends-bind _ _ Fair-IsLax (λ result. Ends-bind _ _ Fair-IsLax (λ u. Fair-pure _ h)))

  Fair-propose :
      (r : FleetRoute) (units : ℕ) (t : Tally)
      → R (key_of_route r)
      → Each R t.under_cap
      → Ends Fair (propose env svc dry_run r units t)
  unfolding propose
  Fair-propose r units t here h =
      Ends-if _ _ _ (Fair-pure _ (here, h)) (Ends-bind _ _ Fair-IsLax (λ u. Fair-pure _ (here, h)))

  Fair-by_cap :
      (r : FleetRoute) (p : ℕ) (t : Tally) (proposed : Option ℕ)
      → ((units : ℕ) → proposed ≡ some units → R (key_of_route r))
      → Each R t.under_cap
      → Ends Fair (by_cap env svc dry_run r p t proposed)
  unfolding by_cap
  Fair-by_cap r p t none found h = Fair-exclude r p t h
  Fair-by_cap r p t (some units) found h = Fair-propose r units t (found units refl) h

  Fair-on_prediction :
      (r : FleetRoute) (iata : String) (day : ℕ) (t : Tally) (log : List Event) (o : Option ℕ)
      → read_prediction (svc.predict log (request_for env svc dry_run r iata day)) ≡ o
      → Each R t.under_cap
      → Ends Fair (on_prediction env svc dry_run r t o)
  unfolding on_prediction
  Fair-on_prediction r iata day t log none e h = Fair-pure _ h
  Fair-on_prediction r iata day t log (some p) e h =
      Fair-by_cap r p t _ (λ units under. fair r iata day p units log e under) h

  Fair-price_tracked :
      (day : ℕ) (r : FleetRoute) (t : Tally) (iata : Option String)
      → Each R t.under_cap
      → Ends Fair (price_tracked env svc dry_run day r t iata)
  unfolding price_tracked Read
  Fair-price_tracked day r t none h = Fair-pure _ h
  Fair-price_tracked day r t (some iata) h =
      Ends-when _ _ Fair-IsLax (predict-Read r iata day)
        (λ o w q. (Fair-on_prediction r iata day t q.0 o q.1 h).at w)

  Fair-price_all :
      (day : ℕ) (routes : List FleetRoute) (t : Tally)
      → Each R t.under_cap
      → Ends Fair (price_all env svc dry_run day routes t)
  unfolding price_all Fair
  Fair-price_all day [] t h = Fair-pure t h
  Fair-price_all day (r ∷ rest) t h =
      Ends-when _ _ Fair-IsLax (Fair-price_tracked day r t (to_iata (svc.carrier r)) h)
        (λ next w q. (Fair-price_all day rest next q).at w)

  Keeps-exclude : (r : FleetRoute) (p : ℕ) (t : Tally) → Keeps P (exclude env svc dry_run r p t)
  unfolding exclude
  Keeps-exclude r p t =
      Keeps-if dry_run _ _ (λ dry. search quiet_rules) (λ wet. search (quiet_rules, pauses) depth 9)

  Keeps-by_cap :
      (r : FleetRoute) (p : ℕ) (t : Tally) (o : Option ℕ) → Keeps P (by_cap env svc dry_run r p t o)
  unfolding by_cap propose
  Keeps-by_cap r p t none = Keeps-exclude r p t
  Keeps-by_cap r p t (some units) = search quiet_rules depth 9

  Keeps-on_prediction :
      (r : FleetRoute) (t : Tally) (o : Option ℕ) → Keeps P (on_prediction env svc dry_run r t o)
  unfolding on_prediction
  Keeps-on_prediction r t none = Keeps-pure _
  Keeps-on_prediction r t (some p) = Keeps-by_cap r p t _

  Keeps-price_tracked :
      (day : ℕ) (r : FleetRoute) (t : Tally) (o : Option String)
      → Keeps P (price_tracked env svc dry_run day r t o)
  unfolding price_tracked predict
  Keeps-price_tracked day r t none = Keeps-pure _
  Keeps-price_tracked day r t (some iata) = search (quiet_rules, Keeps-on_prediction) depth 9

  Keeps-price_all :
      (day : ℕ) (routes : List FleetRoute) (t : Tally)
      → Keeps P (price_all env svc dry_run day routes t)
  unfolding price_all
  Keeps-price_all day [] t = Keeps-pure _
  Keeps-price_all day (r ∷ rest) t =
      Keeps-bind _ _ (Keeps-price_tracked day r t _) (λ next. Keeps-price_all day rest next)

  Keeps-review_row :
      (under : List RouteKey) (row : InterventionRow)
      → dry_run ≡ false
      → Each R under
      → Keeps P (review_row env svc dry_run under row)
  unfolding review_row
  Keeps-review_row under row wet h =
      Keeps-if (not (any (key_eq row.route) under)) _ _ (λ _. Keeps-skip)
        (λ found.
          let here : R row.route = Each-any R row.route under h (found_lem _ found) in
          let step = revives row.route wet here in search (quiet_rules, step))
    where
      found_lem : (b : Bool) → not b ≡ false → b ≡ true
      found_lem b h = ground arith

  Keeps-review_rows :
      (under : List RouteKey) (rows : List InterventionRow)
      → dry_run ≡ false
      → Each R under
      → Keeps P (review_rows env svc dry_run under rows)
  unfolding review_rows
  Keeps-review_rows under [] wet h = Keeps-skip
  Keeps-review_rows under (row ∷ rest) wet h =
      Keeps-bind _ _ (Keeps-review_row under row wet h) (λ u. Keeps-review_rows under rest wet h)

  Keeps-review_pauses :
      (under : List RouteKey) → Each R under → Keeps P (review_pauses env svc dry_run under)
  unfolding review_pauses open_interventions ensure_table
  Keeps-review_pauses under h =
      Keeps-if (env.db_configured && not dry_run) _ _
        (λ go.
          Keeps-catch _ _
            (Keeps-bind _ _ (search quiet_rules depth 12)
              (λ rows. Keeps-review_rows under rows (wet_of env.db_configured dry_run go) h))
            (λ e. Keeps-skip))
        (λ stay. Keeps-skip)
    where
      wet_of : (b dry : Bool) → (b && not dry) ≡ true → dry ≡ false
      wet_of b dry h = ground arith

  Keeps-log_pricing_run : (row : PricingRun) → Keeps P (log_pricing_run env svc dry_run row)
  unfolding log_pricing_run
  Keeps-log_pricing_run row = search (quiet_rules, logs) depth 12

  Keeps-reprice_fleet : (fleet : List FleetRoute) → Keeps P (reprice_fleet env svc dry_run fleet)
  unfolding reprice_fleet read_health Fair
  Keeps-reprice_fleet fleet = Keeps-bind _ _ (search quiet_rules) (λ version.
      Keeps-bind _ _ (search quiet_rules) (λ t.
        Keeps-then _ _ (Keeps-price_all _ _ _) (Fair-price_all _ _ nothing tt) (λ tally w p q.
          (Keeps-bind _ _ (Keeps-review_pauses tally.under_cap q)
              (λ u. Keeps-bind _ _ (Keeps-log_pricing_run _) (λ logged. Keeps-pure _))).at
            w p)))

  pub Keeps-run : Keeps P (run env svc dry_run)
  unfolding run
  Keeps-run = search (quiet_rules, Keeps-reprice_fleet) depth 9
