-- ===== src/Repricer/Evidence.antt =====
-- What a run of the repricing job leaves alone.
use sentinel_soroban_v.Base.{
  ℕ, String, Bool, true, false, none, some, List, ◌≡◌, refl, ◌⊎◌, Bool-cases, inl, inr, arith,
}
use sentinel_soroban_v.World.{Event, RouteKey}
use sentinel_soroban_v.World.Db.{Cause, PricingRun, cause_eq, key_eq, key_eq_iff}
use sentinel_soroban_v.World.Monad.{Env, World, FleetRoute}
use sentinel_soroban_v.World.Quiet.{Suits}
use sentinel_soroban_v.Weather.{key_of_route}
use sentinel_soroban_v.Interventions.Guardrails.{is_held}
use sentinel_soroban_v.Interventions.Holds.{
  Holding, enables, Holding-IsQuiet, Keeps-revive_route, Keeps-revive_sparing,
}
use sentinel_soroban_v.Interventions.Pauses.{close_rows-apart, Keeps-pause_route}
use sentinel_soroban_v.Revive.DryRun.{IsUntouched, IsUntouched-IsQuiet}
use sentinel_soroban_v.Repricer.{
  Service, actor, read_prediction, proposed_of, request_for, add_pricing_run, run,
}
use sentinel_soroban_v.Repricer.Frame.{Keeps-run}

module _ (env : Env) (svc : Service) (dry_run : Bool) (key : RouteKey) (other : Cause) (n : ℕ) where
  add_pricing_run-Suits :
      (row : PricingRun) → Suits (Holding key other n) (add_pricing_run env svc dry_run row)
  unfolding Holding
  add_pricing_run-Suits row = record { to = λ w h. h }

  -- with a route that the run may find under the cap, or not
  kept_lem :
      (R : RouteKey → Type 0)
      → ((r : FleetRoute) (iata : String) (day p units : ℕ) (log : List Event)
          → read_prediction (svc.predict log (request_for env svc dry_run r iata day)) ≡ some p
          → proposed_of env svc dry_run p ≡ some units
          → R (key_of_route r))
      → ((k : RouteKey) → R k → (cause_eq Cause.pricing other ≡ false) ⊎ (key_eq k key ≡ false))
      → (w : World) → Holding key other n w
      → Holding key other n (run env svc dry_run w).1
  kept_lem R fair spared w h =
      (Keeps-run (Holding key other n) (Holding-IsQuiet key other n) env svc dry_run R fair
          (λ k evidence wet. Keeps-pause_route key other n env k Cause.pricing evidence actor)
          (λ k wet here. elim (spared k here) [
            | inl differ ↦ Keeps-revive_route key other n env k Cause.pricing actor differ
            | inr apart ↦
                Keeps-revive_sparing key other n env k Cause.pricing actor
                  (close_rows-apart key other n k Cause.pricing actor apart)
          ])
          add_pricing_run-Suits).at
        w h

-- A run of the repricing job leaves a route that is held by another cause than pricing held by it;
-- and a route that pricing holds stays held by pricing unless the prediction service has given, for
-- that very route, a probability whose price is under the cap: a prediction that fails or is out of
-- range is no evidence. In both cases the run sends no transaction that enables the route, whatever
-- it finds on other routes and whatever fails.
pub run-is_held :
    (env : Env) (svc : Service) (dry_run : Bool) (key : RouteKey) (other : Cause) (w : World)
    (spared : (cause_eq Cause.pricing other ≡ false)
      ⊎ ((r : FleetRoute) (iata : String) (day p : ℕ) (log : List Event)
          → key_of_route r ≡ key
          → read_prediction (svc.predict log (request_for env svc dry_run r iata day)) ≡ some p
          → proposed_of env svc dry_run p ≡ none))
    → is_held key other w.db ≡ true
    → let after = (run env svc dry_run w).1 in
      (is_held key other after.db ≡ true) × (enables key after.log ≡ enables key w.log)
unfolding Holding
run-is_held env svc dry_run key other w (inl differ) held =
    kept_lem env svc dry_run key other (enables key w.log) (λ k. Unit)
      (λ r iata day p units log read under. tt) (λ k here. inl differ) w (held, refl)
run-is_held env svc dry_run key other w (inr never) held =
    kept_lem env svc dry_run key other (enables key w.log) (λ k. key_eq k key ≡ false)
      (λ r iata day p units log read under. elim (Bool-cases (key_eq (key_of_route r) key)) [
        | inl same ↦
            let none_given =
              never r iata day p log ((key_eq_iff (key_of_route r) key).0 same) read in
            cc
        | inr apart ↦ apart
      ])
      (λ k here. inr here) w (held, refl)

-- A dry run of the repricing job sends no transaction, leaves the routes table as it is and opens
-- and closes no row of the ledger, whatever the service answers and whatever fails.
pub dry-IsUntouched : (env : Env) (svc : Service) (w : World) → IsUntouched w (run env svc true w).1
dry-IsUntouched env svc w =
    (Keeps-run (IsUntouched w) (IsUntouched-IsQuiet w) env svc true (λ k. Unit)
        (λ r iata day p units log read under. tt) (λ k evidence wet. absurd (never wet))
        (λ k wet here. absurd (never wet)) (λ row. record { to = λ v h. kept row v h })).at
      w (record { sent = refl; routes = refl; held = λ key cause. refl })
  where
    never : true ≡ false → ⊥
    never h = ground arith

    kept :
        (row : PricingRun) (v : World)
        → IsUntouched w v
        → IsUntouched w (record v { db = add_pricing_run env svc true row v.db })
    kept row v h = record { sent = h.sent; routes = h.routes; held = h.held }
