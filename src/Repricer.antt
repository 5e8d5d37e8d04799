-- ===== src/Repricer.antt =====
-- dapp/api/_lib/jobs/repricer.ts, with the client of the prediction service
-- (dapp/api/_lib/agent_client.ts) and the log of its runs (dapp/api/_lib/governance/pricing_log.ts).
pub mod Carriers
pub mod Frame
pub mod Evidence
use Prim.Native.String.{◌++◌ as str_append}
use sentinel_soroban_v.Base.{
  ℕ, ◌+◌, ◌*◌, ◌/◌, ◌%◌, String, Bool, true, false, not, ◌&&◌, Option, none, some, List, [], ◌∷◌,
  ◌++◌, ◌==◌, leb, if◌then◌else◌, length, select, any, or_else,
}
use sentinel_soroban_v.World.{
  Event, RouteKey, PredictRequest, Answer, json, status, exception, got_health, got_prediction,
  routes_file,
}
use sentinel_soroban_v.World.Db.{
  Db, Cause, InterventionRow, PricingRun, Excluded, Change, price, key_eq,
}
use sentinel_soroban_v.World.Monad.{
  Env, FleetRoute, M, transition, skipped, pure, skip, gets, or_raise, emit, push, now, statement,
  ◌>>=◌, ◌>>◌, catch,
}
use sentinel_soroban_v.RouteRules.{ml_base_premium_units, expected_loss_premium_units}
use sentinel_soroban_v.Weather.{Terms, file_premium, key_of_route}
use sentinel_soroban_v.Interventions.Texts.{pause_text, revive_text}
use sentinel_soroban_v.Interventions.Executor.{open_interventions, pause_route, revive_route}
use sentinel_soroban_v.Repricer.Carriers.{to_iata}

-- `p_covered` as the service sends it
pub data Probability : Type 0 where
  not_a_number : Probability
  negative : Probability
  millionths : ℕ → Probability

-- the fields of `AgentPredictResponse` that are read
pub record Prediction : Type 0 where
  pub p_covered : Probability

-- `StagedDetail`
pub record StagedDetail : Type 0 where
  pub dep_time_hhmm : Option ℕ
  pub distance_mi : Option ℕ

-- The prediction service, and the files that the run reads besides the routes: the terms, the
-- carrier of a route and the staged details.
pub record Service : Type 0 where
  pub health : List Event → Option String
  pub predict : List Event → PredictRequest → Answer Prediction
  pub terms : Terms
  pub carrier : FleetRoute → String
  pub staged : RouteKey → StagedDetail

abbrev pub actor : String
actor = "cron:reprice"

abbrev pub payoff_units : ℕ
payoff_units = 1000000000

abbrev pub in_range : Probability → Option ℕ
in_range not_a_number = none
in_range negative = none
in_range (millionths n) = if leb n 1000000 then some n else none

-- `null` for any answer that is no probability
unfoldable pub read_prediction : Answer Prediction → Option ℕ
read_prediction (json none) = none
read_prediction (json (some body)) = in_range body.p_covered
read_prediction (status code) = none
read_prediction exception = none

-- `Math.round(pCovered * EXPECTED_LOSS_MARGIN * 10_000)` of route_rules.ts, of millionths
abbrev pub to_bps : ℕ → ℕ
to_bps p = (p * 13 + 500) / 1000

-- `((forDate.getUTCDay() + 6) % 7) + 1` of a day's number
abbrev pub day_of_week : ℕ → ℕ
day_of_week day = (day + 3) % 7 + 1

-- what a run has found so far
pub record Tally : Type 0 where
  pub under_cap : List RouteKey
  pub priced : ℕ
  pub failed : ℕ
  pub excluded : List Excluded
  pub changes : List Change

abbrev pub nothing : Tally
nothing = record { under_cap = []; priced = 0; failed = 0; excluded = []; changes = [] }

module _ (env : Env) (svc : Service) (dry_run : Bool) where
  -- the base premium that a probability comes to, or `null` above the cap
  abbrev pub proposed_of : ℕ → Option ℕ
  proposed_of p = ml_base_premium_units (to_bps p) payoff_units svc.terms.rails

  abbrev pub request_for : FleetRoute → String → ℕ → PredictRequest
  request_for r iata day = record {
    carrier = iata;
    origin = r.origin;
    dest = r.destination;
    day = day;
    day_of_week = day_of_week day;
    dep_time_hhmm = (svc.staged (key_of_route r)).dep_time_hhmm;
    distance_mi = (svc.staged (key_of_route r)).distance_mi;
  }

  -- `predict`
  unfoldable pub predict : PredictRequest → M (Option ℕ)
  unfolding read_prediction
  predict req = do
    answer ← gets (λ w. svc.predict w.log req)
    emit (got_prediction req)
    pure (read_prediction answer)

  -- the branch above the cap
  unfoldable pub exclude : FleetRoute → ℕ → Tally → M Tally
  exclude r p t = do
    let honest = expected_loss_premium_units (to_bps p) payoff_units
    let left = record t {
      priced = t.priced + 1;
      excluded =
          t.excluded ++ (record { route = key_of_route r; p_covered = p; honest = honest } ∷ []);
    }
    if dry_run
        then push r.flight_id (skipped "[dry-run] above base cap — would pause") >> pure left
        else (do
          result ← pause_route env (key_of_route r) Cause.pricing (price p honest) actor
          push r.flight_id (
              transition (str_append "above base cap — " (pause_text Cause.pricing result.outcome)))
          pure left)

  -- the branch under the cap: a change is proposed, and not applied
  unfoldable pub propose : FleetRoute → ℕ → Tally → M Tally
  propose r proposed t = do
    let current = file_premium svc.terms r
    let kept = record t { priced = t.priced + 1; under_cap = key_of_route r ∷ t.under_cap }
    if proposed == current then pure kept else (do
      push r.flight_id (skipped "proposes (advisory — apply via manual ritual)")
      pure (record kept {
        changes =
            t.changes
            ++ (record { route = key_of_route r; current = current; proposed = proposed } ∷ []);
      }))

  unfoldable pub by_cap : FleetRoute → ℕ → Tally → Option ℕ → M Tally
  by_cap r p t none = exclude r p t
  by_cap r p t (some proposed) = propose r proposed t

  abbrev pub fail : Tally → Tally
  fail t = record t { failed = t.failed + 1 }

  unfoldable pub on_prediction : FleetRoute → Tally → Option ℕ → M Tally
  unfolding by_cap
  on_prediction r t none = pure (fail t)
  on_prediction r t (some p) = by_cap r p t (proposed_of p)

  -- a route of a carrier that is tracked, or not
  unfoldable pub price_tracked : ℕ → FleetRoute → Tally → Option String → M Tally
  price_tracked day r t none = pure (fail t)
  price_tracked day r t (some iata) = do p ← predict (request_for r iata day); on_prediction r t p

  -- the loop over the enabled routes; an exception of a pause ends it
  unfoldable pub price_all : ℕ → List FleetRoute → Tally → M Tally
  unfolding price_tracked to_iata
  price_all day [] t = pure t
  price_all day (r ∷ rest) t = do
    next ← price_tracked day r t (to_iata (svc.carrier r))
    price_all day rest next

  unfoldable pub review_row : List RouteKey → InterventionRow → M Unit
  review_row under row = if not (any (key_eq row.route) under) then skip else (do
    outcome ← revive_route env row.route Cause.pricing actor
    push row.route.flight_id
        (transition (str_append "back under the cap — " (revive_text Cause.pricing outcome))))

  unfoldable pub review_rows : List RouteKey → List InterventionRow → M Unit
  unfolding review_row
  review_rows under [] = skip
  review_rows under (row ∷ rest) = do review_row under row; review_rows under rest

  -- the pricing pauses that priced back under the cap
  unfoldable pub review_pauses : List RouteKey → M Unit
  unfolding review_rows
  review_pauses under =
      if env.db_configured && not dry_run
      then catch (do rows ← open_interventions env (some Cause.pricing); review_rows under rows)
          (λ e. skip)
      else skip

  abbrev pub add_pricing_run : PricingRun → Db → Db
  add_pricing_run row db = record db { pricing_runs = row ∷ db.pricing_runs }

  -- `logPricingRun`: the table is created, its access closed, and the row inserted
  unfoldable pub log_pricing_run : PricingRun → M Bool
  log_pricing_run row =
      if env.db_configured
      then catch
          (do
            statement env (λ db. db)
            statement env (λ db. db)
            statement env (add_pricing_run row)
            pure true)
          (λ e. pure false)
      else pure false

  -- the version of the model, or "unknown"
  unfoldable pub read_health : M String
  read_health = do
    version ← gets (λ w. svc.health w.log)
    emit got_health
    pure (or_else version "unknown")

  unfoldable pub reprice_fleet : List FleetRoute → M Bool
  unfolding price_all review_pauses log_pricing_run read_health
  reprice_fleet fleet = do
    let enabled = select (λ r. r.enabled) fleet
    version ← read_health
    t ← now env
    let day = (t + 1209600000) / 86400000
    tally ← price_all day enabled nothing
    review_pauses tally.under_cap
    logged ← log_pricing_run (record {
      model_version = version;
      priced_for = day;
      total_candidates = length enabled;
      priced = tally.priced;
      failed = tally.failed;
      excluded = tally.excluded;
      proposed_changes = tally.changes;
    })
    pure true

  -- `run`: whether it reports success
  unfoldable pub run : M Bool
  unfolding reprice_fleet
  run = do
    start ← now env
    catch (do fleet ← or_raise env.fleet routes_file; reprice_fleet fleet) (λ e. pure false)
