-- ===== src/Frames.antt =====
-- What the helpers of the jobs keep: the targeted settlement, the arrival hints and the outcome log.
use sentinel_soroban_v.Base.{ℕ, String, Option, none, some}
use sentinel_soroban_v.Base.Int.{ℤ}
use sentinel_soroban_v.World.{classify_flight, settle_flight}
use sentinel_soroban_v.World.Db.{Outcome}
use sentinel_soroban_v.World.Monad.{Env, World, FleetRoute}
use sentinel_soroban_v.World.Keeps.{Keeps, IsFramed, framed_rules, Keeps-skip}
use sentinel_soroban_v.Soroban.Frame.{Admits, Keeps-invoke}
use sentinel_soroban_v.Targeted.{classify_and_settle_flight}
use sentinel_soroban_v.Schedules.{save_flight_schedule, read_scheduled_arrival}
use sentinel_soroban_v.OutcomeLog.{log_route, log_found, log_flight_outcome}

module _ (P : World → Type 0) (framed : IsFramed P) (env : Env) where
  pub Keeps-classify_and_settle_flight :
      (flight_id : String) (date : ℕ) (label : String)
      → Admits P (classify_flight flight_id date)
      → Admits P (settle_flight flight_id date)
      → Keeps P (classify_and_settle_flight env flight_id date label)
  unfolding classify_and_settle_flight
  Keeps-classify_and_settle_flight flight_id date label a b =
      search (framed_rules, Keeps-invoke) depth 14

  pub Keeps-save_flight_schedule :
      (flight_id : String) (date : ℕ) (out_secs in_secs : Option ℕ)
      → Keeps P (save_flight_schedule env flight_id date out_secs in_secs)
  unfolding save_flight_schedule
  Keeps-save_flight_schedule flight_id date out_secs in_secs = search framed_rules depth 12

  pub Keeps-read_scheduled_arrival :
      (flight_id : String) (date : ℕ) → Keeps P (read_scheduled_arrival env flight_id date)
  unfolding read_scheduled_arrival
  Keeps-read_scheduled_arrival flight_id date = search framed_rules depth 12

  Keeps-log_route :
      (route : FleetRoute) (date : ℕ) (outcome : Outcome) (delay : Option ℤ)
      → Keeps P (log_route env route date outcome delay)
  unfolding log_route
  Keeps-log_route route date outcome delay = search framed_rules depth 14

  Keeps-log_found :
      (route : Option FleetRoute) (date : ℕ) (outcome : Outcome) (delay : Option ℤ)
      → Keeps P (log_found env route date outcome delay)
  unfolding log_found
  Keeps-log_found none date outcome delay = Keeps-skip
  Keeps-log_found (some route) date outcome delay = Keeps-log_route route date outcome delay

  pub Keeps-log_flight_outcome :
      (flight_id : String) (date : ℕ) (outcome : Outcome) (delay : Option ℤ)
      → Keeps P (log_flight_outcome env flight_id date outcome delay)
  unfolding log_flight_outcome
  Keeps-log_flight_outcome flight_id date outcome delay =
      search (framed_rules, Keeps-log_found) depth 12
