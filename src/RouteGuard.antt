-- ===== src/RouteGuard.antt =====
-- dapp/api/_lib/route_guard.ts: the sweep of a route's next five days.
pub mod Verdict
pub mod Frame
pub mod Calls
use sentinel_soroban_v.Base.{
  ℕ, zero, suc, ◌+◌, ◌*◌, ◌/◌, String, Bool, true, false, not, ◌&&◌, Option, none, some, List, [],
  ◌∷◌, ◌++◌, if◌then◌else◌, select, any, all, or_else, str_eq, is_some,
}
use sentinel_soroban_v.World.{
  AeroFlight, ScheduledFlight, Schedules, Filters, RouteKey, Failure, IsoText,
}
use sentinel_soroban_v.World.Db.{Cause, DayState, alive, dead, unknown, SweepDay, Evidence, sweep}
use sentinel_soroban_v.World.Monad.{Env, M, pure, ◌>>=◌, ◌>>◌, catch, now}
use sentinel_soroban_v.Aero.Predicates.{is_on_day, is_confirmed_cancellation}
use sentinel_soroban_v.Aero.Client.{get_flight_instances, get_schedules, day_secs, next_link}
use sentinel_soroban_v.Interventions.Executor.{
  PauseOutcome, PauseResult, pause_route, record_check, checked_recently,
}

abbrev pub sweep_horizon_days : ℕ
sweep_horizon_days = 5

abbrev pub near_days : ℕ
near_days = 2

abbrev pub sweep_dedupe_hours : ℕ
sweep_dedupe_hours = 24

-- `SweepVerdict`
pub record SweepVerdict : Type 0 where
  pub days : List SweepDay
  pub all_dead : Bool

-- `scheduled_out ?? scheduled_in`
abbrev pub filed : AeroFlight → Option IsoText
filed f = elim f.scheduled_out [ none ↦ f.scheduled_in | some t ↦ some t ]

abbrev pub mark : ℕ → DayState → String → SweepDay
mark date state detail = record { date = date; state = state; detail = detail }

-- the instances of one day
unfoldable pub judge_instances : ℕ → List AeroFlight → SweepDay
judge_instances date [] = mark date dead "absent from live tracking"
judge_instances date (f ∷ rest) =
    if any (λ g. not g.cancelled) (f ∷ rest)
    then mark date alive "tracked as operating"
    else if any is_confirmed_cancellation (f ∷ rest)
    then mark date dead "cancelled (corroborated)"
    else mark date unknown "uncorroborated cancel flag"

-- a day of live tracking
unfoldable pub near_day : Option (List AeroFlight) → ℕ → SweepDay
unfolding judge_instances
near_day none date = mark date unknown "live-data call failed"
near_day (some instances) date =
    judge_instances date (select (λ f. is_on_day date (filed f)) instances)

-- the row publishes the flight on the day
abbrev pub publishes : String → ℕ → ScheduledFlight → Bool
publishes flight_id date s =
    str_eq (or_else s.actual_ident s.ident) flight_id && is_on_day date s.scheduled_out

unfoldable pub judge_published : ℕ → Bool → SweepDay
judge_published date true = mark date alive "in published schedule"
judge_published date false = mark date dead "not in published schedule"

-- a day of the published schedule
unfoldable pub far_day : String → Option Schedules → ℕ → SweepDay
unfolding judge_published
far_day flight_id none date = mark date unknown "schedules call failed/partial"
far_day flight_id (some page) date =
    if is_some (next_link page)
    then mark date unknown "schedules call failed/partial"
    else judge_published date (any (publishes flight_id date) page.scheduled)

abbrev pub is_dead : SweepDay → Bool
is_dead d = elim d.state [ alive ↦ false | dead ↦ true | unknown ↦ false ]

abbrev pub is_alive : SweepDay → Bool
is_alive d = elim d.state [ alive ↦ true | dead ↦ false | unknown ↦ false ]

-- The verdict on two answers: days +1 and +2 by the first, days +3 to +5 by the second.
unfoldable pub verdict_of : String → ℕ → Option (List AeroFlight) → Option Schedules → SweepVerdict
unfolding near_day far_day
verdict_of flight_id today instances schedules =
    let days : List SweepDay =
      near_day instances (today + 1)
      ∷ near_day instances (today + 2)
      ∷ far_day flight_id schedules (today + 3)
      ∷ far_day flight_id schedules (today + 4)
      ∷ far_day flight_id schedules (today + 5)
      ∷ [] in
    record { days = days; all_dead = all is_dead days }

abbrev pub pair_filters : RouteKey → Filters
pair_filters route = record {
  airline = none;
  flight_number = none;
  origin = some route.origin;
  destination = some route.dest;
  max_pages = none;
}

-- `GuardResult`, by the ways it comes about
pub data GuardResult : Type 0 where
  swept_already : GuardResult
  route_alive : SweepVerdict → GuardResult
  acted : SweepVerdict → PauseOutcome → GuardResult
  sweep_error : Failure → GuardResult

module _ (env : Env) where
  -- `sweepVerdict`, with the day that is today
  unfoldable pub sweep_verdict : RouteKey → ℕ → M SweepVerdict
  unfolding verdict_of
  sweep_verdict route today = do
    instances ←
        get_flight_instances env route.flight_id ((today + 1) * day_secs)
          ((today + near_days) * day_secs + 86399)
    schedules ←
        get_schedules env (today + near_days + 1) (today + sweep_horizon_days + 1)
          (pair_filters route)
    pure (verdict_of route.flight_id today instances schedules)

  -- what follows a verdict
  unfoldable pub on_verdict : RouteKey → String → SweepVerdict → M GuardResult
  on_verdict route actor verdict =
      if verdict.all_dead
      then (do
        paused ← pause_route env route Cause.cancellation (sweep verdict.days) actor
        pure (acted verdict paused.outcome))
      else (do
        record_check env route Cause.cancellation (sweep verdict.days) actor
        pure (route_alive verdict))

  unfoldable pub sweep_and_act : RouteKey → String → M GuardResult
  sweep_and_act route actor = do
    t ← now env
    verdict ← sweep_verdict route (t / 1000 / day_secs)
    on_verdict route actor verdict

  -- `guardRoute`
  unfoldable pub guard_route : RouteKey → String → M GuardResult
  guard_route route actor =
      catch
        (do
          recently ← checked_recently env route Cause.cancellation sweep_dedupe_hours
          if recently then pure swept_already else sweep_and_act route actor)
        (λ e. pure (sweep_error e))
