-- ===== src/SettleSweep.antt =====
-- dapp/api/_lib/jobs/fetcher.ts: the settle sweep.
pub mod Justified
pub mod Safety
pub mod Economy
use Prim.Native.String.{◌++◌ as str_append}
use sentinel_soroban_v.Base.{
  ℕ, ◌+◌, ◌-◌, ◌*◌, ◌/◌, ◌%◌, String, Bool, true, false, ◌&&◌, Option, none, some, List, [], ◌∷◌,
  ltb, leb, ◌==◌, if◌then◌else◌, str_eq, or_else, length,
}
use sentinel_soroban_v.Base.Int.{ℤ, round_minutes, at_least}
use sentinel_soroban_v.FlightStatus
use sentinel_soroban_v.Status.{parse_flight_status, is_open}
use sentinel_soroban_v.World.{
  AeroFlight, flight_data, active_flights, saw_status, set_cancelled, set_estimated_arrival,
  set_landed,
}
use sentinel_soroban_v.World.Monad.{
  Env, World, M, FlightData, Note, transition, skipped, error, pure, skip, gets, emit, push,
  set_deadline, ◌>>=◌, ◌>>◌, catch, now, read_as,
}
use sentinel_soroban_v.Soroban.{invoke}
use sentinel_soroban_v.Aero.Predicates.{is_set, is_confirmed_cancellation, is_confirmed_diversion}
use sentinel_soroban_v.Aero.Client.{get_flight_data, parse_timestamp, day_secs}
use sentinel_soroban_v.Targeted.{classify_and_settle_flight}
use sentinel_soroban_v.Schedules.{read_scheduled_arrival}
use sentinel_soroban_v.OutcomeLog.{log_flight_outcome}
use sentinel_soroban_v.World.Db.{Outcome}

abbrev pub visibility_past_secs : ℕ
visibility_past_secs = 864000

abbrev pub fallback_arrival_after_date_secs : ℕ
fallback_arrival_after_date_secs = 108000

abbrev pub run_budget_ms : ℕ
run_budget_ms = 240000

-- the day of a civil date since 1970
abbrev pub civil_day : ℕ → ℕ → ℕ → ℕ
civil_day year month day =
    let y : ℕ = if leb month 2 then year - 1 else year in
    let m : ℕ = if leb month 2 then month + 9 else month - 3 in
    y * 365 + y / 4 - y / 100 + y / 400 + (153 * m + 2) / 5 + day - 719469

-- `dateToString`, with the day that its text names: the key is a time in seconds, or YYYYMMDD
unfoldable pub day_of_date : ℕ → ℕ
day_of_date date =
    if ltb 19000000 date && ltb date 30000000
    then civil_day (date / 10000) (date / 100 % 100) (date % 100)
    else date / day_secs

-- `ActiveFlight`
abbrev pub ActiveFlight : Type 0
ActiveFlight = String × ℕ

-- `delayMin !== null && delayMin >= 180 ? "delayed" : "ontime"`
abbrev pub landed_outcome : Option ℤ → Outcome
landed_outcome none = Outcome.ontime
landed_outcome (some minutes) = if at_least minutes 180 then Outcome.delayed else Outcome.ontime

abbrev pub delay_minutes : ℕ → ℕ → Option ℤ
delay_minutes scheduled actual =
    if ltb 0 scheduled then some (round_minutes actual scheduled) else none

module _ (env : Env) where
  -- an outcome write of a flight that did not fly as filed, and its targeted settlement
  unfoldable pub settle_cancelled : ActiveFlight → String → Outcome → M Unit
  settle_cancelled (flight_id, date) note outcome = do
    invoke env (set_cancelled flight_id date)
    push flight_id (transition note)
    log_flight_outcome env flight_id date outcome none
    classify_and_settle_flight env flight_id date flight_id

  -- `if (apiData.cancelled)`
  unfoldable pub on_cancelled : ActiveFlight → String → AeroFlight → M Unit
  on_cancelled flight status f =
      if is_confirmed_cancellation f
      then settle_cancelled flight (str_append status " → Cancelled") Outcome.cancelled
      else push flight.0 (skipped "Uncorroborated cancellation")

  -- `if (apiData.diverted)`
  unfoldable pub on_diverted : ActiveFlight → String → AeroFlight → M Unit
  on_diverted flight status f =
      if is_confirmed_diversion f
      then settle_cancelled flight (str_append status " → Cancelled (diverted)") Outcome.diverted
      else push flight.0 (skipped "Uncorroborated diversion")

  -- the end of the landed branch: the landing itself and its targeted settlement
  unfoldable pub write_landed : ActiveFlight → ℕ → ℕ → M Unit
  write_landed (flight_id, date) scheduled actual = do
    invoke env (set_landed flight_id date actual)
    push flight_id (transition "Active → Landed")
    let delay = delay_minutes scheduled actual
    log_flight_outcome env flight_id date (landed_outcome delay) delay
    classify_and_settle_flight env flight_id date flight_id

  -- the schedule write, then the landing
  unfoldable pub activate : ActiveFlight → ℕ → M Unit → M Unit
  activate (flight_id, date) scheduled landed = do
    invoke env (set_estimated_arrival flight_id date scheduled)
    push flight_id (transition "NotInitiated → Active (schedule written)")
    landed

  -- the schedule write that a flight which is not yet active needs first
  unfoldable pub activate_then : ActiveFlight → String → ℕ → M Unit → M Unit
  activate_then flight status scheduled landed =
      if str_eq status FlightStatus.not_initiated
      then (if scheduled == 0
          then push flight.0 (skipped "Landed without scheduled_in")
          else activate flight scheduled landed)
      else landed

  -- `actual_in` is there
  unfoldable pub on_landed : ActiveFlight → String → AeroFlight → M Unit
  on_landed flight status f = do
    scheduled ← parse_timestamp f.scheduled_in
    actual ← parse_timestamp f.actual_in
    activate_then flight status scheduled (write_landed flight scheduled actual)

  -- the outcome that AeroAPI's answer shows
  unfoldable pub resolve : ActiveFlight → String → AeroFlight → M Unit
  resolve flight status f =
      if f.cancelled
      then on_cancelled flight status f
      else if or_else f.diverted false
      then on_diverted flight status f
      else if is_set f.actual_in
      then on_landed flight status f
      else push flight.0 (skipped (str_append "Still " f.status))

  unfoldable pub on_answer : ActiveFlight → String → Option AeroFlight → M Unit
  on_answer flight status none = push flight.0 (skipped "No AeroAPI data, will retry")
  on_answer flight status (some f) = resolve flight status f

  unfoldable pub fetch_outcome : ActiveFlight → String → M Unit
  unfolding on_answer
  fetch_outcome flight status = do
    found ← get_flight_data env flight.0 (day_of_date flight.1)
    on_answer flight status found

  -- the scheduled arrival: on chain, else the hint, else the end of the day of departure
  unfoldable pub scheduled_arrival : ActiveFlight → FlightData → M ℕ
  scheduled_arrival (flight_id, date) chain =
      let eta = or_else chain.estimated_arrival_time 0 in
      if ltb 0 eta then pure eta else (do
        hint ← read_scheduled_arrival env flight_id date
        pure (or_else hint (date + fallback_arrival_after_date_secs)))

  -- the timing gate
  unfoldable pub settle_after : ℕ → ℕ → ℕ → ActiveFlight → String → M Unit
  settle_after arrival settle_delay now_secs flight status =
      if ltb now_secs (arrival + settle_delay)
      then push flight.0 (skipped "Before scheduled arrival + settle delay")
      else if ltb (arrival + visibility_past_secs) now_secs
      then push flight.0 (skipped "Past AeroAPI history window — awaiting void")
      else fetch_outcome flight status

  -- the gates on the status and on the time of a flight that was read
  unfoldable pub gate : ℕ → ℕ → ActiveFlight → FlightData → String → M Unit
  gate settle_delay now_secs flight chain status =
      if is_open status
      then (do
        arrival ← scheduled_arrival flight chain
        settle_after arrival settle_delay now_secs flight status)
      else push flight.0 (skipped (str_append "Already " status))

  -- the body of the `try` for one flight
  unfoldable pub sweep_flight : ℕ → ℕ → ActiveFlight → M Unit
  sweep_flight settle_delay now_secs (flight_id, date) = do
    chain ← read_as env (flight_data flight_id date) (λ log. env.flight_data log flight_id date)
    let status = parse_flight_status chain.status
    emit (saw_status flight_id date status)
    gate settle_delay now_secs (flight_id, date) chain status

  -- one round of the loop over the insured flights
  unfoldable pub sweep_one : ℕ → ℕ → ℕ → ActiveFlight → M Unit
  sweep_one deadline settle_delay now_secs flight = do
    t ← now env
    if ltb deadline t
        then push flight.0 (skipped "run time budget exhausted — deferred to next sweep")
        else catch (sweep_flight settle_delay now_secs flight) (λ e. push flight.0 (error e))

  unfoldable pub sweep_all : ℕ → ℕ → ℕ → List ActiveFlight → M Unit
  sweep_all deadline settle_delay now_secs [] = skip
  sweep_all deadline settle_delay now_secs (flight ∷ rest) =
      sweep_one deadline settle_delay now_secs flight
      >> sweep_all deadline settle_delay now_secs rest

  -- the sweep of a set that was read
  unfoldable pub sweep : ℕ → ℕ → List ActiveFlight → M (Bool × ℕ)
  sweep start settle_delay [] = pure (true, 0)
  sweep start settle_delay (flight ∷ rest) = do
    t ← now env
    sweep_all (start + run_budget_ms) settle_delay (t / 1000) (flight ∷ rest)
    pure (true, length (flight ∷ rest))

  -- `run`: the entry's `success` and `active_flights`
  unfoldable pub run : ℕ → M (Bool × ℕ)
  run settle_delay = do
    start ← now env
    catch
        (do
          set_deadline (start + run_budget_ms)
          insured ← read_as env active_flights (λ log. env.active_flights log)
          sweep start settle_delay insured)
        (λ e. pure (false, 0))
