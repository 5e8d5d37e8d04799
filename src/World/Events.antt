-- ===== src/World/Events.antt =====
-- The vocabulary of the log: calls of contracts, requests to AeroAPI and their answers.
-- Types of dapp/api/_lib/aeroapi_client.ts and types.ts.
use sentinel_soroban_v.Base.{ℕ, String, Bool, Option, List}

-- A timestamp text. `day` is the day whose YYYY-MM-DD form its first ten characters are, and
-- `instant` the second that `new Date` reads it as; either may be missing in a malformed text.
pub data IsoText : Type 0 where
  blank : IsoText
  text : (day : Option ℕ) (instant : Option ℕ) → IsoText

-- `AeroApiFlight`
pub record AeroFlight : Type 0 where
  pub cancelled : Bool
  pub diverted : Option Bool
  pub status : String
  pub scheduled_out : Option IsoText
  pub scheduled_in : Option IsoText
  pub actual_on : Option IsoText
  pub actual_in : Option IsoText

-- `AeroApiScheduledFlight`
pub record ScheduledFlight : Type 0 where
  pub ident : String
  pub actual_ident : Option String
  pub scheduled_out : Option IsoText
  pub scheduled_in : Option IsoText
  pub origin : Option String
  pub destination : Option String

-- `AeroApiSchedulesResponse`: the rows, and `links?.next`
pub record Schedules : Type 0 where
  pub scheduled : List ScheduledFlight
  pub next : Option String

-- the `filters` of `getSchedules`
pub record Filters : Type 0 where
  pub airline : Option String
  pub flight_number : Option String
  pub origin : Option String
  pub destination : Option String
  pub max_pages : Option ℕ

-- The URLs that the client builds. Bounds of `/flights` are seconds, those of `/schedules` days.
pub data Request : Type 0 where
  flights : (ident : String) (start end_secs : ℕ) → Request
  schedules : (from_day to_day : ℕ) (filters : Filters) (pages : ℕ) → Request
  cursor : (path : String) → Request

-- What `fetch` and `resp.json()` come to: a JSON value (`none` is the value `null`), a status that
-- is not ok, or an exception.
pub data Answer (A : Type 0) : Type 0 where
  json : Option A → Answer A
  status : ℕ → Answer A
  exception : Answer A

-- The part `daily` of a forecast of Open-Meteo; quantities in tenths, and `none` for a value `null`
pub record Daily : Type 0 where
  pub weather_code : Option (List ℕ)
  pub wind_gusts : Option (List (Option ℕ))
  pub snowfall : Option (List (Option ℕ))
  pub precipitation : Option (List (Option ℕ))

pub record WeatherJson : Type 0 where
  pub daily : Option Daily

-- `AgentPredictRequest`, with the day's number for its month and its day of the month
pub record PredictRequest : Type 0 where
  pub carrier : String
  pub origin : String
  pub dest : String
  pub day : ℕ
  pub day_of_week : ℕ
  pub dep_time_hhmm : Option ℕ
  pub distance_mi : Option ℕ

-- A route of the fleet
pub record RouteKey : Type 0 where
  pub flight_id : String
  pub origin : String
  pub dest : String

-- Transactions
pub data Call : Type 0 where
  set_estimated_arrival set_landed : (flight_id : String) (date secs : ℕ) → Call
  set_cancelled : (flight_id : String) (date : ℕ) → Call
  open_sale : (flight_id : String) (date expires : ℕ) → Call
  classify_flight settle_flight sweep_expired : (flight_id : String) (date : ℕ) → Call
  classify_flights execute_settlements run_queue_maintenance prune_settled : Call
  execute_settlements_bounded : (limit : ℕ) → Call
  disable_route enable_route : RouteKey → Call
  -- `update_route_terms` with a new premium, where the other terms are kept
  update_premium : RouteKey → (units : ℕ) → Call
  -- by the name of a contract, and of a contract with some of its keys
  extend_ttl : (contract : String) → Call
  extend_footprint : (contract : String) (keys : List String) → Call

-- Reads by simulation
pub data Query : Type 0 where
  active_flights pending_outcomes active_count : Query
  withdrawal_queue_len deposit_queue_len : Query
  total_managed_assets free_capital locked_capital total_supply : Query
  snapshot_price : (day : ℕ) → Query
  flight_data sale_auth flight_listed flight_config : (flight_id : String) (date : ℕ) → Query
  route_status : RouteKey → Query

pub data Event : Type 0 where
  -- `Date.now()`, in milliseconds
  clock : ℕ → Event
  slept : ℕ → Event
  got_flights : Request → Answer (List AeroFlight) → Event
  got_schedules : Request → Answer Schedules → Event
  got_weather : (iata : String) (days : ℕ) → Event
  got_health : Event
  got_prediction : PredictRequest → Event
  -- a read, and whether it answered
  read : Query → Bool → Event
  -- the status that a read of a flight showed
  saw_status : (flight_id : String) (date : ℕ) (status : String) → Event
  -- a transaction that was handed to the network
  submitted : Call → Event
  -- the end of a call of `invokeContractOnce` or of `signAndSend`: whether it returned
  wrote : Call → Bool → Event
  -- a statement sent to the database, and whether it was answered
  sql : Bool → Event

-- Exceptions
pub data Failure : Type 0 where
  read_failed : Query → Failure
  -- and whether the text of the error matches /badseq/i
  write_failed : Call → (bad_seq : Bool) → Failure
  -- `BigInt(NaN)`
  not_a_number : Failure
  database : Failure
  -- `loadRoutesConfig`
  routes_file : Failure
  -- the text of a run that made no progress
  stalled : (pending : ℕ) → Failure
