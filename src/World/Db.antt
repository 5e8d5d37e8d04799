-- ===== src/World/Db.antt =====
-- The rows of the governance database that the jobs read and write: the tables which
-- dapp/api/_lib/governance/interventions.ts and dapp/api/_lib/flight_schedules.ts create, and the
-- columns of `routes` that they use.
use sentinel_soroban_v.Base.{
  ℕ, String, Bool, Option, List, ◌&&◌, str_eq, eq_iff, ◌≡◌, ◌↔◌, true, arith,
}
use sentinel_soroban_v.Base.Int.{ℤ}
use sentinel_soroban_v.World.Events.{RouteKey}

-- `InterventionCause`
pub data Cause : Type 0 where
  cancellation exposure weather pricing admin : Cause

abbrev pub cause_eq : Cause → Cause → Bool
cause_eq Cause.cancellation Cause.cancellation = Bool.true
cause_eq Cause.exposure Cause.exposure = Bool.true
cause_eq Cause.weather Cause.weather = Bool.true
cause_eq Cause.pricing Cause.pricing = Bool.true
cause_eq Cause.admin Cause.admin = Bool.true
cause_eq _ _ = Bool.false

abbrev pub key_eq : RouteKey → RouteKey → Bool
key_eq a b = str_eq a.flight_id b.flight_id && (str_eq a.origin b.origin && str_eq a.dest b.dest)

-- `DayState`
pub data DayState : Type 0 where
  alive dead unknown : DayState

-- `SweepDay`
pub record SweepDay : Type 0 where
  pub date : ℕ
  pub state : DayState
  pub detail : String

-- What a day's weather comes to (`DailyForecast`); quantities in tenths of their unit.
pub record DailyForecast : Type 0 where
  pub max_wind_gust_kmh : ℕ
  pub total_snowfall_cm : ℕ
  pub max_precip_prob_pct : ℕ
  pub weather_codes : List ℕ

-- The JSON column `evidence`
pub data Evidence : Type 0 where
  sweep : List SweepDay → Evidence
  remark : String → Evidence
  -- the forecasts of a route's airports
  storm : (origin dest : Option DailyForecast) → Evidence
  -- a concentration, of an airport or of the route itself, in millionths
  concentration : (iata : Option String) (fraction : ℕ) → Evidence
  -- the three fractions of a route, its origin and its destination
  fractions : (route origin dest : ℕ) → Evidence
  -- the probability of a covered event, in millionths, and the honest premium
  price : (p_covered honest : ℕ) → Evidence

-- `InterventionRow`: `revived` is `revived_by` once `revived_at` is set, and times are seconds.
pub record InterventionRow : Type 0 where
  pub id : ℕ
  pub route : RouteKey
  pub cause : Cause
  pub evidence : Evidence
  pub opened_by : String
  pub opened_at : ℕ
  pub last_checked_at : ℕ
  pub clear_streak : ℕ
  pub revived : Option String

pub record RouteRow : Type 0 where
  pub route : RouteKey
  pub active : Bool
  pub pinned : Bool
  pub pin_until : Option ℕ

-- A row of `flight_schedules`
pub record ScheduleRow : Type 0 where
  pub flight_id : String
  pub date : ℕ
  pub scheduled_out : Option ℕ
  pub scheduled_in : Option ℕ

-- `FlightOutcome`
pub data Outcome : Type 0 where
  ontime delayed cancelled diverted : Outcome

-- A row of `flight_outcomes`
pub record OutcomeRow : Type 0 where
  pub flight_id : String
  pub origin : String
  pub dest : String
  pub flight_date : ℕ
  pub outcome : Outcome
  pub delay_minutes : Option ℤ
  pub origin_weather : Option DailyForecast
  pub dest_weather : Option DailyForecast

-- A row of `gov_disable_slots`
pub record Slot : Type 0 where
  pub window : ℕ
  pub count : ℕ

-- A row of `actions_log`
pub record AuditRow : Type 0 where
  pub actor : String
  pub action : String
  pub route : RouteKey
  pub success : Bool

-- The row 'barrier' of `ops_flags`: since when, in milliseconds, and how many are pending
pub data Barrier : Type 0 where
  lowered : Barrier
  raised : (since pending : ℕ) → Barrier

-- A row of `vault_history`
pub record VaultRow : Type 0 where
  pub total_assets : ℕ
  pub free_capital : ℕ
  pub locked_capital : ℕ
  pub total_supply : ℕ
  pub share_price : ℕ

-- A row of `api_rate_limits`; `window` is a minute
pub record RateRow : Type 0 where
  pub bucket : String
  pub window : ℕ
  pub count : ℕ

-- A row of `exposure_history`; fractions are in millionths
pub record ExposureRow : Type 0 where
  pub total_liability : ℕ
  pub total_managed : ℕ
  pub unknown_liability : ℕ
  pub open_policies : ℕ
  pub insured_flights : ℕ
  pub worst_route : ℕ
  pub worst_airport : ℕ

-- A row of `settlements`
pub record SettlementRow : Type 0 where
  pub flight_id : String
  pub date : ℕ
  pub outcome : String
  pub ledger : ℕ
  pub swept : Bool

-- A route and its price, of a row of `pricing_runs`
pub record Excluded : Type 0 where
  pub route : RouteKey
  pub p_covered : ℕ
  pub honest : ℕ

pub record Change : Type 0 where
  pub route : RouteKey
  pub current : ℕ
  pub proposed : ℕ

-- A row of `pricing_runs`, the day given by its number
pub record PricingRun : Type 0 where
  pub model_version : String
  pub priced_for : ℕ
  pub total_candidates : ℕ
  pub priced : ℕ
  pub failed : ℕ
  pub excluded : List Excluded
  pub proposed_changes : List Change

pub record Db : Type 0 where
  pub interventions : List InterventionRow
  pub next_id : ℕ
  pub routes : List RouteRow
  pub schedules : List ScheduleRow
  pub outcomes : List OutcomeRow
  pub slots : List Slot
  pub frozen : Option Bool
  pub audit : List AuditRow
  pub barrier : Barrier
  pub vault_history : List VaultRow
  pub rate_limits : List RateRow
  pub exposure_history : List ExposureRow
  pub settlements : List SettlementRow
  -- the column `buyer` of `policies`
  pub buyers : List String
  pub pricing_runs : List PricingRun

pub key_eq_iff : (a b : RouteKey) → (key_eq a b ≡ true) ↔ (a ≡ b)
key_eq_iff a b =
    ground (arith, eq_iff a.flight_id b.flight_id, eq_iff a.origin b.origin, eq_iff a.dest b.dest)

pub cause_eq_iff : (a b : Cause) → (cause_eq a b ≡ true) ↔ (a ≡ b)
cause_eq_iff a b = ground arith
