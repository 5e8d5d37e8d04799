-- ===== src/SaleAuth/Gate.antt =====
-- The gates of `authorizeSale` of dapp/api/_lib/sale_auth.ts, as functions of what they look at.
use sentinel_soroban_v.Base.{
  ℕ, ◌+◌, ◌-◌, min, String, Bool, ◌&&◌, Option, none, some, List, [], ◌∷◌, ltb, if◌then◌else◌, find,
  str_eq, select,
}
use sentinel_soroban_v.World.{RouteKey, ScheduledFlight, Filters, IsoText}
use sentinel_soroban_v.World.Db.{RouteRow}
use sentinel_soroban_v.World.Monad.{FleetRoute}
use sentinel_soroban_v.Aero.Predicates.{iso_secs}
use sentinel_soroban_v.RouteGuard.{publishes}
use sentinel_soroban_v.SaleAuth.Texts.{split_ident, same_airport}

-- the fields of `Config` that the endpoint reads
pub record SaleConfig : Type 0 where
  pub horizon_days : ℕ
  pub min_lead_secs : ℕ
  pub validity_secs : ℕ

-- Why a sale is refused, with the values that its text shows
pub data Refusal : Type 0 where
  not_whitelisted inside_lead_time : Refusal
  beyond_horizon : (days : ℕ) → Refusal
  recorded_outcome : (status : String) → Refusal
  not_verifiable flight_cancelled : Refusal
  unconfirmed_cancellation : (status : String) → Refusal
  schedule_not_verifiable not_published ambiguous_schedule no_departure departs_soon : Refusal

-- `SaleAuthResult`
pub data SaleResult : Type 0 where
  refused : Refusal → SaleResult
  rides : (expires_at : ℕ) → SaleResult
  authorized : (expires_at : ℕ) (scheduled_out scheduled_in : Option IsoText) → SaleResult

abbrev pub sellable_row : String → RouteRow → Bool
sellable_row flight_id r = str_eq r.route.flight_id flight_id && r.active

abbrev pub route_of_row : Option RouteRow → Option RouteKey
route_of_row none = none
route_of_row (some r) = some r.route

-- the database's answer, where its table is populated
unfoldable pub sellable_in_db : String → List RouteRow → Option (Option RouteKey)
sellable_in_db flight_id [] = none
sellable_in_db flight_id (r ∷ rest) = some (route_of_row (find (sellable_row flight_id) (r ∷ rest)))

abbrev pub route_of_entry : Option FleetRoute → Option RouteKey
route_of_entry none = none
route_of_entry (some r) =
    some (record { flight_id = r.flight_id; origin = r.origin; dest = r.destination })

-- the file's answer
unfoldable pub sellable_in_file : String → List FleetRoute → Option RouteKey
sellable_in_file flight_id routes =
    route_of_entry (find (λ r. str_eq r.flight_id flight_id && r.enabled) routes)

abbrev pub effective_horizon : SaleConfig → ℕ → ℕ
effective_horizon config file_days =
    if ltb 0 config.horizon_days then config.horizon_days else file_days

-- `liveExpiry`, if a buyer can still ride the window
unfoldable pub live_window : ℕ → Option ℕ → Option ℕ
live_window now_secs none = none
live_window now_secs (some expiry) = if ltb (now_secs + 60) expiry then some expiry else none

unfoldable pub schedule_filters : RouteKey → String → Filters
unfolding split_ident
schedule_filters route flight_id = elim (split_ident flight_id) [
  | none ↦ record {
    airline = none;
    flight_number = none;
    origin = some route.origin;
    destination = some route.dest;
    max_pages = none;
  }
  | some (airline, number) ↦ record {
    airline = some airline;
    flight_number = some number;
    origin = none;
    destination = none;
    max_pages = none;
  }
]

-- the row is this leg of the flight on this day
unfoldable pub is_leg : RouteKey → String → ℕ → ScheduledFlight → Bool
unfolding same_airport
is_leg route flight_id day s =
    publishes flight_id day s
    && (same_airport s.origin route.origin && same_airport s.destination route.dest)

unfoldable pub matching_rows : RouteKey → String → ℕ → List ScheduledFlight → List ScheduledFlight
unfolding is_leg
matching_rows route flight_id day rows = select (is_leg route flight_id day) rows

-- `parseIsoSecs(scheduledOut) ?? parseIsoSecs(scheduledIn)`
abbrev pub departure_of : Option IsoText → Option IsoText → Option ℕ
departure_of out_text in_text = elim (iso_secs out_text) [
  | none ↦ iso_secs in_text
  | some secs ↦ some secs
]

-- the expiry of a window that may open, if it may
unfoldable pub window_for : SaleConfig → ℕ → ℕ → Option ℕ
window_for config now_secs departure =
    if ltb departure (now_secs + config.min_lead_secs)
    then none
    else some (min (now_secs + config.validity_secs) (departure - config.min_lead_secs))
