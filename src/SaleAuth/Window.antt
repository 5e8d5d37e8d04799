-- ===== src/SaleAuth/Window.antt =====
-- What stands behind each window that dapp/api/_lib/sale_auth.ts opens, and each tombstone that it
-- writes.
pub mod Stages
use sentinel_soroban_v.Base.{
  ℕ, ◌+◌, ◌-◌, ◌*◌, ◌/◌, ◌≤◌, min, String, Bool, true, false, Option, none, some, List, ◌∷◌, ◌==◌,
  ◌≡◌, refl, ◌⊎◌, inl, inr, ltb, arith, if◌then◌else◌, Option-cases,
}
use sentinel_soroban_v.World.{
  Event, Call, RouteKey, AeroFlight, ScheduledFlight, IsoText, clock, open_sale, set_cancelled,
}
use sentinel_soroban_v.World.Monad.{Env, World, M}
use sentinel_soroban_v.World.Keeps.{Keeps, IsFramed, framed_rules, Keeps-pure}
use sentinel_soroban_v.World.Requirement.{Has, IsMono, Respects, Respecting, Respecting-IsFramed}
use sentinel_soroban_v.Soroban.Frame.{Admits-Respecting, Keeps-invoke}
use sentinel_soroban_v.Aero.Predicates.{iso_secs, is_confirmed_cancellation}
use sentinel_soroban_v.Aero.Client.{day_secs}
use sentinel_soroban_v.Aero.Evidence.{IsSeen}
use sentinel_soroban_v.Aero.Published.{IsPublished}
use sentinel_soroban_v.Frames.{Keeps-save_flight_schedule}
use sentinel_soroban_v.RouteGuard.{publishes}
use sentinel_soroban_v.SaleAuth.Gate.{SaleConfig, SaleResult, departure_of, window_for}
use sentinel_soroban_v.SaleAuth.Endpoint.{open_window, check_window, check_departure, check_times}

-- The instant that a flight is taken to leave at: its scheduled departure; and where that is missing
-- or cannot be read, its scheduled ARRIVAL.
abbrev pub LeavesAt : Option IsoText → Option IsoText → ℕ → Type 0
LeavesAt out_text in_text at =
    (iso_secs out_text ≡ some at) ⊎ ((iso_secs out_text ≡ none) × (iso_secs in_text ≡ some at))

pub departure_of-LeavesAt :
    (out_text in_text : Option IsoText) (at : ℕ)
    → departure_of out_text in_text ≡ some at
    → LeavesAt out_text in_text at
departure_of-LeavesAt out_text in_text at h = elim (Option-cases (iso_secs out_text)) [
  | inl missing ↦ ground (arith, missing, h)
  | inr (secs, here) ↦ ground (arith, here, h)
]

-- AeroAPI attests that instant: by one flight of that day that is not cancelled, or by a row of the
-- published schedule for that flight and day.
abbrev pub IsAttested : String → ℕ → ℕ → List Event → Type 0
IsAttested flight_id date departure log =
    ((f : AeroFlight) × IsSeen flight_id (date / day_secs) f log
      × (f.cancelled ≡ false)
      × LeavesAt f.scheduled_out f.scheduled_in departure)
    ⊎ ((s : ScheduledFlight) × IsPublished s log
        × (publishes flight_id (date / day_secs) s ≡ true)
        × LeavesAt s.scheduled_out s.scheduled_in departure)

-- A window opens by a clock that was read on an earlier day, for the configured time at most, and
-- closes the minimum lead before the instant that AeroAPI attests for the flight: its scheduled
-- departure, or its scheduled arrival where it names no departure. A tombstone rests on a corroborated
-- cancellation.
abbrev pub SaleNeeds : SaleConfig → Call → List Event → Type 0
SaleNeeds config (open_sale flight_id date expires) log =
    (now_ms : ℕ) × (departure : ℕ) × Has (clock now_ms) log
    × (now_ms / 1000 / day_secs + 1 ≤ date / day_secs)
    × (now_ms / 1000 ≤ expires)
    × (expires ≤ now_ms / 1000 + config.validity_secs)
    × (expires + config.min_lead_secs ≤ departure)
    × IsAttested flight_id date departure log
SaleNeeds config (set_cancelled flight_id date) log =
    (f : AeroFlight) × IsSeen flight_id (date / day_secs) f log
    × (is_confirmed_cancellation f ≡ true)
SaleNeeds config c log = Unit

window_for-bounds :
    (config : SaleConfig) (now_secs departure expires : ℕ)
    → window_for config now_secs departure ≡ some expires
    → (now_secs ≤ expires)
      × (expires ≤ now_secs + config.validity_secs)
      × (expires + config.min_lead_secs ≤ departure)
unfolding window_for
window_for-bounds config now_secs departure expires h = ground arith

-- A sale whose departure the log attests.
module _ (env : Env) (config : SaleConfig) (flight_id : String) (date now_ms : ℕ) (route : RouteKey)
    (tomorrow : now_ms / 1000 / day_secs + 1 ≤ date / day_secs) (X : List Event → Type 0)
    (mono : IsMono X) (clocked : (log : List Event) → X log → Has (clock now_ms) log)
    (out_text in_text : Option IsoText)
    (attested : (departure : ℕ) (log : List Event)
      → departure_of out_text in_text ≡ some departure
      → X log
      → IsAttested flight_id date departure log) where
  abbrev K : {A : Type 0} → M A → Type 0
  K m = Keeps (Respecting (SaleNeeds config) X) m

  X-IsFramed : IsFramed (Respecting (SaleNeeds config) X)
  X-IsFramed = Respecting-IsFramed (SaleNeeds config) X mono

  Keeps-open_window :
      (expires departure : ℕ)
      → ((log : List Event) → X log → SaleNeeds config (open_sale flight_id date expires) log)
      → K (
          open_window env config flight_id date
            (now_ms / 1000)
            route
            expires
            departure
            out_text
            in_text)
  unfolding open_window
  Keeps-open_window expires departure need =
      let admits =
        Admits-Respecting (SaleNeeds config) X (open_sale flight_id date expires) mono need in
      search (framed_rules, X-IsFramed, Keeps-invoke, Keeps-save_flight_schedule) depth 12

  Keeps-check_window :
      (departure : ℕ) (window : Option ℕ)
      → departure_of out_text in_text ≡ some departure
      → window_for config (now_ms / 1000) departure ≡ window
      → K (
          check_window env config flight_id date
            (now_ms / 1000)
            route
            departure
            out_text
            in_text
            window)
  unfolding check_window
  Keeps-check_window departure none filed opens = Keeps-pure _
  Keeps-check_window departure (some expires) filed opens =
      let bounds = window_for-bounds config (now_ms / 1000) departure expires opens in
      Keeps-open_window expires departure (λ log x. (
        now_ms,
        departure,
        clocked log x,
        tomorrow,
        bounds.0,
        bounds.1,
        bounds.2,
        attested departure log filed x,
      ))

  Keeps-check_departure :
      (departure : Option ℕ)
      → departure_of out_text in_text ≡ departure
      → K (
          check_departure env config flight_id date
            (now_ms / 1000)
            route
            out_text
            in_text
            departure)
  unfolding check_departure
  Keeps-check_departure none filed = Keeps-pure _
  Keeps-check_departure (some departure) filed =
      Keeps-check_window departure (window_for config (now_ms / 1000) departure) filed refl

  pub Keeps-check_times :
      K (check_times env config flight_id date (now_ms / 1000) route out_text in_text)
  unfolding check_times
  Keeps-check_times = Keeps-check_departure (departure_of out_text in_text) refl
