-- ===== src/RouteGuard/Verdict.antt =====
-- When the sweep calls all five days dead.
use sentinel_soroban_v.Base.{
  ℕ, ◌+◌, String, Bool, true, false, not, ◌&&◌, ◌||◌, Option, none, some, List, [], ◌∷◌, ◌≡◌, refl,
  arith, select, any, is_some,
}
use sentinel_soroban_v.World.{AeroFlight, Schedules}
use sentinel_soroban_v.Aero.Predicates.{is_on_day, is_confirmed_cancellation}
use sentinel_soroban_v.Aero.Client.{next_link}
use sentinel_soroban_v.RouteGuard.{
  filed, judge_instances, near_day, publishes, judge_published, far_day, is_dead, verdict_of,
}

-- The instances of a day show no flight that operates, and a corroborated cancellation if any.
abbrev pub is_gone : ℕ → List AeroFlight → Bool
is_gone date instances =
    let today = select (λ f. is_on_day date (filed f)) instances in
    not (any (λ f. not f.cancelled) today)
    && (not (any (λ f. true) today) || any is_confirmed_cancellation today)

judge_instances-is_dead :
    (date : ℕ) (today : List AeroFlight)
    → is_dead (judge_instances date today) ≡ (
        not (any (λ f. not f.cancelled) today)
        && (not (any (λ f. true) today) || any is_confirmed_cancellation today))
unfolding judge_instances
judge_instances-is_dead date [] = refl
judge_instances-is_dead date (f ∷ rest) = ground arith

near_day-is_dead :
    (date : ℕ) (instances : List AeroFlight)
    → is_dead (near_day (some instances) date) ≡ is_gone date instances
unfolding near_day
near_day-is_dead date instances =
    judge_instances-is_dead date (select (λ f. is_on_day date (filed f)) instances)

far_day-is_dead :
    (flight_id : String) (date : ℕ) (page : Schedules)
    → is_dead (far_day flight_id (some page) date)
      ≡ (not (is_some (next_link page)) && not (any (publishes flight_id date) page.scheduled))
unfolding far_day judge_published
far_day-is_dead flight_id date page = ground arith

-- The two answers show the route gone for five days: live tracking has answered and shows each of
-- the two next days gone, and a complete schedule publishes the flight on none of the three after.
abbrev pub is_gone_for_all : String → ℕ → Option (List AeroFlight) → Option Schedules → Bool
is_gone_for_all flight_id today none schedules = false
is_gone_for_all flight_id today (some instances) none = false
is_gone_for_all flight_id today (some instances) (some page) =
    (is_gone (today + 1) instances && is_gone (today + 2) instances)
    && (not (is_some (next_link page))
        && (not (any (publishes flight_id (today + 3)) page.scheduled)
            && (not (any (publishes flight_id (today + 4)) page.scheduled)
                && not (any (publishes flight_id (today + 5)) page.scheduled))))

-- The verdict is that all five days are dead exactly where live tracking answered and shows, on
-- each of the two next days, no flight that operates and either no flight or a corroborated
-- cancellation, and the schedule answered completely and publishes the flight on none of the three
-- days after. In particular a failed call, a partial schedule or a bare cancelled flag never makes
-- a route dead.
pub verdict_of-all_dead :
    (flight_id : String) (today : ℕ) (instances : Option (List AeroFlight))
    (schedules : Option Schedules)
    → (verdict_of flight_id today instances schedules).all_dead
      ≡ is_gone_for_all flight_id today instances schedules
unfolding verdict_of near_day far_day
verdict_of-all_dead flight_id today none schedules = refl
verdict_of-all_dead flight_id today (some instances) none = ground arith
verdict_of-all_dead flight_id today (some instances) (some page) = ground (
  arith,
  near_day-is_dead (today + 1) instances,
  near_day-is_dead (today + 2) instances,
  far_day-is_dead flight_id (today + 3) page,
  far_day-is_dead flight_id (today + 4) page,
  far_day-is_dead flight_id (today + 5) page,
)
