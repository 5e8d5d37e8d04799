-- ===== src/SaleAuth/Safety.antt =====
-- Every window that dapp/api/_lib/sale_auth.ts opens is justified.
use sentinel_soroban_v.Base.{
  ℕ, ◌+◌, ◌/◌, ◌≤◌, String, false, Option, none, some, List, ◌≡◌, refl, inl, inr, ltb, arith,
}
use sentinel_soroban_v.World.{Event, RouteKey, clock}
use sentinel_soroban_v.World.Monad.{Env, World, Result, ok, err, now, ◌>>=◌}
use sentinel_soroban_v.World.Keeps.{
  Keeps, Ends, IsFramed, framed_rules, Keeps-pure, Keeps-bind, Keeps-if, Keeps-then, Keeps-now,
}
use sentinel_soroban_v.World.Requirement.{Has, IsMono, Respects, Respecting, Respecting-IsFramed}
use sentinel_soroban_v.Aero.Client.{day_secs}
use sentinel_soroban_v.SaleAuth.Gate.{SaleConfig, effective_horizon}
use sentinel_soroban_v.SaleAuth.Endpoint.{
  from_file, find_sellable_route, check_date, on_route, authorize_sale,
}
use sentinel_soroban_v.SaleAuth.Window.{SaleNeeds}
use sentinel_soroban_v.SaleAuth.Window.Stages.{Keeps-check_chain}

module _ (env : Env) (config : SaleConfig) (flight_id : String) (date : ℕ) where
  abbrev Nothing : List Event → Type 0
  Nothing log = Unit

  Nothing-IsMono : IsMono Nothing
  Nothing-IsMono = record { grow = λ e log h. h }

  Keeps-now_unit : Keeps (Respecting (SaleNeeds config) Nothing) (now env)
  Keeps-now_unit = Keeps-now _ (Respecting-IsFramed (SaleNeeds config) Nothing Nothing-IsMono) env

  -- the log shows the clock that was read
  abbrev Timed : Result ℕ × World → Type 0
  Timed (ok t, w) = Has (clock t) w.log
  Timed (err e, w) = Unit

  now-Timed : Ends Timed (now env)
  unfolding now ◌>>=◌
  now-Timed = record { at = λ w. inl refl }

  module _ (t : ℕ) where
    abbrev Later : List Event → Type 0
    Later log = Has (clock t) log

    Later-IsFramed : IsFramed (Respecting (SaleNeeds config) Later)
    Later-IsFramed =
        Respecting-IsFramed (SaleNeeds config) Later (record { grow = λ e log h. inr h })

    tomorrow :
        ltb (date / day_secs) (t / 1000 / day_secs + 1) ≡ false
        → t / 1000 / day_secs + 1 ≤ date / day_secs
    tomorrow later = ground arith

    Keeps-check_date :
        (route : RouteKey)
        → Keeps
            (Respecting (SaleNeeds config) Later)
            (check_date env config flight_id date (t / 1000) route)
    unfolding check_date
    Keeps-check_date route = Keeps-bind _ _ (search framed_rules) (λ routes.
        Keeps-if (ltb (date / day_secs) (t / 1000 / day_secs + 1)) _ _ (λ early. Keeps-pure _)
          (λ later.
            Keeps-if
              (ltb (t / 1000 / day_secs + effective_horizon config env.sale_horizon_days)
                (date / day_secs))
              _ _ (λ far. Keeps-pure _)
              (λ near. Keeps-check_chain env config flight_id date t route (tomorrow later))))

    Keeps-on_route :
        (route : Option RouteKey)
        → Keeps
            (Respecting (SaleNeeds config) Later)
            (on_route env config flight_id date (t / 1000) route)
    unfolding on_route
    Keeps-on_route none = Keeps-pure _
    Keeps-on_route (some route) = Keeps-check_date route

    Keeps-from_file :
        (found : Option (Option RouteKey))
        → Keeps (Respecting (SaleNeeds config) Later) (from_file env flight_id found)
    unfolding from_file
    Keeps-from_file none = search framed_rules
    Keeps-from_file (some found) = Keeps-pure _

    Keeps-rest :
        Keeps
          (Respecting (SaleNeeds config) Later)
          (find_sellable_route env flight_id >>= on_route env config flight_id date (t / 1000))
    unfolding find_sellable_route
    Keeps-rest = search (framed_rules, Later-IsFramed, Keeps-from_file, Keeps-on_route) depth 14

  Keeps-authorize_sale :
      Keeps (Respecting (SaleNeeds config) Nothing) (authorize_sale env config flight_id date)
  unfolding authorize_sale
  Keeps-authorize_sale =
      Keeps-then _ _ Keeps-now_unit now-Timed
        (λ t w h timed. let kept = (Keeps-rest t).at w (h.0, timed) in (kept.0, tt))

-- Whatever the environment answers, an authorization keeps a log in which every window that is
-- opened is justified by what stands before it: a clock read on a day before the flight's, from
-- which the window lasts the configured validity at most, and an answer of AeroAPI, either one
-- flight of that day that is not cancelled or a row of the published schedule for that flight and
-- day. The window's end is at least the minimum lead before the scheduled departure that this answer
-- names, if it names one that can be read, and else, which the code allows, before its scheduled
-- arrival. Every tombstone that is written rests on an answer that shows one flight of that day with
-- a corroborated cancellation.
pub authorize_sale-Respects :
    (env : Env) (config : SaleConfig) (flight_id : String) (date : ℕ) (w : World)
    → Respects (SaleNeeds config) w.log
    → Respects (SaleNeeds config) (authorize_sale env config flight_id date w).1.log
authorize_sale-Respects env config flight_id date w h =
    ((Keeps-authorize_sale env config flight_id date).at w (h, tt)).0
