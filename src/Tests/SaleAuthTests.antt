-- ===== src/Tests/SaleAuthTests.antt =====
-- Tests and instances for SaleAuth.
use sentinel_soroban_v.Base.{◌≡◌, refl, true, false, some, none, List, [], ◌∷◌}
use sentinel_soroban_v.World.{Event, AeroFlight, text, json}
use sentinel_soroban_v.World.Monad.{Env, FleetRoute}
use sentinel_soroban_v.World.Requirement.{Respects}
use sentinel_soroban_v.Base.Text.{drop_text}
use sentinel_soroban_v.SaleAuth.Texts.{split_ident, same_airport}
use sentinel_soroban_v.SaleAuth.Gate.{SaleConfig}
use sentinel_soroban_v.SaleAuth.Endpoint.{authorize_sale}
use sentinel_soroban_v.SaleAuth.Window.{SaleNeeds}
use sentinel_soroban_v.SaleAuth.Safety.{authorize_sale-Respects}
use sentinel_soroban_v.Tests.Fixtures.{env, start, flight_date}

abbrev config : SaleConfig
config = record { horizon_days = 30; min_lead_secs = 86400; validity_secs = 3600 }

-- departs two days after the clock
abbrev flying : AeroFlight
flying = record {
  cancelled = false;
  diverted = none;
  status = "Scheduled";
  scheduled_out = some (text (some 20000) (some 1728050000));
  scheduled_in = none;
  actual_on = none;
  actual_in = none;
}

abbrev entry : FleetRoute
entry = record { flight_id = "AA100"; origin = "JFK"; destination = "LAX"; enabled = true }

abbrev sale_env : Env
sale_env = record env {
  now = λ log. 1727900000000;
  fetch_flights = λ log r. json (some (flying ∷ []));
  fleet = some (entry ∷ []);
}

split : split_ident "aal0100" ≡ some ("AAL", "100")
unfolding split_ident
split = refl

icao : same_airport (some "KLAX") "LAX" ≡ true
unfolding same_airport drop_text
icao = refl

abbrev sale_log : List Event
sale_log = (authorize_sale sale_env config "AA100" flight_date start).1.log

authorize_sale-Respects_example : Respects (SaleNeeds config) sale_log
authorize_sale-Respects_example =
    authorize_sale-Respects sale_env config "AA100" flight_date start tt
