-- ===== src/Tests/Fixtures.antt =====
-- An environment for the tests: one cancelled flight that was read as active, a clock that stands
-- still, a network that takes every transaction and a database that answers.
use sentinel_soroban_v.Base.{ℕ, true, false, none, some, [], ◌∷◌}
use sentinel_soroban_v.World.{RouteKey, AeroFlight, json, status}
use sentinel_soroban_v.World.Db.{Db, lowered, Cause, InterventionRow, remark}
use sentinel_soroban_v.World.Monad.{Env, World, word, passes, success, RouteState}

abbrev pub cancelled_flight : AeroFlight
cancelled_flight = record {
  cancelled = true;
  diverted = none;
  status = "Cancelled";
  scheduled_out = none;
  scheduled_in = none;
  actual_on = none;
  actual_in = none;
}

-- The flight's day is day 20000; the clock stands four days later.
abbrev pub flight_date : ℕ
flight_date = 1728000000

abbrev pub env : Env
env = record {
  now = λ log. 1728345600000;
  fetch_flights = λ log r. json (some (cancelled_flight ∷ []));
  fetch_schedules = λ log r. status 500;
  active_flights = λ log. some (("AA100", flight_date) ∷ []);
  flight_data = λ log id date.
      some (record { status = word "Active"; estimated_arrival_time = some 1728010000 });
  sale_auth = λ log id date. some none;
  flight_listed = λ log id date. some true;
  flight_config = λ log id date. some none;
  counter = λ log q. some 0;
  route_status = λ log key. some RouteState.active;
  route_premium = λ log key. 50000000;
  account = λ log c. passes;
  simulate = λ log c. passes;
  send = λ log c. passes;
  transaction = λ log c. success;
  past_weather = λ log iata day. none;
  fetch_weather = λ log iata days. status 503;
  fleet = some [];
  sale_horizon_days = 30;
  weather_horizon_days = 3;
  key_builds = λ key. true;
  db_configured = false;
  sql_answers = λ log. true;
  db_now = λ log. 1728345600;
  governance_returns = λ log c. true;
  has_governance_key = true;
}

abbrev pub empty_db : Db
empty_db = record {
  interventions = [];
  next_id = 1;
  routes = [];
  schedules = [];
  outcomes = [];
  slots = [];
  frozen = none;
  audit = [];
  barrier = lowered;
  vault_history = [];
  rate_limits = [];
  exposure_history = [];
  settlements = [];
  buyers = [];
  pricing_runs = [];
}

abbrev pub start : World
start = record { log = []; actions = []; quota_exhausted = false; deadline = none; db = empty_db }

abbrev pub db_env : Env
db_env = record env { db_configured = true }

abbrev pub route : RouteKey
route = record { flight_id = "AA100"; origin = "JFK"; dest = "LAX" }

abbrev pub row_for : ℕ → Cause → InterventionRow
row_for id cause = record {
  id = id;
  route = route;
  cause = cause;
  evidence = remark "test";
  opened_by = "ops";
  opened_at = 0;
  last_checked_at = 0;
  clear_streak = 0;
  revived = none;
}

-- A route that an administrator and a cancellation hold.
abbrev pub held_start : World
held_start = record start {
  db = record empty_db {
    interventions = row_for 2 Cause.admin ∷ row_for 1 Cause.cancellation ∷ [];
    next_id = 3;
    routes = record { route = route; active = false; pinned = false; pin_until = none } ∷ [];
  };
}
