-- ===== src/World/Monad.antt =====
-- Jobs as actions: the environment answers by the log of what has happened so far, and an action
-- gives a value or an exception and the new world. What was written before an exception stays.
use sentinel_soroban_v.Base.{ℕ, String, Bool, Option, none, some, List, ◌∷◌, if◌then◌else◌, is_some}
use sentinel_soroban_v.World.Events.{
  Event, Failure, Request, Answer, AeroFlight, Schedules, Call, Query, RouteKey, WeatherJson, clock,
  slept, got_flights, got_schedules, read, sql, read_failed, database,
}
use sentinel_soroban_v.World.Db.{Db, DailyForecast}

-- A status as `scValToNative` may return it.
pub data RawStatus : Type 0 where
  number : ℕ → RawStatus
  word : String → RawStatus
  -- an array, by its first element if that is a string
  array : Option String → RawStatus
  -- an object, by its first key
  object : Option String → RawStatus
  other : RawStatus

-- What `get_flight_data` returns, of which only these fields are read.
pub record FlightData : Type 0 where
  pub status : RawStatus
  pub estimated_arrival_time : Option ℕ

-- What the jobs read of `get_flight_config`.
pub record FlightConfig : Type 0 where
  pub status : RawStatus
  pub payoff : Option ℕ
  pub claim_expiry : Option ℕ
  pub buyer_count : Option ℕ
  pub claimed_count : Option ℕ

pub data RouteState : Type 0 where
  active disabled unknown : RouteState

-- A route of the routes file
pub record FleetRoute : Type 0 where
  pub flight_id : String
  pub origin : String
  pub destination : String
  pub enabled : Bool

-- A step of a submission either passes, or throws an error whose text may match /badseq/i.
pub data Attempt : Type 0 where
  passes : Attempt
  throws : (bad_seq : Bool) → Attempt

-- `GetTransactionStatus`, or an exception
pub data TxState : Type 0 where
  success failed not_found lost : TxState

-- The code outside this program: the clock, AeroAPI, the network of contracts and the database
-- server. `none` stands for a call that throws.
pub record Env : Type 0 where
  pub now : List Event → ℕ
  pub fetch_flights : List Event → Request → Answer (List AeroFlight)
  pub fetch_schedules : List Event → Request → Answer Schedules
  pub active_flights : List Event → Option (List (String × ℕ))
  pub flight_data : List Event → String → ℕ → Option FlightData
  pub sale_auth : List Event → String → ℕ → Option (Option ℕ)
  pub flight_listed : List Event → String → ℕ → Option Bool
  pub flight_config : List Event → String → ℕ → Option (Option FlightConfig)
  -- a read of a counter
  pub counter : List Event → Query → Option ℕ
  pub route_status : List Event → RouteKey → Option RouteState
  -- the premium that a status shows, where the route is active
  pub route_premium : List Event → RouteKey → ℕ
  -- the RPC server: the account of the signer, a simulation, a submission, and the state of a
  -- transaction that was submitted
  pub account : List Event → Call → Attempt
  pub simulate : List Event → Call → Attempt
  pub send : List Event → Call → Attempt
  pub transaction : List Event → Call → TxState
  -- the weather of a past day at an airport, as far as it is known
  pub past_weather : List Event → String → ℕ → Option DailyForecast
  -- Open-Meteo's forecast for an airport and a number of days
  pub fetch_weather : List Event → String → ℕ → Answer WeatherJson
  -- the routes file (`loadRoutesConfig`)
  pub fleet : Option (List FleetRoute)
  -- the file's `saleHorizonDays`
  pub sale_horizon_days : ℕ
  -- the file's `weatherHorizonDays`
  pub weather_horizon_days : ℕ
  -- whether the key of a storage entry can be built of a text
  pub key_builds : String → Bool
  -- `process.env.GOVERNANCE_DB_URL`, and whether the server answers a statement
  pub db_configured : Bool
  pub sql_answers : List Event → Bool
  -- `now()` of the database, in seconds
  pub db_now : List Event → ℕ
  -- Whether `signAndSend` of the generated governance client returns, and whether its key
  -- (`governanceAdminSecretKey`) is configured. It says nothing of the ledger: a call that throws may
  -- have landed, one that returns may have failed on chain. What landed shows in the reads that
  -- follow, which the environment answers by the log, too.
  pub governance_returns : List Event → Call → Bool
  pub has_governance_key : Bool

-- `FetcherAction`
pub data Note : Type 0 where
  transition skipped : String → Note
  transition_at : String → ℕ → Note
  error : Failure → Note
  -- liability that no route of the file accounts for
  unscoped : (units : ℕ) → Note
  -- a run of the TTL job: its slot, the keys that it selected, those that it extended, and those
  -- that there are
  rotated : (slot routes travelers extended all_routes all_buyers : ℕ) → Note
  deferred : (keys batches : ℕ) → Note

pub record Action : Type 0 where
  pub flight : String
  pub note : Note

-- The log (newest event first), the run's `actions` (newest first), the fields of the
-- `AeroApiClient` and the database.
pub record World : Type 0 where
  pub log : List Event
  pub actions : List Action
  pub quota_exhausted : Bool
  pub deadline : Option ℕ
  pub db : Db

pub data Result (A : Type 0) : Type 0 where
  ok : A → Result A
  err : Failure → Result A

abbrev pub M : Type 0 → Type 0
M A = World → Result A × World

unfoldable pub pure : {A : Type 0} → A → M A
pure a w = (ok a, w)

unfoldable pub skip : M Unit
skip w = (ok tt, w)

unfoldable pub raise : {A : Type 0} → Failure → M A
raise e w = (err e, w)

unfoldable pub gets : {A : Type 0} → (World → A) → M A
gets f w = (ok (f w), w)

unfoldable pub or_raise : {A : Type 0} → Option A → Failure → M A
or_raise none e w = (err e, w)
or_raise (some a) e w = (ok a, w)

unfoldable pub emit : Event → M Unit
emit e w = (ok tt, record w { log = e ∷ w.log })

-- `actions.push({ flight, ... })`
unfoldable pub push : String → Note → M Unit
push flight note w =
    (ok tt, record w { actions = record { flight = flight; note = note } ∷ w.actions })

unfoldable pub set_quota_exhausted : M Unit
set_quota_exhausted w = (ok tt, record w { quota_exhausted = Bool.true })

unfoldable pub set_deadline : ℕ → M Unit
set_deadline ms w = (ok tt, record w { deadline = some ms })

unfoldable pub modify_db : (Db → Db) → M Unit
modify_db f w = (ok tt, record w { db = f w.db })

abbrev pub continue : {A B : Type 0} → Result A → (A → M B) → M B
continue (ok a) f w = f a w
continue (err e) f w = (err e, w)

abbrev pub handle : {A : Type 0} → Result A → (Failure → M A) → M A
handle (ok a) h w = (ok a, w)
handle (err e) h w = h e w

infixl 5 ◌>>=◌ ◌>>◌
-- Opening this opens the actions above.
unfoldable pub ◌>>=◌ : {A B : Type 0} → M A → (A → M B) → M B
unfolding pure skip raise gets or_raise emit push set_quota_exhausted set_deadline modify_db
◌>>=◌ m f w = let (r, w') = m w in continue r f w'

abbrev pub ◌>>◌ : {A B : Type 0} → M A → M B → M B
m >> k = m >>= λ _. k

-- `try { m } catch (e) { h(e) }`
unfoldable pub catch : {A : Type 0} → M A → (Failure → M A) → M A
catch m h w = let (r, w') = m w in handle r h w'

-- the rows, and the change
unfoldable pub returned : {A : Type 0} → (Db → A × Db) → M A
returned g w = let (rows, db') = g w.db in (ok rows, record w { db = db' })

module _ (env : Env) where
  -- `Date.now()`
  unfoldable pub now : M ℕ
  unfolding ◌>>=◌
  now = do t ← gets (λ w. env.now w.log); emit (clock t); pure t

  unfoldable pub sleep : ℕ → M Unit
  unfolding ◌>>=◌
  sleep ms = emit (slept ms)

  unfoldable pub fetch_flights : Request → M (Answer (List AeroFlight))
  unfolding ◌>>=◌
  fetch_flights r = do a ← gets (λ w. env.fetch_flights w.log r); emit (got_flights r a); pure a

  unfoldable pub fetch_schedules : Request → M (Answer Schedules)
  unfolding ◌>>=◌
  fetch_schedules r = do
    a ← gets (λ w. env.fetch_schedules w.log r)
    emit (got_schedules r a)
    pure a

  -- A read of a contract by simulation.
  unfoldable pub read_as : {A : Type 0} → Query → (List Event → Option A) → M A
  unfolding ◌>>=◌
  read_as q answer = do
    a ← gets (λ w. answer w.log)
    emit (read q (is_some a))
    or_raise a (read_failed q)

  -- A statement that reads the database by `f`, or throws.
  unfoldable pub query : {A : Type 0} → (Db → A) → M A
  unfolding ◌>>=◌
  query f = do
    answered ← gets (λ w. env.sql_answers w.log)
    emit (sql answered)
    if answered then gets (λ w. f w.db) else raise database

  -- A statement that reads the database by `f` at its own time, or throws.
  unfoldable pub query_at : {A : Type 0} → (ℕ → Db → A) → M A
  unfolding query
  query_at f = do t ← gets (λ w. env.db_now w.log); query (f t)

  -- A statement that changes the database by `f`, or throws.
  unfoldable pub statement : (Db → Db) → M Unit
  unfolding ◌>>=◌
  statement f = do
    answered ← gets (λ w. env.sql_answers w.log)
    emit (sql answered)
    if answered then modify_db f else raise database

  -- A statement that changes the database by `f` at its own time, or throws.
  unfoldable pub statement_at : (ℕ → Db → Db) → M Unit
  unfolding statement
  statement_at f = do t ← gets (λ w. env.db_now w.log); statement (f t)

  -- A statement that changes the database and returns rows (`returning`), or throws.
  unfoldable pub returning : {A : Type 0} → (ℕ → Db → A × Db) → M A
  unfolding ◌>>=◌ returned
  returning f = do
    t ← gets (λ w. env.db_now w.log)
    answered ← gets (λ w. env.sql_answers w.log)
    emit (sql answered)
    if answered then returned (f t) else raise database
