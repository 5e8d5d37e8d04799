-- ===== src/SettleSweep/Economy.antt =====
-- The settle sweep asks AeroAPI nothing while its flights are in the air.
use sentinel_soroban_v.Base.{
  ℕ, ◌+◌, ◌/◌, ◌≤◌, ◌≡◌, refl, sym, String, true, Option, none, some, List, [], ◌∷◌, ltb, or_else,
  is_some, arith,
}
use sentinel_soroban_v.World.{Event, Query, read, saw_status, flight_data, read_failed}
use sentinel_soroban_v.World.Monad.{
  Env, World, Result, ok, err, FlightData, pure, skip, read_as, or_raise, ◌>>=◌,
}
use sentinel_soroban_v.World.Keeps.{Ends}
use sentinel_soroban_v.World.Answers.{Gives, now-Told}
use sentinel_soroban_v.World.Cost.{
  Costs-after, Costs-catch, Costs-if, Costs-pure, Costs-gets, Costs-then, Costs-emit_other,
  Costs-push, Costs-set_deadline, Costs-or_raise, is_fetch, fetches,
}
use sentinel_soroban_v.Aero.Costs.{Fetches, Fetches-now}
use sentinel_soroban_v.SettleSweep.{
  ActiveFlight, scheduled_arrival, settle_after, gate, sweep_flight, sweep_one, sweep_all, sweep,
  run,
}

module _ (env : Env) where
  -- what was read is what the environment answered
  abbrev Read : (String × ℕ) → Result FlightData × World → Type 0
  Read flight (ok d, w) = (log : List Event) × (env.flight_data log flight.0 flight.1 ≡ some d)
  Read flight (err e, w) = Unit

  read_as-Read :
      (flight_id : String) (date : ℕ)
      → Ends
          (Read (flight_id, date))
          (read_as env (flight_data flight_id date) (λ log. env.flight_data log flight_id date))
  unfolding read_as ◌>>=◌
  read_as-Read flight_id date = record {
    at = λ w. answered (env.flight_data w.log flight_id date) w.log refl _;
  }
    where
      answered :
          (o : Option FlightData) (log : List Event)
          → env.flight_data log flight_id date ≡ o
          → (w : World)
          → Read (flight_id, date) (or_raise o (read_failed (flight_data flight_id date)) w)
      answered none log same w = tt
      answered (some d) log same w = (log, same)

  Fetches-read_as :
      {A : Type 0} (q : Query) (f : List Event → Option A) → Fetches 0 (read_as env q f)
  unfolding read_as
  Fetches-read_as q f = Costs-after _ _ _ (Costs-gets is_fetch (λ w. f w.log)) (λ a.
      Costs-after _ _ _ (Costs-emit_other is_fetch (read q (is_some a)) refl)
        (λ u. Costs-or_raise is_fetch a (read_failed q)))

  -- a flight before its scheduled arrival, with the delay
  Fetches-settle_after :
      (arrival settle_delay now_secs : ℕ) (flight : ActiveFlight) (status : String)
      → ltb now_secs (arrival + settle_delay) ≡ true
      → Fetches 0 (settle_after env arrival settle_delay now_secs flight status)
  unfolding settle_after
  Fetches-settle_after arrival settle_delay now_secs flight status early =
      rw early (Costs-push is_fetch _ _)

  Fetches-gate :
      (settle_delay now_secs : ℕ) (flight : ActiveFlight) (d : FlightData) (status : String)
      → ltb 0 (or_else d.estimated_arrival_time 0) ≡ true
      → ltb now_secs (or_else d.estimated_arrival_time 0 + settle_delay) ≡ true
      → Fetches 0 (gate env settle_delay now_secs flight d status)
  unfolding gate scheduled_arrival pure
  Fetches-gate settle_delay now_secs flight d status known early =
      let eta = or_else d.estimated_arrival_time 0 in
      let found : Ends (Gives eta) (scheduled_arrival env flight d) =
        rw known (record { at = λ w. refl }) in
      let free : Fetches 0 (scheduled_arrival env flight d) = rw known (Costs-pure is_fetch eta) in
      Costs-if _ _ _ _
        (Costs-then _ {k = 0} _ _ free found (λ arrival w same.
          rw same (Fetches-settle_after eta settle_delay now_secs flight status early)))
        (Costs-push is_fetch _ _)

  -- Every flight is read with a scheduled arrival that, with the delay, no clock has reached.
  abbrev pub AreEarly : ℕ → Type 0
  AreEarly settle_delay =
      (log later : List Event) (flight_id : String) (date : ℕ) (d : FlightData)
      → env.flight_data log flight_id date ≡ some d
      → (ltb 0 (or_else d.estimated_arrival_time 0) ≡ true)
        × (ltb (env.now later / 1000) (or_else d.estimated_arrival_time 0 + settle_delay) ≡ true)

  module _ (settle_delay : ℕ) (early : AreEarly settle_delay) (later : List Event) where
    abbrev now_secs : ℕ
    now_secs = env.now later / 1000

    Fetches-sweep_flight :
        (flight : ActiveFlight) → Fetches 0 (sweep_flight env settle_delay now_secs flight)
    unfolding sweep_flight
    Fetches-sweep_flight (flight_id, date) =
        Costs-then _ {k = 0} _ _ (Fetches-read_as _ _) (read_as-Read flight_id date)
          (λ chain w answered.
            let before = early answered.0 later flight_id date chain answered.1 in
            Costs-after _ _ _ (Costs-emit_other is_fetch (saw_status flight_id date _) refl)
              (λ u. Fetches-gate settle_delay now_secs (flight_id, date) chain _ before.0 before.1))

    Fetches-sweep_one :
        (deadline : ℕ) (flight : ActiveFlight)
        → Fetches 0 (sweep_one env deadline settle_delay now_secs flight)
    unfolding sweep_one
    Fetches-sweep_one deadline flight = Costs-after _ _ _ (Fetches-now env) (λ t.
        Costs-if _ _ _ _ (Costs-push is_fetch _ _)
          (Costs-catch _ _ _ (Fetches-sweep_flight flight) (λ e. Costs-push is_fetch _ _)))

    Fetches-sweep_all :
        (deadline : ℕ) (flights : List ActiveFlight)
        → Fetches 0 (sweep_all env deadline settle_delay now_secs flights)
    unfolding sweep_all skip
    Fetches-sweep_all deadline [] = record { at = λ w. omega arith }
    Fetches-sweep_all deadline (flight ∷ rest) =
        Costs-after _ _ _ (Fetches-sweep_one deadline flight) (λ u. Fetches-sweep_all deadline rest)

  Fetches-sweep :
      (start settle_delay : ℕ) (flights : List ActiveFlight)
      → AreEarly settle_delay
      → Fetches 0 (sweep env start settle_delay flights)
  unfolding sweep
  Fetches-sweep start settle_delay [] early = Costs-pure _ _
  Fetches-sweep start settle_delay (flight ∷ rest) early =
      Costs-then _ {k = 0} _ _ (Fetches-now env) (now-Told env) (λ t w told.
        Costs-after _ _ _
          (rw (sym told.1) (Fetches-sweep_all settle_delay early told.0 _ (flight ∷ rest)))
          (λ u. Costs-pure _ _))

  Fetches-run : (settle_delay : ℕ) → AreEarly settle_delay → Fetches 0 (run env settle_delay)
  unfolding run
  Fetches-run settle_delay early = Costs-after _ _ _ (Fetches-now env) (λ start.
      Costs-catch _ _ _
        (Costs-after _ _ _ (Costs-set_deadline is_fetch _) (λ u.
          Costs-after _ _ _ (Fetches-read_as _ _)
            (λ insured. Fetches-sweep start settle_delay insured early)))
        (λ e. Costs-pure _ _))

-- While every flight that is read has a scheduled arrival on chain, and no clock has reached that
-- arrival and the settle delay, a run of the settle sweep sends AeroAPI no request.
pub run-AreEarly :
    (env : Env) (settle_delay : ℕ) (w : World)
    → AreEarly env settle_delay
    → fetches (run env settle_delay w).1.log ≤ fetches w.log
run-AreEarly env settle_delay w early = omega (arith, (Fetches-run env settle_delay early).at w)
