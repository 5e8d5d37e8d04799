-- ===== src/SettleSweep/Safety.antt =====
-- The settle sweep as a whole (dapp/api/_lib/jobs/fetcher.ts): whatever the clock, AeroAPI, the
-- network and the database answer, each of its transactions is justified by its log.
use sentinel_soroban_v.Base.{
  ℕ, String, true, false, Option, none, some, List, [], ◌∷◌, ◌≡◌, refl, inl, inr, or_else,
}
use sentinel_soroban_v.World.{Event, AeroFlight, saw_status}
use sentinel_soroban_v.World.Monad.{Env, World, FlightData, ok, emit, ◌>>=◌, ◌>>◌}
use sentinel_soroban_v.World.Keeps.{
  Keeps, IsFramed, framed_rules, Keeps-pure, Keeps-then, Keeps-bind, Keeps-skip, Keeps-push,
}
use sentinel_soroban_v.World.Requirement.{Has, IsMono, Respecting-IsFramed, Respects, Respecting}
use sentinel_soroban_v.Aero.Predicates.{is_set}
use sentinel_soroban_v.Aero.Client.{get_flight_data, parse_timestamp}
use sentinel_soroban_v.Aero.Evidence.{Found, get_flight_data-Found, parse_timestamp-Parsed}
use sentinel_soroban_v.Aero.Frame.{Keeps-get_flight_data, Keeps-parse_timestamp}
use sentinel_soroban_v.Frames.{Keeps-read_scheduled_arrival}
use sentinel_soroban_v.SettleSweep.{
  ActiveFlight, day_of_date, on_answer, gate, on_landed, resolve, fetch_outcome, scheduled_arrival,
  settle_after, sweep_flight, sweep_one, sweep_all, sweep, run,
}
use sentinel_soroban_v.SettleSweep.Justified.{
  Needs, Nothing, Nothing-IsFramed, Seen, Seen-IsFramed, Keeps-on_cancelled, Keeps-on_diverted,
  Keeps-activate_then,
}

module _ (env : Env) (flight_id : String) (date : ℕ) (status : String) where
  module _ (f : AeroFlight) where
    abbrev Now : List Event → Type 0
    Now = Seen env flight_id date status f

    Keeps-on_landed :
        f.cancelled ≡ false
        → or_else f.diverted false ≡ false
        → is_set f.actual_in ≡ true
        → Keeps (Respecting Needs Now) (on_landed env (flight_id, date) status f)
    unfolding on_landed
    Keeps-on_landed flies arrives there =
        Keeps-then (parse_timestamp f.scheduled_in) _ (Keeps-parse_timestamp _ f.scheduled_in)
          (parse_timestamp-Parsed f.scheduled_in)
          (λ scheduled w p filed.
            (Keeps-then (parse_timestamp f.actual_in) _ (Keeps-parse_timestamp _ f.actual_in)
                (parse_timestamp-Parsed f.actual_in)
                (λ actual w' p' landed.
                  (Keeps-activate_then env flight_id date status f scheduled actual flies arrives
                      (landed.0 there) filed.1).at
                    w' p')).at
              w p)

    Keeps-resolve : Keeps (Respecting Needs Now) (resolve env (flight_id, date) status f)
    unfolding resolve
    Keeps-resolve =
        search
          (
            framed_rules,
            Seen-IsFramed env flight_id date status f,
            Keeps-on_cancelled,
            Keeps-on_diverted,
            Keeps-on_landed,
          )
          depth 9

  Read : List Event → Type 0
  Read log = Has (saw_status flight_id date status) log

  Read-IsMono : IsMono Read
  unfolding Read
  Read-IsMono = record { grow = λ e log h. inr h }

  Read-IsFramed : IsFramed (Respecting Needs Read)
  Read-IsFramed = Respecting-IsFramed Needs Read Read-IsMono

  Keeps-on_answer :
      (found : Option AeroFlight) (w : World)
      → Respecting Needs Read w
      → Found env flight_id (day_of_date date) (ok found, w)
      → Respecting Needs Read (on_answer env (flight_id, date) status found w).1
  unfolding on_answer
  Keeps-on_answer none w p q = (Keeps-push _ Read-IsFramed flight_id _).at w p
  Keeps-on_answer (some f) w p q =
      let kept = (Keeps-resolve f).at w (p.0, unfold Seen Read in (q, p.1)) in
      (kept.0, unfold Seen Read in kept.1.1)

  Keeps-fetch_outcome : Keeps (Respecting Needs Read) (fetch_outcome env (flight_id, date) status)
  unfolding fetch_outcome
  Keeps-fetch_outcome =
      Keeps-then (get_flight_data env flight_id (day_of_date date)) _
        (Keeps-get_flight_data _ Read-IsFramed env flight_id (day_of_date date))
        (get_flight_data-Found env flight_id (day_of_date date)) Keeps-on_answer

  ruleset read_rules = (framed_rules, Read-IsFramed)

  Keeps-scheduled_arrival :
      (chain : FlightData)
      → Keeps (Respecting Needs Read) (scheduled_arrival env (flight_id, date) chain)
  unfolding scheduled_arrival
  Keeps-scheduled_arrival chain = search (read_rules, Keeps-read_scheduled_arrival) depth 9

  Keeps-settle_after :
      (arrival settle_delay now_secs : ℕ)
      → Keeps
          (Respecting Needs Read)
          (settle_after env arrival settle_delay now_secs (flight_id, date) status)
  unfolding settle_after
  Keeps-settle_after arrival settle_delay now_secs =
      search (read_rules, Keeps-fetch_outcome) depth 9

  Keeps-gate :
      (settle_delay now_secs : ℕ) (chain : FlightData)
      → Keeps
          (Respecting Needs Read)
          (gate env settle_delay now_secs (flight_id, date) chain status)
  unfolding gate
  Keeps-gate settle_delay now_secs chain =
      search (read_rules, Keeps-scheduled_arrival, Keeps-settle_after) depth 9

  Keeps-read_gate :
      (settle_delay now_secs : ℕ) (chain : FlightData)
      → Keeps (Respecting Needs Nothing) (
          emit (saw_status flight_id date status)
          >> gate env settle_delay now_secs (flight_id, date) chain status)
  unfolding emit ◌>>=◌
  Keeps-read_gate settle_delay now_secs chain = record {
    at = λ w h.
        let kept =
          (Keeps-gate settle_delay now_secs chain).at
            (record w { log = saw_status flight_id date status ∷ w.log })
            ((tt, h.0), unfold Read in inl refl) in
        (kept.0, tt);
  }

abbrev J : World → Type 0
J = Respecting Needs Nothing

module _ (env : Env) where
  Keeps-sweep_flight :
      (settle_delay now_secs : ℕ) (flight : ActiveFlight)
      → Keeps J (sweep_flight env settle_delay now_secs flight)
  unfolding sweep_flight
  Keeps-sweep_flight settle_delay now_secs (flight_id, date) =
      search (framed_rules, Nothing-IsFramed, Keeps-read_gate) depth 7

  Keeps-sweep_one :
      (deadline settle_delay now_secs : ℕ) (flight : ActiveFlight)
      → Keeps J (sweep_one env deadline settle_delay now_secs flight)
  unfolding sweep_one
  Keeps-sweep_one deadline settle_delay now_secs flight =
      search (framed_rules, Nothing-IsFramed, Keeps-sweep_flight) depth 9

  Keeps-sweep_all :
      (deadline settle_delay now_secs : ℕ) (flights : List ActiveFlight)
      → Keeps J (sweep_all env deadline settle_delay now_secs flights)
  unfolding sweep_all
  Keeps-sweep_all deadline settle_delay now_secs [] = Keeps-skip
  Keeps-sweep_all deadline settle_delay now_secs (flight ∷ rest) =
      Keeps-bind _ _ (Keeps-sweep_one deadline settle_delay now_secs flight)
        (λ u. Keeps-sweep_all deadline settle_delay now_secs rest)

  Keeps-sweep :
      (start settle_delay : ℕ) (flights : List ActiveFlight)
      → Keeps J (sweep env start settle_delay flights)
  unfolding sweep
  Keeps-sweep start settle_delay [] = Keeps-pure _
  Keeps-sweep start settle_delay (flight ∷ rest) =
      search (framed_rules, Nothing-IsFramed, Keeps-sweep_all) depth 9

  Keeps-run : (settle_delay : ℕ) → Keeps J (run env settle_delay)
  unfolding run
  Keeps-run settle_delay = search (framed_rules, Nothing-IsFramed, Keeps-sweep) depth 12

-- Whatever the environment answers, a run of the settle sweep keeps a log in which every
-- transaction is justified by what stands before it: a `set_cancelled` by an answer of AeroAPI for
-- that flight and day that shows one flight, with a corroborated cancellation or diversion; a
-- `set_estimated_arrival` by such an answer with that scheduled arrival, not cancelled; a
-- `set_landed` by an answer with that actual arrival, neither cancelled nor diverted, and by a
-- schedule write that went through or a read of another status than `NotInitiated`.
pub run-Respects :
    (env : Env) (settle_delay : ℕ) (w : World)
    → Respects Needs w.log
    → Respects Needs (run env settle_delay w).1.log
run-Respects env settle_delay w h = ((Keeps-run env settle_delay).at w (h, tt)).0
