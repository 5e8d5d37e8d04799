-- ===== src/SettleSweep/Justified.antt =====
-- What stands behind each transaction of the settle sweep (dapp/api/_lib/jobs/fetcher.ts).
use sentinel_soroban_v.Base.{
  ℕ, String, true, false, ◌||◌, str_eq, some, List, ◌==◌, ◌≡◌, ◌≢◌, ◌⊎◌, inl, inr, arith, eq_iff,
  or_else,
}
use sentinel_soroban_v.FlightStatus
use sentinel_soroban_v.World.{
  Event, AeroFlight, Call, saw_status, wrote, set_cancelled, set_landed, set_estimated_arrival,
  classify_flight, settle_flight,
}
use sentinel_soroban_v.World.Db.{Outcome}
use sentinel_soroban_v.World.Monad.{Env, ◌>>◌, push, transition}
use sentinel_soroban_v.World.Keeps.{Keeps, IsFramed, framed_rules, Keeps-then}
use sentinel_soroban_v.World.Requirement.{Has, IsMono, Respecting, Respecting-IsFramed}
use sentinel_soroban_v.Soroban.Frame.{Admits-Respecting, Keeps-invoke}
use sentinel_soroban_v.Soroban.{invoke}
use sentinel_soroban_v.Soroban.Submission.{invoke-Wrote}
use sentinel_soroban_v.Aero.Predicates.{iso_secs, is_confirmed_cancellation, is_confirmed_diversion}
use sentinel_soroban_v.Aero.Evidence.{IsSeen}
use sentinel_soroban_v.Targeted.{classify_and_settle_flight}
use sentinel_soroban_v.Frames.{Keeps-classify_and_settle_flight, Keeps-log_flight_outcome}
use sentinel_soroban_v.SettleSweep.{
  day_of_date, settle_cancelled, on_cancelled, on_diverted, write_landed, activate, activate_then,
}

-- A cancellation rests on a flight that AeroAPI showed alone on its day, and whose cancellation or
-- diversion is corroborated. A landing rests on one that showed that very arrival, and on the
-- schedule having been written, or on the flight having been read as past `NotInitiated`.
abbrev pub Needs : Call → List Event → Type 0
Needs (set_cancelled flight_id date) log =
    (f : AeroFlight) × IsSeen flight_id (day_of_date date) f log
    × ((is_confirmed_cancellation f || is_confirmed_diversion f) ≡ true)
Needs (set_estimated_arrival flight_id date secs) log =
    (f : AeroFlight) × IsSeen flight_id (day_of_date date) f log
    × (f.cancelled ≡ false)
    × (iso_secs f.scheduled_in ≡ some secs)
Needs (set_landed flight_id date secs) log =
    (f : AeroFlight) × IsSeen flight_id (day_of_date date) f log
    × (f.cancelled ≡ false)
    × (or_else f.diverted false ≡ false)
    × (iso_secs f.actual_in ≡ some secs)
    × (((status : String) × Has (saw_status flight_id date status) log
          × (status ≢ FlightStatus.not_initiated))
        ⊎ ((scheduled : ℕ) × Has (wrote (set_estimated_arrival flight_id date scheduled) true) log))
Needs c log = Unit

abbrev pub Nothing : List Event → Type 0
Nothing log = Unit

Nothing-IsMono : IsMono Nothing
Nothing-IsMono = record { grow = λ e log h. h }

pub Nothing-IsFramed : IsFramed (Respecting Needs Nothing)
Nothing-IsFramed = Respecting-IsFramed Needs Nothing Nothing-IsMono

-- The targeted settlement needs nothing.
module _ (X : List Event → Type 0) (mono : IsMono X) (env : Env) where
  X-IsFramed : IsFramed (Respecting Needs X)
  X-IsFramed = Respecting-IsFramed Needs X mono

  Keeps-settle_one :
      (flight_id : String) (date : ℕ) (label : String)
      → Keeps (Respecting Needs X) (classify_and_settle_flight env flight_id date label)
  Keeps-settle_one flight_id date label =
      Keeps-classify_and_settle_flight _ X-IsFramed env flight_id date label
        (Admits-Respecting Needs X (classify_flight flight_id date) mono (λ log x. tt))
        (Admits-Respecting Needs X (settle_flight flight_id date) mono (λ log x. tt))

  Keeps-settle_cancelled :
      (flight_id : String) (date : ℕ) (note : String) (outcome : Outcome)
      → ((log : List Event) → X log → Needs (set_cancelled flight_id date) log)
      → Keeps (Respecting Needs X) (settle_cancelled env (flight_id, date) note outcome)
  unfolding settle_cancelled
  Keeps-settle_cancelled flight_id date note outcome need =
      let admits = Admits-Respecting Needs X (set_cancelled flight_id date) mono need in
      search (framed_rules, X-IsFramed, Keeps-invoke, Keeps-log_flight_outcome, Keeps-settle_one)
        depth 12

  Keeps-write_landed :
      (flight_id : String) (date scheduled actual : ℕ)
      → ((log : List Event) → X log → Needs (set_landed flight_id date actual) log)
      → Keeps (Respecting Needs X) (write_landed env (flight_id, date) scheduled actual)
  unfolding write_landed
  Keeps-write_landed flight_id date scheduled actual need =
      let admits = Admits-Respecting Needs X (set_landed flight_id date actual) mono need in
      search (framed_rules, X-IsFramed, Keeps-invoke, Keeps-log_flight_outcome, Keeps-settle_one)
        depth 12

-- A flight whose status was read, and whose answer from AeroAPI is `f`.
module _ (env : Env) (flight_id : String) (date : ℕ) (status : String) (f : AeroFlight) where
  unfoldable pub Seen : List Event → Type 0
  Seen log = IsSeen flight_id (day_of_date date) f log × Has (saw_status flight_id date status) log

  pub Seen-IsMono : IsMono Seen
  unfolding Seen
  Seen-IsMono = record { grow = λ e log h. ((h.0.0, inr h.0.1), inr h.1) }

  pub Seen-IsFramed : IsFramed (Respecting Needs Seen)
  Seen-IsFramed = Respecting-IsFramed Needs Seen Seen-IsMono

  cancelled-Needs :
      is_confirmed_cancellation f ≡ true
      → (log : List Event) → Seen log
      → Needs (set_cancelled flight_id date) log
  unfolding Seen
  cancelled-Needs confirmed log h = (f, h.0, ground arith)

  diverted-Needs :
      is_confirmed_diversion f ≡ true
      → (log : List Event) → Seen log
      → Needs (set_cancelled flight_id date) log
  unfolding Seen
  diverted-Needs confirmed log h = (f, h.0, ground arith)

  ruleset seen_rules = (framed_rules, Seen-IsFramed, Seen-IsMono)

  pub Keeps-on_cancelled :
      Keeps (Respecting Needs Seen) (on_cancelled env (flight_id, date) status f)
  unfolding on_cancelled
  Keeps-on_cancelled = search (seen_rules, Keeps-settle_cancelled, cancelled-Needs) depth 9

  pub Keeps-on_diverted : Keeps (Respecting Needs Seen) (on_diverted env (flight_id, date) status f)
  unfolding on_diverted
  Keeps-on_diverted = search (seen_rules, Keeps-settle_cancelled, diverted-Needs) depth 9

  -- a flight that is neither cancelled nor diverted
  module _ (scheduled actual : ℕ) (flies : f.cancelled ≡ false)
      (arrives : or_else f.diverted false ≡ false) (landed : iso_secs f.actual_in ≡ some actual)
      (filed : scheduled ≢ 0 → iso_secs f.scheduled_in ≡ some scheduled) where
    -- and whose schedule has been written
    Activated : List Event → Type 0
    Activated log = Seen log × Has (wrote (set_estimated_arrival flight_id date scheduled) true) log

    Activated-IsMono : IsMono Activated
    unfolding Activated
    Activated-IsMono = record { grow = λ e log h. (Seen-IsMono.grow e log h.0, inr h.1) }

    Activated-IsFramed : IsFramed (Respecting Needs Activated)
    Activated-IsFramed = Respecting-IsFramed Needs Activated Activated-IsMono

    Activated-Needs :
        (log : List Event) → Activated log → Needs (set_landed flight_id date actual) log
    unfolding Activated Seen
    Activated-Needs log h = (f, h.0.0, flies, arrives, landed, inr (scheduled, h.1))

    active-Needs :
        status ≢ FlightStatus.not_initiated
        → (log : List Event) → Seen log
        → Needs (set_landed flight_id date actual) log
    unfolding Seen
    active-Needs ne log h = (f, h.0, flies, arrives, landed, inl (status, h.1, ne))

    schedule-Needs :
        scheduled ≢ 0
        → (log : List Event) → Seen log
        → Needs (set_estimated_arrival flight_id date scheduled) log
    unfolding Seen
    schedule-Needs ne log h = (f, h.0, flies, filed ne)

    Keeps-Activated : Keeps (Respecting Needs Activated) (
        push flight_id (transition "NotInitiated → Active (schedule written)")
        >> write_landed env (flight_id, date) scheduled actual)
    Keeps-Activated =
        search
          (framed_rules, Activated-IsFramed, Activated-IsMono, Keeps-write_landed, Activated-Needs)
          depth 9

    Keeps-activate :
        scheduled ≢ 0
        → Keeps (Respecting Needs Seen) (
            activate env
              (flight_id, date)
              scheduled
              (write_landed env (flight_id, date) scheduled actual))
    unfolding activate
    Keeps-activate ne =
        Keeps-then (invoke env (set_estimated_arrival flight_id date scheduled)) _
          (Keeps-invoke _ Seen-IsFramed env _
            (Admits-Respecting Needs Seen _ Seen-IsMono (schedule-Needs ne)))
          (invoke-Wrote env (set_estimated_arrival flight_id date scheduled))
          (λ u w p q.
            let kept = Keeps-Activated.at w (p.0, unfold Activated in (p.1, q)) in
            (kept.0, unfold Activated in kept.1.0))

    status_ne :
        str_eq status FlightStatus.not_initiated ≡ false → status ≢ FlightStatus.not_initiated
    status_ne h = ground (arith, eq_iff status FlightStatus.not_initiated)

    scheduled_ne : (scheduled == 0) ≡ false → scheduled ≢ 0
    scheduled_ne h = ground arith

    pub Keeps-activate_then : Keeps (Respecting Needs Seen) (
        activate_then env
          (flight_id, date)
          status
          scheduled
          (write_landed env (flight_id, date) scheduled actual))
    unfolding activate_then
    Keeps-activate_then =
        search
          (seen_rules, Keeps-activate, scheduled_ne, Keeps-write_landed, active-Needs, status_ne)
          depth 12
