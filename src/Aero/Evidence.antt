-- ===== src/Aero/Evidence.antt =====
-- What a flight that `getFlightData` returns leaves in the log: the answer that shows it.
use sentinel_soroban_v.Base.{
  ℕ, zero, suc, ◌+◌, ◌*◌, String, true, Option, none, some, List, [], ◌∷◌, ◌≡◌, ◌≢◌, refl, inl,
}
use sentinel_soroban_v.World.{
  Event, AeroFlight, Answer, Request, IsoText, blank, text, flights, json, status, exception,
  got_flights, got_schedules, Schedules,
}
use sentinel_soroban_v.World.Monad.{
  Env, World, M, Result, ok, err, pure, raise, ◌>>=◌, fetch_flights, fetch_schedules, now, continue,
}
use sentinel_soroban_v.World.Requirement.{Has}
use sentinel_soroban_v.World.Keeps.{Ends, IsLax, ends_rules, Ends-bind, Ends-if, Ends-then}
use sentinel_soroban_v.Aero.Predicates.{is_set, iso_secs}
use sentinel_soroban_v.Aero.Client.{
  retry_after, settle_last, settle_attempt, attempts, request_json, get_flight_data,
  parse_timestamp, day_secs, is_ident, usable, window_end,
}

-- Answers to requests `send`, and a fact that an answer leaves in the log.
module _ {A : Type 0} (env : Env) (send : M (Answer A)) (X : A → List Event → Type 0) where
  -- A body that is returned was answered.
  abbrev pub Shown : Result (Option A) × World → Type 0
  Shown (ok (some body), w) = X body w.log
  Shown (ok none, w) = Unit
  Shown (err e, w) = Unit

  Shown-IsLax : IsLax Shown
  Shown-IsLax = record { errs = λ e w. tt }

  Shown-none : Ends Shown (pure none)
  unfolding pure
  Shown-none = record { at = λ w. tt }

  ruleset shown_rules = (ends_rules, Shown-IsLax, Shown-none)

  Shown-retry_after :
      (delay : ℕ) (again : M (Option A))
      → Ends Shown again
      → Ends Shown (retry_after env delay again)
  unfolding retry_after
  Shown-retry_after delay again h = search shown_rules depth 9

  abbrev pub Fact : Answer A → List Event → Type 0
  Fact (json (some body)) log = X body log
  Fact _ log = Unit

  -- What may follow an answer that has just been logged
  abbrev pub Follows : (Answer A → M (Option A)) → Type 0
  Follows k = (a : Answer A) (w : World) → Fact a w.log → Shown (k a w)

  -- Sending leaves the fact behind.
  abbrev pub Leaves : Type 0
  Leaves = (k : Answer A → M (Option A)) → Follows k → Ends Shown (send >>= k)

  Follows-settle_last : Follows (settle_last env)
  unfolding settle_last pure
  Follows-settle_last (json none) w h = tt
  Follows-settle_last (json (some body)) w h = h
  Follows-settle_last (status code) w h =
      let ends : Ends Shown (settle_last env (status code)) = search shown_rules depth 9 in
      ends.at w
  Follows-settle_last exception w h = tt

  Follows-settle_attempt :
      (n : ℕ) (again : M (Option A)) → Ends Shown again → Follows (settle_attempt env n again)
  unfolding settle_attempt pure
  Follows-settle_attempt n again k (json none) w h = tt
  Follows-settle_attempt n again k (json (some body)) w h = h
  Follows-settle_attempt n again k (status code) w h =
      let ends : Ends Shown (settle_attempt env n again (status code)) =
        search (shown_rules, Shown-retry_after) depth 12 in
      ends.at w
  Follows-settle_attempt n again k exception w h = (Shown-retry_after _ again k).at w

  module _ (leaves : Leaves) where
    Shown-attempts : (left n : ℕ) → Ends Shown (attempts env send left n)
    unfolding attempts
    Shown-attempts zero n = leaves _ Follows-settle_last
    Shown-attempts (suc left) n =
        leaves _ (Follows-settle_attempt n _ (Shown-attempts left (n + 1)))

    pub Shown-request_json : Ends Shown (request_json env send)
    unfolding request_json
    Shown-request_json = search (shown_rules, Shown-attempts) depth 12

-- The answer stands in the log.
module _ (env : Env) (r : Request) where
  abbrev pub Flights : List AeroFlight → List Event → Type 0
  Flights body log = Has (got_flights r (json (some body))) log

  fetch_flights-Leaves : Leaves env (fetch_flights env r) Flights
  unfolding fetch_flights ◌>>=◌
  fetch_flights-Leaves k h = record {
    at = λ w. h (env.fetch_flights w.log r) _ (flights_fact (env.fetch_flights w.log r) w);
  }
    where
      flights_fact :
          (a : Answer (List AeroFlight)) (w : World)
          → Fact env (fetch_flights env r) Flights a (got_flights r a ∷ w.log)
      flights_fact (json (some body)) w = inl refl
      flights_fact (json none) w = tt
      flights_fact (status code) w = tt
      flights_fact exception w = tt

  abbrev pub Listed : Schedules → List Event → Type 0
  Listed page log = Has (got_schedules r (json (some page))) log

  fetch_schedules-Leaves : Leaves env (fetch_schedules env r) Listed
  unfolding fetch_schedules ◌>>=◌
  fetch_schedules-Leaves k h = record {
    at = λ w. h (env.fetch_schedules w.log r) _ (schedules_fact (env.fetch_schedules w.log r) w);
  }
    where
      schedules_fact :
          (a : Answer Schedules) (w : World)
          → Fact env (fetch_schedules env r) Listed a (got_schedules r a ∷ w.log)
      schedules_fact (json (some page)) w = inl refl
      schedules_fact (json none) w = tt
      schedules_fact (status code) w = tt
      schedules_fact exception w = tt

  pub Shown-Flights :
      Ends (Shown env (fetch_flights env r) Flights) (request_json env (fetch_flights env r))
  Shown-Flights = Shown-request_json env (fetch_flights env r) Flights fetch_flights-Leaves

  pub Shown-Schedules :
      Ends (Shown env (fetch_schedules env r) Listed) (request_json env (fetch_schedules env r))
  Shown-Schedules = Shown-request_json env (fetch_schedules env r) Listed fetch_schedules-Leaves

-- A flight was the only one that an answer for its day showed.
abbrev pub IsSeen : String → ℕ → AeroFlight → List Event → Type 0
IsSeen ident day f log =
    (end_secs : ℕ) × Has
      (got_flights (flights ident (day * day_secs) end_secs) (json (some (f ∷ [])))) log

module _ (env : Env) (ident : String) (day : ℕ) where
  abbrev pub Found : Result (Option AeroFlight) × World → Type 0
  Found (ok (some f), w) = IsSeen ident day f w.log
  Found (ok none, w) = Unit
  Found (err e, w) = Unit

  Found-IsLax : IsLax Found
  Found-IsLax = record { errs = λ e w. tt }

  Found-usable :
      (end_secs : ℕ) (r : Result (Option (List AeroFlight)) × World)
      → Shown env
          (fetch_flights env (flights ident (day * day_secs) end_secs))
          (Flights env (flights ident (day * day_secs) end_secs))
          r
      → Found (continue r.0 (λ found. pure (usable found)) r.1)
  unfolding pure
  Found-usable end_secs (ok none, w) h = tt
  Found-usable end_secs (ok (some []), w) h = tt
  Found-usable end_secs (ok (some (f ∷ [])), w) h = (end_secs, h)
  Found-usable end_secs (ok (some (f ∷ g ∷ rest)), w) h = tt
  Found-usable end_secs (err e, w) h = tt

  Found-none : Ends Found (pure none)
  unfolding pure
  Found-none = record { at = λ w. tt }

  pub get_flight_data-Found : Ends Found (get_flight_data env ident day)
  unfolding get_flight_data
  get_flight_data-Found =
      Ends-if (is_ident ident) _ _
        (Ends-bind (now env) _ Found-IsLax (λ t.
          Ends-then _ _ (Shown-Flights env (flights ident (day * day_secs) (window_end day t)))
            (Found-usable (window_end day t))))
        Found-none

-- What `parseTimestamp` returns is what the text denotes, where that matters.
abbrev pub Parsed : Option IsoText → Result ℕ × World → Type 0
Parsed t (ok secs, w) =
    (is_set t ≡ true → iso_secs t ≡ some secs) × (secs ≢ 0 → iso_secs t ≡ some secs)
Parsed t (err e, w) = Unit

pub parse_timestamp-Parsed : (t : Option IsoText) → Ends (Parsed t) (parse_timestamp t)
unfolding parse_timestamp pure raise
parse_timestamp-Parsed none = record { at = λ w. (λ h. cc, λ h. absurd (h refl)) }
parse_timestamp-Parsed (some blank) = record { at = λ w. (λ h. cc, λ h. absurd (h refl)) }
parse_timestamp-Parsed (some (text day none)) = record { at = λ w. tt }
parse_timestamp-Parsed (some (text day (some secs))) = record { at = λ w. (λ h. refl, λ h. refl) }
