-- ===== src/Aero/Costs.antt =====
-- How many requests AeroAPI's client sends.
use sentinel_soroban_v.Base.{ℕ, zero, suc, ◌+◌, ◌*◌, refl, String, Option, none, some, arith}
use sentinel_soroban_v.World.{
  Answer, json, status, exception, Request, Schedules, Filters, clock, slept, got_flights,
  got_schedules,
}
use sentinel_soroban_v.World.Monad.{Env, M, pure, now, sleep, fetch_flights, fetch_schedules}
use sentinel_soroban_v.World.Cost.{
  Costs, Costs-bind, Costs-after, Costs-if, Costs-pure, Costs-gets, Costs-weaken, Costs-emit,
  Costs-emit_other, Costs-set_quota_exhausted, is_fetch,
}
use sentinel_soroban_v.Aero.Client.{
  crosses, would_cross_deadline, retry_after, settle_last, settle_attempt, attempt_then, attempts,
  request_json, get_flight_data, get_flight_instances, follow, on_page, collect, get_schedules,
  next_link, max_retries, max_cursor_follows,
}

abbrev pub Fetches : {A : Type 0} → ℕ → M A → Type 0
Fetches k m = Costs is_fetch k m

module _ (env : Env) where
  pub Fetches-now : Fetches 0 (now env)
  unfolding now
  Fetches-now =
      Costs-bind _ _ _ (Costs-gets _ _)
        (λ t. Costs-bind _ _ _ (Costs-emit_other is_fetch (clock t) refl) (λ u. Costs-pure _ t))

  Fetches-sleep : (ms : ℕ) → Fetches 0 (sleep env ms)
  unfolding sleep
  Fetches-sleep ms = Costs-emit_other is_fetch (slept ms) refl

  Fetches-crosses : (deadline : Option ℕ) (ms : ℕ) → Fetches 0 (crosses env deadline ms)
  unfolding crosses
  Fetches-crosses none ms = Costs-pure _ _
  Fetches-crosses (some deadline) ms = Costs-bind _ _ _ Fetches-now (λ t. Costs-pure _ _)

  Fetches-would_cross_deadline : (ms : ℕ) → Fetches 0 (would_cross_deadline env ms)
  unfolding would_cross_deadline
  Fetches-would_cross_deadline ms =
      Costs-bind _ _ _ (Costs-gets _ _) (λ deadline. Fetches-crosses deadline ms)

  Fetches-flights : (r : Request) → Fetches 1 (fetch_flights env r)
  unfolding fetch_flights
  Fetches-flights r =
      Costs-bind _ _ _ (Costs-gets _ _)
        (λ a. Costs-bind _ _ _ (Costs-emit is_fetch (got_flights r a)) (λ u. Costs-pure _ a))

  Fetches-schedules : (r : Request) → Fetches 1 (fetch_schedules env r)
  unfolding fetch_schedules
  Fetches-schedules r =
      Costs-bind _ _ _ (Costs-gets _ _)
        (λ a. Costs-bind _ _ _ (Costs-emit is_fetch (got_schedules r a)) (λ u. Costs-pure _ a))

  module _ {A : Type 0} where
    Fetches-none : (k : ℕ) → Fetches k (pure {A = Option A} none)
    Fetches-none k = Costs-weaken _ _ (omega arith) (Costs-pure _ _)

    Fetches-retry_after :
        {k : ℕ} (delay : ℕ) (again : M (Option A))
        → Fetches k again
        → Fetches k (retry_after env delay again)
    unfolding retry_after
    Fetches-retry_after {k} delay again h =
        Costs-after _ _ _ (Fetches-would_cross_deadline delay) (λ crosses.
          Costs-if _ _ _ _ (Fetches-none k) (Costs-after _ _ _ (Fetches-sleep delay) (λ u. h)))

    Fetches-settle_last : (a : Answer A) → Fetches 0 (settle_last env a)
    unfolding settle_last
    Fetches-settle_last (json body) = Costs-pure _ _
    Fetches-settle_last (status code) =
        Costs-if _ _ _ _
          (Costs-bind _ _ _ (Fetches-would_cross_deadline _) (λ crosses.
            Costs-if _ _ _ _ (Fetches-none 0)
              (Costs-bind _ _ _ (Costs-set_quota_exhausted _) (λ u. Fetches-none 0))))
          (Fetches-none 0)
    Fetches-settle_last exception = Costs-pure _ _

    Fetches-settle_attempt :
        {k : ℕ} (n : ℕ) (again : M (Option A)) (a : Answer A)
        → Fetches k again
        → Fetches k (settle_attempt env n again a)
    unfolding settle_attempt
    Fetches-settle_attempt {k} n again (json body) h =
        Costs-weaken _ _ (omega arith) (Costs-pure _ _)
    Fetches-settle_attempt {k} n again (status code) h =
        search (Costs-if, Fetches-none, Fetches-retry_after) depth 12
    Fetches-settle_attempt n again exception h = Fetches-retry_after _ again h

    module _ (send : M (Answer A)) (one : Fetches 1 send) where
      Fetches-attempts : (left n : ℕ) → Fetches (left + 1) (attempts env send left n)
      unfolding attempts attempt_then
      Fetches-attempts zero n = Costs-bind _ _ _ one Fetches-settle_last
      Fetches-attempts (suc left) n =
          Costs-weaken _ _ (omega arith) (
            Costs-bind _ _ _ one
              (λ a. Fetches-settle_attempt n _ a (Fetches-attempts left (n + 1))))

      pub Fetches-request_json : Fetches 4 (request_json env send)
      unfolding request_json
      Fetches-request_json = Costs-bind _ _ _ (Costs-gets _ _) (λ exhausted.
          Costs-if _ _ _ _ (Fetches-none 4) (
            Costs-bind _ _ _ (Fetches-would_cross_deadline 0)
              (λ crossed. Costs-if _ _ _ _ (Fetches-none 4) (Fetches-attempts max_retries 0))))

  pub Fetches-get_flight_data :
      (ident : String) (day : ℕ) → Fetches 4 (get_flight_data env ident day)
  unfolding get_flight_data
  Fetches-get_flight_data ident day =
      Costs-if _ _ _ _
        (Costs-bind _ _ _ Fetches-now (λ t.
          Costs-bind _ _ _ (Fetches-request_json _ (Fetches-flights _)) (λ found. Costs-pure _ _)))
        (Fetches-none 4)

  pub Fetches-get_flight_instances :
      (ident : String) (start end_secs : ℕ)
      → Fetches 4 (get_flight_instances env ident start end_secs)
  unfolding get_flight_instances
  Fetches-get_flight_instances ident start end_secs =
      Costs-if _ _ _ _ (Fetches-request_json _ (Fetches-flights _)) (Fetches-none 4)

  Fetches-follow :
      {k : ℕ} (m : Schedules) (go : Schedules → String → M (Option Schedules))
      (next : Option String)
      → ((m : Schedules) (n : String) → Fetches k (go m n))
      → Fetches k (follow m go next)
  unfolding follow
  Fetches-follow m go none h = Costs-weaken _ _ (omega arith) (Costs-pure _ _)
  Fetches-follow m go (some next) h = h m next

  Fetches-on_page :
      {k : ℕ} (merged : Option Schedules) (go : Schedules → String → M (Option Schedules))
      (page : Option Schedules)
      → ((m : Schedules) (n : String) → Fetches k (go m n))
      → Fetches k (on_page merged go page)
  unfolding on_page
  Fetches-on_page merged go none h = Costs-weaken _ _ (omega arith) (Costs-pure _ _)
  Fetches-on_page merged go (some page) h = Fetches-follow _ go (next_link page) h

  Fetches-collect :
      (left : ℕ) (merged : Option Schedules) (r : Request)
      → Fetches (left * 4 + 4) (collect env left merged r)
  unfolding collect
  Fetches-collect zero merged r =
      Costs-bind _ _ _ (Fetches-request_json _ (Fetches-schedules r)) (λ page. Costs-pure _ _)
  Fetches-collect (suc left) merged r = Costs-weaken _ _ (omega arith) (
      Costs-bind _ _ _ (Fetches-request_json _ (Fetches-schedules r))
        (λ page. Fetches-on_page merged _ page (λ m next. Fetches-collect left (some m) _)))

  pub Fetches-get_schedules :
      (from_day to_day : ℕ) (filters : Filters)
      → Fetches 20 (get_schedules env from_day to_day filters)
  unfolding get_schedules
  Fetches-get_schedules from_day to_day filters = Fetches-collect max_cursor_follows none _
