-- ===== src/Aero/Quiet.antt =====
-- What AeroAPI's client keeps: it sends no transaction and writes no table.
use sentinel_soroban_v.Base.{ℕ, zero, suc, ◌+◌, String, Option, none, some}
use sentinel_soroban_v.World.{Answer, json, status, exception, Schedules, Filters, Request}
use sentinel_soroban_v.World.Monad.{Env, World, M}
use sentinel_soroban_v.World.Keeps.{Keeps, Keeps-pure, Keeps-bind}
use sentinel_soroban_v.World.Quiet.{IsQuiet, quiet_rules, Quiet-fetch_schedules}
use sentinel_soroban_v.Aero.Client.{
  crosses, would_cross_deadline, retry_after, settle_last, settle_attempt, attempt_then, attempts,
  request_json, get_flight_data, get_flight_instances, follow, on_page, collect, get_schedules,
  next_link,
}

module _ (P : World → Type 0) (quiet : IsQuiet P) (env : Env) where
  Keeps-crosses : (deadline : Option ℕ) (ms : ℕ) → Keeps P (crosses env deadline ms)
  unfolding crosses
  Keeps-crosses none ms = Keeps-pure _
  Keeps-crosses (some d) ms = search quiet_rules depth 9

  Keeps-would_cross_deadline : (ms : ℕ) → Keeps P (would_cross_deadline env ms)
  unfolding would_cross_deadline
  Keeps-would_cross_deadline ms = search (quiet_rules, Keeps-crosses) depth 9

  ruleset aero_rules = (quiet_rules, Keeps-would_cross_deadline)

  module _ {A : Type 0} where
    Keeps-retry_after :
        (delay : ℕ) (again : M (Option A)) → Keeps P again → Keeps P (retry_after env delay again)
    unfolding retry_after
    Keeps-retry_after delay again k = search aero_rules depth 9

    Keeps-settle_last : (a : Answer A) → Keeps P (settle_last env a)
    unfolding settle_last
    Keeps-settle_last (json body) = Keeps-pure _
    Keeps-settle_last (status code) = search aero_rules depth 9
    Keeps-settle_last exception = Keeps-pure _

    Keeps-settle_attempt :
        (n : ℕ) (again : M (Option A)) (a : Answer A)
        → Keeps P again
        → Keeps P (settle_attempt env n again a)
    unfolding settle_attempt
    Keeps-settle_attempt n again (json body) k = Keeps-pure _
    Keeps-settle_attempt n again (status code) k = search (aero_rules, Keeps-retry_after) depth 12
    Keeps-settle_attempt n again exception k = Keeps-retry_after _ again k

    Keeps-attempt_then :
        (send : M (Answer A)) (n : ℕ) (again : M (Option A))
        → Keeps P send
        → Keeps P again
        → Keeps P (attempt_then env send n again)
    unfolding attempt_then
    Keeps-attempt_then send n again ks k = search (aero_rules, Keeps-settle_attempt) depth 9

    Keeps-attempts :
        (send : M (Answer A)) (left n : ℕ) → Keeps P send → Keeps P (attempts env send left n)
    unfolding attempts
    Keeps-attempts send zero n k = search (aero_rules, Keeps-settle_last) depth 9
    Keeps-attempts send (suc left) n k =
        Keeps-attempt_then send n _ k (Keeps-attempts send left (n + 1) k)

    pub Quiet-request_json : (send : M (Answer A)) → Keeps P send → Keeps P (request_json env send)
    unfolding request_json
    Quiet-request_json send k = search (aero_rules, Keeps-attempts) depth 12

  pub Quiet-get_flight_data : (ident : String) (day : ℕ) → Keeps P (get_flight_data env ident day)
  unfolding get_flight_data
  Quiet-get_flight_data ident day = search (quiet_rules, Quiet-request_json) depth 12

  pub Quiet-get_flight_instances :
      (ident : String) (start end_secs : ℕ)
      → Keeps P (get_flight_instances env ident start end_secs)
  unfolding get_flight_instances
  Quiet-get_flight_instances ident start end_secs =
      search (quiet_rules, Quiet-request_json) depth 12

  Keeps-link :
      (m : Schedules) (go : Schedules → String → M (Option Schedules)) (next : Option String)
      → ((m : Schedules) (n : String) → Keeps P (go m n))
      → Keeps P (follow m go next)
  unfolding follow
  Keeps-link m go none k = Keeps-pure _
  Keeps-link m go (some n) k = k m n

  Keeps-on_page :
      (merged : Option Schedules) (go : Schedules → String → M (Option Schedules))
      (page : Option Schedules)
      → ((m : Schedules) (n : String) → Keeps P (go m n))
      → Keeps P (on_page merged go page)
  unfolding on_page
  Keeps-on_page merged go none k = Keeps-pure _
  Keeps-on_page merged go (some page) k = Keeps-link _ go (next_link page) k

  Keeps-collect :
      (left : ℕ) (merged : Option Schedules) (r : Request) → Keeps P (collect env left merged r)
  unfolding collect
  Keeps-collect zero merged r = search (quiet_rules, Quiet-request_json) depth 12
  Keeps-collect (suc left) merged r =
      Keeps-bind _ _ (Quiet-request_json _ (Quiet-fetch_schedules P quiet env r))
        λ page. Keeps-on_page merged _ page (λ m n. Keeps-collect left (some m) _)

  pub Quiet-get_schedules :
      (from_day to_day : ℕ) (filters : Filters)
      → Keeps P (get_schedules env from_day to_day filters)
  unfolding get_schedules
  Quiet-get_schedules from_day to_day filters = Keeps-collect _ none _
