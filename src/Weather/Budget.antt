-- ===== src/Weather/Budget.antt =====
-- The cap on the updates of a pass.
use sentinel_soroban_v.Base.{
  ℕ, ◌+◌, ◌-◌, ◌≤◌, String, Bool, true, false, not, ◌||◌, Option, none, some, List, [], ◌∷◌, ◌≡◌,
  refl, leb, ltb, arith, Bool-cases, inl, inr,
}
use sentinel_soroban_v.World.{RouteKey, submitted, update_premium}
use sentinel_soroban_v.World.Db.{Cause, DailyForecast, storm}
use sentinel_soroban_v.World.Monad.{
  Env, World, FleetRoute, Note, pure, skip, push, ◌>>=◌, ◌>>◌, now,
}
use sentinel_soroban_v.World.Keeps.{framed_rules}
use sentinel_soroban_v.World.Cost.{
  AtMost, AtMost-IsFramed, Costs, Costs-Keeps, Costs-after, Costs-bind, Costs-catch, Costs-pure,
  Costs-weaken,
}
use sentinel_soroban_v.World.Debt.{
  Owes, IsSafe, Owes-free, Owes-pure, Owes-raise, Owes-catch, Owes-bind, Owes-safe, IsSafe-catch,
  IsSafe-pure,
}
use sentinel_soroban_v.RouteRules.{is_extreme_forecast}
use sentinel_soroban_v.Submitter.{sign_and_send, safe_log, read_status, submit, update_terms}
use sentinel_soroban_v.Interventions.Executor.{pause_route}
use sentinel_soroban_v.Interventions.Frame.{Keeps-pause_route}
use sentinel_soroban_v.Revive.{Cache, cached_forecast}
use sentinel_soroban_v.Weather.{
  Terms, Statuses, OnChainRoute, Pass, key_of_route, gather, read_statuses, pause_for_storm,
  update_price, reprice, process_route, try_route, try_or_defer, process_all, note_pass, run,
  status_of, is_active, is_at,
}
use sentinel_soroban_v.Weather.Premiums.{
  Keeps-cached_forecast, Keeps-gather, Keeps-read_statuses, Keeps-note_pass,
}
use sentinel_soroban_v.Weather.Pays.{
  is_update, plain-is_update, updates, update_calls, thrown_updates, calls_lem, Pays, Free,
  Pays-pure, Pays-if, Pays-catch, Pays-after, Pays-map, Pays-one, Costs-Pays,
}

-- the updates that are left
abbrev room : Pass → ℕ
room p = 15 - p.txs

module _ (env : Env) (dry_run : Bool) (terms : Terms) where
  Free-read_status : (actor : String) (key : RouteKey) → Free (read_status env actor key)
  unfolding read_status
  Free-read_status actor key =
      Costs-Keeps _ _ (λ n. search (framed_rules, AtMost-IsFramed is_update plain-is_update n))

  Free-safe_log :
      (actor : String) (key : RouteKey) (action : String) (success : Bool)
      → Free (safe_log env actor key action success)
  unfolding safe_log
  Free-safe_log actor key action success =
      Costs-Keeps _ _
        (λ n. search (framed_rules, AtMost-IsFramed is_update plain-is_update n) depth 9)

  IsSafe-safe_log :
      (actor : String) (key : RouteKey) (action : String) (success : Bool)
      → IsSafe is_update (safe_log env actor key action success)
  unfolding safe_log skip
  IsSafe-safe_log actor key action success =
      IsSafe-catch _ _ _
        (Costs-Keeps _ _ (λ n. search (framed_rules, AtMost-IsFramed is_update plain-is_update n)))
        (λ e. record { at = λ w. (tt, omega arith) })

  Owes-sign_and_send :
      (actor : String) (key : RouteKey) (units : ℕ)
      → Owes is_update 0 (λ u. 1) (sign_and_send env actor (update_premium key units))
  unfolding sign_and_send ◌>>=◌
  Owes-sign_and_send actor key units = record {
    at = λ w.
        elim (Bool-cases (
          env.governance_returns (submitted (update_premium key units) ∷ w.log)
            (update_premium key units))) [
              | inl returned ↦ rw returned (omega arith)
              | inr thrown ↦ rw thrown (omega arith)
            ];
  }

  Owes-update_terms :
      (actor : String) (key : RouteKey) (units : ℕ)
      → Owes is_update 0 (λ o. 1) (update_terms env actor key units)
  unfolding update_terms submit
  Owes-update_terms actor key units =
      Owes-bind _ _ _ (Owes-free _ _ (Free-read_status actor key)) (λ before.
        Owes-bind _ _ _
          (Owes-catch _ _ _ (Owes-sign_and_send actor key units) (λ e.
            Owes-bind _ _ _ (Owes-free _ _ (Free-safe_log actor key "update_route_terms" false))
              (λ u. Owes-raise _ e)))
          (λ u.
            Owes-safe _ _ _ (IsSafe-catch _ _ _ (Free-read_status actor key) (λ e. IsSafe-pure _ _))
              (λ after.
                Owes-safe _ _ _ (IsSafe-safe_log actor key "update_route_terms" true)
                  (λ u. Owes-pure _ _ (omega arith)))))

  Free-push : (flight : String) (note : Note) → Free (push flight note)
  unfolding push
  Free-push flight note = record { at = λ w. omega arith }

  Pays-note :
      (flight : String) (note : Note) (p q : Pass)
      → q.txs ≡ p.txs
      → Pays room (room p) (push flight note >> pure q)
  Pays-note flight note p q same =
      Pays-after _ _ (Free-push flight note) (λ u. Pays-pure q (omega (arith, same)))

  Free-pause :
      (key : RouteKey) (o d : Option DailyForecast)
      → Free (pause_route env key Cause.weather (storm o d) "cron:weather")
  unfolding AtMost
  Free-pause key o d = Costs-Keeps _ _ (λ n.
      Keeps-pause_route (AtMost is_update n) (AtMost-IsFramed is_update plain-is_update n) env key
        Cause.weather (storm o d) "cron:weather"
        (record { sends = λ w h. h; ends = λ done w h. h }))

  Pays-pause :
      (r : FleetRoute) (o d : Option DailyForecast) (p : Pass)
      → Pays room (room p) (pause_for_storm env dry_run terms r o d p)
  unfolding pause_for_storm
  Pays-pause r o d p = Pays-if dry_run _ _ (Pays-note _ _ p p refl) (
      Pays-after _ _ (Free-pause (key_of_route r) o d)
        (λ result. Pays-after _ _ (Free-push _ _) (λ u. Pays-pure _ (omega arith))))

  Pays-update_price :
      (r : FleetRoute) (target : ℕ) (p : Pass)
      → Pays room (room p) (update_price env dry_run terms r target p)
  unfolding update_price
  Pays-update_price r target p =
      Pays-if dry_run _ _ (Pays-note _ _ p p refl) (elim (Bool-cases (leb 15 p.txs)) [
        | inl full ↦ rw full (Pays-pure _ (omega arith))
        | inr left ↦ rw left (
            Pays-one _ _ _ _ (Owes-update_terms "cron:weather" (key_of_route r) target)
              (ground (arith, left)))
      ])

  Pays-reprice :
      (r : FleetRoute) (target : ℕ) (s : Option OnChainRoute) (p : Pass)
      → Pays room (room p) (reprice env dry_run terms r target s p)
  unfolding reprice
  Pays-reprice r target none p = Pays-note _ _ p p refl
  Pays-reprice r target (some s) p =
      Pays-if (not (is_active s.status)) _ _ (Pays-note _ _ p p refl) (
        Pays-if (is_at s.premium target) _ _ (Pays-note _ _ p p refl)
          (Pays-update_price r target p))

  Pays-process_route :
      (r : FleetRoute) (statuses : Statuses) (o d : Option DailyForecast) (p : Pass)
      → Pays room (room p) (process_route env dry_run terms r statuses o d p)
  unfolding process_route
  Pays-process_route r statuses o d p =
      Pays-if (is_extreme_forecast o || is_extreme_forecast d) _ _ (Pays-pause r o d p)
        (Pays-reprice r _ (status_of (key_of_route r) statuses) p)

  Free-cached_forecast :
      (iata : String) (cache : Cache) → Free (cached_forecast env dry_run iata cache)
  Free-cached_forecast iata cache = Costs-Keeps _ _ (λ n.
      Keeps-cached_forecast (AtMost is_update n) (AtMost-IsFramed is_update plain-is_update n) env
        dry_run terms iata cache)

  abbrev left : Pass × Cache → ℕ
  left next = room next.0

  Pays-try_or_defer :
      (start : ℕ) (statuses : Statuses) (r : FleetRoute) (cache : Cache) (p : Pass)
      → Pays left (room p) (try_or_defer env dry_run terms start statuses r cache p)
  unfolding try_or_defer try_route
  Pays-try_or_defer start statuses r cache p =
      Pays-after _ _
        (Costs-Keeps _ _ (λ n. search (framed_rules, AtMost-IsFramed is_update plain-is_update n)))
        (λ t. Pays-if (ltb (start + 220000) t) _ _ (Pays-pure _ (omega arith)) (
          Pays-catch _ _
            (Pays-after _ _ (Free-cached_forecast _ _) (λ o.
              Pays-after _ _ (Free-cached_forecast _ _)
                (λ d. Pays-map _ _ (Pays-process_route r statuses o.0 d.0 p) (λ a. omega arith))))
            (λ e. Pays-after _ _ (Free-push _ _) (λ u. Pays-pure _ (omega arith)))))

  Costs-process_all :
      (start : ℕ) (statuses : Statuses) (routes : List FleetRoute) (cache : Cache) (p : Pass)
      → Costs is_update (room p) (process_all env dry_run terms start statuses routes cache p)
  unfolding process_all
  Costs-process_all start statuses [] cache p =
      Costs-weaken is_update {j = 0} _ (omega arith) (Costs-pure is_update p)
  Costs-process_all start statuses (r ∷ rest) cache p =
      Costs-Pays _ _ (Pays-try_or_defer start statuses r cache p)
        (λ next. Costs-process_all start statuses rest next.1 next.0)

  Free-gather :
      (routes : List FleetRoute) (cache : Cache) → Free (gather env dry_run terms routes cache)
  Free-gather routes cache = Costs-Keeps _ _ (λ n.
      Keeps-gather (AtMost is_update n) (AtMost-IsFramed is_update plain-is_update n) env dry_run
        terms routes cache)

  Free-read_statuses :
      (routes : List FleetRoute) (found : Statuses)
      → Free (read_statuses env dry_run terms routes found)
  Free-read_statuses routes found = Costs-Keeps _ _ (λ n.
      Keeps-read_statuses (AtMost is_update n) (AtMost-IsFramed is_update plain-is_update n) env
        dry_run terms routes found)

  Free-note_pass : (p : Pass) → Free (note_pass env dry_run terms p)
  Free-note_pass p = Costs-Keeps _ _ (λ n.
      Keeps-note_pass (AtMost is_update n) (AtMost-IsFramed is_update plain-is_update n) env dry_run
        terms p)

  Free-now : Free (now env)
  Free-now =
      Costs-Keeps _ _ (λ n. search (framed_rules, AtMost-IsFramed is_update plain-is_update n))

  Costs-run : Costs is_update 15 (run env dry_run terms)
  unfolding run
  Costs-run = Costs-after _ _ _ Free-now (λ start.
      Costs-catch _ {j = 15} _ _
        (Costs-after _ _ _
          (Costs-Keeps _ _
            (λ n. search (framed_rules, AtMost-IsFramed is_update plain-is_update n)))
          (λ fleet. Costs-after _ _ _ (Free-gather _ _) (λ cache. Costs-after _ _ _ Free-now (λ t.
            Costs-after _ _ _ (Free-read_statuses _ _) (λ statuses.
              Costs-bind _ _ _ (Costs-process_all start statuses _ cache _)
                (λ p. Costs-after _ _ _ (Free-note_pass p) (λ u. Costs-pure _ true)))))))
        (λ e. Costs-pure _ false))

-- In a run of the weather job, however many routes are due, at most 15 calls of a premium update
-- return; and all its calls of one, those that throw included (each of which may have landed or not),
-- are at most 15 more than those that throw.
pub run-updates :
    (env : Env) (dry_run : Bool) (terms : Terms) (w : World)
    → let after = (run env dry_run terms w).1.log in
      (updates after ≤ updates w.log + 15)
      × (update_calls after + thrown_updates w.log ≤ update_calls w.log + 15 + thrown_updates after)
run-updates env dry_run terms w =
    let after = (run env dry_run terms w).1.log in
    let fits = (Costs-run env dry_run terms).at w in
    (fits, omega (arith, fits, calls_lem after, calls_lem w.log))
