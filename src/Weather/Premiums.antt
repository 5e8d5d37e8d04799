-- ===== src/Weather/Premiums.antt =====
-- The transactions of a pass.
use sentinel_soroban_v.Base.{
  ℕ, String, Bool, true, false, ◌||◌, Option, none, some, List, [], ◌∷◌, ◌≡◌, ◌≤◌, refl, count, ltb,
  arith,
}
use sentinel_soroban_v.World.{
  Event, RouteKey, Call, submitted, wrote, disable_route, update_premium,
}
use sentinel_soroban_v.World.Db.{Cause, DailyForecast, storm}
use sentinel_soroban_v.World.Monad.{Env, World, FleetRoute}
use sentinel_soroban_v.World.Keeps.{
  Keeps, Keeps-bind, Keeps-if, Keeps-pure, IsFramed, IsPlain, framed_rules,
}
use sentinel_soroban_v.World.Cost.{is_submission, submissions, plain-is_submission}
use sentinel_soroban_v.Soroban.Frame.{Admits}
use sentinel_soroban_v.WeatherClient.{get_forecast}
use sentinel_soroban_v.RouteRules.{clamp_premium, is_extreme_forecast}
use sentinel_soroban_v.Submitter.{update_terms}
use sentinel_soroban_v.Interventions.Frame.{Keeps-pause_route, Keeps-submit}
use sentinel_soroban_v.Revive.{Cache, cached, cached_forecast, forecast_from}
use sentinel_soroban_v.Weather.{
  Terms, Statuses, OnChainRoute, Pass, key_of_route, target_premium, gather, read_on_chain,
  read_statuses, pause_for_storm, update_price, reprice, process_route, try_route, try_or_defer,
  process_all, note_pass, run, status_of,
}

target_premium_le :
    (terms : Terms) (r : FleetRoute) (o d : Option DailyForecast)
    → terms.rails.premium_min ≤ terms.rails.premium_max
    → target_premium terms r o d ≤ terms.rails.premium_max
unfolding target_premium clamp_premium
target_premium_le terms r o d le = ground (arith, le)

module _ (P : World → Type 0) (framed : IsFramed P) (env : Env) (dry_run : Bool)
    (terms : Terms) where
  Keeps-get_forecast : (iata : String) → Keeps P (get_forecast env iata)
  unfolding get_forecast
  Keeps-get_forecast iata = search framed_rules depth 9

  Keeps-forecast_from :
      (iata : String) (cache : Cache) (found : Option (Option DailyForecast))
      → Keeps P (forecast_from env dry_run iata cache found)
  unfolding forecast_from
  Keeps-forecast_from iata cache (some f) = Keeps-pure _
  Keeps-forecast_from iata cache none = search (framed_rules, Keeps-get_forecast)

  pub Keeps-cached_forecast :
      (iata : String) (cache : Cache) → Keeps P (cached_forecast env dry_run iata cache)
  unfolding cached_forecast
  Keeps-cached_forecast iata cache = Keeps-forecast_from iata cache (cached iata cache)

  pub Keeps-gather :
      (routes : List FleetRoute) (cache : Cache) → Keeps P (gather env dry_run terms routes cache)
  unfolding gather
  Keeps-gather [] cache = Keeps-pure _
  Keeps-gather (r ∷ rest) cache =
      Keeps-bind _ _ (Keeps-cached_forecast _ _)
        (λ o. Keeps-bind _ _ (Keeps-cached_forecast _ _) (λ d. Keeps-gather rest d.1))

  pub Keeps-read_statuses :
      (routes : List FleetRoute) (found : Statuses)
      → Keeps P (read_statuses env dry_run terms routes found)
  unfolding read_statuses read_on_chain
  Keeps-read_statuses [] found = Keeps-pure _
  Keeps-read_statuses (r ∷ rest) found =
      Keeps-bind _ _ (search framed_rules depth 9) (λ s. Keeps-read_statuses rest _)

  pub Keeps-note_pass : (p : Pass) → Keeps P (note_pass env dry_run terms p)
  unfolding note_pass
  Keeps-note_pass p = search framed_rules

module _ (P : World → Type 0) (framed : IsFramed P) (env : Env) (dry_run : Bool) (terms : Terms)
    (rails : terms.rails.premium_min ≤ terms.rails.premium_max)
    (pauses : dry_run ≡ false → (key : RouteKey) → Admits P (disable_route key))
    (updates : dry_run ≡ false
      → (key : RouteKey) (units : ℕ) → units ≤ terms.rails.premium_max
      → Admits P (update_premium key units)) where
  Keeps-pause_for_storm :
      (r : FleetRoute) (o d : Option DailyForecast) (p : Pass)
      → Keeps P (pause_for_storm env dry_run terms r o d p)
  unfolding pause_for_storm
  Keeps-pause_for_storm r o d p =
      Keeps-if dry_run _ _ (λ dry. search framed_rules)
        (λ wet.
          Keeps-bind _ _
            (Keeps-pause_route P framed env (key_of_route r) Cause.weather (storm o d)
              "cron:weather" (pauses wet (key_of_route r)))
            (λ result. search framed_rules))

  Keeps-update_terms :
      (key : RouteKey) (target : ℕ)
      → target ≤ terms.rails.premium_max
      → dry_run ≡ false
      → Keeps P (update_terms env "cron:weather" key target)
  unfolding update_terms
  Keeps-update_terms key target le wet =
      Keeps-submit P framed env "cron:weather" key "update_route_terms" (update_premium key target)
        (updates wet key target le)

  Keeps-update_price :
      (r : FleetRoute) (target : ℕ) (p : Pass)
      → target ≤ terms.rails.premium_max
      → Keeps P (update_price env dry_run terms r target p)
  unfolding update_price
  Keeps-update_price r target p le =
      Keeps-if dry_run _ _ (λ dry. search framed_rules)
        (λ wet. search (framed_rules, Keeps-update_terms) depth 9)

  Keeps-reprice :
      (r : FleetRoute) (target : ℕ) (s : Option OnChainRoute) (p : Pass)
      → target ≤ terms.rails.premium_max
      → Keeps P (reprice env dry_run terms r target s p)
  unfolding reprice
  Keeps-reprice r target none p le = search framed_rules
  Keeps-reprice r target (some s) p le = search (framed_rules, Keeps-update_price) depth 9

  Keeps-process_route :
      (r : FleetRoute) (statuses : Statuses) (o d : Option DailyForecast) (p : Pass)
      → Keeps P (process_route env dry_run terms r statuses o d p)
  unfolding process_route
  Keeps-process_route r statuses o d p =
      Keeps-if (is_extreme_forecast o || is_extreme_forecast d) _ _
        (λ extreme. Keeps-pause_for_storm r o d p)
        (λ calm.
          Keeps-reprice r _ (status_of (key_of_route r) statuses) p
            (target_premium_le terms r o d rails))

  Keeps-process_all :
      (start : ℕ) (statuses : Statuses) (routes : List FleetRoute) (cache : Cache) (p : Pass)
      → Keeps P (process_all env dry_run terms start statuses routes cache p)
  unfolding process_all try_or_defer try_route
  Keeps-process_all start statuses [] cache p = Keeps-pure _
  Keeps-process_all start statuses (r ∷ rest) cache p =
      Keeps-bind _ _ (search (framed_rules, Keeps-cached_forecast, Keeps-process_route) depth 16)
        (λ next. Keeps-process_all start statuses rest next.1 next.0)

  Keeps-run : Keeps P (run env dry_run terms)
  unfolding run
  Keeps-run =
      search (framed_rules, Keeps-gather, Keeps-read_statuses, Keeps-process_all, Keeps-note_pass)
        depth 16

-- The transactions that set a premium above a bound.
abbrev pub is_over : ℕ → Event → Bool
is_over most (submitted (update_premium key units)) = ltb most units
is_over most _ = false

abbrev pub overpriced : ℕ → List Event → ℕ
overpriced most log = count (is_over most) log

plain-is_over : (most : ℕ) (e : Event) → IsPlain e → is_over most e ≡ false
plain-is_over most (submitted c) h = absurd h
plain-is_over most _ h = refl

module _ (q : Event → Bool) (n : ℕ) where
  unfoldable Exactly : World → Type 0
  Exactly w = count q w.log ≡ n

  Exactly-IsFramed : ((e : Event) → IsPlain e → q e ≡ false) → IsFramed Exactly
  unfolding Exactly
  Exactly-IsFramed plain = record {
    logs = λ e w p h. rw (plain e p) h;
    acts = λ w v same h. rw same h;
  }

  Exactly-Admits :
      (c : Call)
      → q (submitted c) ≡ false
      → ((done : Bool) → q (wrote c done) ≡ false)
      → Admits Exactly c
  unfolding Exactly
  Exactly-Admits c sent ended = record {
    sends = λ w h. rw sent h;
    ends = λ done w h. rw (ended done) h;
  }

-- A dry run sends nothing.
abbrev pub Sends : Bool → World → World → Type 0
Sends true before after = submissions after.log ≡ submissions before.log
Sends false before after = Unit

if_dry :
    (dry : Bool) (before after : World)
    → (dry ≡ true → submissions after.log ≡ submissions before.log)
    → Sends dry before after
if_dry true before after h = h refl
if_dry false before after h = tt

-- Where the rails of the total premium are in order, a run of the weather job sets no premium above
-- their upper end, whatever the file, the forecasts and the chain say, and a dry run sends no
-- transaction at all.
pub run-premiums :
    (env : Env) (dry_run : Bool) (terms : Terms) (w : World)
    → terms.rails.premium_min ≤ terms.rails.premium_max
    → let after = (run env dry_run terms w).1 in
      let most = terms.rails.premium_max in
      (overpriced most after.log ≡ overpriced most w.log) × Sends dry_run w after
unfolding Exactly
run-premiums env dry_run terms w rails =
    let most = terms.rails.premium_max in
    (
      (Keeps-run (Exactly (is_over most) (overpriced most w.log))
            (Exactly-IsFramed (is_over most) _ (plain-is_over most)) env dry_run terms rails
            (λ wet key. Exactly-Admits (is_over most) _ (disable_route key) refl (λ done. refl))
            (λ wet key units le.
              Exactly-Admits (is_over most) _ (update_premium key units) (ground (arith, le))
                (λ done. refl))).at
          w refl,
      if_dry dry_run _ _ (λ dry.
          (Keeps-run (Exactly is_submission (submissions w.log))
              (Exactly-IsFramed is_submission _ plain-is_submission) env dry_run terms rails
              (λ wet key. absurd (both dry wet)) (λ wet key units le. absurd (both dry wet))).at
            w refl),
    )
  where
    both : {b : Bool} → b ≡ true → b ≡ false → ⊥
    both h k = cc
