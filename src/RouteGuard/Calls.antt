-- ===== src/RouteGuard/Calls.antt =====
-- The calls of AeroAPI that a sweep makes.
use sentinel_soroban_v.Base.{
  ℕ, ◌+◌, ◌≤◌, ◌≡◌, refl, String, true, false, none, Bool-cases, inl, inr,
}
use sentinel_soroban_v.World.{Answer, Filters, RouteKey}
use sentinel_soroban_v.World.Monad.{Env, World, M, ok, ◌>>=◌, fetch_schedules}
use sentinel_soroban_v.World.Cost.{Costs, Costs-bind, Costs-pure, is_fetch, fetches}
use sentinel_soroban_v.Aero.Client.{
  request_json, get_flight_instances, collect, get_schedules, on_page, is_ident,
}
use sentinel_soroban_v.Aero.Costs.{Fetches-get_flight_instances, Fetches-get_schedules}
use sentinel_soroban_v.RouteGuard.{SweepVerdict, sweep_verdict, verdict_of, pair_filters}
use sentinel_soroban_v.RouteGuard.Verdict.{verdict_of-all_dead}

-- A sweep sends 24 requests at most, whatever AeroAPI answers: four attempts of the call of live
-- tracking, and four for each of the five pages of the schedule.
sweep_verdict-fetches :
    (env : Env) (route : RouteKey) (today : ℕ) (w : World)
    → fetches (sweep_verdict env route today w).1.log ≤ fetches w.log + 24
unfolding sweep_verdict
sweep_verdict-fetches env route today w = sweep_cost.at w
  where
    sweep_cost : Costs is_fetch 24 (sweep_verdict env route today)
    sweep_cost = Costs-bind _ _ _ (Fetches-get_flight_instances env _ _ _) (λ instances.
        Costs-bind _ _ _ (Fetches-get_schedules env _ _ _) (λ schedules. Costs-pure _ _))

module _ (env : Env) (w : World) (exhausted : w.quota_exhausted ≡ true) where
  request_json-tripped : {A : Type 0} (send : M (Answer A)) → request_json env send w ≡ (ok none, w)
  unfolding request_json ◌>>=◌
  request_json-tripped send = rw exhausted refl

  get_flight_instances-tripped :
      (ident : String) (start end_secs : ℕ)
      → get_flight_instances env ident start end_secs w ≡ (ok none, w)
  unfolding get_flight_instances ◌>>=◌
  get_flight_instances-tripped ident start end_secs = elim (Bool-cases (is_ident ident)) [
    | inl valid ↦ rw valid (request_json-tripped _)
    | inr invalid ↦ rw invalid refl
  ]

  get_schedules-tripped :
      (from_day to_day : ℕ) (filters : Filters)
      → get_schedules env from_day to_day filters w ≡ (ok none, w)
  unfolding get_schedules collect on_page ◌>>=◌
  get_schedules-tripped from_day to_day filters =
      rw (request_json-tripped (fetch_schedules env _)) refl

-- Once the quota breaker has tripped, a sweep changes nothing at all (no request, no clock read), and
-- its verdict is not that the route is dead.
pub sweep_verdict-tripped :
    (env : Env) (route : RouteKey) (today : ℕ) (w : World)
    → w.quota_exhausted ≡ true
    → (v : SweepVerdict) × (sweep_verdict env route today w ≡ (ok v, w)) × (v.all_dead ≡ false)
unfolding sweep_verdict ◌>>=◌
sweep_verdict-tripped env route today w exhausted = (
  verdict_of route.flight_id today none none,
  rw (get_flight_instances-tripped env w exhausted route.flight_id _ _)
      (rw (get_schedules-tripped env w exhausted _ _ (pair_filters route)) refl),
  verdict_of-all_dead route.flight_id today none none,
)
