-- ===== src/RouteGuard/Frame.antt =====
-- What the guard keeps.
use sentinel_soroban_v.Base.{ℕ, String}
use sentinel_soroban_v.World.{RouteKey, disable_route}
use sentinel_soroban_v.World.Monad.{Env, World}
use sentinel_soroban_v.World.Keeps.{Keeps, IsFramed, framed_rules}
use sentinel_soroban_v.Soroban.Frame.{Admits}
use sentinel_soroban_v.Aero.Frame.{Keeps-get_flight_instances, Keeps-get_schedules}
use sentinel_soroban_v.Interventions.Frame.{
  Keeps-pause_route, Keeps-record_check, Keeps-checked_recently,
}
use sentinel_soroban_v.RouteGuard.{
  SweepVerdict, sweep_verdict, on_verdict, sweep_and_act, guard_route,
}

module _ (P : World → Type 0) (framed : IsFramed P) (env : Env) where
  Keeps-sweep_verdict : (route : RouteKey) (today : ℕ) → Keeps P (sweep_verdict env route today)
  unfolding sweep_verdict
  Keeps-sweep_verdict route today =
      search (framed_rules, Keeps-get_flight_instances, Keeps-get_schedules) depth 9

  Keeps-on_verdict :
      (route : RouteKey) (actor : String) (verdict : SweepVerdict)
      → Admits P (disable_route route)
      → Keeps P (on_verdict env route actor verdict)
  unfolding on_verdict
  Keeps-on_verdict route actor verdict admits =
      search (framed_rules, Keeps-pause_route, Keeps-record_check) depth 12

  pub Keeps-guard_route :
      (route : RouteKey) (actor : String)
      → Admits P (disable_route route)
      → Keeps P (guard_route env route actor)
  unfolding guard_route sweep_and_act
  Keeps-guard_route route actor admits =
      search (framed_rules, Keeps-checked_recently, Keeps-sweep_verdict, Keeps-on_verdict) depth 16
