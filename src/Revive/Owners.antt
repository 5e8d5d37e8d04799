-- ===== src/Revive/Owners.antt =====
-- Rows that the run leaves to others.
use sentinel_soroban_v.Base.{ℕ, Bool, true, false, ◌≡◌, refl, arith}
use sentinel_soroban_v.World.{RouteKey}
use sentinel_soroban_v.World.Db.{Cause, cause_eq}
use sentinel_soroban_v.World.Monad.{Env, World}
use sentinel_soroban_v.Interventions.Guardrails.{is_held}
use sentinel_soroban_v.Interventions.Holds.{
  Holding, enables, Holding-IsQuiet, Keeps-revive_route, Keeps-touch_intervention,
  Keeps-record_clear_check,
}
use sentinel_soroban_v.Revive.{run}
use sentinel_soroban_v.Revive.Frame.{is_healed, Keeps-run}

differ_if_healed :
    (cause other : Cause)
    → is_healed cause ≡ true
    → is_healed other ≡ false
    → cause_eq cause other ≡ false
differ_if_healed cause other h k = ground arith

-- Whatever the clock, AeroAPI, the forecasts, the chain and the database answer, and also where all
-- rows are forced, a run of the revive engine leaves a route that an administrator or the pricing
-- brake holds held by them, and sends no transaction that enables it.
pub run-held :
    (env : Env) (dry_run force_all : Bool) (severe_at : ℕ) (key : RouteKey) (other : Cause)
    (w : World)
    → is_healed other ≡ false
    → is_held key other w.db ≡ true
    → let after = (run env dry_run severe_at force_all w).1 in
      (is_held key other after.db ≡ true) × (enables key after.log ≡ enables key w.log)
unfolding Holding
run-held env dry_run force_all severe_at key other w owned held =
    (Keeps-run (Holding key other (enables key w.log)) (Holding-IsQuiet key other _) env dry_run
        (λ k cause healed wet.
          Keeps-revive_route key other _ env k cause _ (differ_if_healed cause other healed owned))
        (λ id evidence. Keeps-touch_intervention key other _ env id evidence)
        (λ id wet. Keeps-record_clear_check key other _ env id) severe_at force_all).at
      w (held, refl)
