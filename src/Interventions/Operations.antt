-- ===== src/Interventions/Operations.antt =====
-- The operations of dapp/api/_lib/governance/interventions.ts in any sequence, and the index
-- `interventions_open_key`.
use sentinel_soroban_v.Base.{ℕ, String, Option, List, [], ◌∷◌}
use sentinel_soroban_v.World.{RouteKey}
use sentinel_soroban_v.World.Db.{Cause, Evidence}
use sentinel_soroban_v.World.Monad.{Env, World}
use sentinel_soroban_v.Interventions.Executor.{
  pause_route, revive_route, record_check, touch_intervention, record_clear_check,
}
use sentinel_soroban_v.Interventions.Unique.{IsUnique}
use sentinel_soroban_v.Interventions.Invariant.{
  P, Keeps-pause_route, Keeps-revive_route, Keeps-record_check, Keeps-touch_intervention,
  Keeps-record_clear_check,
}

-- A call of one of the operations that write the ledger.
pub data Operation : Type 0 where
  pause : RouteKey → Cause → Evidence → String → Operation
  revive : RouteKey → Cause → String → Operation
  check : RouteKey → Cause → Evidence → String → Operation
  touch : ℕ → Option Evidence → Operation
  clear : ℕ → Operation

module _ (env : Env) where
  -- The world after the call, whether it returns or throws.
  unfoldable pub perform : Operation → World → World
  perform (pause key cause evidence actor) w = (pause_route env key cause evidence actor w).1
  perform (revive key cause actor) w = (revive_route env key cause actor w).1
  perform (check key cause evidence actor) w = (record_check env key cause evidence actor w).1
  perform (touch id evidence) w = (touch_intervention env id evidence w).1
  perform (clear id) w = (record_clear_check env id w).1

  unfoldable pub perform_all : List Operation → World → World
  unfolding perform
  perform_all [] w = w
  perform_all (op ∷ rest) w = perform_all rest (perform op w)

  perform-IsUnique :
      (op : Operation) (w : World)
      → IsUnique w.db.interventions
      → IsUnique (perform op w).db.interventions
  unfolding perform P
  perform-IsUnique (pause key cause evidence actor) w h =
      (Keeps-pause_route env key cause evidence actor).at w h
  perform-IsUnique (revive key cause actor) w h = (Keeps-revive_route env key cause actor).at w h
  perform-IsUnique (check key cause evidence actor) w h =
      (Keeps-record_check env key cause evidence actor).at w h
  perform-IsUnique (touch id evidence) w h = (Keeps-touch_intervention env id evidence).at w h
  perform-IsUnique (clear id) w h = (Keeps-record_clear_check env id).at w h

-- Every sequence of calls of `pauseRoute`, `reviveRoute`, `recordCheck`, `touchIntervention` and
-- `recordClearCheck`, in any environment and with failures at any statement, read or transaction,
-- keeps at most one open row for each route and cause, from any ledger that has this.
pub perform_all-IsUnique :
    (env : Env) (ops : List Operation) (w : World)
    → IsUnique w.db.interventions
    → IsUnique (perform_all env ops w).db.interventions
unfolding perform_all
perform_all-IsUnique env [] w h = h
perform_all-IsUnique env (op ∷ rest) w h =
    perform_all-IsUnique env rest (perform env op w) (perform-IsUnique env op w h)
