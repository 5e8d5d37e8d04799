-- ===== src/Targeted.antt =====
-- dapp/api/_lib/targeted_settlement.ts: classify and settle one flight at once.
use sentinel_soroban_v.Base.{ℕ, String, if◌then◌else◌}
use sentinel_soroban_v.World.{flight_listed, classify_flight, settle_flight}
use sentinel_soroban_v.World.Monad.{Env, M, skip, push, transition, ◌>>=◌, ◌>>◌, catch, read_as}
use sentinel_soroban_v.Soroban.{invoke}

module _ (env : Env) where
  -- the body of the `try`
  unfoldable pub classify_and_settle : String → ℕ → String → M Unit
  classify_and_settle flight_id date label = do
    listed ←
        read_as env (flight_listed flight_id date) (λ log. env.flight_listed log flight_id date)
    if listed
        then (do
          invoke env (classify_flight flight_id date)
          invoke env (settle_flight flight_id date)
          push label (transition "targeted classify + settle"))
        else skip

  -- `classifyAndSettleFlight`: failures are swallowed
  unfoldable pub classify_and_settle_flight : String → ℕ → String → M Unit
  unfolding classify_and_settle
  classify_and_settle_flight flight_id date label =
      catch (classify_and_settle flight_id date label) (λ e. skip)
