-- ===== src/Submitter.antt =====
-- dapp/api/_lib/governance/submitter.ts: the one door to the governance contract, with its audit.
pub mod Audit
use sentinel_soroban_v.Base.{ℕ, String, Bool, true, false, ◌∷◌, if◌then◌else◌}
use sentinel_soroban_v.World.{
  Call, RouteKey, submitted, wrote, route_status, write_failed, disable_route, enable_route,
  update_premium,
}
use sentinel_soroban_v.World.Db.{Db, AuditRow}
use sentinel_soroban_v.World.Monad.{
  Env, M, RouteState, pure, skip, raise, gets, emit, ◌>>=◌, ◌>>◌, catch, read_as, statement,
}

-- `SubmitOutcome`
pub record SubmitOutcome : Type 0 where
  pub before : RouteState
  pub after : RouteState

-- the insert of `logAction`
unfoldable pub add_audit : AuditRow → Db → Db
add_audit row db = record db { audit = row ∷ db.audit }

module _ (env : Env) (actor : String) where
  -- `readStatus`
  unfoldable pub read_status : RouteKey → M RouteState
  read_status key = read_as env (route_status key) (λ log. env.route_status log key)

  -- `safeLog`: an audit row, as far as the database takes it
  unfoldable pub safe_log : RouteKey → String → Bool → M Unit
  safe_log key action success =
      catch
        (statement env
          (add_audit (record { actor = actor; action = action; route = key; success = success })))
        (λ e. skip)

  -- `(await build()).signAndSend()`, which returns or throws; whether the transaction landed is not
  -- said by that
  unfoldable pub sign_and_send : Call → M Unit
  sign_and_send c = do
    emit (submitted c)
    returned ← gets (λ w. env.governance_returns w.log c)
    emit (wrote c returned)
    if returned then skip else raise (write_failed c false)

  -- `submit`
  unfoldable pub submit : RouteKey → String → Call → M SubmitOutcome
  submit key action c = do
    before ← read_status key
    catch (sign_and_send c) (λ e. do safe_log key action false; raise e)
    after ← catch (read_status key) (λ e. pure RouteState.unknown)
    safe_log key action true
    pure (record { before = before; after = after })

  unfoldable pub disable : RouteKey → M SubmitOutcome
  disable key = submit key "disable_route" (disable_route key)

  unfoldable pub enable : RouteKey → M SubmitOutcome
  enable key = submit key "enable_route" (enable_route key)

  -- `updateTerms(key, premium, "keep", "keep")`
  unfoldable pub update_terms : RouteKey → ℕ → M SubmitOutcome
  update_terms key units = submit key "update_route_terms" (update_premium key units)
