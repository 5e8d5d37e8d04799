-- ===== src/Queue.antt =====
-- dapp/api/_lib/jobs/queue.ts: the maintenance of the vault's queues, and
-- dapp/api/_lib/governance/vault_history.ts: the row of history that each run appends. Reads that
-- the source starts together (`Promise.all`) are made in the order in which they stand.
pub mod Transactions
use sentinel_soroban_v.Base.{
  ℕ, ◌+◌, ◌*◌, ◌/◌, ◌≤◌, ◌^◌, String, Bool, true, false, ◌&&◌, Option, none, some, List, ◌∷◌, ◌==◌,
  ltb, if◌then◌else◌,
}
use sentinel_soroban_v.World.{
  Query, pending_outcomes, withdrawal_queue_len, deposit_queue_len, snapshot_price,
  total_managed_assets, free_capital, locked_capital, total_supply, run_queue_maintenance,
}
use sentinel_soroban_v.World.Db.{Db, VaultRow}
use sentinel_soroban_v.World.Monad.{Env, World, M, pure, skip, ◌>>=◌, ◌>>◌, catch, now, statement}
use sentinel_soroban_v.Soroban.{invoke, read_with_retry}

-- `sharePrice`
unfoldable pub share_price_of : ℕ → ℕ → ℕ
share_price_of assets supply = if ltb 0 supply then assets * 10000000000 / supply else 10000000

unfoldable pub append_history : VaultRow → Db → Db
append_history row db = record db { vault_history = row ∷ db.vault_history }

-- The ways a run ends
pub data Maintained : Type 0 where
  barrier_engaged nothing_to_do maintained failed_run : Maintained

module _ (env : Env) where
  unfoldable pub probe : Query → M ℕ
  probe q = read_with_retry env q (λ log. env.counter log q)

  -- `recordVaultHistory`
  unfoldable pub record_vault_history : M Unit
  record_vault_history =
      if env.db_configured
      then catch
          (do
            assets ← probe total_managed_assets
            free ← probe free_capital
            locked ← probe locked_capital
            supply ← probe total_supply
            statement env (λ db. db)
            statement env (λ db. db)
            statement env (λ db. db)
            statement env (
                append_history (record {
                  total_assets = assets;
                  free_capital = free;
                  locked_capital = locked;
                  total_supply = supply;
                  share_price = share_price_of assets supply;
                })))
          (λ e. skip)
      else skip

  -- the transaction, if it can do something
  unfoldable pub maintain : ℕ → ℕ → ℕ → M Maintained
  maintain withdrawals deposits snapshot =
      if withdrawals == 0 && (deposits == 0 && ltb 0 snapshot)
      then pure nothing_to_do
      else (do invoke env run_queue_maintenance; pure maintained)

  unfoldable pub probe_queues : M Maintained
  probe_queues = do
    withdrawals ← probe withdrawal_queue_len
    deposits ← probe deposit_queue_len
    t ← now env
    snapshot ← probe (snapshot_price (t / 1000 / 86400))
    maintain withdrawals deposits snapshot

  unfoldable pub check_barrier : ℕ → M Maintained
  check_barrier pending = if ltb 0 pending then pure barrier_engaged else probe_queues

  -- `run`
  unfoldable pub run : M Maintained
  run = do
    start ← now env
    record_vault_history
    catch (do pending ← probe pending_outcomes; check_barrier pending) (λ e. pure failed_run)
