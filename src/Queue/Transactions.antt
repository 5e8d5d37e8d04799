-- ===== src/Queue/Transactions.antt =====
-- When the queue job sends a transaction.
use sentinel_soroban_v.Base.{ℕ, suc, ◌+◌, ◌≤◌, ◌≡◌, some, List, ltb, true, arith}
use sentinel_soroban_v.World.{Event, Query, pending_outcomes, run_queue_maintenance}
use sentinel_soroban_v.World.Monad.{Env, World, now, ◌>>=◌}
use sentinel_soroban_v.World.Keeps.{Ends, Ends-bind, Ends-catch, framed_rules}
use sentinel_soroban_v.World.Answers.{Gives, Gives-IsLax, read_as-Gives}
use sentinel_soroban_v.World.Cost.{
  Costs, Costs-after, Costs-then, Costs-bind, Costs-catch, Costs-if, Costs-pure, Costs-weaken,
  Costs-Keeps, is_submission, submissions, submissions-IsFramed,
}
use sentinel_soroban_v.Soroban.{read_with_retry, read_attempts, read_attempt}
use sentinel_soroban_v.Soroban.Frame.{Keeps-read_with_retry}
use sentinel_soroban_v.Soroban.Costs.{Costs-invoke}
use sentinel_soroban_v.Queue.{
  probe, record_vault_history, maintain, probe_queues, check_barrier, run,
}

module _ (env : Env) where
  Costs-probe : (q : Query) → Costs is_submission 0 (probe env q)
  unfolding probe
  Costs-probe q = Costs-Keeps _ _ (λ n. Keeps-read_with_retry _ (submissions-IsFramed n) env q _)

  Costs-now : Costs is_submission 0 (now env)
  Costs-now = Costs-Keeps _ _ (λ n. search (framed_rules, submissions-IsFramed))

  Costs-record_vault_history : Costs is_submission 0 (record_vault_history env)
  unfolding record_vault_history probe
  Costs-record_vault_history =
      Costs-Keeps _ _
        (λ n. search (framed_rules, submissions-IsFramed, Keeps-read_with_retry) depth 20)

  Costs-maintain : (w d s : ℕ) → Costs is_submission 2 (maintain env w d s)
  unfolding maintain
  Costs-maintain w d s =
      Costs-if _ _ _ _ (Costs-weaken _ _ (omega arith) (Costs-pure _ _))
        (Costs-bind _ _ _ (Costs-invoke env run_queue_maintenance) (λ u. Costs-pure _ _))

  -- the probes, before what they lead to
  Costs-probe_queues :
      {k : ℕ}
      → ((w d s : ℕ) → Costs is_submission k (maintain env w d s))
      → Costs is_submission k (probe_queues env)
  unfolding probe_queues
  Costs-probe_queues h = Costs-after _ _ _ (Costs-probe _) (λ withdrawals.
      Costs-after _ _ _ (Costs-probe _) (λ deposits.
        Costs-after _ _ _ Costs-now
          (λ t. Costs-after _ _ _ (Costs-probe _) (λ snapshot. h withdrawals deposits snapshot))))

  Costs-run :
      {k : ℕ}
      → Costs is_submission k (probe env pending_outcomes >>= check_barrier env)
      → Costs is_submission k (run env)
  unfolding run
  Costs-run {k} h = Costs-after _ _ _ Costs-now (λ start.
      Costs-after _ _ _ Costs-record_vault_history
        (λ u. Costs-weaken _ _ (omega arith) (Costs-catch _ _ _ h (λ e. Costs-pure _ _))))

  Costs-check_barrier : (pending : ℕ) → Costs is_submission 2 (check_barrier env pending)
  unfolding check_barrier
  Costs-check_barrier pending =
      Costs-if _ _ _ _ (Costs-weaken _ _ (omega arith) (Costs-pure _ _))
        (Costs-probe_queues Costs-maintain)

-- A run of the queue job sends its one transaction twice at most.
queue-submissions : (env : Env) (w : World) → submissions (run env w).1.log ≤ submissions w.log + 2
queue-submissions env w =
    (Costs-run env (Costs-after _ _ _ (Costs-probe env _) (Costs-check_barrier env))).at w

module _ (env : Env) (q : Query) (n : ℕ)
    (still : (log : List Event) → env.counter log q ≡ some n) where
  probe-Gives : Ends (Gives n) (probe env q)
  unfolding probe read_with_retry read_attempts read_attempt
  probe-Gives =
      let once = read_as-Gives env q (λ log. env.counter log q) n still in
      Ends-catch _ _ once (λ e.
        Ends-bind _ _ (Gives-IsLax n)
          (λ u. Ends-catch _ _ once (λ e. Ends-bind _ _ (Gives-IsLax n) (λ u. once))))

barrier-Costs :
    (env : Env) (n : ℕ)
    → ((log : List Event) → env.counter log pending_outcomes ≡ some (suc n))
    → Costs is_submission 0 (probe env pending_outcomes >>= check_barrier env)
unfolding check_barrier
barrier-Costs env n still =
    Costs-then _ {k = 0} _ _ (Costs-probe env _) (probe-Gives env pending_outcomes (suc n) still)
      (λ pending w same. rw (same, barrier_up n) (Costs-pure _ _))
  where
    barrier_up : (n : ℕ) → ltb 0 (suc n) ≡ true
    barrier_up n = ground arith

-- While outcomes are pending, the queue job sends no transaction, even where its probes fail and
-- are retried.
pub queue-barrier :
    (env : Env) (n : ℕ) (w : World)
    → ((log : List Event) → env.counter log pending_outcomes ≡ some (suc n))
    → submissions (run env w).1.log ≤ submissions w.log
queue-barrier env n w still = omega (arith, (Costs-run env (barrier-Costs env n still)).at w)
