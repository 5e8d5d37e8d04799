-- ===== src/Classifier.antt =====
-- dapp/api/_lib/jobs/classifier.ts: the hourly classification of the active set.
pub mod Passes
use sentinel_soroban_v.Base.{
  ℕ, zero, suc, ◌+◌, ◌-◌, ◌*◌, ◌/◌, ◌≤◌, min, String, Bool, true, false, Option, none, some, List,
  ◌≡◌, refl, ◌==◌, ltb, if◌then◌else◌, arith,
}
use sentinel_soroban_v.World.{active_count, classify_flights}
use sentinel_soroban_v.World.Monad.{Env, World, M, pure, ◌>>=◌, ◌>>◌, catch, now, read_as}
use sentinel_soroban_v.World.Keeps.{framed_rules}
use sentinel_soroban_v.World.Cost.{
  Costs, Costs-after, Costs-bind, Costs-catch, Costs-if, Costs-pure, Costs-weaken, Costs-Keeps,
  Costs-then, is_submission, submissions, submissions-IsFramed,
}
use sentinel_soroban_v.Soroban.{invoke}
use sentinel_soroban_v.Soroban.Costs.{Costs-invoke}

abbrev pub classify_batch : ℕ
classify_batch = 8

abbrev pub time_budget_ms : ℕ
time_budget_ms = 240000

-- `Math.min(Math.ceil(activeCount / CLASSIFY_BATCH), 12)`
unfoldable pub passes_for : ℕ → ℕ
passes_for active = min ((active + 7) / classify_batch) 12

-- The entry of a run: `success`, and what its text shows
pub data Classified : Type 0 where
  empty_set : Classified
  swept : (done passes : ℕ) → Classified
  failed_run : Classified

module _ (env : Env) where
  -- one pass, before the passes that are left
  unfoldable pub classify_round : ℕ → ℕ → (ℕ → M ℕ) → M ℕ
  classify_round start done go = do
    t ← now env
    if ltb (start + time_budget_ms) t
        then pure done
        else (do invoke env classify_flights; go (done + 1))

  -- the loop over the passes, `left` of them being left
  unfoldable pub classify_passes : ℕ → ℕ → ℕ → M ℕ
  unfolding classify_round
  classify_passes zero start done = pure done
  classify_passes (suc left) start done = classify_round start done (classify_passes left start)

  unfoldable pub classify_set : ℕ → ℕ → M Classified
  classify_set start active = if active == 0 then pure empty_set else (do
    done ← classify_passes (passes_for active) start 0
    pure (swept done (passes_for active)))

  -- `run`
  unfoldable pub run : M Classified
  run = do
    start ← now env
    catch
        (do
          active ← read_as env active_count (λ log. env.counter log active_count)
          classify_set start active)
        (λ e. pure failed_run)
