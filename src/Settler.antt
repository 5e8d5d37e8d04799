-- ===== src/Settler.antt =====
-- dapp/api/_lib/jobs/settler.ts: the settlement of pending outcomes.
pub mod Bounds
pub mod Rising
pub mod Stall
use sentinel_soroban_v.Base.{
  ℕ, zero, suc, ◌+◌, String, Bool, true, false, Option, none, some, List, [], ◌∷◌, ◌==◌, leb,
  if◌then◌else◌,
}
use sentinel_soroban_v.World.{
  pending_outcomes, classify_flights, execute_settlements, execute_settlements_bounded, stalled,
}
use sentinel_soroban_v.World.Db.{Db, Barrier, lowered, raised}
use sentinel_soroban_v.World.Monad.{
  Env, M, transition, transition_at, skipped, error, pure, skip, push, ◌>>=◌, ◌>>◌, catch, now,
  read_as, statement,
}
use sentinel_soroban_v.Soroban.{invoke}

abbrev pub max_drain_passes : ℕ
max_drain_passes = 8

-- The upsert of the row: what was seen first stays while the barrier is up.
abbrev pub raise_barrier : ℕ → ℕ → Barrier → Barrier
raise_barrier now_ms pending lowered = raised now_ms pending
raise_barrier now_ms pending (raised since old) = raised since pending

unfoldable pub set_barrier : ℕ → ℕ → Db → Db
set_barrier now_ms pending db = record db { barrier = raise_barrier now_ms pending db.barrier }

unfoldable pub clear_barrier : Db → Db
clear_barrier db = record db { barrier = lowered }

-- How the drain loop ends
pub data Drained : Type 0 where
  drained : (pending : ℕ) → Drained
  gave_up : (pending : ℕ) → Drained

-- `pass ${pass}`
abbrev pub label_at : List String → ℕ → String
label_at [] n = "pass 8"
label_at (s ∷ rest) zero = s
label_at (s ∷ rest) (suc n) = label_at rest n

abbrev pub pass_label : ℕ → String
pass_label n =
    label_at
      ("pass 0" ∷ "pass 1" ∷ "pass 2" ∷ "pass 3" ∷ "pass 4" ∷ "pass 5" ∷ "pass 6" ∷ "pass 7" ∷ []) n

module _ (env : Env) where
  unfoldable pub note_barrier : ℕ → M Unit
  note_barrier pending =
      if pending == 0
      then statement env clear_barrier
      else (do t ← now env; statement env (set_barrier t pending))

  -- `recordBarrierState`
  unfoldable pub record_barrier_state : ℕ → M Unit
  record_barrier_state pending =
      if env.db_configured then catch (note_barrier pending) (λ e. skip) else skip

  -- `readPending`
  unfoldable pub read_pending : M ℕ
  read_pending = read_as env pending_outcomes (λ log. env.counter log pending_outcomes)

  unfoldable pub classify_pass : String → M Unit
  classify_pass label = catch (invoke env classify_flights) (λ e. push label (error e))

  -- one bounded window, before the ones that are left
  unfoldable pub bounded_window : String → ℕ → M Bool → M Bool
  bounded_window label limit rest =
      catch
        (do
          invoke env (execute_settlements_bounded limit)
          push label (transition_at "settled with bounded window" limit)
          pure true)
        (λ e. rest)

  -- the loop over the limits
  unfoldable pub bounded_windows : String → List ℕ → M Bool
  unfolding bounded_window
  bounded_windows label [] = pure false
  bounded_windows label (limit ∷ rest) = bounded_window label limit (bounded_windows label rest)

  unfoldable pub execute_pass : String → M Unit
  execute_pass label = catch (invoke env execute_settlements) λ e. (do
    bounded ← bounded_windows label (3 ∷ 1 ∷ [])
    if bounded then skip else push label (error e))

  -- the end of a pass, by what is pending before and after it
  unfoldable pub judge_pass : ℕ → ℕ → ℕ → (ℕ → ℕ → M Drained) → M Drained
  judge_pass stalls pending next go =
      if leb pending next
      then (if leb 2 (stalls + 1)
          then (do push "-" (error (stalled next)); pure (gave_up next))
          else go (stalls + 1) next)
      else go 0 next

  -- one pass, with `go` for the passes that are left
  unfoldable pub drain_pass : ℕ → ℕ → ℕ → (ℕ → ℕ → M Drained) → M Drained
  drain_pass pass stalls pending go = do
    classify_pass (pass_label pass)
    execute_pass (pass_label pass)
    next ← read_pending
    judge_pass stalls pending next go

  -- the drain loop, `left` passes being left
  unfoldable pub drain : ℕ → ℕ → ℕ → ℕ → M Drained
  unfolding drain_pass
  drain zero pass stalls pending = pure (drained pending)
  drain (suc left) pass stalls pending =
      if pending == 0
      then pure (drained pending)
      else drain_pass pass stalls pending (drain left (pass + 1))

  -- the entry of a drain that ended, by its `success`
  unfoldable pub close_run : Drained → M Bool
  close_run (drained pending) = do
    record_barrier_state pending
    push "-" (transition_at "drained to pending" pending)
    pure true
  close_run (gave_up pending) = pure false

  unfoldable pub settle_pending : ℕ → M Bool
  settle_pending pending =
      if pending == 0
      then (do push "-" (skipped "no pending outcomes — no tx submitted"); pure true)
      else (do ended ← drain max_drain_passes 1 0 pending; close_run ended)

  -- `run`: the `success` of its entry
  unfoldable pub run : M Bool
  run = do
    start ← now env
    catch (do pending ← read_pending; record_barrier_state pending; settle_pending pending)
        (λ e. pure false)
