-- ===== src/Soroban.antt =====
-- dapp/api/_lib/soroban_client.ts: transactions and retried reads.
pub mod Submission
pub mod Frame
pub mod Costs
use sentinel_soroban_v.Base.{
  ℕ, zero, suc, ◌+◌, ◌-◌, ◌*◌, Bool, true, false, Option, some, none, List, ◌==◌, if◌then◌else◌,
}
use sentinel_soroban_v.World.{
  Event, Call, Query, Failure, submitted, wrote, read_failed, write_failed,
}
use sentinel_soroban_v.World.Monad.{
  Env, World, Attempt, passes, throws, TxState, success, failed, not_found, lost, M, pure, skip,
  raise, gets, emit, ◌>>=◌, ◌>>◌, catch, sleep, read_as,
}

unfoldable pub pass : Call → Attempt → M Unit
pass c passes = skip
pass c (throws bad_seq) = raise (write_failed c bad_seq)

unfoldable pub answered : Call → TxState → M TxState
answered c lost = raise (write_failed c false)
answered c state = pure state

abbrev pub is_found : TxState → Bool
is_found not_found = false
is_found _ = true

unfoldable pub conclude : Call → TxState → M Unit
conclude c success = skip
conclude c _ = raise (write_failed c false)

abbrev pub is_bad_seq : Failure → Bool
is_bad_seq (write_failed c bad_seq) = bad_seq
is_bad_seq _ = false

module _ (env : Env) where
  -- A step of the submission of `c`, and what it throws.
  unfoldable pub attempt : Call → (List Event → Call → Attempt) → M Unit
  unfolding ◌>>=◌ pass
  attempt c step = do a ← gets (λ w. step w.log c); pass c a

  -- `server.getTransaction`
  unfoldable pub get_transaction : Call → M TxState
  unfolding ◌>>=◌ answered
  get_transaction c = do a ← gets (λ w. env.transaction w.log c); answered c a

  -- One round of the polling loop, before the rounds that are left.
  unfoldable pub poll_round : Call → M Unit → M Unit
  poll_round c rest = do
    sleep env 1000
    state ← get_transaction c
    if is_found state then skip else rest

  -- The polling loop: it ends when the transaction is found, or after `rounds` rounds.
  unfoldable pub poll : ℕ → Call → M Unit
  unfolding poll_round
  poll zero c = skip
  poll (suc rounds) c = poll_round c (poll rounds c)

  -- `invokeContractOnce`, up to the events that mark it
  unfoldable pub submit_once : Call → M Unit
  submit_once c = do
    attempt c env.account
    attempt c env.simulate
    emit (submitted c)
    attempt c env.send
    poll 30 c
    state ← get_transaction c
    conclude c state

  unfoldable pub invoke_once : Call → M Unit
  invoke_once c =
      catch (do submit_once c; emit (wrote c true)) (λ e. do emit (wrote c false); raise e)

  -- `invokeContract`: one more try after a collision of sequence numbers
  unfoldable pub invoke : Call → M Unit
  invoke c =
      catch (invoke_once c)
        λ e. if is_bad_seq e then (do sleep env 2000; invoke_once c) else raise e

  -- A read that may be followed by further attempts, `rest`.
  unfoldable pub read_attempt : {A : Type 0} → ℕ → Query → (List Event → Option A) → M A → M A
  read_attempt attempt_no q answer rest =
      catch (read_as env q answer) λ e. do sleep env (400 * attempt_no); rest

  -- `readContractWithRetry`: `left` further attempts, after attempt number `attempt_no`
  unfoldable pub read_attempts : {A : Type 0} → ℕ → ℕ → Query → (List Event → Option A) → M A
  read_attempts zero attempt_no q answer = read_as env q answer
  read_attempts (suc left) attempt_no q answer =
      read_attempt attempt_no q answer (read_attempts left (attempt_no + 1) q answer)

  unfoldable pub read_with_retry : {A : Type 0} → Query → (List Event → Option A) → M A
  read_with_retry q answer = read_attempts 2 1 q answer
