-- ===== src/Soroban/Frame.antt =====
-- What transactions keep.
use sentinel_soroban_v.Base.{ℕ, zero, suc, ◌+◌, Bool, List, Option, ◌∷◌}
use sentinel_soroban_v.World.{Call, Event, Query, submitted, wrote}
use sentinel_soroban_v.World.Monad.{
  Env, World, M, Attempt, TxState, passes, throws, success, lost, emit,
}
use sentinel_soroban_v.World.Keeps.{
  Keeps, IsFramed, framed_rules, Keeps-raise, Keeps-skip, Keeps-pure,
}
use sentinel_soroban_v.World.Requirement.{IsMono, Respecting}
use sentinel_soroban_v.Soroban.{
  pass, answered, attempt, get_transaction, poll_round, poll, conclude, submit_once, invoke_once,
  invoke, read_attempt, read_attempts, read_with_retry,
}

-- A predicate that the events of the transaction `c` do not break.
pub record Admits (P : World → Type 0) (c : Call) : Type 0 where
  pub sends : (w : World) → P w → P (record w { log = submitted c ∷ w.log })
  pub ends : (done : Bool) (w : World) → P w → P (record w { log = wrote c done ∷ w.log })

module _ (P : World → Type 0) where
  Keeps-pass : (c : Call) (a : Attempt) → Keeps P (pass c a)
  unfolding pass
  Keeps-pass c passes = Keeps-skip
  Keeps-pass c (throws bad_seq) = Keeps-raise _

  Keeps-answered : (c : Call) (a : TxState) → Keeps P (answered c a)
  unfolding answered
  Keeps-answered c lost = Keeps-raise _
  Keeps-answered c _ = Keeps-pure _

  pub Keeps-conclude : (c : Call) (a : TxState) → Keeps P (conclude c a)
  unfolding conclude
  Keeps-conclude c success = Keeps-skip
  Keeps-conclude c _ = Keeps-raise _

module _ (P : World → Type 0) (framed : IsFramed P) (env : Env) where
  pub Keeps-attempt : (c : Call) (step : List Event → Call → Attempt) → Keeps P (attempt env c step)
  unfolding attempt
  Keeps-attempt c step = search (framed_rules, Keeps-pass)

  pub Keeps-get_transaction : (c : Call) → Keeps P (get_transaction env c)
  unfolding get_transaction
  Keeps-get_transaction c = search (framed_rules, Keeps-answered)

  Keeps-poll_round : (c : Call) (rest : M Unit) → Keeps P rest → Keeps P (poll_round env c rest)
  unfolding poll_round
  Keeps-poll_round c rest k = search (framed_rules, Keeps-get_transaction) depth 9

  pub Keeps-poll : (rounds : ℕ) (c : Call) → Keeps P (poll env rounds c)
  unfolding poll
  Keeps-poll zero c = Keeps-skip
  Keeps-poll (suc rounds) c = Keeps-poll_round c _ (Keeps-poll rounds c)

  Keeps-submitted : (c : Call) → Admits P c → Keeps P (emit (submitted c))
  unfolding emit
  Keeps-submitted c admits = record { at = λ w h. admits.sends w h }

  Keeps-wrote : (c : Call) (done : Bool) → Admits P c → Keeps P (emit (wrote c done))
  unfolding emit
  Keeps-wrote c done admits = record { at = λ w h. admits.ends done w h }

  ruleset submission_rules = (
    framed_rules, Keeps-attempt, Keeps-get_transaction, Keeps-poll, Keeps-conclude, Keeps-submitted,
    Keeps-wrote,
  )

  Keeps-submit_once : (c : Call) → Admits P c → Keeps P (submit_once env c)
  unfolding submit_once
  Keeps-submit_once c admits = search submission_rules depth 14

  Keeps-invoke_once : (c : Call) → Admits P c → Keeps P (invoke_once env c)
  unfolding invoke_once
  Keeps-invoke_once c admits = search (submission_rules, Keeps-submit_once) depth 9

  pub Keeps-invoke : (c : Call) → Admits P c → Keeps P (invoke env c)
  unfolding invoke
  Keeps-invoke c admits = search (submission_rules, Keeps-invoke_once) depth 9

  Keeps-read_attempt :
      {A : Type 0} (attempt_no : ℕ) (q : Query) (answer : List Event → Option A) (rest : M A)
      → Keeps P rest
      → Keeps P (read_attempt env attempt_no q answer rest)
  unfolding read_attempt
  Keeps-read_attempt attempt_no q answer rest k = search framed_rules depth 9

  Keeps-read_attempts :
      {A : Type 0} (left attempt_no : ℕ) (q : Query) (answer : List Event → Option A)
      → Keeps P (read_attempts env left attempt_no q answer)
  unfolding read_attempts
  Keeps-read_attempts zero attempt_no q answer = search framed_rules
  Keeps-read_attempts (suc left) attempt_no q answer =
      Keeps-read_attempt attempt_no q answer _ (Keeps-read_attempts left (attempt_no + 1) q answer)

  pub Keeps-read_with_retry :
      {A : Type 0} (q : Query) (answer : List Event → Option A)
      → Keeps P (read_with_retry env q answer)
  unfolding read_with_retry
  Keeps-read_with_retry q answer = Keeps-read_attempts 2 1 q answer

-- A transaction goes through a log that respects its need, once the need is there.
module _ (Needs : Call → List Event → Type 0) where
  pub Admits-Respecting :
      (X : List Event → Type 0) (c : Call)
      → IsMono X
      → ((log : List Event) → X log → Needs c log)
      → Admits (Respecting Needs X) c
  Admits-Respecting X c mono need = record {
    sends = λ w h. ((need w.log h.1, h.0), mono.grow (submitted c) w.log h.1);
    ends = λ done w h. ((need w.log h.1, h.0), mono.grow (wrote c done) w.log h.1);
  }
