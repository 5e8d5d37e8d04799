-- ===== src/Soroban/Costs.antt =====
-- How many transactions `invokeContract` sends.
use sentinel_soroban_v.Base.{◌+◌, ◌≤◌, ◌≡◌, ◌≢◌, List, Bool, arith}
use sentinel_soroban_v.World.{Call, Event, submitted}
use sentinel_soroban_v.World.Monad.{
  Env, World, M, Result, ok, err, throws, emit, continue, sleep, ◌>>=◌,
}
use sentinel_soroban_v.World.Keeps.{
  framed_rules, Ends, IsLax, Ends-bind, Ends-then, Ends-if, Ends-catch, Ends-raise,
}
use sentinel_soroban_v.World.Cost.{
  Costs, Costs-bind, Costs-after, Costs-then, Costs-catch, Costs-if, Costs-raise, Costs-weaken,
  Costs-Keeps, Costs-emit, is_submission, submissions, submissions-IsFramed, wrote-Costs,
}
use sentinel_soroban_v.Soroban.{attempt, pass, submit_once, invoke_once, invoke}
use sentinel_soroban_v.Soroban.Frame.{
  Keeps-attempt, Keeps-get_transaction, Keeps-poll, Keeps-conclude,
}

module _ (env : Env) (c : Call) where
  Costs-submit_once : Costs is_submission 1 (submit_once env c)
  unfolding submit_once
  Costs-submit_once =
      Costs-bind _ _ _
        (Costs-Keeps _ _ (λ n. Keeps-attempt _ (submissions-IsFramed n) env c env.account))
        (λ u.
          Costs-bind _ _ _
            (Costs-Keeps _ _ (λ n. Keeps-attempt _ (submissions-IsFramed n) env c env.simulate))
            (λ u. Costs-bind _ _ _ (Costs-emit is_submission (submitted c)) (λ u.
              Costs-Keeps _ _ (λ n.
                search
                  (
                    framed_rules, submissions-IsFramed, Keeps-attempt, Keeps-get_transaction,
                    Keeps-poll, Keeps-conclude,
                  )
                  depth 12))))

  Costs-invoke_once : Costs is_submission 1 (invoke_once env c)
  unfolding invoke_once
  Costs-invoke_once =
      Costs-catch _ _ _ (Costs-bind _ _ _ Costs-submit_once (λ u. wrote-Costs c _))
        (λ e. Costs-bind _ _ _ (wrote-Costs c _) (λ u. Costs-raise _ _))

  pub Costs-invoke : Costs is_submission 2 (invoke env c)
  unfolding invoke
  Costs-invoke = Costs-catch _ _ _ Costs-invoke_once (λ e.
      Costs-if _ _ _ _
        (Costs-bind _ _ _ (Costs-Keeps _ _ (λ n. search (framed_rules, submissions-IsFramed)))
          (λ u. Costs-invoke_once))
        (Costs-weaken _ _ (omega arith) (Costs-raise _ _)))

-- A call of `invokeContract` sends two transactions at most, whatever its steps answer.
invoke-submissions :
    (env : Env) (c : Call) (w : World) → submissions (invoke env c w).1.log ≤ submissions w.log + 2
invoke-submissions env c w = (Costs-invoke env c).at w

-- A transaction whose simulation always fails.
module _ (env : Env) (c : Call)
    (fails : (log : List Event) → (b : Bool) × (env.simulate log c ≡ throws b)) where
  abbrev Fails : Result Unit × World → Type 0
  Fails (ok u, w) = ⊥
  Fails (err e, w) = Unit

  simulate-Fails : Ends Fails (attempt env c env.simulate)
  unfolding attempt pass ◌>>=◌
  simulate-Fails = record { at = λ w. rw ((fails w.log).1) tt }

  Fails-IsLax : IsLax Fails
  Fails-IsLax = record { errs = λ e w. tt }

  -- what follows a failure does not run
  failed_then : (f : Unit → M Unit) (r : Result Unit × World) → Fails r → Fails (continue r.0 f r.1)
  failed_then f (ok u, w) h = absurd h
  failed_then f (err e, w) h = tt

  submit_once-Fails : Ends Fails (submit_once env c)
  unfolding submit_once
  submit_once-Fails =
      Ends-bind (attempt env c env.account) _ Fails-IsLax
        (λ u. Ends-then (attempt env c env.simulate) _ simulate-Fails (failed_then _))

  invoke_once-Fails : Ends Fails (invoke_once env c)
  unfolding invoke_once
  invoke_once-Fails =
      Ends-catch _ _ (Ends-then _ _ submit_once-Fails (failed_then _))
        (λ e. Ends-bind (emit _) _ Fails-IsLax (λ u. Ends-raise e Fails-IsLax))

  invoke-Fails : Ends Fails (invoke env c)
  unfolding invoke
  invoke-Fails = Ends-catch _ _ invoke_once-Fails (λ e.
      Ends-if _ _ _ (Ends-bind (sleep env 2000) _ Fails-IsLax (λ u. invoke_once-Fails))
        (Ends-raise e Fails-IsLax))

  refused_once : Costs is_submission 0 (submit_once env c)
  unfolding submit_once
  refused_once =
      Costs-after _ _ _
        (Costs-Keeps _ _ (λ n. Keeps-attempt _ (submissions-IsFramed n) env c env.account))
        (λ u.
          Costs-then _ {k = 0} _ _
            (Costs-Keeps _ _ (λ n. Keeps-attempt _ (submissions-IsFramed n) env c env.simulate))
            simulate-Fails (λ u w passed. absurd passed))

  refused_invoke_once : Costs is_submission 0 (invoke_once env c)
  unfolding invoke_once
  refused_invoke_once =
      Costs-catch _ _ _ (Costs-after _ _ _ refused_once (λ u. wrote-Costs c _))
        (λ e. Costs-after _ _ _ (wrote-Costs c _) (λ u. Costs-raise _ _))

  refused_invoke : Costs is_submission 0 (invoke env c)
  unfolding invoke
  refused_invoke = Costs-catch _ _ _ refused_invoke_once (λ e.
      Costs-if _ _ _ _
        (Costs-after _ _ _ (Costs-Keeps _ _ (λ n. search (framed_rules, submissions-IsFramed)))
          (λ u. refused_invoke_once))
        (Costs-raise _ _))

-- A transaction whose simulation always fails is never sent, and its call throws.
pub invoke-refused :
    (env : Env) (c : Call) (w : World)
    → ((log : List Event) → (b : Bool) × (env.simulate log c ≡ throws b))
    → (submissions (invoke env c w).1.log ≤ submissions w.log) × ((invoke env c w).0 ≢ ok tt)
invoke-refused env c w fails = (
  omega (arith, (refused_invoke env c fails).at w),
  not_ok (invoke env c w) ((invoke-Fails env c fails).at w),
)
  where
    not_ok : (r : Result Unit × World) → Fails env c fails r → r.0 ≢ ok tt
    not_ok (ok u, w) h = absurd h
    not_ok (err e, w) h = λ same. cc
