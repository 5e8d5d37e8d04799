-- ===== src/Soroban/Submission.antt =====
-- What a call of `invokeContract` that returns has done.
use sentinel_soroban_v.Base.{ℕ, suc, refl, true, inl, ◌≡◌, ◌∷◌, List}
use sentinel_soroban_v.World.{Event, Call, wrote, submitted, slept}
use sentinel_soroban_v.World.Monad.{
  Env, World, Result, ok, err, emit, passes, success, pure, skip, ◌>>=◌, catch, sleep,
}
use sentinel_soroban_v.World.Keeps.{Ends, IsLax, ends_rules}
use sentinel_soroban_v.World.Requirement.{Has}
use sentinel_soroban_v.Soroban.{
  submit_once, attempt, pass, poll, poll_round, get_transaction, answered, conclude, invoke_once,
  invoke,
}

module _ (env : Env) (c : Call) where
  -- A call that returned has an end in the log that went through.
  abbrev pub Wrote : Result Unit × World → Type 0
  Wrote (ok u, w) = Has (wrote c true) w.log
  Wrote (err e, w) = Unit

  Wrote-IsLax : IsLax Wrote
  Wrote-IsLax = record { errs = λ e w. tt }

  Wrote-emit : Ends Wrote (emit (wrote c true))
  unfolding emit
  Wrote-emit = record { at = λ w. inl refl }

  Wrote-invoke_once : Ends Wrote (invoke_once env c)
  unfolding invoke_once
  Wrote-invoke_once = search (ends_rules, Wrote-IsLax, Wrote-emit) depth 9

  pub invoke-Wrote : Ends Wrote (invoke env c)
  unfolding invoke
  invoke-Wrote = search (ends_rules, Wrote-IsLax, Wrote-invoke_once) depth 9

-- The RPC server takes every transaction: each step of a submission passes, and the transaction is
-- found and has succeeded when it is asked for.
pub record Takes (env : Env) : Type 0 where
  pub accounts : (log : List Event) (c : Call) → env.account log c ≡ passes
  pub simulates : (log : List Event) (c : Call) → env.simulate log c ≡ passes
  pub sends : (log : List Event) (c : Call) → env.send log c ≡ passes
  pub succeeds : (log : List Event) (c : Call) → env.transaction log c ≡ success

-- What a submission leaves in the log of a world where it returns at once.
abbrev pub landed : Call → World → World
landed c w = record w { log = wrote c true ∷ slept 1000 ∷ submitted c ∷ w.log }

module _ (env : Env) (known : Takes env) (c : Call) where
  get_transaction-found : (w : World) → get_transaction env c w ≡ (ok success, w)
  unfolding get_transaction answered pure ◌>>=◌
  get_transaction-found w = rw (known.succeeds w.log c) refl

  poll-found :
      (rounds : ℕ) (w : World)
      → poll env (suc rounds) c w ≡ (ok tt, record w { log = slept 1000 ∷ w.log })
  unfolding poll poll_round sleep skip ◌>>=◌
  poll-found rounds w = rw (get_transaction-found (record w { log = slept 1000 ∷ w.log })) refl

  submit_once-landed :
      (w : World)
      → submit_once env c w ≡ (ok tt, record w { log = slept 1000 ∷ submitted c ∷ w.log })
  unfolding submit_once attempt pass conclude skip ◌>>=◌
  submit_once-landed w =
      let sent : World = record w { log = submitted c ∷ w.log } in
      rw (known.accounts w.log c) (
        rw (known.simulates w.log c) (
          rw (known.sends (submitted c ∷ w.log) c) (
            rw (poll-found 29 sent) (
              rw (get_transaction-found (record w { log = slept 1000 ∷ submitted c ∷ w.log }))
                refl))))

  pub invoke-landed : (w : World) → invoke env c w ≡ (ok tt, landed c w)
  unfolding invoke invoke_once ◌>>=◌ catch
  invoke-landed w = rw (submit_once-landed w) refl
