-- ===== src/Interventions/Disables.antt =====
-- The disables of a pause that return, where the database answers.
use sentinel_soroban_v.Base.{
  ℕ, String, Bool, true, false, not, ◌+◌, List, ◌≡◌, refl, if◌then◌else◌, arith, ◌∷◌, Bool-cases,
  inl, inr,
}
use sentinel_soroban_v.World.{Event, RouteKey, submitted, wrote, disable_route}
use sentinel_soroban_v.World.Db.{Cause, Evidence, Db}
use sentinel_soroban_v.World.Monad.{Env, M, RouteState, skip, statement, statement_at, ◌>>=◌}
use sentinel_soroban_v.World.Keeps.{IsPlain, framed_rules}
use sentinel_soroban_v.World.Cost.{Costs, Costs-Keeps, AtMost-IsFramed}
use sentinel_soroban_v.World.Debt.{
  Owes, IsSafe, Owes-free, Owes-pure, Owes-raise, Owes-if, Owes-catch, Owes-bind, Owes-safe,
  IsSafe-catch, IsSafe-pure, IsSafe-statement,
}
use sentinel_soroban_v.Submitter.{read_status, safe_log, sign_and_send, submit, disable}
use sentinel_soroban_v.Interventions.Ledger.{open_row}
use sentinel_soroban_v.Interventions.Executor.{
  PauseResult, ensure_table, gov_frozen, is_pinned, disable_if_active, pause_on_chain,
  record_and_pause, guarded, pause_route,
}

-- A transaction that disables a route, whose call returned.
abbrev pub is_disable : Event → Bool
is_disable (wrote (disable_route key) done) = done
is_disable _ = false

-- A transaction that disables a route, whose call threw: it may have landed or not.
abbrev pub is_thrown : Event → Bool
is_thrown (wrote (disable_route key) done) = not done
is_thrown _ = false

abbrev pub is_call : Event → Bool
is_call (wrote (disable_route key) done) = true
is_call _ = false

abbrev pub one_if : Bool → ℕ
one_if b = if b then 1 else 0

pub call_split : (e : Event) → one_if (is_call e) ≡ one_if (is_disable e) + one_if (is_thrown e)
call_split (wrote (disable_route key) true) = omega arith
call_split (wrote (disable_route key) false) = omega arith
call_split _ = omega arith

pub plain-is_disable : (e : Event) → IsPlain e → is_disable e ≡ false
plain-is_disable (wrote c done) h = absurd h
plain-is_disable _ h = refl

abbrev pub Free : {A : Type 0} → M A → Type 0
Free m = Costs is_disable 0 m

-- what a pause reports
abbrev pub reported : PauseResult → ℕ
reported r = one_if r.disabled_on_chain

module _ (env : Env) (up : (log : List Event) → env.sql_answers log ≡ true) where
  Free-statement : (f : Db → Db) → Free (statement env f)
  Free-statement f =
      Costs-Keeps _ _ (λ n. search (framed_rules, AtMost-IsFramed is_disable plain-is_disable n))

  Free-read_status : (actor : String) (key : RouteKey) → Free (read_status env actor key)
  unfolding read_status
  Free-read_status actor key =
      Costs-Keeps _ _ (λ n. search (framed_rules, AtMost-IsFramed is_disable plain-is_disable n))

  Free-safe_log :
      (actor : String) (key : RouteKey) (action : String) (success : Bool)
      → Free (safe_log env actor key action success)
  unfolding safe_log
  Free-safe_log actor key action success =
      Costs-Keeps _ _
        (λ n. search (framed_rules, AtMost-IsFramed is_disable plain-is_disable n) depth 9)

  IsSafe-safe_log :
      (actor : String) (key : RouteKey) (action : String) (success : Bool)
      → IsSafe is_disable (safe_log env actor key action success)
  unfolding safe_log skip
  IsSafe-safe_log actor key action success =
      IsSafe-catch _ _ _ (Free-statement _) (λ e. record { at = λ w. (tt, omega arith) })

  Owes-sign_and_send :
      (actor : String) (key : RouteKey)
      → Owes is_disable 0 (λ u. 1) (sign_and_send env actor (disable_route key))
  unfolding sign_and_send ◌>>=◌
  Owes-sign_and_send actor key = record {
    at = λ w.
        elim (Bool-cases
          (env.governance_returns (submitted (disable_route key) ∷ w.log) (disable_route key))) [
            | inl returned ↦ rw returned (omega arith)
            | inr thrown ↦ rw thrown (omega arith)
          ];
  }

  Owes-disable :
      (actor : String) (key : RouteKey) → Owes is_disable 0 (λ o. 1) (disable env actor key)
  unfolding disable submit
  Owes-disable actor key = Owes-bind _ _ _ (Owes-free _ _ (Free-read_status actor key)) (λ before.
      Owes-bind _ _ _
        (Owes-catch _ _ _ (Owes-sign_and_send actor key) (λ e.
          Owes-bind _ _ _ (Owes-free _ _ (Free-safe_log actor key "disable_route" false))
            (λ u. Owes-raise _ e)))
        (λ u.
          Owes-safe _ _ _ (IsSafe-catch _ _ _ (Free-read_status actor key) (λ e. IsSafe-pure _ _))
            (λ after.
              Owes-safe _ _ _ (IsSafe-safe_log actor key "disable_route" true)
                (λ u. Owes-pure _ _ (omega arith)))))

  Owes-disable_if_active :
      (key : RouteKey) (actor : String) (state : RouteState)
      → Owes is_disable 0 one_if (disable_if_active env key actor state)
  unfolding disable_if_active
  Owes-disable_if_active key actor RouteState.active =
      Owes-bind _ _ _ (Owes-disable actor key) (λ o. Owes-pure _ _ (omega arith))
  Owes-disable_if_active key actor _ = Owes-pure _ _ (omega arith)

  Owes-pause_on_chain :
      (key : RouteKey) (actor : String) → Owes is_disable 0 reported (pause_on_chain env key actor)
  unfolding pause_on_chain
  Owes-pause_on_chain key actor =
      Owes-bind _ _ _ (Owes-free _ _ (Free-read_status actor key)) (λ state.
        Owes-bind _ _ _ (Owes-disable_if_active key actor state) (λ disabled.
          Owes-safe _ _ _ (IsSafe-statement _ env _ up refl) (λ u. Owes-pure _ _ (omega arith))))

  Free-open_row :
      (key : RouteKey) (cause : Cause) (evidence : Evidence) (actor : String)
      → Free (statement_at env (open_row key cause evidence actor))
  Free-open_row key cause evidence actor =
      Costs-Keeps _ _ (λ n. search (framed_rules, AtMost-IsFramed is_disable plain-is_disable n))

  Free-ensure_table : Free (ensure_table env)
  unfolding ensure_table
  Free-ensure_table =
      Costs-Keeps _ _
        (λ n. search (framed_rules, AtMost-IsFramed is_disable plain-is_disable n) depth 9)

  Free-gov_frozen : Free (gov_frozen env)
  unfolding gov_frozen
  Free-gov_frozen =
      Costs-Keeps _ _
        (λ n. search (framed_rules, AtMost-IsFramed is_disable plain-is_disable n) depth 9)

  Free-is_pinned : (key : RouteKey) → Free (is_pinned env key)
  unfolding is_pinned
  Free-is_pinned key =
      Costs-Keeps _ _
        (λ n. search (framed_rules, AtMost-IsFramed is_disable plain-is_disable n) depth 9)

  Owes-record_and_pause :
      (key : RouteKey) (cause : Cause) (evidence : Evidence) (actor : String)
      → Owes is_disable 0 reported (record_and_pause env key cause evidence actor)
  unfolding record_and_pause
  Owes-record_and_pause key cause evidence actor =
      Owes-bind _ _ _ (Owes-free _ _ (Free-open_row key cause evidence actor))
        (λ u. Owes-if _ _ _ _ (Owes-pause_on_chain key actor) (Owes-pure _ _ (omega arith)))

  -- Where the database answers, a pause reports every disable that returned.
  pub Owes-pause_route :
      (key : RouteKey) (cause : Cause) (evidence : Evidence) (actor : String)
      → Owes is_disable 0 reported (pause_route env key cause evidence actor)
  unfolding pause_route guarded
  Owes-pause_route key cause evidence actor =
      Owes-if _ _ _ _
        (Owes-bind _ _ _ (Owes-free _ _ Free-ensure_table) (λ u.
          Owes-if _ _ _ _ (Owes-record_and_pause key cause evidence actor) (
            Owes-bind _ _ _ (Owes-free _ _ Free-gov_frozen) (λ is_frozen.
              Owes-if _ _ _ _ (Owes-pure _ _ (omega arith)) (
                Owes-bind _ _ _ (Owes-free _ _ (Free-is_pinned key)) (λ pin.
                  Owes-if _ _ _ _ (Owes-pure _ _ (omega arith))
                    (Owes-record_and_pause key cause evidence actor)))))))
        (Owes-pure _ _ (omega arith))
