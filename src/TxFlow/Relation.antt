-- ===== src/TxFlow/Relation.antt =====
-- dapp/src/hooks/useTxFlow.ts: the events of a flow and the flows that they reach.
use sentinel_soroban_v.Base.{◌<◌, Bool, true, false, List, [], ◌∷◌, ◌≡◌, ◌⊎◌}
use sentinel_soroban_v.TxFlow.{
  TxState, verifying, awaiting, confirming, Timer, Flow, Options, Network, Success, transition, run,
  complete, collapse, fire, unmount,
}
use sentinel_soroban_v.TxFlow.Errors.{Thrown}

abbrev pub IsPending : Timer → List Timer → Type 0
IsPending t [] = ⊥
IsPending t (u ∷ rest) = (t ≡ u) ⊎ IsPending t rest

-- The states that a callback reports.
pub data Phase : Type 0 where
  building : Phase
  asking : Phase
  sending : Phase

abbrev pub state_of : Phase → TxState
state_of building = verifying
state_of asking = awaiting
state_of sending = confirming

-- A callback that was called and reports its first phase.
abbrev pub opened : Phase → Bool × Flow → Flow
opened p (true, f) = transition (state_of p) f
opened p (false, f) = f

-- The events of a flow, in any order: a call of `run` by a component that is mounted, whose callback,
-- as those of all the callers do, reports a phase before its first wait; a later report; the end of a
-- callback; a timer that fires; and the unmount.
pub data Step (f : Flow) : Flow → Type 0 where
  call :
      (o : Options) (net : Network) (p : Phase) → f.mounted ≡ true → Step f (opened p (run o net f))
  report : (p : Phase) → 0 < f.in_flight → Step f (transition (state_of p) f)
  fulfil : (o : Options) (r : Success) → 0 < f.in_flight → Step f (complete o r f)
  reject :
      (o : Options) (net : Network) (e : Thrown) → 0 < f.in_flight → Step f (collapse o net e f)
  elapse : (t : Timer) → IsPending t f.timers → Step f (fire t f)
  leave : f.mounted ≡ true → Step f (unmount f)

pub data Reach (s : Flow) : Flow → Type 0 where
  here : Reach s s
  next : {f g : Flow} → Reach s f → Step f g → Reach s g
