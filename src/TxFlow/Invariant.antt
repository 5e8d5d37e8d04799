-- ===== src/TxFlow/Invariant.antt =====
-- dapp/src/hooks/useTxFlow.ts: what holds of a flow between two events.
use sentinel_soroban_v.Base.{
  ℕ, ◌+◌, ◌<◌, ◌≤◌, Bool, true, false, Option, none, some, List, [], ◌∷◌, ◌≡◌, ◌⊎◌, refl, sym, ap,
  select, Bool-cases, inl, inr, arith, length,
}
use sentinel_soroban_v.Money.{Units}
use sentinel_soroban_v.TxFlow.{
  mismatch_text, TxState, idle, verifying, awaiting, confirming, success, error, Outcome, succeeded,
  failed, Timer, Flow, Options, Network, new, transition, set_timeout, clear_timeout, refuse, run,
  is_idle, complete, collapse, fire, unmount,
}
use sentinel_soroban_v.TxFlow.Relation.{
  IsPending, Phase, building, asking, sending, state_of, opened, Step, call, report, fulfil, reject,
  elapse, leave, Reach, here, next,
}

-- What the outcome of the timer of a flow that shows a success or an error, with a message, is: that
-- of the state; but for a wallet that is on another network, which the message says, there is none.
abbrev pub Fits : Bool → Option Units → Option Outcome → Type 0
Fits true message settles = settles ≡ some succeeded
Fits false message settles =
    (settles ≡ some failed)
    ⊎ ((settles ≡ none) × (name : Units) × (message ≡ some (mismatch_text name)))

-- One timer is set, it is the one that `timerRef` names, and its outcome fits.
abbrev pub HasTimer : Bool → Option Units → List Timer → Option ℕ → Type 0
HasTimer won message timers ref =
    (t : Timer) × (timers ≡ t ∷ []) × (ref ≡ some t.id) × Fits won message t.settles

-- What the state of a mounted flow says of its calls and its timers.
abbrev pub Waits : TxState → Option Units → ℕ → List Timer → Option ℕ → Type 0
Waits idle message calls timers ref = (calls ≡ 0) × (timers ≡ [])
Waits success message calls timers ref = (calls ≡ 0) × HasTimer true message timers ref
Waits error message calls timers ref = (calls ≡ 0) × HasTimer false message timers ref
Waits _ message calls timers ref = (calls ≡ 1) × (timers ≡ [])

pub record IsCoherent (f : Flow) : Type 0 where
  pub waits : f.mounted ≡ true → Waits f.state f.message f.in_flight f.timers f.timer_ref
  pub alone : f.in_flight + length f.timers ≤ 1

-- While a call is in flight it is the only one, and no timer is set.
pub busy_lem : {f : Flow} → IsCoherent f → 0 < f.in_flight → (f.in_flight ≡ 1) × (f.timers ≡ [])
busy_lem {f} h busy = (omega (arith, h.alone), only f.timers (omega (arith, h.alone)))
  where
    only : (ts : List Timer) → length ts ≤ 0 → ts ≡ []
    only [] h = refl
    only (t ∷ ts) h = absurd (omega (arith, h))

Waits-phase :
    (p : Phase) (message : Option Units) {calls : ℕ} {timers : List Timer} (ref : Option ℕ)
    → calls ≡ 1
    → timers ≡ []
    → Waits (state_of p) message calls timers ref
Waits-phase building message ref c t = (c, t)
Waits-phase asking message ref c t = (c, t)
Waits-phase sending message ref c t = (c, t)

-- A timer that is set behind no other.
set_lem :
    (won : Bool) (message : Option Units) (t : Timer) {timers : List Timer}
    → timers ≡ []
    → Fits won message t.settles
    → HasTimer won message (t ∷ timers) (some t.id)
set_lem won message t none_left e = (t, ap (λ ts. t ∷ ts) none_left, refl, e)

-- A timer that is pending is the only one, and no call is in flight.
pub pending_lem :
    {f : Flow} {t : Timer}
    → IsCoherent f
    → IsPending t f.timers
    → (f.in_flight ≡ 0) × (f.timers ≡ t ∷ [])
pending_lem {f} {t} h p = only f.timers p h.alone
  where
    only :
        (ts : List Timer)
        → IsPending t ts
        → f.in_flight + length ts ≤ 1
        → (f.in_flight ≡ 0) × (ts ≡ t ∷ [])
    only [] p h = absurd p
    only (u ∷ []) (inl e) h = (omega (arith, h), ap (λ u. u ∷ []) (sym e))
    only (u ∷ []) (inr p) h = absurd p
    only (u ∷ v ∷ ts) p h = absurd (omega (arith, h))

pub clear-one : (t : Timer) {ts : List Timer} → ts ≡ t ∷ [] → clear_timeout (some t.id) ts ≡ []
unfolding clear_timeout
clear-one t e = rw e (ground arith)

length-select : (p : Timer → Bool) (ts : List Timer) → length (select p ts) ≤ length ts
length-select p [] = omega arith
length-select p (t ∷ ts) = ground (arith, length-select p ts)

length-clear : (ref : Option ℕ) (ts : List Timer) → length (clear_timeout ref ts) ≤ length ts
unfolding clear_timeout
length-clear none ts = omega arith
length-clear (some id) ts = length-select _ ts

idle_lem :
    (s : TxState) (message : Option Units) {calls : ℕ} {timers : List Timer} (ref : Option ℕ)
    → is_idle s ≡ true
    → Waits s message calls timers ref
    → (calls ≡ 0) × (timers ≡ [])
idle_lem idle message ref i h = h
idle_lem verifying message ref i h = ground arith
idle_lem awaiting message ref i h = ground arith
idle_lem confirming message ref i h = ground arith
idle_lem success message ref i h = ground arith
idle_lem error message ref i h = ground arith

begin_lem :
    (o : Options) (net : Network) (p : Phase) (f : Flow)
    → is_idle f.state ≡ true
    → (f.in_flight ≡ 0) × (f.timers ≡ [])
    → IsCoherent (opened p (run o net f))
unfolding run refuse transition set_timeout
begin_lem o net p f quiet (free, none_left) = elim (Bool-cases net.mismatch) [
  | inl mismatch ↦
      rw (quiet, mismatch)
        record {
          waits = λ m. (free, set_lem false _ _ none_left (inr (refl, net.name, refl)));
          alone = rw (free, none_left) (omega arith);
        }
  | inr fits ↦
      rw (quiet, fits)
        record {
          waits = λ m. Waits-phase p _ _ (omega (arith, free)) none_left;
          alone = rw (free, none_left) (omega arith);
        }
]

run-IsCoherent :
    (o : Options) (net : Network) (p : Phase) (f : Flow)
    → f.mounted ≡ true
    → IsCoherent f
    → IsCoherent (opened p (run o net f))
unfolding run refuse transition set_timeout
run-IsCoherent o net p f m h = elim (Bool-cases (is_idle f.state)) [
  | inr busy ↦ rw busy h
  | inl quiet ↦ begin_lem o net p f quiet (idle_lem f.state f.message f.timer_ref quiet (h.waits m))
]

Step-IsCoherent : {f g : Flow} → Step f g → IsCoherent f → IsCoherent g
unfolding transition complete collapse set_timeout fire unmount
Step-IsCoherent (call o net p m) h = run-IsCoherent o net p _ m h
Step-IsCoherent (report p busy) h =
    let (one, none_left) = busy_lem h busy in
    record { waits = λ m. Waits-phase p _ _ one none_left; alone = h.alone }
Step-IsCoherent {f} (fulfil o r busy) h =
    let (one, none_left) = busy_lem h busy in
    record {
      waits = λ m. (omega (arith, one), set_lem true f.message _ none_left refl);
      alone = omega (arith, one, h.alone);
    }
Step-IsCoherent (reject o net e busy) h =
    let (one, none_left) = busy_lem h busy in
    record {
      waits = λ m. (omega (arith, one), set_lem false _ _ none_left (inl refl));
      alone = omega (arith, one, h.alone);
    }
Step-IsCoherent (elapse t p) h =
    let (free, only) = pending_lem h p in
    record {
      waits = λ m. (free, clear-one t only);
      alone = rw (free, clear-one t only) (omega arith);
    }
Step-IsCoherent {f} (leave m) h = record {
  waits = λ m'. ground arith;
  alone = omega (arith, h.alone, length-clear f.timer_ref f.timers);
}

new-IsCoherent : IsCoherent new
new-IsCoherent = record { waits = λ m. (refl, refl); alone = omega arith }

pub Reach-IsCoherent : {f : Flow} → Reach new f → IsCoherent f
Reach-IsCoherent here = new-IsCoherent
Reach-IsCoherent (next r step) = Step-IsCoherent step (Reach-IsCoherent r)

-- What a flow waits for, whether its component is mounted or not.
abbrev pub Expects : Bool → TxState → Option Units → ℕ → List Timer → Option ℕ → Type 0
Expects true state message calls timers ref = Waits state message calls timers ref
Expects false state message calls timers ref = calls + length timers ≤ 1

either_way :
    (b : Bool) (state : TxState) (message : Option Units) (calls : ℕ) (timers : List Timer)
    (ref : Option ℕ)
    → (b ≡ true → Waits state message calls timers ref)
    → calls + length timers ≤ 1
    → Expects b state message calls timers ref
either_way true state message calls timers ref waits alone = waits refl
either_way false state message calls timers ref waits alone = alone

-- Whatever the order of the events (where the callback of a call reports a phase before its first
-- wait), while the component is mounted the state says what the flow waits for: an idle flow for
-- nothing; a flow that verifies, awaits or confirms for its one call, with no timer set; one that
-- shows a success for the one timer that `timerRef` names, which calls `onSettled("success")`, with
-- no call in flight; one that shows an error in the same way for one timer, which calls
-- `onSettled("error")`, unless the message says that the wallet is on another network, where it may
-- call nothing. Once the component is unmounted, at most one call is in flight or one timer is set.
pub Reach-Expects :
    {f : Flow} → Reach new f → Expects f.mounted f.state f.message f.in_flight f.timers f.timer_ref
Reach-Expects {f} r =
    let coherent = Reach-IsCoherent r in
    either_way f.mounted _ _ _ _ _ coherent.waits coherent.alone
