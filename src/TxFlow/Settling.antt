-- ===== src/TxFlow/Settling.antt =====
-- dapp/src/hooks/useTxFlow.ts: the calls of `onSettled`, and what the unmount leaves.
use sentinel_soroban_v.Base.{
  ℕ, suc, ◌+◌, ◌<◌, Bool, true, false, Option, none, some, List, [], ◌∷◌, ◌≡◌, refl, ap, subst, ◌∙◌,
  inl, inr, arith, count, if◌then◌else◌,
}
use sentinel_soroban_v.Money.{Units}
use sentinel_soroban_v.TxFlow.{
  Outcome, TxState, idle, verifying, awaiting, confirming, success, error, succeeded, Timer, Flow,
  Options, Network, Success, new, transition, set_timeout, clear_timeout, run, complete, fire,
  unmount,
}
use sentinel_soroban_v.TxFlow.Relation.{
  IsPending, Step, call, report, fulfil, reject, elapse, leave, Reach, here, next,
}
use sentinel_soroban_v.TxFlow.Invariant.{
  Waits, HasTimer, Fits, busy_lem, clear-one, Reach-IsCoherent,
}
use sentinel_soroban_v.TxFlow.Balance.{
  for_success, settled, fire-balance, complete-settled, complete-waiting,
}

-- A state that shows how a call ended.
abbrev pub is_shown : TxState → Bool
is_shown success = true
is_shown error = true
is_shown _ = false

abbrev pub is_success : TxState → Bool
is_success success = true
is_success _ = false

timer_of :
    (s : TxState) (message : Option Units) {calls : ℕ} {timers : List Timer} {ref : Option ℕ}
    → is_shown s ≡ true
    → Waits s message calls timers ref
    → (calls ≡ 0) × HasTimer (is_success s) message timers ref
timer_of idle message i h = ground arith
timer_of verifying message i h = ground arith
timer_of awaiting message i h = ground arith
timer_of confirming message i h = ground arith
timer_of success message i h = h
timer_of error message i h = h

fits_lem :
    (won : Bool) (message : Option Units) (settles : Option Outcome)
    → Fits won message settles
    → for_success settles ≡ won
fits_lem true message settles e = rw e refl
fits_lem false message settles (inl e) = rw e refl
fits_lem false message settles (inr (e, name, named)) = rw e refl

fire-settled :
    (t : Timer) (f : Flow) (b : Bool)
    → f.timers ≡ t ∷ []
    → for_success t.settles ≡ b
    → settled (fire t f) ≡ settled f + (if b then 1 else 0)
fire-settled t f b only won = (fire-balance t f only).0 ∙ rw only (ground (arith, won))

run-fire :
    (o : Options) (net : Network) (t : Timer) (f : Flow)
    → net.mismatch ≡ false
    → (run o net (fire t f)).0 ≡ true
unfolding run fire transition
run-fire o net t f fits = rw fits refl

-- A mounted flow that shows a success or an error, however it came there, has a timer that takes it
-- back: once it fires, the flow is idle with no timer left, `onSettled("success")` was called once
-- more after a success and not after an error, and the next call of `run` reaches its callback, for
-- a wallet that is not on another network.
pub Reach-resets :
    {f : Flow} (o : Options) (net : Network)
    → Reach new f
    → f.mounted ≡ true
    → is_shown f.state ≡ true
    → net.mismatch ≡ false
    → (t : Timer) × IsPending t f.timers
      × ((fire t f).state ≡ idle)
      × ((fire t f).timers ≡ [])
      × (settled (fire t f) ≡ settled f + (if is_success f.state then 1 else 0))
      × ((run o net (fire t f)).0 ≡ true)
unfolding fire transition
Reach-resets {f} o net r m shown fits =
    let (free, (t, only, ref, won)) =
      timer_of f.state f.message shown ((Reach-IsCoherent r).waits m) in
    (
      t,
      rw only (inl refl),
      refl,
      clear-one t only,
      fire-settled t f (is_success f.state) only (fits_lem _ f.message t.settles won),
      run-fire o net t f fits,
    )

clear-none : (ref : Option ℕ) {ts : List Timer} → ts ≡ [] → clear_timeout ref ts ≡ []
unfolding clear_timeout
clear-none none e = e
clear-none (some id) e = rw e refl

unmount-timers :
    (s : TxState) (message : Option Units) (calls : ℕ) (timers : List Timer) (ref : Option ℕ)
    → calls ≡ 0
    → Waits s message calls timers ref
    → clear_timeout ref timers ≡ []
unmount-timers idle message calls timers ref free w = clear-none ref w.1
unmount-timers verifying message calls timers ref free w = absurd (omega (arith, free, w.0))
unmount-timers awaiting message calls timers ref free w = absurd (omega (arith, free, w.0))
unmount-timers confirming message calls timers ref free w = absurd (omega (arith, free, w.0))
unmount-timers success message calls timers ref free (_, (t, only, named, won)) =
    rw named (clear-one t only)
unmount-timers error message calls timers ref free (_, (t, only, named, won)) =
    rw named (clear-one t only)

-- A flow that is unmounted while no call is in flight is left with no event: no timer fires later,
-- and `onSettled` is not called.
pub unmount-quiet :
    {f g : Flow} → Reach new f → f.mounted ≡ true → f.in_flight ≡ 0 → ¬ Step (unmount f) g
unfolding unmount
unmount-quiet r m free (call o net p m') = ground arith
unmount-quiet r m free (report p busy) = omega (arith, free, busy)
unmount-quiet r m free (fulfil o s busy) = omega (arith, free, busy)
unmount-quiet r m free (reject o net e busy) = omega (arith, free, busy)
unmount-quiet r m free (leave m') = ground arith
unmount-quiet {f} r m free (elapse t p) =
    subst (IsPending t)
      (unmount-timers f.state f.message f.in_flight f.timers f.timer_ref free
        ((Reach-IsCoherent r).waits m))
      p

-- the timer that a success sets
abbrev success_timer : Options → Flow → Timer
success_timer o f = record { id = f.next_id; settles = some succeeded; delay_ms = o.reset_delay_ms }

set_alone :
    (o : Options) (r : Success) (f : Flow)
    → f.timers ≡ []
    → (complete o r f).timers ≡ success_timer o f ∷ []
unfolding complete transition set_timeout
set_alone o r f none_left = rw none_left refl

fire-complete :
    (o : Options) (r : Success) (f : Flow)
    → f.timers ≡ []
    → settled (fire (success_timer o f) (complete o r f)) ≡ suc (settled f)
fire-complete o r f none_left =
    let (moved, gone) =
      fire-balance (success_timer o f) (complete o r f) (set_alone o r f none_left) in
    omega (
      arith,
      moved,
      complete-settled o r f,
      complete-waiting o r f,
      ap (count (λ t. for_success t.settles)) none_left,
    )

-- A flow that is unmounted while a call is in flight: where the call then succeeds, a timer for the
-- success is pending all the same, the events lead on to the flow in which it has fired, still
-- unmounted, and `onSettled("success")` has then been called once more than before the unmount.
pub unmount-late :
    {f : Flow} (o : Options) (r : Success)
    → Reach new f
    → f.mounted ≡ true
    → 0 < f.in_flight
    → let late = complete o r (unmount f) in
      (t : Timer) × IsPending t late.timers
      × (t.settles ≡ some succeeded)
      × Reach (unmount f) (fire t late)
      × ((fire t late).mounted ≡ false)
      × (settled (fire t late) ≡ suc (settled f))
unfolding unmount complete fire transition set_timeout
unmount-late {f} o r reach m busy =
    let (one, none_left) = busy_lem (Reach-IsCoherent reach) busy in
    let gone = unmount f in
    (
      success_timer o gone,
      inl refl,
      refl,
      next (next here (fulfil o r busy)) (elapse (success_timer o gone) (inl refl)),
      refl,
      fire-complete o r gone (rw none_left (clear-none f.timer_ref refl)),
    )
