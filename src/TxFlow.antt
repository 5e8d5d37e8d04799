-- ===== src/TxFlow.antt =====
-- dapp/src/hooks/useTxFlow.ts: the state machine of a signing flow.
pub mod Numbers
pub mod Errors
pub mod Relation
pub mod Invariant
pub mod Balance
pub mod Settling
pub mod Codes
use sentinel_soroban_v.Base.{
  ℕ, zero, suc, ◌+◌, ◌-◌, Bool, true, false, not, ◌&&◌, ◌||◌, Option, none, some, List, [], ◌∷◌,
  ◌++◌, ◌==◌, if◌then◌else◌, select, any, or_else, is_some, map,
}
use sentinel_soroban_v.Base.Text.{codes, is_prefix}
use sentinel_soroban_v.Money.{Units}
use sentinel_soroban_v.TxFlow.Errors.{Thrown, humanize_tx_error}

-- `TxState` of dapp/src/types.ts
pub data TxState : Type 0 where
  idle : TxState
  verifying : TxState
  awaiting : TxState
  confirming : TxState
  success : TxState
  error : TxState

pub data Outcome : Type 0 where
  succeeded : Outcome
  failed : Outcome

-- what a flow does outside its own state, a call of `onSettled` included
pub data Effect : Type 0 where
  toast_error : Units → Effect
  toast_success : Units → Option Units → Effect
  announce : Effect
  invalidate : List Units → Effect
  settle : Outcome → Effect

-- a timeout that is set, with the outcome for which it calls `onSettled`
pub record Timer : Type 0 where
  pub id : ℕ
  pub settles : Option Outcome
  pub delay_ms : ℕ

-- `state` stands for `stateRef.current` too; `in_flight` counts the calls whose callback runs
pub record Flow : Type 0 where
  pub state : TxState
  pub message : Option Units
  pub timers : List Timer
  pub timer_ref : Option ℕ
  pub next_id : ℕ
  pub in_flight : ℕ
  pub mounted : Bool
  pub effects : List Effect

-- `TxFlowOptions`
pub record Options : Type 0 where
  pub invalidate_keys : List (List Units)
  pub error_fallback : Option Units
  pub notify_error : Bool
  pub reset_delay_ms : ℕ
  pub error_reset_delay_ms : ℕ

-- what `useWallet` says, and the name of the network of the application
pub record Network : Type 0 where
  pub mismatch : Bool
  pub unverified : Bool
  pub name : Units

-- `TxFlowResult`, with no message for a result that is not there
pub record Success : Type 0 where
  pub message : Option Units
  pub tx_hash : Option Units

abbrev pub new : Flow
new = record {
  state = idle;
  message = none;
  timers = [];
  timer_ref = none;
  next_id = 0;
  in_flight = 0;
  mounted = true;
  effects = [];
}

-- `stateRef.current !== "idle"`, negated
abbrev pub is_idle : TxState → Bool
is_idle idle = true
is_idle _ = false

unfoldable pub transition : TxState → Flow → Flow
transition state f = record f { state = state }

abbrev pub emit : Effect → Flow → Flow
emit e f = record f { effects = e ∷ f.effects }

-- `timerRef.current = setTimeout(…, delay)`
unfoldable pub set_timeout : Option Outcome → ℕ → Flow → Flow
set_timeout settles delay f = record f {
  timers = record { id = f.next_id; settles = settles; delay_ms = delay } ∷ f.timers;
  timer_ref = some f.next_id;
  next_id = f.next_id + 1;
}

-- `clearTimeout(id)`, which does nothing for a timer that has fired
unfoldable pub clear_timeout : Option ℕ → List Timer → List Timer
clear_timeout none timers = timers
clear_timeout (some id) timers = select (λ t. not (t.id == id)) timers

abbrev pub mismatch_text : Units → Units
mismatch_text network =
    codes "Your wallet is on a different network than this app ("
    ++ (network ++ codes "). Switch networks before signing.")

-- the branch of `run` for a wallet on another network
unfoldable pub refuse : Options → Network → Flow → Flow
unfolding transition set_timeout
refuse o net f =
    let text = mismatch_text net.name in
    set_timeout none o.error_reset_delay_ms
      (emit (toast_error text) (transition error (record f { message = some text })))

-- `run` up to the call of its callback, and whether it came to it
unfoldable pub run : Options → Network → Flow → Bool × Flow
unfolding refuse
run o net f =
    if not (is_idle f.state)
    then (false, f)
    else if net.mismatch
    then (false, refuse o net f)
    else (true, record f { message = none; in_flight = f.in_flight + 1 })

-- `if (result?.message) addNotification(…)`
unfoldable pub toasts : Option Units → Option Units → List Effect → List Effect
toasts none hash effects = effects
toasts (some []) hash effects = effects
toasts (some (c ∷ text)) hash effects = toast_success (c ∷ text) hash ∷ effects

-- `for (const key of invalidateKeys) void queryClient.invalidateQueries(…)`
unfoldable pub invalidations : List (List Units) → List Effect → List Effect
invalidations [] effects = effects
invalidations (key ∷ rest) effects = invalidations rest (invalidate key ∷ effects)

-- the callback's promise is fulfilled
unfoldable pub complete : Options → Success → Flow → Flow
unfolding transition toasts invalidations set_timeout
complete o r f = set_timeout (some succeeded) o.reset_delay_ms (
    transition success (record f {
      in_flight = f.in_flight - 1;
      effects = invalidations o.invalidate_keys (toasts r.message r.tx_hash (announce ∷ f.effects));
    }))

abbrev pub hint : Units → Units
hint network =
    codes " (Tip: this wallet doesn't report its network — check that it's on "
    ++ (network ++ codes ".)")

-- the message of a failure, with the hint for a wallet that does not report its network
unfoldable pub failure_text : Options → Network → Thrown → Units
unfolding humanize_tx_error is_prefix
failure_text o net thrown =
    let message = humanize_tx_error thrown o.error_fallback in
    if net.unverified && not (is_prefix (codes "Signature request was declined") message)
    then message ++ hint net.name
    else message

-- the callback's promise is rejected
unfoldable pub collapse : Options → Network → Thrown → Flow → Flow
unfolding failure_text transition set_timeout
collapse o net thrown f =
    let text = failure_text o net thrown in
    set_timeout (some failed) o.error_reset_delay_ms (
      transition error (record f {
        message = some text;
        in_flight = f.in_flight - 1;
        effects = if o.notify_error then toast_error text ∷ f.effects else f.effects;
      }))

abbrev pub settlements : Option Outcome → List Effect → List Effect
settlements none effects = effects
settlements (some outcome) effects = settle outcome ∷ effects

-- a timer fires: it is gone, and its handler runs
unfoldable pub fire : Timer → Flow → Flow
unfolding transition clear_timeout
fire t f = transition idle (record f {
  timers = clear_timeout (some t.id) f.timers;
  effects = settlements t.settles f.effects;
})

-- the cleanup of the effect: `clearTimeout(timerRef.current)`
unfoldable pub unmount : Flow → Flow
unfolding clear_timeout
unmount f = record f { timers = clear_timeout f.timer_ref f.timers; mounted = false }
