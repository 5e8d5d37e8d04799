-- ===== src/Tests/TxFlowTests.antt =====
-- Tests and instances for TxFlow.
use sentinel_soroban_v.Base.{
  true, false, none, some, [], ◌∷◌, ◌++◌, ◌≡◌, refl, suc, arith, ◌+◌, if◌then◌else◌,
}
use sentinel_soroban_v.Base.Text.{codes, occurs}
use sentinel_soroban_v.Money.{to_string}
use sentinel_soroban_v.TxFlow.{
  idle, succeeded, Timer, Flow, Options, Network, Success, new, transition, set_timeout, run,
  complete, collapse, fire, unmount,
}
use sentinel_soroban_v.TxFlow.Errors.{
  raised, text, is_decline, humanize_tx_error, describe_contract_error,
}
use sentinel_soroban_v.TxFlow.Relation.{
  IsPending, building, opened, Step, call, fulfil, Reach, here, next,
}
use sentinel_soroban_v.TxFlow.Invariant.{Expects, Reach-Expects}
use sentinel_soroban_v.TxFlow.Balance.{settled, waiting, announced, Balances, Reach-Balances}
use sentinel_soroban_v.TxFlow.Settling.{is_success, Reach-resets, unmount-quiet, unmount-late}
use sentinel_soroban_v.TxFlow.Codes.{with_code, humanize_tx_error-code}

abbrev options : Options
options = record {
  invalidate_keys = (codes "vault" ∷ []) ∷ (codes "usdc" ∷ []) ∷ [];
  error_fallback = none;
  notify_error = false;
  reset_delay_ms = 1500;
  error_reset_delay_ms = 3000;
}

abbrev mainnet : Network
mainnet = record { mismatch = false; unverified = false; name = codes "PUBLIC" }

abbrev bought : Success
bought = record { message = some (codes "Cover bought"); tx_hash = none }

abbrev signing : Flow
signing = opened building (run options mainnet new)

abbrev ended : Flow
ended = complete options bought signing

signing-Reach : Reach new signing
signing-Reach = next here (call options mainnet building refl)

ended-Reach : Reach new ended
unfolding run transition
ended-Reach = next signing-Reach (fulfil options bought (omega arith))

-- A call that fails before it is signed, on a wallet that does not report its network.
declined_text :
    (collapse options mainnet (text (codes "User declined access")) signing).message
    ≡ some (codes "Signature request was declined in the wallet.")
unfolding collapse transition set_timeout
declined_text = refl

-- A contract's code behind a word that the test for a declined signature reads.
denied_with_code :
    humanize_tx_error (raised (codes "denied: Error(Contract, #312)")) none
    ≡ codes "Signature request was declined in the wallet."
unfolding humanize_tx_error
denied_with_code = refl

Reach-Expects_example :
    Expects ended.mounted ended.state ended.message ended.in_flight ended.timers ended.timer_ref
Reach-Expects_example = Reach-Expects ended-Reach

Reach-Balances_example : Balances ended.mounted (settled ended) (waiting ended) (announced ended)
Reach-Balances_example = Reach-Balances ended-Reach

Reach-resets_example :
    (t : Timer) × IsPending t ended.timers
    × ((fire t ended).state ≡ idle)
    × ((fire t ended).timers ≡ [])
    × (settled (fire t ended) ≡ settled ended + (if is_success ended.state then 1 else 0))
    × ((run options mainnet (fire t ended)).0 ≡ true)
unfolding complete run transition set_timeout
Reach-resets_example = Reach-resets options mainnet ended-Reach refl refl refl

unmount-quiet_example : ¬ Step (unmount ended) ended
unfolding complete run transition set_timeout
unmount-quiet_example = unmount-quiet ended-Reach refl refl

unmount-late_example :
    let late = complete options bought (unmount signing) in
    (t : Timer) × IsPending t late.timers
    × (t.settles ≡ some succeeded)
    × Reach (unmount signing) (fire t late)
    × ((fire t late).mounted ≡ false)
    × (settled (fire t late) ≡ suc (settled signing))
unfolding run transition
unmount-late_example = unmount-late options bought signing-Reach refl (omega arith)

humanize_tx_error-code_example :
    humanize_tx_error (raised (codes "HostError: " ++ with_code 312 (codes " insufficient"))) none
    ≡ (elim (describe_contract_error 312) [
      | some described ↦ described
      | none ↦
          codes "The contract rejected this transaction (error #" ++ (to_string 312 ++ codes ").")
    ])
unfolding occurs is_decline to_string
humanize_tx_error-code_example =
    humanize_tx_error-code 312 (codes "HostError: ") (codes " insufficient") none (omega arith) refl
      refl
