-- ===== src/TxFlow/Errors.antt =====
-- dapp/src/lib/errors.ts, dapp/src/lib/contractErrors.ts and `errorMessage` of dapp/src/lib/utils.ts:
-- the sentence that a failed transaction shows. A text is its list of UTF-16 units.
use sentinel_soroban_v.Base.{
  ℕ, zero, suc, String, Bool, true, false, ◌&&◌, ◌||◌, Option, none, some, List, [], ◌∷◌, ◌++◌, map,
  ◌==◌, ltb, if◌then◌else◌, length, take, find,
}
use sentinel_soroban_v.Base.Text.{codes, is_prefix, occurs, to_lower}
use sentinel_soroban_v.Money.{Units, is_space, drop_start, span_digits, value}
use sentinel_soroban_v.TxFlow.Numbers.{to_double, number_text}

-- what a promise is rejected with
pub data Thrown : Type 0 where
  raised : Units → Thrown
  text : Units → Thrown
  object : Units → Thrown
  other : Thrown

unfoldable pub error_message : Thrown → Units → Units
error_message (raised message) fallback = message
error_message (text []) fallback = fallback
error_message (text (c ∷ s)) fallback = c ∷ s
error_message (object message) fallback = message
error_message other fallback = fallback

pub record ContractErrorInfo : Type 0 where
  pub message : String
  pub action : Option String
  pub transient : Bool

abbrev pub info : String → Option String → Bool → ContractErrorInfo
info message action transient = record { message = message; action = action; transient = transient }

-- the entries of `CONTRACT_ERRORS`
pub record Entry : Type 0 where
  pub number : ℕ
  pub about : ContractErrorInfo

abbrev pub entry : ℕ → ContractErrorInfo → Entry
entry number about = record { number = number; about = about }

unfoldable pub contract_errors : List Entry
contract_errors =
    entry 100
      (info "Your wallet doesn't hold enough USDC for this amount." (some "Top it up first.") false)
    ∷ entry 101 (
        info "The USDC spending allowance for this action is too small."
          (some "Retry the flow from the start so it can request a fresh approval.") true)
    ∷ entry 103
        (info "The amount must be greater than zero." (some "Enter a positive amount.") false)
    ∷ entry 104 (info "That amount is too large to process." (some "Try a smaller amount.") false)
    ∷ entry 306 (
        info "This wallet isn't on the buyer allowlist."
          (some "The allowlist is admin-managed — ask an operator to add your address.") false)
    ∷ entry 307 (
        info "This route has been paused."
          (some "Pausing is automatic and temporary — try another route, or check back shortly.")
          true)
    ∷ entry 308 (info "This route isn't offered." (some "Pick a route from the board.") false)
    ∷ entry 309 (
        info "This flight departs too soon to insure."
          (some "Cover closes 24 hours before departure. Choose a later date.") false)
    ∷ entry 310
        (info "That departure is too far ahead to insure yet." (some "Choose a nearer date.") false)
    ∷ entry 311 (
        info "This flight already has a recorded outcome, so cover is closed."
          (some "Pick a different flight or date.") false)
    ∷ entry 312 (
        info "The vault doesn't have enough free capital to back this policy right now."
          (some
            "Every policy is fully collateralized at purchase, so cover pauses when the vault is fully committed. Try again once an underwriter deposits or existing policies settle.")
          true)
    ∷ entry 313
        (info "That flight date isn't valid." (some "Pick the date again from the calendar.") false)
    ∷ entry 315 (
        info "Flight data is temporarily unavailable for this route."
          (some "Try again in a few minutes.") true)
    ∷ entry 319 (
        info "The sale window for this flight isn't open."
          (some
            "Cover is authorized per flight at purchase time. Reopen the slip to retry, or pick another flight.")
          true)
    ∷ entry 320 (
        info "This flight's terms no longer pass the protocol's limits."
          (some "Pick another flight — an operator has to re-price this one.") false)
    ∷ entry 405 (info "This flight is no longer accepting policies." none false)
    ∷ entry 410 (
        info "The terms changed while you were buying."
          (some "Reopen the slip to load the current price and try again.") true)
    ∷ entry 411 (
        info "You already hold a policy for this flight and date."
          (some "One policy per flight per wallet. Check My Policies.") false)
    ∷ entry 702 (info "Only the controller can perform that action." none false)
    ∷ entry 704 (
        info "That deposit would exceed the vault's managed limit." (some "Try a smaller amount.")
          false)
    ∷ []

abbrev pub with_action : Units → Option String → Units
with_action message none = message
with_action message (some action) = message ++ (codes " " ++ codes action)

-- `info.action ? `${info.message} ${info.action}` : info.message`
unfoldable pub describe : ContractErrorInfo → Units
describe about = with_action (codes about.message) about.action

-- `describeContractError`
abbrev pub sentence : Option Entry → Option Units
sentence none = none
sentence (some e) = some (describe e.about)

unfoldable pub describe_contract_error : ℕ → Option Units
unfolding describe contract_errors
describe_contract_error n = sentence (find (λ e. e.number == n) contract_errors)

-- `/word/i.test(raw)`, for a `word` in lower case
unfoldable pub reads : String → Units → Bool
unfolding occurs to_lower
reads word raw = occurs (codes word) (map to_lower raw)

abbrev pub declines : Units → Bool
declines s =
    is_prefix (codes "decl") s || (is_prefix (codes "denied") s || is_prefix (codes "reject") s)

-- `user` is read: `\s+(decl|denied|reject)`
unfoldable pub after_user : Units → Bool
unfolding drop_start is_prefix
after_user [] = false
after_user (c ∷ s) = is_space c && declines (drop_start is_space s)

unfoldable pub drop : ℕ → Units → Units
drop zero s = s
drop (suc n) [] = []
drop (suc n) (c ∷ s) = drop n s

-- `/user\s+(decl|denied|reject)/`
unfoldable pub user_declines : Units → Bool
unfolding is_prefix after_user drop
user_declines [] = false
user_declines (c ∷ s) =
    (is_prefix (codes "user") (c ∷ s) && after_user (drop 3 s)) || user_declines s

unfoldable pub is_decline : Units → Bool
unfolding reads user_declines to_lower
is_decline raw =
    user_declines (map to_lower raw)
    || (reads "declin" raw
        || (reads "denied" raw
            || (reads "rejected by user" raw
                || (reads "cancelled by" raw || reads "canceled by" raw))))

-- the digits of a code are read, and what follows them is left: a `)` closes it
unfoldable pub closed_code : Units × Units → Option ℕ
unfolding to_double value
closed_code ([], rest) = none
closed_code (c ∷ run, []) = none
closed_code (c ∷ run, d ∷ rest) = if d == b')' then some (to_double (value (c ∷ run))) else none

abbrev pub opening : Units
opening = codes "Error(Contract, #"

unfoldable pub code_at : Units → Option ℕ
unfolding is_prefix drop span_digits closed_code
code_at s =
    if is_prefix opening s then closed_code (span_digits (drop (length opening) s)) else none

abbrev pub or_later : Option ℕ → Option ℕ → Option ℕ
or_later (some n) later = some n
or_later none later = later

-- `raw.match(/Error\(Contract, #(\d+)\)/)`, with the number of the group
unfoldable pub contract_code : Units → Option ℕ
unfolding code_at
contract_code [] = none
contract_code (c ∷ s) = or_later (code_at (c ∷ s)) (contract_code s)

abbrev pub declined_text : Units
declined_text = codes "Signature request was declined in the wallet."

unfoldable pub or_number : ℕ → Option Units → Units
unfolding number_text
or_number n (some described) = described
or_number n none =
    codes "The contract rejected this transaction (error #" ++ (number_text n ++ codes ").")

abbrev pub poor_text : Units
poor_text = codes "Your wallet doesn't have enough USDC for this transaction."

abbrev pub sequence_text : Units
sequence_text = codes "Transaction sequence error — wait a moment and try again."

abbrev pub timeout_text : Units
timeout_text =
    codes
      "The network timed out — the transaction may not have gone through. Check your balance before retrying."

-- the tests behind the one for a code
unfoldable pub humanize_other : Units → Units
unfolding reads
humanize_other raw =
    if reads "insufficient" raw
      || (reads "underfunded" raw || reads "balance is not sufficient" raw)
    then poor_text
    else if reads "txbadseq" raw || reads "bad_seq" raw
    then sequence_text
    else if reads "timeout" raw || reads "timed out" raw
    then timeout_text
    else if ltb 160 (length raw)
    then take 157 raw ++ codes "…"
    else raw

unfoldable pub humanize_code : Units → Option ℕ → Units
unfolding or_number describe_contract_error humanize_other
humanize_code raw (some n) = or_number n (describe_contract_error n)
humanize_code raw none = humanize_other raw

-- `humanizeTxError`, of the message
unfoldable pub humanize : Units → Units
unfolding is_decline contract_code humanize_code
humanize raw = if is_decline raw then declined_text else humanize_code raw (contract_code raw)

abbrev pub fallback_of : Option Units → Units
fallback_of none = codes "Transaction failed"
fallback_of (some fallback) = fallback

-- `humanizeTxError`
unfoldable pub humanize_tx_error : Thrown → Option Units → Units
unfolding error_message humanize
humanize_tx_error thrown fallback = humanize (error_message thrown (fallback_of fallback))
