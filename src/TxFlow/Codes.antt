-- ===== src/TxFlow/Codes.antt =====
-- dapp/src/lib/errors.ts: the code of a contract in the text of a failure.
use sentinel_soroban_v.Base.{
  ℕ, Bool, true, false, ◌&&◌, ◌||◌, Option, none, some, [], ◌∷◌, ◌++◌, ◌≡◌, ◌<◌, ltb, if◌then◌else◌,
  refl, ap, ◌==◌, all, not, arith, Bool-cases, inl, inr,
}
use sentinel_soroban_v.Base.Text.{codes, is_prefix, occurs}
use sentinel_soroban_v.Money.{Units, is_digit, span_digits, is_empty, value, to_string}
use sentinel_soroban_v.Money.Digits.{
  Every, IsDigit, to_string-Digits, value-to_string, to_string-full,
}
use sentinel_soroban_v.TxFlow.Numbers.{exact_below, to_double, large_double, number_text}
use sentinel_soroban_v.TxFlow.Errors.{
  raised, error_message, drop, closed_code, opening, code_at, or_later, contract_code, or_number,
  describe_contract_error, is_decline, humanize, humanize_code, humanize_tx_error,
}

span_digits-close :
    (c : ℕ) (s z : Units)
    → is_digit c ≡ false
    → Every IsDigit s
    → span_digits (s ++ (c ∷ z)) ≡ (s, c ∷ z)
unfolding span_digits
span_digits-close c [] z stop h = rw stop refl
span_digits-close c (d ∷ s) z stop h = rw (span_digits-close c s z stop h.1, h.0) refl

ltb_lem : (n : ℕ) → n < exact_below → ltb n exact_below ≡ true
ltb_lem n small = ground (arith, small)

-- below 2^53 every number is a double
exact_lem : (n : ℕ) → n < exact_below → to_double n ≡ n
unfolding to_double
exact_lem n small = ap (λ b. if b then n else large_double n) (ltb_lem n small)

closed_lem :
    (n : ℕ) (run z : Units)
    → is_empty run ≡ false
    → value run ≡ n
    → n < exact_below
    → closed_code (run, b')' ∷ z) ≡ some n
unfolding closed_code
closed_lem n [] z full e small = ground arith
closed_lem n (c ∷ run) z full e small = ap some (rw e (exact_lem n small))

-- what stands behind the code's opening
abbrev pub with_code : ℕ → Units → Units
with_code n after = opening ++ (to_string n ++ (b')' ∷ after))

code_at-with : (n : ℕ) (after : Units) → n < exact_below → code_at (with_code n after) ≡ some n
unfolding code_at is_prefix drop
code_at-with n after small =
    rw (span_digits-close b')' (to_string n) after refl (to_string-Digits n))
      (closed_lem n (to_string n) after (to_string-full n) (value-to_string n) small)

-- A word without the letter `c` is not read beyond a text that `c` follows.
is_prefix-short :
    (c : ℕ) (w s z : Units)
    → all (λ x. not (x == c)) w ≡ true
    → is_prefix w (s ++ (c ∷ z)) ≡ true
    → is_prefix w s ≡ true
unfolding is_prefix
is_prefix-short c [] s z free h = refl
is_prefix-short c (x ∷ w) [] z free h = ground arith
is_prefix-short c (x ∷ w) (y ∷ s) z free h = ground (arith, is_prefix-short c w s z)

-- `opening` behind its first letter
abbrev body : Units
body = codes "rror(Contract, #"

not_opening :
    (c : ℕ) (s z : Units)
    → is_prefix opening (c ∷ s) ≡ false
    → is_prefix opening (c ∷ (s ++ (b'E' ∷ z))) ≡ false
unfolding is_prefix
not_opening c s z h = elim (Bool-cases (is_prefix body (s ++ (b'E' ∷ z)))) [
  | inl read ↦
      let within = is_prefix-short b'E' body s z refl read in
      head_lem (b'E' == c) (is_prefix body s) _ within h
  | inr other ↦ rw other (and_false (b'E' == c))
]
  where
    head_lem : (a b d : Bool) → b ≡ true → (a && b) ≡ false → (a && d) ≡ false
    head_lem a b d h e = ground arith

    and_false : (a : Bool) → (a && false) ≡ false
    and_false true = refl
    and_false false = refl

code_at-no :
    (c : ℕ) (s z : Units)
    → is_prefix opening (c ∷ s) ≡ false
    → code_at (c ∷ (s ++ (b'E' ∷ z))) ≡ none
unfolding code_at
code_at-no c s z h = rw (not_opening c s z h) refl

or_later_lem : {o : Option ℕ} (n : ℕ) (later : Option ℕ) → o ≡ some n → or_later o later ≡ some n
or_later_lem n later e = rw e refl

contract_code-after :
    (n : ℕ) (before after : Units)
    → n < exact_below
    → occurs opening before ≡ false
    → contract_code (before ++ with_code n after) ≡ some n
unfolding contract_code occurs
contract_code-after n [] after small h =
    or_later_lem n (contract_code (body ++ (to_string n ++ (b')' ∷ after))))
      (code_at-with n after small)
contract_code-after n (c ∷ before) after small h =
    rw (code_at-no c before _ (left_lem _ _ h))
      (contract_code-after n before after small (right_lem _ _ h))
  where
    left_lem : (a b : Bool) → (a || b) ≡ false → a ≡ false
    left_lem a b h = ground arith

    right_lem : (a b : Bool) → (a || b) ≡ false → b ≡ false
    right_lem a b h = ground arith

number_lem :
    (n : ℕ)
    → n < exact_below
    → (described : Option Units)
    → or_number n described ≡ (elim described [
      | some described ↦ described
      | none ↦
          codes "The contract rejected this transaction (error #" ++ (to_string n ++ codes ").")
    ])
unfolding or_number number_text
number_lem n small (some described) = refl
number_lem n small none = rw (ltb_lem n small) refl

-- The message of a failed call that names the code of a contract, wherever it stands, behind a text
-- that does not open a code, and unless the message is one of a declined signature, for a code below
-- 2^53: `humanizeTxError` returns the sentence of the table for that code, or the one that names the
-- code, digit by digit, when the table has none. So no test of a more general kind and no cut of a
-- long message hides the code.
pub humanize_tx_error-code :
    (n : ℕ) (before after : Units) (fallback : Option Units)
    → n < exact_below
    → occurs opening before ≡ false
    → is_decline (before ++ with_code n after) ≡ false
    → humanize_tx_error (raised (before ++ with_code n after)) fallback
      ≡ (elim (describe_contract_error n) [
        | some described ↦ described
        | none ↦
            codes "The contract rejected this transaction (error #" ++ (to_string n ++ codes ").")
      ])
unfolding humanize_tx_error humanize error_message humanize_code
humanize_tx_error-code n before after fallback small first signed =
    rw (signed, contract_code-after n before after small first)
      (number_lem n small (describe_contract_error n))
