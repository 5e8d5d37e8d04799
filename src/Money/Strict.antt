-- ===== src/Money/Strict.antt =====
-- The texts that `parseUsdc` takes.
use mathlib.Core.List.{append-nil}
use sentinel_soroban_v.Base.{
  ◌⊎◌, ℕ, ◌+◌, ◌*◌, [], ◌∷◌, ◌++◌, ◌≡◌, refl, sym, ◌∙◌, ap, none, some, true, false, Bool-cases,
  inl, inr, take, not, ◌&&◌, ◌==◌, arith,
}
use sentinel_soroban_v.Money.{
  Units, usdc_divisor, usdc_decimals, value, pad_end, trim, is_empty, is_digit, span_digits,
  match_frac, match_amount, join_amount, parse_usdc,
}
use sentinel_soroban_v.Money.Digits.{Every, IsDigit}

span_digits-append : (s : Units) → (span_digits s).0 ++ (span_digits s).1 ≡ s
unfolding span_digits
span_digits-append [] = refl
span_digits-append (c ∷ s) = elim (Bool-cases (is_digit c)) [
  | inl digit ↦ rw digit (ap (λ t. c ∷ t) (span_digits-append s))
  | inr other ↦ rw other refl
]

span_digits-Digits : (s : Units) → Every IsDigit (span_digits s).0
unfolding span_digits
span_digits-Digits [] = tt
span_digits-Digits (c ∷ s) = elim (Bool-cases (is_digit c)) [
  | inl digit ↦ rw digit (digit, span_digits-Digits s)
  | inr other ↦ rw other tt
]

is_empty-nil : (s : Units) → is_empty s ≡ true → s ≡ []
is_empty-nil [] h = refl
is_empty-nil (c ∷ s) h = cc

join_amount-full :
    (whole frac : Units) → is_empty frac ≡ false → join_amount whole frac ≡ whole ++ (b'.' ∷ frac)
unfolding join_amount
join_amount-full whole [] h = cc
join_amount-full whole (c ∷ frac) h = refl

-- what the test of a fraction finds
module _ (c : ℕ) (run rest : Units)
    (passed : (c == b'.' && (not (is_empty run) && is_empty rest)) ≡ true) where
  is_point : c ≡ b'.'
  is_point = ground arith

  run_full : is_empty run ≡ false
  run_full = ground arith

  rest_empty : is_empty rest ≡ true
  rest_empty = ground arith

point_and_run :
    (c : ℕ) (s : Units)
    → (c == b'.' && (not (is_empty (span_digits s).0) && is_empty (span_digits s).1)) ≡ true
    → c ∷ s ≡ b'.' ∷ (span_digits s).0
point_and_run c s passed =
    let (run, rest) = span_digits s in
    let all : s ≡ run =
      sym (span_digits-append s)
      ∙ ap (λ t. run ++ t) (is_empty-nil rest (rest_empty c run rest passed))
      ∙ append-nil run in
    let point : c ≡ b'.' = is_point c run rest passed in cc

-- A rest that matches is what `join_amount` puts behind the whole part.
abbrev Joins : Units → Units → Units → Type 0
Joins whole rest frac =
    (match_frac rest ≡ some frac) × (whole ++ rest ≡ join_amount whole frac) × Every IsDigit frac

match_frac-cases :
    (whole rest : Units) → (match_frac rest ≡ none) ⊎ ((frac : Units) × Joins whole rest frac)
unfolding match_frac join_amount
match_frac-cases whole [] = inr ([], (refl, append-nil whole, tt))
match_frac-cases whole (c ∷ s) =
    let run = (span_digits s).0 in
    let rest = (span_digits s).1 in
    elim (Bool-cases (c == b'.' && (not (is_empty run) && is_empty rest))) [
      | inl passed ↦ inr (
        run,
        (
          rw passed refl,
          ap (λ t. whole ++ t) (point_and_run c s passed)
              ∙ sym (join_amount-full whole run (run_full c run rest passed)),
          span_digits-Digits s,
        ),
      )
      | inr failed ↦ inl (rw failed refl)
    ]

-- The groups of a text that matches.
match_amount-cases :
    (s : Units)
    → (match_amount s ≡ none)
      ⊎ ((whole frac : Units) × (match_amount s ≡ some (whole, frac))
          × (s ≡ join_amount whole frac)
          × Every IsDigit whole
          × Every IsDigit frac)
unfolding match_amount
match_amount-cases s =
    let (whole, rest) = span_digits s in
    elim (match_frac-cases whole rest) [
      | inl off ↦ inl (rw off refl)
      | inr (frac, joins) ↦ inr (
        whole,
        frac,
        rw joins.0 refl,
        sym (span_digits-append s) ∙ joins.1,
        span_digits-Digits s,
        joins.2,
      )
    ]

-- A text is read as nought, or it is, but for the white space around it, a run of digits (perhaps
-- none), alone or followed by a point and one digit at least, and its amount is the whole part and
-- the first seven decimals. So a sign, an exponent, a letter, a second point or a point with
-- nothing behind it are read as nought.
pub parse_usdc-strict :
    (s : Units)
    → (parse_usdc s ≡ 0)
      ⊎ ((whole frac : Units) × (trim s ≡ join_amount whole frac)
          × Every IsDigit whole
          × Every IsDigit frac
          × (parse_usdc s
              ≡ value whole * usdc_divisor
                + value (pad_end usdc_decimals (take usdc_decimals frac))))
unfolding parse_usdc
parse_usdc-strict s = elim (match_amount-cases (trim s)) [
  | inl off ↦ inl (rw off refl)
  | inr (whole, frac, found, text, hw, hf) ↦ elim (Bool-cases (is_empty whole && is_empty frac)) [
    | inl empty ↦ inl (rw found (rw empty refl))
    | inr full ↦ inr (whole, frac, text, hw, hf, rw found (rw full refl))
  ]
]
