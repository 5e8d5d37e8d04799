-- ===== src/Money/RoundTrip.antt =====
-- What `unitsToInput` prints, `parseUsdc` reads.
use sentinel_soroban_v.Base.{
  ℕ, zero, suc, ◌+◌, ◌*◌, ◌/◌, ◌%◌, ◌<◌, ◌≤◌, ◌≡◌, refl, ◌∙◌, length, arith,
}
use sentinel_soroban_v.Base.Int.{pos, negsuc}
use sentinel_soroban_v.Money.{
  Units, usdc_divisor, to_string, value, pad_start, pad_end, drop_end, is_nought, join_amount,
  amount_of, parse_usdc, units_to_input,
}
use sentinel_soroban_v.Money.Digits.{
  Every, IsDigit, to_string-Digits, value-to_string, to_string-full, to_string-length,
  pad_start-Digits, length-pad_start, value-pad_start,
}
use sentinel_soroban_v.Money.Texts.{
  trim-Not, pad_end-drop_end, take-all, length-drop_end, drop_end-Every, match_amount-join,
  join_amount-Not_space,
}

-- the seven decimals of a fraction
seven : ℕ → Units
seven frac = pad_start 7 (to_string frac)

length-seven : (frac : ℕ) → frac < 10000000 → length (seven frac) ≡ 7
unfolding seven
length-seven frac h = length-pad_start 7 (to_string frac) (to_string-length frac 6 (omega arith))

seven-Digits : (frac : ℕ) → Every IsDigit (seven frac)
unfolding seven
seven-Digits frac = pad_start-Digits 7 (to_string frac) (to_string-Digits frac)

value-seven : (frac : ℕ) → value (seven frac) ≡ frac
unfolding seven
value-seven frac = value-pad_start 7 (to_string frac) ∙ value-to_string frac

-- the fraction as it is printed
printed : ℕ → Units
printed frac = drop_end is_nought (seven frac)

length-printed : (frac : ℕ) → frac < 10000000 → length (printed frac) ≤ 7
unfolding printed
length-printed frac h = omega (arith, length-drop_end is_nought (seven frac), length-seven frac h)

pad_end-printed : (frac : ℕ) → frac < 10000000 → pad_end 7 (printed frac) ≡ seven frac
unfolding printed
pad_end-printed frac h = rw (length-seven frac h) at (pad_end-drop_end (seven frac))

amount_of-printed :
    (whole frac : ℕ)
    → frac < 10000000
    → amount_of (to_string whole) (printed frac) ≡ whole * usdc_divisor + frac
unfolding amount_of
amount_of-printed whole frac h =
    rw
      (
        to_string-full whole,
        take-all 7 (printed frac) (length-printed frac h),
        pad_end-printed frac h,
        value-to_string whole,
        value-seven frac,
      )
      refl

parse_usdc-join :
    (whole frac : Units)
    → Every IsDigit whole
    → Every IsDigit frac
    → parse_usdc (join_amount whole frac) ≡ amount_of whole frac
unfolding parse_usdc
parse_usdc-join whole frac hw hf =
    rw
      (
        trim-Not (join_amount whole frac) (join_amount-Not_space whole frac hw hf),
        match_amount-join whole frac hw hf,
      )
      refl

parse_usdc-parts :
    (whole frac : ℕ)
    → frac < 10000000
    → parse_usdc (join_amount (to_string whole) (printed frac)) ≡ whole * usdc_divisor + frac
unfolding printed
parse_usdc-parts whole frac h =
    parse_usdc-join (to_string whole) (printed frac) (to_string-Digits whole)
      (drop_end-Every is_nought IsDigit (seven frac) (seven-Digits frac))
    ∙ amount_of-printed whole frac h

-- Every amount that is not negative is read back from the text of its input field to the last unit,
-- and the text of a negative amount is read as nought.
pub parse_usdc-units_to_input :
    (n : ℕ)
    → (parse_usdc (units_to_input (pos n)) ≡ n) × (parse_usdc (units_to_input (negsuc n)) ≡ 0)
unfolding units_to_input printed seven parse_usdc
parse_usdc-units_to_input zero = (refl, refl)
parse_usdc-units_to_input (suc n) = (
  parse_usdc-parts (suc n / usdc_divisor) (suc n % usdc_divisor) (omega arith) ∙ omega arith,
  refl,
)
