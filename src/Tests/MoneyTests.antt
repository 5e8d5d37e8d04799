-- ===== src/Tests/MoneyTests.antt =====
-- Tests and instances for Money.
use mathlib.Core.Logic.{◌⊎◌}
use sentinel_soroban_v.Base.{◌≡◌, ◌+◌, ◌*◌, refl, take}
use sentinel_soroban_v.Base.Int.{pos, negsuc}
use sentinel_soroban_v.Base.Text.{codes}
use sentinel_soroban_v.Money.{
  Units, usdc_divisor, usdc_decimals, parse_usdc, units_to_input, trim, join_amount, value, pad_end,
}
use sentinel_soroban_v.Money.Digits.{Every, IsDigit}
use sentinel_soroban_v.Money.RoundTrip.{parse_usdc-units_to_input}
use sentinel_soroban_v.Money.Strict.{parse_usdc-strict}

printed_input : units_to_input (pos 12345670000) ≡ codes "1234.567"
unfolding units_to_input
printed_input = refl

no_float_detour : parse_usdc (codes " 0.29 ") ≡ 2900000
unfolding parse_usdc
no_float_detour = refl

junk : (parse_usdc (codes "1e3") ≡ 0) × (parse_usdc (codes "12.") ≡ 0)
unfolding parse_usdc
junk = (refl, refl)

parse_usdc-units_to_input_example :
    (parse_usdc (units_to_input (pos 12345670000)) ≡ 12345670000)
    × (parse_usdc (units_to_input (negsuc 12345670000)) ≡ 0)
parse_usdc-units_to_input_example = parse_usdc-units_to_input 12345670000

abbrev typed : Units
typed = codes ".5"

parse_usdc-strict_example :
    (parse_usdc typed ≡ 0)
    ⊎ ((whole frac : Units) × (trim typed ≡ join_amount whole frac)
        × Every IsDigit whole
        × Every IsDigit frac
        × (parse_usdc typed
            ≡ value whole * usdc_divisor + value (pad_end usdc_decimals (take usdc_decimals frac))))
parse_usdc-strict_example = parse_usdc-strict typed
