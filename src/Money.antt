-- ===== src/Money.antt =====
-- dapp/src/lib/format.ts: amounts as texts and back. A text is its list of UTF-16 units.
pub mod Digits
pub mod Texts
pub mod RoundTrip
pub mod Strict
use sentinel_soroban_v.Base.{
  ℕ, zero, suc, ◌+◌, ◌-◌, ◌*◌, ◌/◌, ◌%◌, Bool, true, false, not, ◌&&◌, ◌||◌, Option, none, some,
  List, [], ◌∷◌, ◌++◌, ◌==◌, ltb, leb, if◌then◌else◌, length, take,
}
use mathlib.Core.Option
use sentinel_soroban_v.Base.Int.{ℤ, pos, negsuc}

abbrev pub Units : Type 0
Units = List ℕ

abbrev pub usdc_decimals : ℕ
usdc_decimals = 7

abbrev pub usdc_divisor : ℕ
usdc_divisor = 10000000

abbrev pub replicate : ℕ → ℕ → Units
replicate zero c = []
replicate (suc n) c = c ∷ replicate n c

abbrev pub is_empty : Units → Bool
is_empty [] = true
is_empty (c ∷ s) = false

-- `\d`
abbrev pub is_digit : ℕ → Bool
is_digit c = leb b'0' c && leb c b'9'

-- the white space that `trim` removes
abbrev pub is_space : ℕ → Bool
is_space c =
    (leb 9 c && leb c 13)
    || (c == 32
        || (c == 160
            || (c == 5760
                || ((leb 8192 c && leb c 8202)
                    || (c == 8232
                        || (c == 8233
                            || (c == 8239 || (c == 8287 || (c == 12288 || c == 65279)))))))))

abbrev pub is_nought : ℕ → Bool
is_nought c = c == b'0'

unfoldable pub drop_start : (ℕ → Bool) → Units → Units
drop_start p [] = []
drop_start p (c ∷ s) = let rest = drop_start p s in if p c then rest else c ∷ s

unfoldable pub drop_end : (ℕ → Bool) → Units → Units
drop_end p [] = []
drop_end p (c ∷ s) = let rest = drop_end p s in if is_empty rest && p c then [] else c ∷ rest

-- `s.trim()`
unfoldable pub trim : Units → Units
unfolding drop_start drop_end
trim s = drop_end is_space (drop_start is_space s)

-- `s.padStart(n, "0")` and `s.padEnd(n, "0")`
abbrev pub pad_start : ℕ → Units → Units
pad_start n s = replicate (n - length s) b'0' ++ s

abbrev pub pad_end : ℕ → Units → Units
pad_end n s = s ++ replicate (n - length s) b'0'

-- the decimal digits of a number; the fuel is the number itself
unfoldable pub digits : ℕ → ℕ → Units
digits zero n = (b'0' + n % 10) ∷ []
digits (suc fuel) n =
    let front = digits fuel (n / 10) in
    if ltb n 10 then (b'0' + n) ∷ [] else front ++ ((b'0' + n % 10) ∷ [])

-- `n.toString()` of a `bigint` that is not negative
unfoldable pub to_string : ℕ → Units
unfolding digits
to_string n = digits n n

-- the number that digits spell behind `n`
unfoldable pub value_from : ℕ → Units → ℕ
value_from n [] = n
value_from n (c ∷ s) = value_from (n * 10 + (c - b'0')) s

-- `BigInt(s)` of a text of digits
unfoldable pub value : Units → ℕ
unfolding value_from
value s = value_from 0 s

-- the longest run of digits at the head, and what follows it
unfoldable pub span_digits : Units → Units × Units
span_digits [] = ([], [])
span_digits (c ∷ s) =
    let (run, rest) = span_digits s in if is_digit c then (c ∷ run, rest) else ([], c ∷ s)

-- what follows the whole part: nothing, or a point and digits up to the end
unfoldable pub match_frac : Units → Option Units
unfolding span_digits
match_frac [] = some []
match_frac (c ∷ s) =
    let (run, rest) = span_digits s in
    if c == b'.' && (not (is_empty run) && is_empty rest) then some run else none

abbrev pub match_rest : Units × Units → Option (Units × Units)
match_rest (whole, rest) = Option.map (λ frac. (whole, frac)) (match_frac rest)

-- `/^(\d+)?(?:\.(\d+))?$/`, with the empty text for a group that is not there
unfoldable pub match_amount : Units → Option (Units × Units)
unfolding match_frac
match_amount s = match_rest (span_digits s)

-- the amount of the two groups
unfoldable pub amount_of : Units → Units → ℕ
unfolding value
amount_of whole frac =
    if is_empty whole && is_empty frac
    then 0
    else value whole * usdc_divisor + value (pad_end usdc_decimals (take usdc_decimals frac))

abbrev pub amount_of_match : Option (Units × Units) → ℕ
amount_of_match none = 0
amount_of_match (some (whole, frac)) = amount_of whole frac

-- `parseUsdc`
unfoldable pub parse_usdc : Units → ℕ
unfolding trim match_amount amount_of
parse_usdc s = amount_of_match (match_amount (trim s))

-- `frac ? `${whole}.${frac}` : whole.toString()`
unfoldable pub join_amount : Units → Units → Units
join_amount whole [] = whole
join_amount whole (c ∷ frac) = whole ++ (b'.' ∷ c ∷ frac)

-- `unitsToInput`
unfoldable pub units_to_input : ℤ → Units
unfolding to_string drop_end join_amount
units_to_input (negsuc n) = b'0' ∷ []
units_to_input (pos zero) = b'0' ∷ []
units_to_input (pos (suc n)) =
    join_amount (to_string (suc n / usdc_divisor))
      (drop_end is_nought (pad_start usdc_decimals (to_string (suc n % usdc_divisor))))
