-- ===== src/TxFlow/Numbers.antt =====
-- dapp/src/lib/errors.ts: `Number(…)` of a run of digits, and how a template prints that number. A
-- number is the natural number that its double stands for; one of `infinite` and above stands for
-- `Infinity`.
use sentinel_soroban_v.Base.{
  ℕ, zero, suc, ◌+◌, ◌-◌, ◌*◌, ◌/◌, ◌%◌, ◌^◌, ◌&&◌, ◌||◌, Option, none, some, [], ◌∷◌, ◌++◌, ◌==◌,
  ◌≡◌, refl, ltb, leb, if◌then◌else◌, length,
}
use sentinel_soroban_v.Base.Text.{codes}
use sentinel_soroban_v.Money.{Units, is_empty, to_string}

-- 2^53, below which every natural number is a double
abbrev pub exact_below : ℕ
exact_below = 9007199254740992

-- above the largest double
abbrev infinite : ℕ
infinite = 2 ^ 1024

-- how often a number is halved until it has 53 bits
unfoldable pub halvings : ℕ → ℕ → ℕ
halvings zero n = 0
halvings (suc fuel) n =
    let rest = halvings fuel (n / 2) in if ltb n exact_below then 0 else suc rest

-- the multiple of a power of two that is nearest, and of two the one of an even number
unfoldable pub round_to : ℕ → ℕ → ℕ
round_to unit n =
    let quotient = n / unit in
    let twice = n % unit * 2 in
    if ltb unit twice || (twice == unit && (quotient % 2 == 1))
    then (quotient + 1) * unit
    else quotient * unit

-- the double of a number of 2^53 and above; from `infinite` on any number will do
unfoldable pub large_double : ℕ → ℕ
unfolding halvings round_to
large_double n = if leb infinite n then n else round_to (2 ^ halvings 1024 n) n

-- the double of a natural number
unfoldable pub to_double : ℕ → ℕ
unfolding large_double
to_double n = if ltb n exact_below then n else large_double n

-- a multiple of `unit` next to `v` whose double is `v`, the nearer one first
unfoldable pub near : ℕ → ℕ → Option ℕ
unfolding to_double
near unit v =
    let low = v / unit * unit in
    let high = low + unit in
    let below = if to_double low == v then some low else none in
    let above = if to_double high == v then some high else none in
    if leb (v - low) (high - v) then either below above else either above below
  where
    either : Option ℕ → Option ℕ → Option ℕ
    either (some d) later = some d
    either none later = later

-- the number of the fewest digits before its noughts, `most` at most, whose double is `v`
unfoldable pub shortest : ℕ → ℕ → ℕ
unfolding near
shortest zero v = v
shortest (suc most) v = elim (near (10 ^ suc most) v) [ none ↦ shortest most v | some d ↦ d ]

-- digits without the noughts at their end
unfoldable pub trim_noughts : Units → Units
trim_noughts [] = []
trim_noughts (c ∷ s) =
    let rest = trim_noughts s in if c == b'0' && is_empty rest then [] else c ∷ rest

abbrev pub mantissa : Units → Units
mantissa [] = []
mantissa (c ∷ []) = c ∷ []
mantissa (c ∷ d ∷ s) = c ∷ b'.' ∷ d ∷ s

-- `${n}` of a number of 2^53 and above
unfoldable pub large_text : ℕ → Units
unfolding shortest trim_noughts to_string
large_text v =
    let d = shortest (length (to_string v)) v in
    if leb infinite v
    then codes "Infinity"
    else if ltb d (10 ^ 21)
    then to_string d
    else mantissa (trim_noughts (to_string d))
      ++ (codes "e+" ++ to_string (length (to_string d) - 1))

-- `${n}`
unfoldable pub number_text : ℕ → Units
unfolding to_string large_text
number_text n = if ltb n exact_below then to_string n else large_text n

-- The first number that is rounded, the digits of one beyond 2^64, and one in another notation.
rounded_texts :
    (number_text (to_double 9007199254740993) ≡ codes "9007199254740992")
    × (number_text (to_double 18446744073709551617) ≡ codes "18446744073709552000")
    × (number_text (to_double (10 ^ 23)) ≡ codes "1e+23")
    × (number_text (to_double (123456789 * 10 ^ 20)) ≡ codes "1.23456789e+28")
unfolding number_text to_double
rounded_texts = (refl, refl, refl, refl)
