-- ===== src/SaleAuth/Texts.antt =====
-- The texts that `authorizeSale` of dapp/api/_lib/sale_auth.ts takes apart.
use Prim.Native.Char.{Char, code}
use sentinel_soroban_v.Base.{
  String, Bool, true, false, ◌&&◌, ◌||◌, Option, none, some, ◌==◌, leb, length, if◌then◌else◌,
  str_eq,
}
use sentinel_soroban_v.Base.Text.{codes, drop_text}

-- the character that stands in `to` where it stands in `from`
unfoldable pub translate : String → String → Char → Char
translate String.[] to c = c
translate (String.◌∷◌ l ls) String.[] c = c
translate (String.◌∷◌ l ls) (String.◌∷◌ u us) c =
    let rest = translate ls us c in if code l == code c then u else rest

-- `toUpperCase`, of the letters that a code of an airline or an airport has
unfoldable pub to_upper : String → String
unfolding translate
to_upper String.[] = String.[]
to_upper (String.◌∷◌ c s) =
    String.◌∷◌ (translate "abcdefghijklmnopqrstuvwxyz" "ABCDEFGHIJKLMNOPQRSTUVWXYZ" c) (to_upper s)

abbrev pub is_upper : Char → Bool
is_upper c = leb b'A' (code c) && leb (code c) b'Z'

abbrev pub is_digit : Char → Bool
is_digit c = leb b'0' (code c) && leb (code c) b'9'

-- `\d+` to the end
unfoldable pub all_digits : String → Bool
all_digits String.[] = true
all_digits (String.◌∷◌ c s) = is_digit c && all_digits s

-- `0*`, which leaves one digit at least
unfoldable pub drop_zeros : String → String
drop_zeros String.[] = String.[]
drop_zeros (String.◌∷◌ c String.[]) = String.◌∷◌ c String.[]
drop_zeros (String.◌∷◌ c (String.◌∷◌ d s)) =
    let rest = drop_zeros (String.◌∷◌ d s) in
    if code c == b'0' then rest else String.◌∷◌ c (String.◌∷◌ d s)

-- `[A-Z]+`, as far as it goes, and what is left
unfoldable pub span_upper : String → String × String
span_upper String.[] = (String.[], String.[])
span_upper (String.◌∷◌ c s) =
    let (head, tail) = span_upper s in
    if is_upper c then (String.◌∷◌ c head, tail) else (String.[], String.◌∷◌ c s)

-- `/^([A-Z]+)0*(\d+)$/.exec(flightId.toUpperCase())`: the airline and the number
unfoldable pub split_ident : String → Option (String × String)
unfolding to_upper all_digits drop_zeros span_upper
split_ident flight_id =
    let (airline, digits) = span_upper (to_upper flight_id) in
    if str_eq airline ""
    then none
    else if str_eq digits ""
    then none
    else if all_digits digits
    then some (airline, drop_zeros digits)
    else none

-- `sameAirport`
unfoldable pub same_airport : Option String → String → Bool
unfolding to_upper
same_airport none iata = false
same_airport (some api_code) iata =
    if str_eq api_code ""
    then false
    else str_eq (to_upper api_code) iata
      || (length (codes (to_upper api_code)) == 4 && str_eq (drop_text 1 (to_upper api_code)) iata)
