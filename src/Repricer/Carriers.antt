-- ===== src/Repricer/Carriers.antt =====
-- dapp/api/_lib/airline_codes.ts: the carriers and their two codes.
use sentinel_soroban_v.Base.{
  String, ◌||◌, Option, none, some, List, [], ◌∷◌, any, find, if◌then◌else◌, str_eq,
}
use mathlib.Core.Option

pub record Carrier : Type 0 where
  pub icao : String
  pub iata : String
  pub name : String

abbrev pub carrier : String → String → String → Carrier
carrier icao iata name = record { icao = icao; iata = iata; name = name }

abbrev pub carriers : List Carrier
carriers =
    carrier "AAL" "AA" "American"
    ∷ carrier "DAL" "DL" "Delta"
    ∷ carrier "UAL" "UA" "United"
    ∷ carrier "ASA" "AS" "Alaska"
    ∷ carrier "SWA" "WN" "Southwest"
    ∷ carrier "JBU" "B6" "JetBlue"
    ∷ carrier "FFT" "F9" "Frontier"
    ∷ carrier "NKS" "NK" "Spirit"
    ∷ carrier "HAL" "HA" "Hawaiian"
    ∷ []

-- `toIata`
unfoldable pub to_iata : String → Option String
to_iata code = elim (find (λ c. str_eq c.icao code) carriers) [
  | some c ↦ some c.iata
  | none ↦ if any (λ c. str_eq c.iata code) carriers then some code else none
]

-- `toIcao`
unfoldable pub to_icao : String → Option String
to_icao code = elim (find (λ c. str_eq c.iata code) carriers) [
  | some c ↦ some c.icao
  | none ↦ if any (λ c. str_eq c.icao code) carriers then some code else none
]

-- `carrierName`
unfoldable pub carrier_name : String → Option String
carrier_name code =
    Option.map (λ c. c.name) (find (λ c. str_eq c.icao code || str_eq c.iata code) carriers)
