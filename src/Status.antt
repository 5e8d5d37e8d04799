-- ===== src/Status.antt =====
-- dapp/api/_lib/status.ts and the names of `FlightStatus` in dapp/api/_lib/types.ts.
use sentinel_soroban_v.Base.{ℕ, zero, suc, String, Bool, ◌||◌, str_eq, none, some, List, [], ◌∷◌}
use sentinel_soroban_v.FlightStatus
use sentinel_soroban_v.World.Monad.{RawStatus, number, word, array, object, other}

abbrev pub status_by_index : List String
status_by_index =
    FlightStatus.not_initiated ∷ FlightStatus.active ∷ FlightStatus.landed ∷ FlightStatus.cancelled
    ∷ FlightStatus.on_time ∷ FlightStatus.delayed ∷ FlightStatus.to_be_cancelled
    ∷ FlightStatus.settled ∷ []

-- `STATUS_BY_INDEX[raw]`, or `Unknown` past its end
abbrev pub status_at : List String → ℕ → String
status_at [] n = FlightStatus.unknown
status_at (s ∷ rest) zero = s
status_at (s ∷ rest) (suc n) = status_at rest n

unfoldable pub parse_flight_status : RawStatus → String
parse_flight_status (number n) = status_at status_by_index n
parse_flight_status (word s) = s
parse_flight_status (array (some s)) = s
parse_flight_status (array none) = FlightStatus.unknown
parse_flight_status (object (some key)) = key
parse_flight_status (object none) = FlightStatus.unknown
parse_flight_status other = FlightStatus.unknown

-- `NotInitiated` or `Active`: what the sweep and the sale endpoint go on with.
unfoldable pub is_open : String → Bool
is_open s = str_eq s FlightStatus.not_initiated || str_eq s FlightStatus.active
