-- ===== src/FlightStatus.antt =====
-- The values of `FlightStatus` of dapp/api/_lib/types.ts. A status is a text: `parseFlightStatus`
-- passes texts on as they are.
use sentinel_soroban_v.Base.{String}

abbrev pub not_initiated : String
not_initiated = "NotInitiated"

abbrev pub active : String
active = "Active"

abbrev pub landed : String
landed = "Landed"

abbrev pub cancelled : String
cancelled = "Cancelled"

abbrev pub on_time : String
on_time = "ToBeSettledOnTime"

abbrev pub delayed : String
delayed = "ToBeSettledDelayed"

abbrev pub to_be_cancelled : String
to_be_cancelled = "ToBeSettledCancelled"

abbrev pub settled : String
settled = "Settled"

-- only on the side of the client

abbrev pub unknown : String
unknown = "Unknown"
