-- ===== src/Aero/Frame.antt =====
-- What AeroAPI's client keeps of the log.
use sentinel_soroban_v.Base.{ℕ, String, Option, none, some}
use sentinel_soroban_v.World.{Answer, Filters, IsoText, blank, text}
use sentinel_soroban_v.World.Monad.{Env, World, M}
use sentinel_soroban_v.World.Keeps.{Keeps, IsFramed, Keeps-pure, Keeps-raise}
use sentinel_soroban_v.World.Quiet.{IsFramed-IsQuiet}
use sentinel_soroban_v.Aero.Client.{
  request_json, get_flight_data, get_flight_instances, get_schedules, parse_timestamp,
}
use sentinel_soroban_v.Aero.Quiet.{
  Quiet-request_json, Quiet-get_flight_data, Quiet-get_flight_instances, Quiet-get_schedules,
}

module _ (P : World → Type 0) (framed : IsFramed P) (env : Env) where
  pub Keeps-request_json :
      {A : Type 0} (send : M (Answer A)) → Keeps P send → Keeps P (request_json env send)
  Keeps-request_json send k = Quiet-request_json P (IsFramed-IsQuiet P framed) env send k

  pub Keeps-get_flight_data : (ident : String) (day : ℕ) → Keeps P (get_flight_data env ident day)
  Keeps-get_flight_data ident day =
      Quiet-get_flight_data P (IsFramed-IsQuiet P framed) env ident day

  pub Keeps-get_flight_instances :
      (ident : String) (start end_secs : ℕ)
      → Keeps P (get_flight_instances env ident start end_secs)
  Keeps-get_flight_instances ident start end_secs =
      Quiet-get_flight_instances P (IsFramed-IsQuiet P framed) env ident start end_secs

  pub Keeps-get_schedules :
      (from_day to_day : ℕ) (filters : Filters)
      → Keeps P (get_schedules env from_day to_day filters)
  Keeps-get_schedules from_day to_day filters =
      Quiet-get_schedules P (IsFramed-IsQuiet P framed) env from_day to_day filters

pub Keeps-parse_timestamp : (P : World → Type 0) (t : Option IsoText) → Keeps P (parse_timestamp t)
unfolding parse_timestamp
Keeps-parse_timestamp P none = Keeps-pure _
Keeps-parse_timestamp P (some blank) = Keeps-pure _
Keeps-parse_timestamp P (some (text day none)) = Keeps-raise _
Keeps-parse_timestamp P (some (text day (some secs))) = Keeps-pure _
