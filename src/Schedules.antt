-- ===== src/Schedules.antt =====
-- dapp/api/_lib/flight_schedules.ts: the hint of the scheduled arrival, optional at both ends.
use sentinel_soroban_v.Base.{
  ℕ, String, Bool, ◌&&◌, Option, none, some, List, [], ◌∷◌, ◌==◌, if◌then◌else◌, str_eq, first,
  select,
}
use sentinel_soroban_v.World.Db.{ScheduleRow}
use sentinel_soroban_v.World.Monad.{Env, M, pure, skip, ◌>>◌, catch, query, statement}

abbrev pub is_for : String → ℕ → ScheduleRow → Bool
is_for flight_id date r = str_eq r.flight_id flight_id && r.date == date

-- `insert … on conflict (flight_id, date_unix) do update`
unfoldable pub upsert : ScheduleRow → List ScheduleRow → List ScheduleRow
upsert row [] = row ∷ []
upsert row (r ∷ rest) =
    let others = upsert row rest in
    if is_for row.flight_id row.date r then row ∷ rest else r ∷ others

abbrev pub arrival_of : Option ScheduleRow → Option ℕ
arrival_of none = none
arrival_of (some r) = r.scheduled_in

module _ (env : Env) where
  -- `saveFlightSchedule`
  unfoldable pub save_flight_schedule : String → ℕ → Option ℕ → Option ℕ → M Unit
  unfolding upsert
  save_flight_schedule flight_id date out_secs in_secs =
      if env.db_configured
      then catch
          (do
            statement env (λ db. db)
            statement env (λ db. db)
            statement env (λ db. record db {
              schedules =
                  upsert
                    (record {
                      flight_id = flight_id;
                      date = date;
                      scheduled_out = out_secs;
                      scheduled_in = in_secs;
                    })
                    db.schedules;
            }))
          (λ e. skip)
      else skip

  -- `readScheduledArrival`
  unfoldable pub read_scheduled_arrival : String → ℕ → M (Option ℕ)
  read_scheduled_arrival flight_id date =
      if env.db_configured
      then catch
          (query env (λ db. arrival_of (first (select (is_for flight_id date) db.schedules))))
          (λ e. pure none)
      else pure none
