-- ===== src/SaleAuth/Endpoint.antt =====
-- `authorizeSale` of dapp/api/_lib/sale_auth.ts. A label of its actions is the flight id, without
-- the day that the source appends.
use sentinel_soroban_v.Base.{
  ℕ, ◌+◌, ◌*◌, ◌/◌, String, Bool, Option, none, some, List, [], ◌∷◌, ◌==◌, ltb, leb, if◌then◌else◌,
  is_some,
}
use sentinel_soroban_v.Status.{parse_flight_status, is_open}
use sentinel_soroban_v.World.{
  RouteKey, AeroFlight, ScheduledFlight, Schedules, IsoText, flight_data, sale_auth, set_cancelled,
  open_sale, routes_file,
}
use sentinel_soroban_v.World.Monad.{
  Env, M, transition, transition_at, pure, push, set_deadline, or_raise, ◌>>=◌, ◌>>◌, catch, now,
  read_as, query,
}
use sentinel_soroban_v.Soroban.{invoke}
use sentinel_soroban_v.Aero.Predicates.{is_confirmed_cancellation, iso_secs}
use sentinel_soroban_v.Aero.Client.{
  get_flight_data, get_schedules, next_link, day_secs, two_days_ms,
}
use sentinel_soroban_v.Targeted.{classify_and_settle_flight}
use sentinel_soroban_v.Schedules.{save_flight_schedule}
use sentinel_soroban_v.RouteGuard.{guard_route}
use sentinel_soroban_v.SaleAuth.Gate.{
  SaleConfig, SaleResult, refused, rides, authorized, not_whitelisted, inside_lead_time,
  beyond_horizon, recorded_outcome, not_verifiable, flight_cancelled, unconfirmed_cancellation,
  schedule_not_verifiable, not_published, ambiguous_schedule, no_departure, departs_soon,
  sellable_in_db, sellable_in_file, effective_horizon, live_window, schedule_filters, matching_rows,
  departure_of, window_for,
}

module _ (env : Env) where
  -- the file, where the database has no say
  unfoldable pub from_file : String → Option (Option RouteKey) → M (Option RouteKey)
  from_file flight_id (some found) = pure found
  from_file flight_id none = do
    routes ← or_raise env.fleet routes_file
    pure (sellable_in_file flight_id routes)

  -- `findSellableRoute`
  unfoldable pub find_sellable_route : String → M (Option RouteKey)
  find_sellable_route flight_id = do
    in_db ←
        (if env.db_configured
          then catch (query env (λ db. sellable_in_db flight_id db.routes)) (λ e. pure none)
          else pure none)
    from_file flight_id in_db

  -- `dayFullyVisible`
  unfoldable pub day_fully_visible : ℕ → M Bool
  day_fully_visible day = do
    t ← now env
    pure (leb ((day * day_secs + 86399) * 1000) (t + two_days_ms))

  module _ (config : SaleConfig) (flight_id : String) (date now_secs : ℕ) (route : RouteKey) where
    -- the window is opened, and the timing hint saved
    unfoldable pub open_window : ℕ → ℕ → Option IsoText → Option IsoText → M SaleResult
    open_window expires departure out_text in_text = do
      invoke env (open_sale flight_id date expires)
      push flight_id (transition_at "sale open until" expires)
      save_flight_schedule env flight_id date (if departure == 0 then none else some departure)
          (iso_secs in_text)
      pure (authorized expires out_text in_text)

    unfoldable pub check_window : ℕ → Option IsoText → Option IsoText → Option ℕ → M SaleResult
    check_window departure out_text in_text none = pure (refused departs_soon)
    check_window departure out_text in_text (some expires) =
        open_window expires departure out_text in_text

    -- the cutoff before the departure
    unfoldable pub check_departure : Option IsoText → Option IsoText → Option ℕ → M SaleResult
    check_departure out_text in_text none = pure (refused no_departure)
    check_departure out_text in_text (some departure) =
        check_window departure out_text in_text (window_for config now_secs departure)

    unfoldable pub check_times : Option IsoText → Option IsoText → M SaleResult
    check_times out_text in_text = check_departure out_text in_text (departure_of out_text in_text)

    -- the tombstone of a cancelled flight
    unfoldable pub write_tombstone : M SaleResult
    write_tombstone = do
      invoke env (set_cancelled flight_id date)
      push flight_id (transition "→ Cancelled (tombstone)")
      classify_and_settle_flight env flight_id date flight_id
      guard_route env route "guard:sale-auth"
      pure (refused flight_cancelled)

    -- what live tracking shows
    unfoldable pub on_live : AeroFlight → M SaleResult
    on_live f =
        if f.cancelled
        then (if is_confirmed_cancellation f
            then write_tombstone
            else pure (refused (unconfirmed_cancellation f.status)))
        else check_times f.scheduled_out f.scheduled_in

    -- no row matches: the sweep only where the whole schedule was seen
    unfoldable pub on_absent : Schedules → M SaleResult
    on_absent page =
        if is_some (next_link page)
        then pure (refused schedule_not_verifiable)
        else (do guard_route env route "guard:sale-auth"; pure (refused not_published))

    unfoldable pub on_rows : Schedules → List ScheduledFlight → M SaleResult
    on_rows page [] = on_absent page
    on_rows page (s ∷ []) = check_times s.scheduled_out s.scheduled_in
    on_rows page (s ∷ t ∷ rest) = pure (refused ambiguous_schedule)

    unfoldable pub on_schedules : Option Schedules → M SaleResult
    on_schedules none = pure (refused schedule_not_verifiable)
    on_schedules (some page) =
        on_rows page (matching_rows route flight_id (date / day_secs) page.scheduled)

    unfoldable pub check_published : M SaleResult
    check_published = do
      page ←
          get_schedules env (date / day_secs) (date / day_secs + 1)
            (schedule_filters route flight_id)
      on_schedules page

    -- an answer of live tracking, or none
    unfoldable pub on_tracking : Bool → Option AeroFlight → M SaleResult
    on_tracking visible (some f) = on_live f
    on_tracking visible none = if visible then pure (refused not_verifiable) else check_published

    -- one call, split by visibility
    unfoldable pub verify : M SaleResult
    verify = do
      visible ← day_fully_visible (date / day_secs)
      if leb (date / day_secs) (now_secs / day_secs + 2)
          then (do
            found ← get_flight_data env flight_id (date / day_secs)
            on_tracking visible found)
          else check_published

    unfoldable pub ride_or_verify : Option ℕ → M SaleResult
    ride_or_verify (some expiry) = pure (rides expiry)
    ride_or_verify none = verify

    -- the gates on chain
    unfoldable pub check_chain : M SaleResult
    check_chain = do
      t ← now env
      set_deadline (t + 45000)
      chain ← read_as env (flight_data flight_id date) (λ log. env.flight_data log flight_id date)
      let status = parse_flight_status chain.status
      if is_open status
          then (do
            expiry ←
                read_as env (sale_auth flight_id date) (λ log. env.sale_auth log flight_id date)
            ride_or_verify (live_window now_secs expiry))
          else pure (refused (recorded_outcome status))

  -- the gates on the date
  unfoldable pub check_date : SaleConfig → String → ℕ → ℕ → RouteKey → M SaleResult
  check_date config flight_id date now_secs route = do
    or_raise env.fleet routes_file
    let days = effective_horizon config env.sale_horizon_days
    if ltb (date / day_secs) (now_secs / day_secs + 1)
        then pure (refused inside_lead_time)
        else if ltb (now_secs / day_secs + days) (date / day_secs)
        then pure (refused (beyond_horizon days))
        else check_chain config flight_id date now_secs route

  unfoldable pub on_route : SaleConfig → String → ℕ → ℕ → Option RouteKey → M SaleResult
  on_route config flight_id date now_secs none = pure (refused not_whitelisted)
  on_route config flight_id date now_secs (some route) =
      check_date config flight_id date now_secs route

  -- `authorizeSale`
  unfoldable pub authorize_sale : SaleConfig → String → ℕ → M SaleResult
  authorize_sale config flight_id date = do
    t ← now env
    route ← find_sellable_route flight_id
    on_route config flight_id date (t / 1000) route
