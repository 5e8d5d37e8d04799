-- ===== src/SaleAuth/Window/Stages.antt =====
-- The stages of `authorizeSale` of dapp/api/_lib/sale_auth.ts, from the last to the first.
use sentinel_soroban_v.Base.{
  ℕ, ◌+◌, ◌/◌, ◌≤◌, String, Bool, true, Option, none, some, List, [], ◌∷◌, ◌≡◌, refl, inl, inr,
  arith, select, Bool-cases, ap, ◌∙◌,
}
use sentinel_soroban_v.World.{
  Event, RouteKey, AeroFlight, ScheduledFlight, Schedules, clock, set_cancelled, disable_route,
  classify_flight, settle_flight,
}
use sentinel_soroban_v.World.Monad.{Env, World, M, ok, pure, ◌>>=◌}
use sentinel_soroban_v.World.Keeps.{
  Keeps, IsFramed, framed_rules, Keeps-pure, Keeps-bind, Keeps-if, Keeps-then,
}
use sentinel_soroban_v.World.Requirement.{Has, IsMono, Respecting, Respecting-IsFramed}
use sentinel_soroban_v.Soroban.Frame.{Admits-Respecting, Keeps-invoke}
use sentinel_soroban_v.Aero.Predicates.{is_confirmed_cancellation}
use sentinel_soroban_v.Aero.Client.{day_secs, get_flight_data}
use sentinel_soroban_v.Aero.Frame.{Keeps-get_flight_data, Keeps-get_schedules}
use sentinel_soroban_v.Aero.Evidence.{IsSeen, Found, get_flight_data-Found}
use sentinel_soroban_v.Aero.Published.{IsIn, AreListed, AreListed-grow, get_schedules-Collected}
use sentinel_soroban_v.Frames.{Keeps-classify_and_settle_flight}
use sentinel_soroban_v.RouteGuard.{publishes, guard_route}
use sentinel_soroban_v.Targeted.{classify_and_settle_flight}
use sentinel_soroban_v.RouteGuard.Frame.{Keeps-guard_route}
use sentinel_soroban_v.SaleAuth.Gate.{SaleConfig, is_leg, matching_rows}
use sentinel_soroban_v.SaleAuth.Endpoint.{
  day_fully_visible, write_tombstone, on_live, on_absent, on_rows, on_schedules, check_published,
  on_tracking, verify, ride_or_verify, check_chain,
}
use sentinel_soroban_v.SaleAuth.Window.{SaleNeeds, departure_of-LeavesAt, Keeps-check_times}

module _ (s : ScheduledFlight) (p : ScheduledFlight → Bool) where
  IsIn-kept :
      (x : ScheduledFlight) (rest : List ScheduledFlight)
      → p x ≡ true
      → (IsIn s (select p rest) → IsIn s rest × (p s ≡ true))
      → IsIn s (x ∷ select p rest)
      → IsIn s (x ∷ rest) × (p s ≡ true)
  IsIn-kept x rest holds found (inl same) = (inl same, ap p same ∙ holds)
  IsIn-kept x rest holds found (inr later) = let h = found later in (inr h.0, h.1)

  IsIn-select : (rows : List ScheduledFlight) → IsIn s (select p rows) → IsIn s rows × (p s ≡ true)
  IsIn-select [] h = absurd h
  IsIn-select (x ∷ rest) h = elim (Bool-cases (p x)) [
    | inl holds ↦ IsIn-kept x rest holds (IsIn-select rest) (rw holds at h)
    | inr fails ↦ let found = IsIn-select rest (rw fails at h) in (inr found.0, found.1)
  ]

matching_rows-publishes :
    (route : RouteKey) (flight_id : String) (day : ℕ) (rows : List ScheduledFlight)
    (s : ScheduledFlight)
    → matching_rows route flight_id day rows ≡ s ∷ []
    → IsIn s rows × (publishes flight_id day s ≡ true)
unfolding matching_rows is_leg
matching_rows-publishes route flight_id day rows s same =
    let first : IsIn s (matching_rows route flight_id day rows) = rw same (inl refl) in
    let found = IsIn-select s (is_leg route flight_id day) rows first in
    (found.0, ground (arith, found.1))

module _ (env : Env) (config : SaleConfig) (flight_id : String) (date now_ms : ℕ) (route : RouteKey)
    (tomorrow : now_ms / 1000 / day_secs + 1 ≤ date / day_secs) where
  abbrev K : {A : Type 0} → (List Event → Type 0) → M A → Type 0
  K X m = Keeps (Respecting (SaleNeeds config) X) m

  abbrev now_secs : ℕ
  now_secs = now_ms / 1000

  abbrev Clocked : List Event → Type 0
  Clocked log = Has (clock now_ms) log

  Clocked-IsMono : IsMono Clocked
  Clocked-IsMono = record { grow = λ e log h. inr h }

  -- the guard and the targeted settlement need nothing
  module _ (X : List Event → Type 0) (mono : IsMono X) where
    framed : IsFramed (Respecting (SaleNeeds config) X)
    framed = Respecting-IsFramed (SaleNeeds config) X mono

    Keeps-guard : (actor : String) → K X (guard_route env route actor)
    Keeps-guard actor =
        Keeps-guard_route _ framed env route actor
          (Admits-Respecting (SaleNeeds config) X (disable_route route) mono (λ log x. tt))

    Keeps-settle : (label : String) → K X (classify_and_settle_flight env flight_id date label)
    Keeps-settle label =
        Keeps-classify_and_settle_flight _ framed env flight_id date label
          (Admits-Respecting (SaleNeeds config) X (classify_flight flight_id date) mono
            (λ log x. tt))
          (Admits-Respecting (SaleNeeds config) X (settle_flight flight_id date) mono (λ log x. tt))

    Keeps-write_tombstone :
        ((log : List Event) → X log → SaleNeeds config (set_cancelled flight_id date) log)
        → K X (write_tombstone env config flight_id date now_secs route)
    unfolding write_tombstone
    Keeps-write_tombstone need =
        let admits =
          Admits-Respecting (SaleNeeds config) X (set_cancelled flight_id date) mono need in
        search (framed_rules, framed, Keeps-invoke, Keeps-guard, Keeps-settle) depth 14

  -- live tracking has shown the flight
  module _ (f : AeroFlight) where
    abbrev Seen : List Event → Type 0
    Seen log = Clocked log × IsSeen flight_id (date / day_secs) f log

    Seen-IsMono : IsMono Seen
    Seen-IsMono = record { grow = λ e log h. (inr h.0, (h.1.0, inr h.1.1)) }

    Keeps-on_live : K Seen (on_live env config flight_id date now_secs route f)
    unfolding on_live
    Keeps-on_live =
        Keeps-if f.cancelled _ _
          (λ gone.
            Keeps-if (is_confirmed_cancellation f) _ _
              (λ confirmed. Keeps-write_tombstone Seen Seen-IsMono (λ log h. (f, h.1, confirmed)))
              (λ bare. Keeps-pure _))
          (λ flies.
            Keeps-check_times env config flight_id date now_ms route tomorrow Seen Seen-IsMono
              (λ log h. h.0) f.scheduled_out f.scheduled_in
              (λ departure log filed h.
                inl (f, h.1, flies, departure_of-LeavesAt f.scheduled_out f.scheduled_in _ filed)))

  -- the published schedule was answered
  module _ (page : Schedules) where
    abbrev Answered : List Event → Type 0
    Answered log = Clocked log × AreListed (some page) log

    Answered-IsMono : IsMono Answered
    Answered-IsMono = record { grow = λ e log h. (inr h.0, AreListed-grow (some page) e log h.1) }

    Keeps-on_absent : K Answered (on_absent env config flight_id date now_secs route page)
    unfolding on_absent
    Keeps-on_absent = search (framed_rules, Keeps-guard Answered Answered-IsMono) depth 9

    Keeps-on_rows :
        (rows : List ScheduledFlight)
        → matching_rows route flight_id (date / day_secs) page.scheduled ≡ rows
        → K Answered (on_rows env config flight_id date now_secs route page rows)
    unfolding on_rows
    Keeps-on_rows [] same = Keeps-on_absent
    Keeps-on_rows (s ∷ []) same =
        let found =
          matching_rows-publishes route flight_id (date / day_secs) page.scheduled s same in
        Keeps-check_times env config flight_id date now_ms route tomorrow Answered Answered-IsMono
          (λ log h. h.0) s.scheduled_out s.scheduled_in
          (λ departure log filed h. inr (
            s,
            h.1 s found.0,
            found.1,
            departure_of-LeavesAt s.scheduled_out s.scheduled_in _ filed,
          ))
    Keeps-on_rows (s ∷ t ∷ rest) same = Keeps-pure _

  ruleset stage_rules = (framed_rules, Clocked-IsMono, framed)

  on_schedules-Respecting :
      (page : Option Schedules) (w : World)
      → Respecting (SaleNeeds config) Clocked w
      → AreListed page w.log
      → Respecting
          (SaleNeeds config)
          Clocked
          (on_schedules env config flight_id date now_secs route page w).1
  unfolding on_schedules pure
  on_schedules-Respecting none w h listed = h
  on_schedules-Respecting (some page) w h listed =
      let kept = (Keeps-on_rows page _ refl).at w (h.0, (h.1, listed)) in (kept.0, kept.1.0)

  Keeps-check_published : K Clocked (check_published env config flight_id date now_secs route)
  unfolding check_published
  Keeps-check_published =
      Keeps-then _ _ (Keeps-get_schedules _ (framed Clocked Clocked-IsMono) env _ _ _)
        (get_schedules-Collected env _ _ _)
        (λ page w h listed. on_schedules-Respecting page w h listed)

  Keeps-on_untracked :
      (visible : Bool)
      → K Clocked (on_tracking env config flight_id date now_secs route visible none)
  unfolding on_tracking
  Keeps-on_untracked visible =
      Keeps-if visible _ _ (λ sees. Keeps-pure _) (λ blind. Keeps-check_published)

  on_tracking-Respecting :
      (visible : Bool) (found : Option AeroFlight) (w : World)
      → Respecting (SaleNeeds config) Clocked w
      → Found env flight_id (date / day_secs) (ok found, w)
      → Respecting
          (SaleNeeds config)
          Clocked
          (on_tracking env config flight_id date now_secs route visible found w).1
  unfolding on_tracking
  on_tracking-Respecting visible none w h seen = (Keeps-on_untracked visible).at w h
  on_tracking-Respecting visible (some f) w h seen =
      let kept = (Keeps-on_live f).at w (h.0, (h.1, seen)) in (kept.0, kept.1.0)

  Keeps-day_fully_visible : (day : ℕ) → K Clocked (day_fully_visible env day)
  unfolding day_fully_visible
  Keeps-day_fully_visible day = search (framed_rules, framed Clocked Clocked-IsMono) depth 9

  Keeps-tracking :
      (visible : Bool)
      → K Clocked (
          get_flight_data env flight_id (date / day_secs)
          >>= on_tracking env config flight_id date now_secs route visible)
  Keeps-tracking visible =
      Keeps-then _ _ (Keeps-get_flight_data _ (framed Clocked Clocked-IsMono) env _ _)
        (get_flight_data-Found env flight_id (date / day_secs))
        (λ found w h seen. on_tracking-Respecting visible found w h seen)

  Keeps-verify : K Clocked (verify env config flight_id date now_secs route)
  unfolding verify
  Keeps-verify =
      Keeps-bind _ _ (Keeps-day_fully_visible _)
        (λ visible. Keeps-if _ _ _ (λ near. Keeps-tracking visible) (λ far. Keeps-check_published))

  Keeps-ride_or_verify :
      (window : Option ℕ)
      → K Clocked (ride_or_verify env config flight_id date now_secs route window)
  unfolding ride_or_verify
  Keeps-ride_or_verify none = Keeps-verify
  Keeps-ride_or_verify (some expiry) = Keeps-pure _

  pub Keeps-check_chain : K Clocked (check_chain env config flight_id date now_secs route)
  unfolding check_chain
  Keeps-check_chain =
      search (framed_rules, framed Clocked Clocked-IsMono, Keeps-ride_or_verify) depth 14
