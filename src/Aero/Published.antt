-- ===== src/Aero/Published.antt =====
-- What the schedule that `getSchedules` returns leaves in the log: each of its rows stands on a
-- page that was answered.
use sentinel_soroban_v.Base.{
  ℕ, zero, suc, String, Option, none, some, List, [], ◌∷◌, ◌++◌, ◌≡◌, ◌⊎◌, inl, inr,
}
use sentinel_soroban_v.World.{
  Event, Request, ScheduledFlight, Schedules, Filters, json, got_schedules, cursor,
}
use sentinel_soroban_v.World.Monad.{Env, World, M, Result, ok, err, pure, fetch_schedules}
use sentinel_soroban_v.World.Requirement.{Has}
use sentinel_soroban_v.World.Keeps.{Keeps, Ends, IsLax, IsFramed, framed_rules, Keeps-Ends}
use sentinel_soroban_v.Aero.Client.{
  request_json, follow, on_page, collect, get_schedules, merge, next_link, next_path,
  max_cursor_follows,
}
use sentinel_soroban_v.Aero.Frame.{Keeps-request_json}
use sentinel_soroban_v.Aero.Evidence.{Shown, Listed, Shown-Schedules}

abbrev pub IsIn : ScheduledFlight → List ScheduledFlight → Type 0
IsIn s [] = ⊥
IsIn s (x ∷ rest) = (s ≡ x) ⊎ IsIn s rest

IsIn-append :
    (s : ScheduledFlight) (xs ys : List ScheduledFlight) → IsIn s (xs ++ ys) → IsIn s xs ⊎ IsIn s ys
IsIn-append s [] ys h = inr h
IsIn-append s (x ∷ xs) ys (inl same) = inl (inl same)
IsIn-append s (x ∷ xs) ys (inr h) = elim (IsIn-append s xs ys h) [
  | inl left ↦ inl (inr left)
  | inr right ↦ inr right
]

-- The row stands on a page that AeroAPI answered with.
abbrev pub IsPublished : ScheduledFlight → List Event → Type 0
IsPublished s log =
    (r : Request) × (page : Schedules) × Has (got_schedules r (json (some page))) log
    × IsIn s page.scheduled

abbrev pub AreListed : Option Schedules → List Event → Type 0
AreListed none log = Unit
AreListed (some m) log = (s : ScheduledFlight) → IsIn s m.scheduled → IsPublished s log

abbrev pub Collected : Result (Option Schedules) × World → Type 0
Collected (ok page, w) = AreListed page w.log
Collected (err e, w) = Unit

Collected-IsLax : IsLax Collected
Collected-IsLax = record { errs = λ e w. tt }

-- the pages so far are listed
abbrev Merged : Option Schedules → World → Type 0
Merged merged w = AreListed merged w.log

pub AreListed-grow :
    (m : Option Schedules) (e : Event) (log : List Event) → AreListed m log → AreListed m (e ∷ log)
AreListed-grow none e log h = tt
AreListed-grow (some m) e log h = λ s i. let (r, page, has, row) = h s i in (r, page, inr has, row)

Merged-IsFramed : (m : Option Schedules) → IsFramed (Merged m)
Merged-IsFramed m = record {
  logs = λ e w plain h. AreListed-grow m e w.log h;
  acts = λ w v same h. rw same h;
}

merge-AreListed :
    (m : Option Schedules) (r : Request) (page : Schedules) (log : List Event)
    → AreListed m log
    → Has (got_schedules r (json (some page))) log
    → AreListed (some (merge m page)) log
merge-AreListed none r page log h has = λ s i. (r, page, has, i)
merge-AreListed (some m) r page log h has = λ s i.
    elim (IsIn-append s m.scheduled page.scheduled i) [
      | inl left ↦ h s left
      | inr right ↦ (r, page, has, right)
    ]

-- what the pages behind a cursor lead to
abbrev Goes : (Schedules → String → M (Option Schedules)) → Type 0
Goes go = (m : Schedules) (next : String) (w : World) → Merged (some m) w → Collected (go m next w)

module _ (env : Env) where
  follow-Collected :
      (m : Schedules) (go : Schedules → String → M (Option Schedules)) (next : Option String)
      (w : World)
      → Goes go
      → Merged (some m) w
      → Collected (follow m go next w)
  unfolding follow pure
  follow-Collected m go none w goes h = h
  follow-Collected m go (some next) w goes h = goes m next w h

  on_page-Collected :
      (r : Request) (merged : Option Schedules) (go : Schedules → String → M (Option Schedules))
      (page : Option Schedules) (w : World)
      → Goes go
      → Merged merged w
      → Shown env (fetch_schedules env r) (Listed env r) (ok page, w)
      → Collected (on_page merged go page w)
  unfolding on_page pure
  on_page-Collected r merged go none w goes h shown = h
  on_page-Collected r merged go (some page) w goes h shown =
      follow-Collected (merge merged page) go (next_link page) w goes
        (merge-AreListed merged r page w.log h shown)

  last-Collected :
      (r : Request) (merged page : Option Schedules) (w : World)
      → Merged merged w
      → Shown env (fetch_schedules env r) (Listed env r) (ok page, w)
      → AreListed (elim page [ none ↦ merged | some p ↦ some (merge merged p) ]) w.log
  last-Collected r merged none w h shown = h
  last-Collected r merged (some page) w h shown = merge-AreListed merged r page w.log h shown

  Keeps-request :
      (merged : Option Schedules) (r : Request)
      → Keeps (Merged merged) (request_json env (fetch_schedules env r))
  Keeps-request merged r = search (framed_rules, Merged-IsFramed, Keeps-request_json) depth 9

  collect-Collected :
      (left : ℕ) (merged : Option Schedules) (r : Request) (w : World)
      → Merged merged w
      → Collected (collect env left merged r w)
  unfolding collect pure
  collect-Collected zero merged r w h =
      Keeps-Ends _ _ Collected-IsLax (Keeps-request merged r) (Shown-Schedules env r)
        (λ page w h shown. last-Collected r merged page w h shown) w h
  collect-Collected (suc left) merged r w h =
      Keeps-Ends _ _ Collected-IsLax (Keeps-request merged r) (Shown-Schedules env r)
        (λ page w h shown.
          on_page-Collected r merged _ page w
            (λ m next w h. collect-Collected left (some m) (cursor (next_path next)) w h) h shown)
        w h

  pub get_schedules-Collected :
      (from_day to_day : ℕ) (filters : Filters)
      → Ends Collected (get_schedules env from_day to_day filters)
  unfolding get_schedules
  get_schedules-Collected from_day to_day filters = record {
    at = λ w. collect-Collected max_cursor_follows none _ w tt;
  }
