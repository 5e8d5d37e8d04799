-- ===== src/Interventions/Ledger.antt =====
-- dapp/api/_lib/governance/interventions.ts: the SQL statements, as functions of the tables.
use sentinel_soroban_v.Base.{
  ℕ, ◌+◌, ◌-◌, ◌*◌, ◌/◌, max, String, Bool, true, false, not, ◌&&◌, Option, none, some, List, [],
  ◌∷◌, ◌==◌, ltb, if◌then◌else◌, is_some, or_else, first, select, any,
}
use sentinel_soroban_v.World.{RouteKey}
use sentinel_soroban_v.World.Db.{
  Cause, Evidence, InterventionRow, RouteRow, Slot, Db, cause_eq, key_eq,
}

-- `computeDisableCap`: the ceiling of a fifth, and three at least
unfoldable pub compute_disable_cap : ℕ → ℕ
compute_disable_cap route_count = max 3 ((route_count + 4) / 5)

abbrev pub is_open : InterventionRow → Bool
is_open r = not (is_some r.revived)

-- `where flight_id = … and origin = … and dest = … and cause = …`
abbrev pub is_of : RouteKey → Cause → InterventionRow → Bool
is_of key cause r = key_eq r.route key && cause_eq r.cause cause

-- `… and revived_at is null`
abbrev pub holds : RouteKey → Cause → InterventionRow → Bool
holds key cause r = is_open r && is_of key cause r

-- the open rows of a route, whatever their cause
abbrev pub holds_route : RouteKey → InterventionRow → Bool
holds_route key r = is_open r && key_eq r.route key

-- `update … set … where p`
unfoldable pub update :
    (InterventionRow → Bool)
    → (InterventionRow → InterventionRow)
    → List InterventionRow
    → List InterventionRow
update p f [] = []
update p f (r ∷ rest) = (if p r then f r else r) ∷ update p f rest

abbrev pub new_row : ℕ → RouteKey → Cause → Evidence → String → ℕ → Option String → InterventionRow
new_row id key cause evidence actor now revived = record {
  id = id;
  route = key;
  cause = cause;
  evidence = evidence;
  opened_by = actor;
  opened_at = now;
  last_checked_at = now;
  clear_streak = 0;
  revived = revived;
}

unfoldable pub add_row : RouteKey → Cause → Evidence → String → Option String → ℕ → Db → Db
add_row key cause evidence actor revived now db = record db {
  interventions = new_row db.next_id key cause evidence actor now revived ∷ db.interventions;
  next_id = db.next_id + 1;
}

abbrev pub refresh : Evidence → ℕ → InterventionRow → InterventionRow
refresh evidence now r = record r { evidence = evidence; last_checked_at = now; clear_streak = 0 }

-- `insert … on conflict (flight_id, origin, dest, cause) where revived_at is null do update`
unfoldable pub open_row : RouteKey → Cause → Evidence → String → ℕ → Db → Db
unfolding update add_row
open_row key cause evidence actor now db =
    if any (holds key cause) db.interventions
    then record db {
      interventions = update (holds key cause) (refresh evidence now) db.interventions;
    }
    else add_row key cause evidence actor none now db

-- `update … set revived_at = now(), revived_by = …`
unfoldable pub close_rows : RouteKey → Cause → String → ℕ → Db → Db
unfolding update
close_rows key cause actor now db = record db {
  interventions =
      update (holds key cause) (λ r. record r { revived = some actor; last_checked_at = now })
        db.interventions;
}

-- `update routes set status = …`
unfoldable pub set_route : RouteKey → Bool → List RouteRow → List RouteRow
set_route key active [] = []
set_route key active (r ∷ rest) =
    (if key_eq r.route key then record r { active = active } else r) ∷ set_route key active rest

unfoldable pub mirror : RouteKey → Bool → Db → Db
unfolding set_route
mirror key active db = record db { routes = set_route key active db.routes }

abbrev pub pin_holds : ℕ → Option ℕ → Bool
pin_holds now none = true
pin_holds now (some until) = ltb now until

-- `isPinned`, of the rows
abbrev pub is_pinned_row : ℕ → Option RouteRow → Bool
is_pinned_row now none = false
is_pinned_row now (some r) = r.pinned && pin_holds now r.pin_until

abbrev pub flag_value : Option Bool → Bool
flag_value none = false
flag_value (some b) = b

-- the upsert of `claimDisableSlot` in the window `hour`, and whether it returned a row
unfoldable pub claim_slot : ℕ → ℕ → List Slot → Bool × List Slot
claim_slot cap hour [] = (true, record { window = hour; count = 1 } ∷ [])
claim_slot cap hour (s ∷ rest) =
    let (claimed, rest') = claim_slot cap hour rest in
    if s.window == hour
    then (if ltb s.count cap
        then (true, record s { count = s.count + 1 } ∷ rest)
        else (false, s ∷ rest))
    else (claimed, s ∷ rest')

-- `greatest(count - 1, 0)`
unfoldable pub release_slot : ℕ → List Slot → List Slot
release_slot hour [] = []
release_slot hour (s ∷ rest) =
    (if s.window == hour then record s { count = s.count - 1 } else s) ∷ release_slot hour rest

-- `delete … where window_start < now() - interval '2 days'`
unfoldable pub drop_slots : ℕ → Db → Db
drop_slots now db = record db {
  slots = select (λ s. not (ltb (s.window * 3600 + 172800) now)) db.slots;
}

unfoldable pub claim : ℕ → ℕ → Db → Bool × Db
unfolding claim_slot
claim cap now db =
    let (claimed, slots') = claim_slot cap (now / 3600) db.slots in
    (claimed, record db { slots = slots' })

unfoldable pub release : ℕ → Db → Db
unfolding release_slot
release now db = record db { slots = release_slot (now / 3600) db.slots }

-- the statements of `touchIntervention`, by whether evidence is given
unfoldable pub touch : ℕ → Option Evidence → ℕ → Db → Db
unfolding update
touch id evidence now db = record db {
  interventions =
      update (λ r. r.id == id) (λ r. refresh (or_else evidence r.evidence) now r) db.interventions;
}

abbrev pub add_clear : ℕ → InterventionRow → InterventionRow
add_clear now r = record r { last_checked_at = now; clear_streak = r.clear_streak + 1 }

abbrev pub streak_of : Option InterventionRow → ℕ
streak_of none = 0
streak_of (some r) = r.clear_streak

-- the statement of `recordClearCheck`, with the streak that it returns
unfoldable pub count_clear : ℕ → ℕ → Db → ℕ × Db
unfolding update
count_clear id now db =
    let rows = update (λ r. r.id == id) (add_clear now) db.interventions in
    (streak_of (first (select (λ r. r.id == id) rows)), record db { interventions = rows })

abbrev pub recheck_row : Evidence → ℕ → InterventionRow → InterventionRow
recheck_row evidence now r = record r { last_checked_at = now; evidence = evidence }

-- the update of `recordCheck`
unfoldable pub recheck : ℕ → Evidence → ℕ → Db → Db
unfolding update
recheck id evidence now db = record db {
  interventions = update (λ r. r.id == id) (recheck_row evidence now) db.interventions;
}
