-- ===== src/Interventions/Unique.antt =====
-- At most one open row for each route and cause.
use sentinel_soroban_v.Base.{
  ℕ, ◌≤◌, String, Bool, false, none, some, List, [], ◌∷◌, ◌≡◌, refl, arith, count, any, Bool-cases,
  inl, inr,
}
use sentinel_soroban_v.World.{RouteKey}
use sentinel_soroban_v.World.Db.{Cause, Evidence, InterventionRow, Db, key_eq_iff, cause_eq_iff}
use sentinel_soroban_v.Interventions.Ledger.{holds, update, open_row, close_rows, add_row, refresh}

-- The partial unique index `interventions_open_key`.
abbrev pub IsUnique : List InterventionRow → Type 0
IsUnique rows = (key : RouteKey) (cause : Cause) → count (holds key cause) rows ≤ 1

-- A change that leaves the route, the cause and the closing of a row alone.
pub record IsFaithful (f : InterventionRow → InterventionRow) : Type 0 where
  pub route : (r : InterventionRow) → (f r).route ≡ r.route
  pub cause : (r : InterventionRow) → (f r).cause ≡ r.cause
  pub revived : (r : InterventionRow) → (f r).revived ≡ r.revived

module _ (key : RouteKey) (cause : Cause) where
  count-update_faithful :
      (p : InterventionRow → Bool) (f : InterventionRow → InterventionRow)
      → IsFaithful f
      → (rows : List InterventionRow)
      → count (holds key cause) (update p f rows) ≡ count (holds key cause) rows
  unfolding update
  count-update_faithful p f ok [] = refl
  count-update_faithful p f ok (r ∷ rest) =
      grind (arith, count-update_faithful p f ok rest, ok.route r, ok.cause r, ok.revived r)

  any-count :
      (rows : List InterventionRow)
      → any (holds key cause) rows ≡ false
      → count (holds key cause) rows ≡ 0
  any-count [] h = refl
  any-count (r ∷ rest) h = ground (arith, any-count rest)

  count-update_closed :
      (p : InterventionRow → Bool) (actor : String) (now : ℕ) (rows : List InterventionRow)
      → count
          (holds key cause)
          (update p (λ r. record r { revived = some actor; last_checked_at = now }) rows)
        ≤ count (holds key cause) rows
  unfolding update
  count-update_closed p actor now [] = omega arith
  count-update_closed p actor now (r ∷ rest) = ground (arith, count-update_closed p actor now rest)

refresh-IsFaithful : (evidence : Evidence) (now : ℕ) → IsFaithful (refresh evidence now)
refresh-IsFaithful evidence now = record {
  route = λ r. refl;
  cause = λ r. refl;
  revived = λ r. refl;
}

pub update-IsUnique :
    (p : InterventionRow → Bool) (f : InterventionRow → InterventionRow)
    (rows : List InterventionRow)
    → IsFaithful f
    → IsUnique rows
    → IsUnique (update p f rows)
update-IsUnique p f rows ok h key cause =
    rw (count-update_faithful key cause p f ok rows) (h key cause)

-- A new row is open for one route and cause at most.
add_row-IsUnique :
    (key : RouteKey) (cause : Cause) (evidence : Evidence) (actor : String) (now : ℕ) (db : Db)
    → IsUnique db.interventions
    → any (holds key cause) db.interventions ≡ false
    → IsUnique (add_row key cause evidence actor none now db).interventions
unfolding add_row
add_row-IsUnique key cause evidence actor now db h fresh key' cause' = ground (
  arith,
  h key' cause',
  key_eq_iff key key',
  cause_eq_iff cause cause',
  any-count key cause db.interventions fresh,
)

-- Opening a row refreshes the open row that is there, or adds the only one.
pub open_row-IsUnique :
    (key : RouteKey) (cause : Cause) (evidence : Evidence) (actor : String) (now : ℕ) (db : Db)
    → IsUnique db.interventions
    → IsUnique (open_row key cause evidence actor now db).interventions
unfolding open_row
open_row-IsUnique key cause evidence actor now db h =
    elim (Bool-cases (any (holds key cause) db.interventions)) [
      | inl old ↦ rw old (update-IsUnique _ _ db.interventions (refresh-IsFaithful evidence now) h)
      | inr fresh ↦ rw fresh (add_row-IsUnique key cause evidence actor now db h fresh)
    ]

pub close_rows-IsUnique :
    (key : RouteKey) (cause : Cause) (actor : String) (now : ℕ) (db : Db)
    → IsUnique db.interventions
    → IsUnique (close_rows key cause actor now db).interventions
unfolding close_rows
close_rows-IsUnique key cause actor now db h key' cause' = omega (
  arith,
  count-update_closed key' cause' (holds key cause) actor now db.interventions,
  h key' cause',
)

pub add_closed-IsUnique :
    (key : RouteKey) (cause : Cause) (evidence : Evidence) (actor : String) (now : ℕ) (db : Db)
    → IsUnique db.interventions
    → IsUnique (add_row key cause evidence actor (some actor) now db).interventions
unfolding add_row
add_closed-IsUnique key cause evidence actor now db h key' cause' = ground (arith, h key' cause')
