-- ===== src/Interventions/Invariant.antt =====
-- Every operation of the ledger, whatever fails in it, keeps at most one open row for each route
-- and cause.
use sentinel_soroban_v.Base.{ℕ, String, Bool, Option, none, some, ◌≡◌, refl, ◌==◌, or_else}
use sentinel_soroban_v.World.{Event, RouteKey}
use sentinel_soroban_v.World.Db.{Cause, Evidence, InterventionRow, AuditRow, Db}
use sentinel_soroban_v.World.Monad.{Env, World, emit}
use sentinel_soroban_v.World.Keeps.{Keeps}
use sentinel_soroban_v.World.Quiet.{IsQuiet, Suits, quiet_rules}
use sentinel_soroban_v.Submitter.{add_audit}
use sentinel_soroban_v.Interventions.Chain.{
  Keeps-ensure_table, Keeps-gov_frozen, Keeps-is_pinned, Keeps-pause_on_chain, Keeps-revive_if_free,
}
use sentinel_soroban_v.Interventions.Ledger.{
  open_row, close_rows, add_row, mirror, touch, count_clear, recheck, refresh, add_clear,
  recheck_row,
}
use sentinel_soroban_v.Interventions.Executor.{
  record_and_pause, guarded, pause_route, close_and_revive, revive_route, note_check,
  touch_intervention, record_clear_check, record_check,
}
use sentinel_soroban_v.Interventions.Unique.{
  IsUnique, update-IsUnique, open_row-IsUnique, close_rows-IsUnique, add_closed-IsUnique,
}

unfoldable pub P : World → Type 0
P w = IsUnique w.db.interventions

P-IsQuiet : IsQuiet P
unfolding P
P-IsQuiet = record { logs = λ e w plain h. h; acts = λ w v l d h. rw d h }

-- a change of the other tables
others-Suits : (f : Db → Db) → ((db : Db) → (f db).interventions ≡ db.interventions) → Suits P f
unfolding P
others-Suits f same = record { to = λ w h. rw (same w.db) h }

open_row-Suits :
    (key : RouteKey) (cause : Cause) (evidence : Evidence) (actor : String) (t : ℕ)
    → Suits P (open_row key cause evidence actor t)
unfolding P
open_row-Suits key cause evidence actor t = record {
  to = λ w h. open_row-IsUnique key cause evidence actor t w.db h;
}

close_rows-Suits :
    (key : RouteKey) (cause : Cause) (actor : String) (t : ℕ)
    → Suits P (close_rows key cause actor t)
unfolding P
close_rows-Suits key cause actor t = record {
  to = λ w h. close_rows-IsUnique key cause actor t w.db h;
}

add_row-Suits :
    (key : RouteKey) (cause : Cause) (evidence : Evidence) (actor : String) (t : ℕ)
    → Suits P (add_row key cause evidence actor (some actor) t)
unfolding P
add_row-Suits key cause evidence actor t = record {
  to = λ w h. add_closed-IsUnique key cause evidence actor t w.db h;
}

-- changes of rows that leave their keys alone
touch-Suits : (id : ℕ) (evidence : Option Evidence) (t : ℕ) → Suits P (touch id evidence t)
unfolding P touch
touch-Suits id evidence t = record {
  to = λ w h.
      update-IsUnique (λ r. r.id == id) (λ r. refresh (or_else evidence r.evidence) t r)
        w.db.interventions (record { route = λ r. refl; cause = λ r. refl; revived = λ r. refl }) h;
}

count_clear-Suits : (id t : ℕ) → Suits P (λ db. (count_clear id t db).1)
unfolding P count_clear
count_clear-Suits id t = record {
  to = λ w h.
      update-IsUnique (λ r. r.id == id) (add_clear t) w.db.interventions
        (record { route = λ r. refl; cause = λ r. refl; revived = λ r. refl }) h;
}

recheck-Suits : (id : ℕ) (evidence : Evidence) (t : ℕ) → Suits P (recheck id evidence t)
unfolding P recheck
recheck-Suits id evidence t = record {
  to = λ w h.
      update-IsUnique (λ r. r.id == id) (recheck_row evidence t) w.db.interventions
        (record { route = λ r. refl; cause = λ r. refl; revived = λ r. refl }) h;
}

mirror-Suits : (key : RouteKey) (active : Bool) → Suits P (mirror key active)
unfolding mirror
mirror-Suits key active = others-Suits _ (λ db. refl)

add_audit-Suits : (row : AuditRow) → Suits P (add_audit row)
unfolding add_audit
add_audit-Suits row = others-Suits _ (λ db. refl)

ruleset ledger_rules = (
  quiet_rules, P-IsQuiet, open_row-Suits, close_rows-Suits, add_row-Suits, touch-Suits,
  count_clear-Suits, recheck-Suits, mirror-Suits, add_audit-Suits,
)

Keeps-emit_any : (e : Event) → Keeps P (emit e)
unfolding P emit
Keeps-emit_any e = record { at = λ w h. h }

module _ (env : Env) where
  ruleset executor_rules = (
    ledger_rules, Keeps-emit_any, Keeps-ensure_table, Keeps-gov_frozen, Keeps-is_pinned,
    Keeps-pause_on_chain, Keeps-revive_if_free,
  )

  pub Keeps-pause_route :
      (key : RouteKey) (cause : Cause) (evidence : Evidence) (actor : String)
      → Keeps P (pause_route env key cause evidence actor)
  unfolding pause_route guarded record_and_pause
  Keeps-pause_route key cause evidence actor = search executor_rules depth 20

  pub Keeps-revive_route :
      (key : RouteKey) (cause : Cause) (actor : String) → Keeps P (revive_route env key cause actor)
  unfolding revive_route close_and_revive
  Keeps-revive_route key cause actor = search executor_rules depth 16

  Keeps-note_check :
      (key : RouteKey) (cause : Cause) (evidence : Evidence) (actor : String)
      (row : Option InterventionRow)
      → Keeps P (note_check env key cause evidence actor row)
  unfolding note_check
  Keeps-note_check key cause evidence actor (some row) = search executor_rules depth 7
  Keeps-note_check key cause evidence actor none = search executor_rules depth 7

  pub Keeps-record_check :
      (key : RouteKey) (cause : Cause) (evidence : Evidence) (actor : String)
      → Keeps P (record_check env key cause evidence actor)
  unfolding record_check
  Keeps-record_check key cause evidence actor = search (executor_rules, Keeps-note_check) depth 14

  pub Keeps-touch_intervention :
      (id : ℕ) (evidence : Option Evidence) → Keeps P (touch_intervention env id evidence)
  unfolding touch_intervention
  Keeps-touch_intervention id evidence = search executor_rules depth 7

  pub Keeps-record_clear_check : (id : ℕ) → Keeps P (record_clear_check env id)
  unfolding record_clear_check
  Keeps-record_clear_check id = search executor_rules depth 7
