-- ===== src/Interventions/Pauses.antt =====
-- A route that stays held while others are paused, and while others are revived.
use sentinel_soroban_v.Base.{
  ℕ, String, false, some, List, [], ◌∷◌, ◌≡◌, refl, ◌∙◌, any, Bool-cases, inl, inr, arith,
}
use sentinel_soroban_v.World.{RouteKey}
use sentinel_soroban_v.World.Db.{Cause, Evidence, InterventionRow, key_eq, key_eq_iff}
use sentinel_soroban_v.World.Monad.{Env, World, RouteState}
use sentinel_soroban_v.World.Keeps.{Keeps, Keeps-pure}
use sentinel_soroban_v.World.Quiet.{Suits}
use sentinel_soroban_v.Submitter.{sign_and_send, submit, disable}
use sentinel_soroban_v.Interventions.Ledger.{holds, update, open_row, add_row, close_rows, refresh}
use sentinel_soroban_v.Interventions.Executor.{
  ensure_table, gov_frozen, is_pinned, disable_if_active, pause_on_chain, record_and_pause, guarded,
  pause_route,
}
use sentinel_soroban_v.Interventions.Holds.{
  Holding, holding_rules, any-holds-faithful, Keeps-safe_log, Keeps-read_status, Keeps-emit_other,
}

pub any-holds-apart :
    (key k : RouteKey) (other cause : Cause) (actor : String) (t : ℕ)
    → key_eq k key ≡ false
    → (rows : List InterventionRow)
    → any
        (holds key other)
        (update (holds k cause) (λ r. record r { revived = some actor; last_checked_at = t }) rows)
      ≡ any (holds key other) rows
unfolding update
any-holds-apart key k other cause actor t apart [] = refl
any-holds-apart key k other cause actor t apart (r ∷ rest) = ground (
  arith,
  any-holds-apart key k other cause actor t apart rest,
  key_eq_iff r.route k,
  key_eq_iff r.route key,
  key_eq_iff k key,
)

module _ (key : RouteKey) (other : Cause) (n : ℕ) where
  H : World → Type 0
  H = Holding key other n

  pub close_rows-apart :
      (k : RouteKey) (cause : Cause) (actor : String)
      → key_eq k key ≡ false
      → (t : ℕ) → Suits (Holding key other n) (close_rows k cause actor t)
  unfolding Holding close_rows
  close_rows-apart k cause actor apart t = record {
    to = λ w h. (any-holds-apart key k other cause actor t apart w.db.interventions ∙ h.0, h.1);
  }

  open_row-Suits :
      (k : RouteKey) (cause : Cause) (evidence : Evidence) (actor : String) (t : ℕ)
      → Suits H (open_row k cause evidence actor t)
  unfolding H Holding open_row add_row
  open_row-Suits k cause evidence actor t = record {
    to = λ w h. elim (Bool-cases (any (holds k cause) w.db.interventions)) [
      | inl known ↦ rw known (
        any-holds-faithful key other (holds k cause) (refresh evidence t)
              (record { route = λ r. refl; cause = λ r. refl; revived = λ r. refl })
              w.db.interventions
            ∙ h.0,
        h.1,
      )
      | inr fresh ↦ rw fresh (ground (arith, h.0), h.1)
    ];
  }

  module _ (env : Env) where
    Keeps-disable_if_active :
        (k : RouteKey) (actor : String) (state : RouteState)
        → Keeps H (disable_if_active env k actor state)
    unfolding H disable_if_active disable submit sign_and_send
    Keeps-disable_if_active k actor RouteState.active =
        search (holding_rules, Keeps-emit_other, Keeps-safe_log, Keeps-read_status) depth 20
    Keeps-disable_if_active k actor _ = Keeps-pure _

    pub Keeps-pause_route :
        (k : RouteKey) (cause : Cause) (evidence : Evidence) (actor : String)
        → Keeps (Holding key other n) (pause_route env k cause evidence actor)
    unfolding H pause_route guarded record_and_pause pause_on_chain ensure_table gov_frozen
        is_pinned
    Keeps-pause_route k cause evidence actor =
        search (holding_rules, Keeps-read_status, Keeps-disable_if_active, open_row-Suits) depth 20
