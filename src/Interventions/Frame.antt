-- ===== src/Interventions/Frame.antt =====
-- What the operations of the ledger keep that the guard calls, where a predicate admits the
-- transaction that disables the route.
use sentinel_soroban_v.Base.{ℕ, String, Bool, Option, none, some}
use sentinel_soroban_v.World.{RouteKey, Call, submitted, wrote, disable_route}
use sentinel_soroban_v.World.Db.{Cause, Evidence, InterventionRow}
use sentinel_soroban_v.World.Monad.{Env, World, RouteState, emit}
use sentinel_soroban_v.World.Keeps.{Keeps, IsFramed, framed_rules, Keeps-pure}
use sentinel_soroban_v.Soroban.Frame.{Admits}
use sentinel_soroban_v.Submitter.{sign_and_send, submit, disable, read_status, safe_log}
use sentinel_soroban_v.Interventions.Executor.{
  ensure_table, gov_frozen, is_pinned, disable_if_active, pause_on_chain, record_and_pause, guarded,
  pause_route, note_check, record_check, checked_recently,
}

module _ (P : World → Type 0) (framed : IsFramed P) (env : Env) where
  Keeps-submitted : (c : Call) → Admits P c → Keeps P (emit (submitted c))
  unfolding emit
  Keeps-submitted c admits = record { at = λ w h. admits.sends w h }

  Keeps-wrote : (c : Call) (done : Bool) → Admits P c → Keeps P (emit (wrote c done))
  unfolding emit
  Keeps-wrote c done admits = record { at = λ w h. admits.ends done w h }

  Keeps-sign_and_send :
      (actor : String) (c : Call) → Admits P c → Keeps P (sign_and_send env actor c)
  unfolding sign_and_send
  Keeps-sign_and_send actor c admits = search (framed_rules, Keeps-submitted, Keeps-wrote) depth 12

  Keeps-safe_log :
      (actor : String) (key : RouteKey) (action : String) (success : Bool)
      → Keeps P (safe_log env actor key action success)
  unfolding safe_log
  Keeps-safe_log actor key action success = search framed_rules depth 9

  pub Keeps-read_status : (actor : String) (key : RouteKey) → Keeps P (read_status env actor key)
  unfolding read_status
  Keeps-read_status actor key = search framed_rules

  pub Keeps-submit :
      (actor : String) (key : RouteKey) (action : String) (c : Call)
      → Admits P c
      → Keeps P (submit env actor key action c)
  unfolding submit
  Keeps-submit actor key action c admits =
      search (framed_rules, Keeps-sign_and_send, Keeps-safe_log, Keeps-read_status) depth 14

  Keeps-disable_if_active :
      (key : RouteKey) (actor : String) (state : RouteState)
      → Admits P (disable_route key)
      → Keeps P (disable_if_active env key actor state)
  unfolding disable_if_active disable
  Keeps-disable_if_active key actor RouteState.active admits =
      search (framed_rules, Keeps-submit) depth 7
  Keeps-disable_if_active key actor _ admits = Keeps-pure _

  Keeps-ensure_table : Keeps P (ensure_table env)
  unfolding ensure_table
  Keeps-ensure_table = search framed_rules depth 9

  Keeps-gov_frozen : Keeps P (gov_frozen env)
  unfolding gov_frozen
  Keeps-gov_frozen = search framed_rules depth 9

  Keeps-is_pinned : (key : RouteKey) → Keeps P (is_pinned env key)
  unfolding is_pinned
  Keeps-is_pinned key = search framed_rules depth 9

  pub Keeps-pause_route :
      (key : RouteKey) (cause : Cause) (evidence : Evidence) (actor : String)
      → Admits P (disable_route key)
      → Keeps P (pause_route env key cause evidence actor)
  unfolding pause_route guarded record_and_pause pause_on_chain
  Keeps-pause_route key cause evidence actor admits =
      search
        (
          framed_rules, Keeps-read_status, Keeps-disable_if_active, Keeps-ensure_table,
          Keeps-gov_frozen, Keeps-is_pinned,
        )
        depth 20

  Keeps-note_check :
      (key : RouteKey) (cause : Cause) (evidence : Evidence) (actor : String)
      (row : Option InterventionRow)
      → Keeps P (note_check env key cause evidence actor row)
  unfolding note_check
  Keeps-note_check key cause evidence actor (some row) = search framed_rules depth 7
  Keeps-note_check key cause evidence actor none = search framed_rules depth 7

  pub Keeps-record_check :
      (key : RouteKey) (cause : Cause) (evidence : Evidence) (actor : String)
      → Keeps P (record_check env key cause evidence actor)
  unfolding record_check
  Keeps-record_check key cause evidence actor =
      search (framed_rules, Keeps-ensure_table, Keeps-note_check) depth 14

  pub Keeps-checked_recently :
      (key : RouteKey) (cause : Cause) (hours : ℕ) → Keeps P (checked_recently env key cause hours)
  unfolding checked_recently
  Keeps-checked_recently key cause hours = search (framed_rules, Keeps-ensure_table) depth 14
