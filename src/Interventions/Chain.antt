-- ===== src/Interventions/Chain.antt =====
-- What the parts of the operations keep that write neither rows nor slots, for a predicate of those.
use sentinel_soroban_v.Base.{String, Bool, List, [], ◌∷◌}
use sentinel_soroban_v.World.{Event, RouteKey, Call}
use sentinel_soroban_v.World.Db.{InterventionRow, AuditRow}
use sentinel_soroban_v.World.Monad.{Env, World, RouteState, emit}
use sentinel_soroban_v.World.Keeps.{Keeps, Keeps-pure, Keeps-skip}
use sentinel_soroban_v.World.Quiet.{IsQuiet, Suits, quiet_rules}
use sentinel_soroban_v.Submitter.{
  sign_and_send, submit, disable, enable, read_status, safe_log, add_audit,
}
use sentinel_soroban_v.Interventions.Ledger.{mirror}
use sentinel_soroban_v.Interventions.Executor.{
  ensure_table, gov_frozen, is_pinned, disable_if_active, enable_if_disabled, pause_on_chain,
  revive_on_chain, revive_if_free,
}

module _ (P : World → Type 0) (quiet : IsQuiet P) (emits : (e : Event) → Keeps P (emit e))
    (mirrors : (key : RouteKey) (active : Bool) → Suits P (mirror key active))
    (audits : (row : AuditRow) → Suits P (add_audit row)) (env : Env) where
  Keeps-sign_and_send : (actor : String) (c : Call) → Keeps P (sign_and_send env actor c)
  unfolding sign_and_send
  Keeps-sign_and_send actor c = search (quiet_rules, emits) depth 9

  Keeps-safe_log :
      (actor : String) (key : RouteKey) (action : String) (success : Bool)
      → Keeps P (safe_log env actor key action success)
  unfolding safe_log
  Keeps-safe_log actor key action success = search (quiet_rules, audits) depth 9

  Keeps-read_status : (actor : String) (key : RouteKey) → Keeps P (read_status env actor key)
  unfolding read_status
  Keeps-read_status actor key = search quiet_rules

  Keeps-submit :
      (actor : String) (key : RouteKey) (action : String) (c : Call)
      → Keeps P (submit env actor key action c)
  unfolding submit
  Keeps-submit actor key action c =
      search (quiet_rules, Keeps-sign_and_send, Keeps-safe_log, Keeps-read_status) depth 14

  Keeps-disable_if_active :
      (key : RouteKey) (actor : String) (state : RouteState)
      → Keeps P (disable_if_active env key actor state)
  unfolding disable_if_active disable
  Keeps-disable_if_active key actor RouteState.active = search (quiet_rules, Keeps-submit) depth 7
  Keeps-disable_if_active key actor _ = Keeps-pure _

  Keeps-enable_if_disabled :
      (key : RouteKey) (actor : String) (state : RouteState)
      → Keeps P (enable_if_disabled env key actor state)
  unfolding enable_if_disabled enable
  Keeps-enable_if_disabled key actor RouteState.disabled =
      search (quiet_rules, Keeps-submit) depth 7
  Keeps-enable_if_disabled key actor _ = Keeps-skip

  pub Keeps-ensure_table : Keeps P (ensure_table env)
  unfolding ensure_table
  Keeps-ensure_table = search quiet_rules depth 9

  pub Keeps-gov_frozen : Keeps P (gov_frozen env)
  unfolding gov_frozen
  Keeps-gov_frozen = search quiet_rules depth 9

  pub Keeps-is_pinned : (key : RouteKey) → Keeps P (is_pinned env key)
  unfolding is_pinned
  Keeps-is_pinned key = search quiet_rules depth 9

  pub Keeps-pause_on_chain :
      (key : RouteKey) (actor : String) → Keeps P (pause_on_chain env key actor)
  unfolding pause_on_chain
  Keeps-pause_on_chain key actor =
      search (quiet_rules, mirrors, Keeps-read_status, Keeps-disable_if_active) depth 12

  pub Keeps-revive_on_chain :
      (key : RouteKey) (actor : String) → Keeps P (revive_on_chain env key actor)
  unfolding revive_on_chain
  Keeps-revive_on_chain key actor =
      search (quiet_rules, mirrors, Keeps-read_status, Keeps-enable_if_disabled) depth 12

  pub Keeps-revive_if_free :
      (key : RouteKey) (actor : String) (rows : List InterventionRow)
      → Keeps P (revive_if_free env key actor rows)
  unfolding revive_if_free
  Keeps-revive_if_free key actor [] = search (quiet_rules, Keeps-revive_on_chain) depth 9
  Keeps-revive_if_free key actor (r ∷ rest) = Keeps-pure _
