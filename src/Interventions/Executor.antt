-- ===== src/Interventions/Executor.antt =====
-- dapp/api/_lib/governance/interventions.ts: the operations of the ledger.
use sentinel_soroban_v.Base.{
  ℕ, ◌+◌, ◌*◌, ◌/◌, String, Bool, true, false, ◌&&◌, Option, none, some, List, [], ◌∷◌, ltb,
  if◌then◌else◌, first, select, any, map,
}
use sentinel_soroban_v.World.{RouteKey}
use sentinel_soroban_v.World.Db.{Cause, Evidence, InterventionRow, cause_eq, key_eq}
use sentinel_soroban_v.World.Monad.{
  Env, M, RouteState, pure, skip, ◌>>=◌, ◌>>◌, catch, query, query_at, statement, statement_at,
  returning, now,
}
use sentinel_soroban_v.Submitter.{read_status, disable, enable}
use sentinel_soroban_v.Interventions.Ledger.{
  is_open, is_of, holds, holds_route, open_row, close_rows, add_row, mirror, is_pinned_row,
  flag_value, claim, release, drop_slots, touch, count_clear, recheck,
}

-- The texts of `PauseResult.outcome`
pub data PauseOutcome : Type 0 where
  no_db frozen pinned recorded_only paused already_off : PauseOutcome

-- `PauseResult`
pub record PauseResult : Type 0 where
  pub outcome : PauseOutcome
  pub disabled_on_chain : Bool

-- The texts that `reviveRoute` returns
pub data ReviveOutcome : Type 0 where
  still_frozen no_key revived : ReviveOutcome
  still_held : List Cause → ReviveOutcome

abbrev pub is_admin : Cause → Bool
is_admin Cause.admin = true
is_admin _ = false

module _ (env : Env) where
  -- `ensureTable`: create, row level security, index
  unfoldable pub ensure_table : M Unit
  ensure_table = do statement env (λ db. db); statement env (λ db. db); statement env (λ db. db)

  -- `govFrozen`
  unfoldable pub gov_frozen : M Bool
  gov_frozen = catch (query env (λ db. flag_value db.frozen)) (λ e. pure false)

  -- `isPinned`; the pin's end is compared with the program's clock
  unfoldable pub is_pinned : RouteKey → M Bool
  is_pinned key =
      catch
        (do
          row ← query env (λ db. first (select (λ r. key_eq r.route key) db.routes))
          t ← now env
          pure (is_pinned_row (t / 1000) row))
        (λ e. pure false)

  -- `claimDisableSlot`
  unfoldable pub claim_disable_slot : ℕ → M Bool
  claim_disable_slot cap =
      if env.db_configured
      then catch
          (do
            statement env (λ db. db)
            statement env (λ db. db)
            statement_at env drop_slots
            returning env (claim cap))
          (λ e. pure true)
      else pure true

  -- `releaseDisableSlot`
  unfoldable pub release_disable_slot : M Unit
  release_disable_slot =
      if env.db_configured then catch (statement_at env release) (λ e. skip) else skip

  -- an active route is disabled; the answer says whether it was
  unfoldable pub disable_if_active : RouteKey → String → RouteState → M Bool
  disable_if_active key actor RouteState.active = do disable env actor key; pure true
  disable_if_active key actor _ = pure false

  -- the end of `pauseRoute`, behind its guardrails: the chain and the mirror
  unfoldable pub pause_on_chain : RouteKey → String → M PauseResult
  pause_on_chain key actor = do
    state ← read_status env actor key
    disabled ← disable_if_active key actor state
    statement env (mirror key false)
    pure (record {
      outcome = if disabled then paused else already_off;
      disabled_on_chain = disabled;
    })

  -- the ledger first, then the chain
  unfoldable pub record_and_pause : RouteKey → Cause → Evidence → String → M PauseResult
  record_and_pause key cause evidence actor = do
    statement_at env (open_row key cause evidence actor)
    if env.has_governance_key
        then pause_on_chain key actor
        else pure (record { outcome = recorded_only; disabled_on_chain = false })

  -- the guardrails of automated causes
  unfoldable pub guarded : RouteKey → M PauseResult → M PauseResult
  guarded key go = do
    is_frozen ← gov_frozen
    if is_frozen then pure (record { outcome = frozen; disabled_on_chain = false }) else (do
      pin ← is_pinned key
      if pin then pure (record { outcome = pinned; disabled_on_chain = false }) else go)

  -- `pauseRoute`
  unfoldable pub pause_route : RouteKey → Cause → Evidence → String → M PauseResult
  pause_route key cause evidence actor =
      if env.db_configured
      then (do
        ensure_table
        if is_admin cause
            then record_and_pause key cause evidence actor
            else guarded key (record_and_pause key cause evidence actor))
      else pure (record { outcome = no_db; disabled_on_chain = false })

  unfoldable pub enable_if_disabled : RouteKey → String → RouteState → M Unit
  enable_if_disabled key actor RouteState.disabled = enable env actor key >> skip
  enable_if_disabled key actor _ = skip

  -- the end of `reviveRoute`, once nothing holds the route
  unfoldable pub revive_on_chain : RouteKey → String → M ReviveOutcome
  revive_on_chain key actor = do
    state ← read_status env actor key
    enable_if_disabled key actor state
    statement env (mirror key true)
    pure revived

  unfoldable pub revive_if_free : RouteKey → String → List InterventionRow → M ReviveOutcome
  revive_if_free key actor [] =
      if env.has_governance_key then revive_on_chain key actor else pure no_key
  revive_if_free key actor (r ∷ rest) = pure (still_held (map (λ r. r.cause) (r ∷ rest)))

  unfoldable pub close_and_revive : RouteKey → Cause → String → M ReviveOutcome
  close_and_revive key cause actor = do
    statement_at env (close_rows key cause actor)
    remaining ← query env (λ db. select (holds_route key) db.interventions)
    revive_if_free key actor remaining

  -- `reviveRoute`
  unfoldable pub revive_route : RouteKey → Cause → String → M ReviveOutcome
  revive_route key cause actor = do
    ensure_table
    is_frozen ← (if is_admin cause then pure false else gov_frozen)
    if is_frozen then pure still_frozen else close_and_revive key cause actor

  -- `openInterventions`
  unfoldable pub open_interventions : Option Cause → M (List InterventionRow)
  open_interventions cause = do
    ensure_table
    query env (λ db.
        select (λ r. is_open r && (elim cause [ none ↦ true | some c ↦ cause_eq r.cause c ]))
          db.interventions)

  -- `touchIntervention`
  unfoldable pub touch_intervention : ℕ → Option Evidence → M Unit
  touch_intervention id evidence = statement_at env (touch id evidence)

  -- `recordClearCheck`
  unfoldable pub record_clear_check : ℕ → M ℕ
  record_clear_check id = returning env (count_clear id)

  -- a check of an open row refreshes it; any other is a closed row of its own
  unfoldable pub note_check : RouteKey → Cause → Evidence → String → Option InterventionRow → M Unit
  note_check key cause evidence actor (some row) = statement_at env (recheck row.id evidence)
  note_check key cause evidence actor none =
      statement_at env (add_row key cause evidence actor (some actor))

  -- `recordCheck`
  unfoldable pub record_check : RouteKey → Cause → Evidence → String → M Unit
  unfolding note_check
  record_check key cause evidence actor =
      if env.db_configured
      then catch
          (do
            ensure_table
            existing ← query env (λ db. first (select (holds key cause) db.interventions))
            note_check key cause evidence actor existing)
          (λ e. skip)
      else skip

  -- `checkedRecently`
  unfoldable pub checked_recently : RouteKey → Cause → ℕ → M Bool
  checked_recently key cause hours =
      if env.db_configured
      then catch
          (do
            ensure_table
            query_at env (λ t db.
                any (λ r. is_of key cause r && ltb t (r.last_checked_at + hours * 3600))
                  db.interventions))
          (λ e. pure false)
      else pure false
