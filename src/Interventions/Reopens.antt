-- ===== src/Interventions/Reopens.antt =====
-- The revival of a route that nothing else holds.
use sentinel_soroban_v.Base.{
  ℕ, suc, or_else, is_some, Option-cases, inl, inr, String, Bool, true, false, not, ◌||◌, some,
  List, [], ◌∷◌, ◌≡◌, refl, ap, ◌∙◌, select, if◌then◌else◌,
}
use sentinel_soroban_v.World.{
  Event, RouteKey, Call, enable_route, read, route_status, submitted, wrote, sql,
}
use sentinel_soroban_v.World.Db.{Cause, AuditRow, Db, cause_eq, key_eq_iff}
use sentinel_soroban_v.World.Monad.{
  Env, World, RouteState, ok, ◌>>=◌, catch, query, statement, statement_at, read_as, pure,
}
use sentinel_soroban_v.Submitter.{
  SubmitOutcome, add_audit, read_status, submit, enable, sign_and_send, safe_log,
}
use sentinel_soroban_v.Interventions.Ledger.{holds_route, close_rows, mirror, flag_value}
use sentinel_soroban_v.Interventions.Executor.{
  ensure_table, gov_frozen, revived, revive_route, close_and_revive, revive_if_free,
  revive_on_chain, no_key, enable_if_disabled, is_admin,
}
use sentinel_soroban_v.Interventions.Guardrails.{is_held}
use sentinel_soroban_v.Interventions.Holds.{enables}
use sentinel_soroban_v.Interventions.Closed.{
  is_on_sale, none_left, none_held, set_route-on_sale, if-true, not-true, closed,
}

-- How a revival ends that started from a world: reported, with one transaction more, in the database
-- that the statements have left but for the audit.
module _ (env : Env) (key : RouteKey) (cause : Cause) (actor : String) (n : ℕ)
    (up : (log : List Event) → env.sql_answers log ≡ true)
    (status : (log : List Event)
      → enables key log ≡ n
      → env.route_status log key ≡ some RouteState.disabled)
    (returns : (log : List Event) → env.governance_returns log (enable_route key) ≡ true)
    (keyed : env.has_governance_key ≡ true) where
  abbrev e : Event
  e = read (route_status key) true

  statement-up :
      (f : Db → Db) (w : World)
      → statement env f w ≡ (ok tt, record w { log = sql true ∷ w.log; db = f w.db })
  unfolding statement ◌>>=◌
  statement-up f w = rw (up w.log) refl

  query-up :
      {A : Type 0} (f : Db → A) (w : World)
      → query env f w ≡ (ok (f w.db), record w { log = sql true ∷ w.log })
  unfolding query ◌>>=◌
  query-up f w = rw (up w.log) refl

  read_status-some :
      (w : World)
      → enables key w.log ≡ n
      → read_status env actor key w ≡ (ok RouteState.disabled, record w { log = e ∷ w.log })
  unfolding read_status read_as ◌>>=◌
  read_status-some w once = rw (status w.log once) refl

  -- the snapshot behind the transaction, whatever the chain then answers
  snapshot-up :
      (w : World)
      → catch (read_status env actor key) (λ e. pure RouteState.unknown) w ≡ (
        ok (or_else (env.route_status w.log key) RouteState.unknown),
        record w { log = read (route_status key) (is_some (env.route_status w.log key)) ∷ w.log },
      )
  unfolding read_status read_as ◌>>=◌ catch
  snapshot-up w = elim (Option-cases (env.route_status w.log key)) [
    | inl none_read ↦ rw none_read refl
    | inr (state, read_it) ↦ rw read_it refl
  ]

  abbrev c : Call
  c = enable_route key

  sign_and_send-some :
      (w : World)
      → sign_and_send env actor c w ≡ (ok tt, record w { log = wrote c true ∷ submitted c ∷ w.log })
  unfolding sign_and_send ◌>>=◌
  sign_and_send-some w = rw (returns (submitted (enable_route key) ∷ w.log)) refl

  abbrev row : AuditRow
  row = record { actor = actor; action = "enable_route"; route = key; success = true }

  safe_log-up :
      (w : World)
      → safe_log env actor key "enable_route" true w
        ≡ (ok tt, record w { log = sql true ∷ w.log; db = add_audit row w.db })
  unfolding safe_log catch
  safe_log-up w = rw (statement-up _ w) refl

  -- the log behind the transaction, and with the snapshot
  abbrev sent : List Event → List Event
  sent log = wrote c true ∷ submitted c ∷ e ∷ log

  abbrev looked : List Event → List Event
  looked log = read (route_status key) (is_some (env.route_status (sent log) key)) ∷ sent log

  abbrev enabled : World → World
  enabled w = record w { log = sql true ∷ looked w.log; db = add_audit row w.db }

  abbrev outcome : World → SubmitOutcome
  outcome w = record {
    before = RouteState.disabled;
    after = or_else (env.route_status (sent w.log) key) RouteState.unknown;
  }

  enable-some :
      (w : World) → enables key w.log ≡ n → enable env actor key w ≡ (ok (outcome w), enabled w)
  unfolding enable submit ◌>>=◌ catch
  enable-some w once = rw (read_status-some w once) (
      rw (sign_and_send-some (record w { log = e ∷ w.log })) (
        rw (snapshot-up (record w { log = sent w.log }))
          (rw (safe_log-up (record w { log = looked w.log })) refl)))

  reopened : World → World
  reopened w = record w {
    log = sql true ∷ sql true ∷ looked (e ∷ w.log);
    db = mirror key true (add_audit row w.db);
  }

  revive_on_chain-some :
      (w : World)
      → enables key w.log ≡ n
      → revive_on_chain env key actor w ≡ (ok revived, reopened w)
  unfolding revive_on_chain enable_if_disabled ◌>>=◌ reopened
  revive_on_chain-some w once = rw (read_status-some w once) (
      rw (enable-some (record w { log = e ∷ w.log }) once)
        (rw (statement-up (mirror key true) (enabled (record w { log = e ∷ w.log }))) refl))

  -- the world after the rows are closed and read
  emptied : World → World
  emptied w = record w {
    log = sql true ∷ sql true ∷ w.log;
    db = close_rows key cause actor (env.db_now w.log) w.db;
  }

  no_rows :
      (w : World)
      → ((other : Cause) → cause_eq cause other ≡ false → is_held key other w.db ≡ false)
      → (select (holds_route key) (emptied w).db.interventions ≡ [])
  unfolding emptied close_rows closed
  no_rows w alone = none_left key cause actor (env.db_now w.log) w.db.interventions alone

  revive_if_free-some :
      (w : World)
      → enables key w.log ≡ n
      → revive_if_free env key actor [] w ≡ (ok revived, reopened w)
  unfolding revive_if_free
  revive_if_free-some w once =
      ap (λ m. m w) (if-true _ (revive_on_chain env key actor) (pure no_key) keyed)
      ∙ revive_on_chain-some w once

  close_and_revive-some :
      (w : World)
      → enables key w.log ≡ n
      → ((other : Cause) → cause_eq cause other ≡ false → is_held key other w.db ≡ false)
      → close_and_revive env key cause actor w ≡ (ok revived, reopened (emptied w))
  unfolding close_and_revive statement_at ◌>>=◌ emptied
  close_and_revive-some w once alone =
      let t = env.db_now w.log in
      let closed_db = close_rows key cause actor t w.db in
      rw (statement-up (close_rows key cause actor t) w) (
        rw
          (query-up (λ db. select (holds_route key) db.interventions)
            (record w { log = sql true ∷ w.log; db = closed_db }))
          (rw (no_rows w alone) (revive_if_free-some (emptied w) once)))

  created : World → World
  created w = record w { log = sql true ∷ sql true ∷ sql true ∷ w.log }

  ensure_table-up : (w : World) → ensure_table env w ≡ (ok tt, created w)
  unfolding ensure_table ◌>>=◌ created
  ensure_table-up w = rw (statement-up (λ db. db) w) (
      rw (statement-up (λ db. db) (record w { log = sql true ∷ w.log }))
        (statement-up (λ db. db) (record w { log = sql true ∷ sql true ∷ w.log })))

  gov_frozen-up :
      (w : World)
      → gov_frozen env w ≡ (ok (flag_value w.db.frozen), record w { log = sql true ∷ w.log })
  unfolding gov_frozen catch
  gov_frozen-up w = rw (query-up (λ db. flag_value db.frozen) w) refl

  -- after the tables, and the question whether governance is frozen
  started : Bool → World → World
  started true w = created w
  started false w = record (created w) { log = sql true ∷ (created w).log }

  asks_frozen-up :
      (admin : Bool) (w : World)
      → (admin || not (flag_value w.db.frozen)) ≡ true
      → (if admin then pure false else gov_frozen env) (created w) ≡ (ok false, started admin w)
  unfolding created started pure
  asks_frozen-up true w h = refl
  asks_frozen-up false w h =
      rw (gov_frozen-up (created w)) (rw (not-true (flag_value w.db.frozen) h) refl)

  started_db : (admin : Bool) (w : World) → (started admin w).db ≡ w.db
  unfolding started created
  started_db true w = refl
  started_db false w = refl

  started-enables :
      (admin : Bool) (w : World) → enables key (started admin w).log ≡ enables key w.log
  unfolding started created
  started-enables true w = refl
  started-enables false w = refl

  revive_route-some :
      (w : World)
      → enables key w.log ≡ n
      → (is_admin cause || not (flag_value w.db.frozen)) ≡ true
      → ((other : Cause) → cause_eq cause other ≡ false → is_held key other w.db ≡ false)
      → revive_route env key cause actor w
        ≡ (ok revived, reopened (emptied (started (is_admin cause) w)))
  unfolding revive_route ◌>>=◌
  revive_route-some w once thawed alone = rw (ensure_table-up w) (
      rw (asks_frozen-up (is_admin cause) w thawed) (
        close_and_revive-some (started (is_admin cause) w)
          (started-enables (is_admin cause) w ∙ once)
          (λ other d. rw (started_db (is_admin cause) w) (alone other d))))

  reopened-enables : (w : World) → enables key (reopened (emptied w)).log ≡ suc (enables key w.log)
  unfolding reopened emptied
  reopened-enables w = rw ((key_eq_iff key key).1 refl) refl

  reopened-held :
      (w : World)
      → ((other : Cause) → cause_eq cause other ≡ false → is_held key other w.db ≡ false)
      → (other : Cause) → is_held key other (reopened (emptied w)).db ≡ false
  unfolding reopened mirror add_audit
  reopened-held w alone other =
      none_held key cause actor 0 other (emptied w).db.interventions (no_rows w alone)

  reopened-on_sale : (w : World) → is_on_sale key (reopened (emptied w)).db.routes ≡ true
  unfolding reopened mirror add_audit
  reopened-on_sale w = set_route-on_sale key (emptied w).db.routes

  -- the facts of the theorem below, in this section's words
  reopened_facts :
      (w : World)
      → enables key w.log ≡ n
      → (is_admin cause || not (flag_value w.db.frozen)) ≡ true
      → ((other : Cause) → cause_eq cause other ≡ false → is_held key other w.db ≡ false)
      → let after = revive_route env key cause actor w in
        (after.0 ≡ ok revived)
        × (enables key after.1.log ≡ suc (enables key w.log))
        × ((other : Cause) → is_held key other after.1.db ≡ false)
        × (is_on_sale key after.1.db.routes ≡ true)
  reopened_facts w once thawed alone =
      let mid = started (is_admin cause) w in
      let alone' : (other : Cause)
          → cause_eq cause other ≡ false
          → is_held key other mid.db ≡ false =
        λ other d. rw (started_db (is_admin cause) w) (alone other d) in
      rw (revive_route-some w once thawed alone) (
        refl,
        reopened-enables mid ∙ ap suc (started-enables (is_admin cause) w),
        reopened-held mid alone',
        reopened-on_sale mid,
      )

-- Where the database answers, the chain shows the route as disabled as long as no transaction that
-- enables it is sent (and may answer anything afterwards), such a call returns, the key of the
-- governance is configured, governance is not frozen or an administrator acts, and no other cause holds
-- the route: `reviveRoute` reports the revival, has sent one transaction that enables the route, has
-- closed all its rows and put it on sale again.
pub revive_route-reopens :
    (env : Env) (key : RouteKey) (cause : Cause) (actor : String) (w : World)
    → ((log : List Event) → env.sql_answers log ≡ true)
    → ((log : List Event)
        → enables key log ≡ enables key w.log
        → env.route_status log key ≡ some RouteState.disabled)
    → ((log : List Event) → env.governance_returns log (enable_route key) ≡ true)
    → env.has_governance_key ≡ true
    → (is_admin cause || not (flag_value w.db.frozen)) ≡ true
    → ((other : Cause) → cause_eq cause other ≡ false → is_held key other w.db ≡ false)
    → let after = revive_route env key cause actor w in
      (after.0 ≡ ok revived)
      × (enables key after.1.log ≡ suc (enables key w.log))
      × ((other : Cause) → is_held key other after.1.db ≡ false)
      × (is_on_sale key after.1.db.routes ≡ true)
revive_route-reopens env key cause actor w up status returns keyed thawed alone =
    reopened_facts env key cause actor (enables key w.log) up status returns keyed w refl thawed
      alone
