-- ===== src/Interventions/Holds.antt =====
-- A route that stays held by one cause while the operations of other causes, on any route, run.
use sentinel_soroban_v.Base.{
  ℕ, String, Bool, true, false, Option, some, List, [], ◌∷◌, ◌≡◌, refl, ◌∙◌, ◌⊎◌, any, count,
  select, ◌==◌, or_else, arith, Bool-cases, inl, inr,
}
use sentinel_soroban_v.World.{Event, RouteKey, submitted, wrote, enable_route}
use sentinel_soroban_v.World.Db.{
  Cause, Evidence, InterventionRow, AuditRow, cause_eq, cause_eq_iff, key_eq, key_eq_iff,
}
use sentinel_soroban_v.World.Monad.{Env, World, RouteState, emit}
use sentinel_soroban_v.World.Keeps.{Keeps, Keeps-bind, Triple-bind, Keeps-skip, Keeps-pure, IsPlain}
use sentinel_soroban_v.World.Quiet.{query-Triple, IsQuiet, Suits, quiet_rules}
use sentinel_soroban_v.Submitter.{sign_and_send, submit, enable, read_status, safe_log, add_audit}
use sentinel_soroban_v.Interventions.Ledger.{
  holds, holds_route, update, close_rows, mirror, touch, count_clear, refresh, add_clear,
}
use sentinel_soroban_v.Interventions.Executor.{
  ensure_table, gov_frozen, revive_route, close_and_revive, revive_if_free, revive_on_chain,
  enable_if_disabled, touch_intervention, record_clear_check,
}
use sentinel_soroban_v.Interventions.Unique.{IsFaithful}
use sentinel_soroban_v.Interventions.Guardrails.{is_held, any-holds-holds_route}

-- The transactions that enable a route.
abbrev pub is_enable : RouteKey → Event → Bool
is_enable key (submitted (enable_route k)) = key_eq k key
is_enable key _ = false

abbrev pub enables : RouteKey → List Event → ℕ
enables key log = count (is_enable key) log

plain-is_enable : (key : RouteKey) (e : Event) → IsPlain e → is_enable key e ≡ false
plain-is_enable key (submitted c) h = absurd h
plain-is_enable key (wrote c done) h = absurd h
plain-is_enable key _ h = refl

module _ (key : RouteKey) (other : Cause) where
  pub any-holds-close :
      (k : RouteKey) (cause : Cause) (actor : String) (t : ℕ)
      → cause_eq cause other ≡ false
      → (rows : List InterventionRow)
      → any (holds key other) (
          update (holds k cause) (λ r. record r { revived = some actor; last_checked_at = t }) rows)
        ≡ any (holds key other) rows
  unfolding update
  any-holds-close k cause actor t differ [] = refl
  any-holds-close k cause actor t differ (r ∷ rest) = ground (
    arith,
    any-holds-close k cause actor t differ rest,
    cause_eq_iff r.cause cause,
    cause_eq_iff r.cause other,
  )

  pub any-holds-faithful :
      (p : InterventionRow → Bool) (f : InterventionRow → InterventionRow)
      → IsFaithful f
      → (rows : List InterventionRow)
      → any (holds key other) (update p f rows) ≡ any (holds key other) rows
  unfolding update
  any-holds-faithful p f ok [] = refl
  any-holds-faithful p f ok (r ∷ rest) =
      grind (arith, any-holds-faithful p f ok rest, ok.route r, ok.cause r, ok.revived r)

module _ (key : RouteKey) (other : Cause) (n : ℕ) where
  -- The other cause holds the route, and it was enabled `n` times.
  unfoldable pub Holding : World → Type 0
  Holding w = (is_held key other w.db ≡ true) × (enables key w.log ≡ n)

  pub Holding-IsQuiet : IsQuiet Holding
  unfolding Holding
  Holding-IsQuiet = record {
    logs = λ e w plain h. (h.0, rw (plain-is_enable key e plain) h.1);
    acts = λ w v l d h. rw (l, d) h;
  }

  close_rows-Suits :
      (k : RouteKey) (cause : Cause) (actor : String)
      → cause_eq cause other ≡ false
      → (t : ℕ) → Suits Holding (close_rows k cause actor t)
  unfolding Holding close_rows
  close_rows-Suits k cause actor differ t = record {
    to = λ w h. (any-holds-close key other k cause actor t differ w.db.interventions ∙ h.0, h.1);
  }

  pub touch-Suits :
      (id : ℕ) (evidence : Option Evidence) (t : ℕ) → Suits Holding (touch id evidence t)
  unfolding Holding touch
  touch-Suits id evidence t = record {
    to = λ w h. (
      any-holds-faithful key other (λ r. r.id == id)
            (λ r. refresh (or_else evidence r.evidence) t r)
            (record { route = λ r. refl; cause = λ r. refl; revived = λ r. refl })
            w.db.interventions
          ∙ h.0,
      h.1,
    );
  }

  pub count_clear-Suits : (id t : ℕ) → Suits Holding (λ db. (count_clear id t db).1)
  unfolding Holding count_clear
  count_clear-Suits id t = record {
    to = λ w h. (
      any-holds-faithful key other (λ r. r.id == id) (add_clear t)
            (record { route = λ r. refl; cause = λ r. refl; revived = λ r. refl })
            w.db.interventions
          ∙ h.0,
      h.1,
    );
  }

  pub mirror-Suits : (k : RouteKey) (active : Bool) → Suits Holding (mirror k active)
  unfolding Holding mirror
  mirror-Suits k active = record { to = λ w h. h }

  pub add_audit-Suits : (row : AuditRow) → Suits Holding (add_audit row)
  unfolding Holding add_audit
  add_audit-Suits row = record { to = λ w h. h }

  pub Keeps-emit_other : (e : Event) → is_enable key e ≡ false → Keeps Holding (emit e)
  unfolding Holding emit
  Keeps-emit_other e differs = record { at = λ w h. (h.0, rw differs h.1) }

  pub ruleset holding_rules =
      (quiet_rules, Holding-IsQuiet, touch-Suits, count_clear-Suits, mirror-Suits, add_audit-Suits)

  module _ (env : Env) where
    pub Keeps-safe_log :
        (actor : String) (k : RouteKey) (action : String) (success : Bool)
        → Keeps Holding (safe_log env actor k action success)
    unfolding safe_log
    Keeps-safe_log actor k action success = search holding_rules depth 9

    pub Keeps-read_status :
        (actor : String) (k : RouteKey) → Keeps Holding (read_status env actor k)
    unfolding read_status
    Keeps-read_status actor k = search holding_rules

    Keeps-sign_and_send :
        (actor : String) (k : RouteKey)
        → key_eq k key ≡ false
        → Keeps Holding (sign_and_send env actor (enable_route k))
    unfolding sign_and_send
    Keeps-sign_and_send actor k apart = Keeps-bind _ _ (Keeps-emit_other _ apart) (λ u.
        Keeps-bind _ _ (search holding_rules)
          (λ returned. Keeps-bind _ _ (Keeps-emit_other _ refl) (λ u. search holding_rules)))

    Keeps-enable_if_disabled :
        (k : RouteKey) (actor : String) (state : RouteState)
        → key_eq k key ≡ false
        → Keeps Holding (enable_if_disabled env k actor state)
    unfolding enable_if_disabled enable submit
    Keeps-enable_if_disabled k actor RouteState.disabled apart =
        search (holding_rules, Keeps-sign_and_send, Keeps-safe_log, Keeps-read_status) depth 16
    Keeps-enable_if_disabled k actor _ apart = Keeps-skip

    Keeps-revive_on_chain :
        (k : RouteKey) (actor : String)
        → key_eq k key ≡ false
        → Keeps Holding (revive_on_chain env k actor)
    unfolding revive_on_chain
    Keeps-revive_on_chain k actor apart =
        search (holding_rules, Keeps-enable_if_disabled, Keeps-read_status) depth 12

    -- with rows that hold it, or a route of another key
    Keeps-revive_if_free :
        (k : RouteKey) (actor : String) (rows : List InterventionRow)
        → (key_eq k key ≡ false) ⊎ (¬ (rows ≡ []))
        → Keeps Holding (revive_if_free env k actor rows)
    unfolding revive_if_free
    Keeps-revive_if_free k actor [] (inl apart) =
        search (holding_rules, Keeps-revive_on_chain) depth 9
    Keeps-revive_if_free k actor [] (inr some_left) = absurd (some_left refl)
    Keeps-revive_if_free k actor (r ∷ rest) h = Keeps-pure _

    rows_left :
        (k : RouteKey) (rows : List InterventionRow)
        → any (holds key other) rows ≡ true
        → (key_eq k key ≡ false) ⊎ (¬ (select (holds_route k) rows ≡ []))
    rows_left k rows held = elim (Bool-cases (key_eq k key)) [
      | inl same ↦ inr (rw ((key_eq_iff k key).0 same) (any-holds-holds_route key other rows held))
      | inr apart ↦ inl apart
    ]

    Keeps-close_and_revive :
        (k : RouteKey) (cause : Cause) (actor : String)
        → ((t : ℕ) → Suits Holding (close_rows k cause actor t))
        → Keeps Holding (close_and_revive env k cause actor)
    unfolding close_and_revive Holding
    Keeps-close_and_revive k cause actor spares =
        Keeps-bind _ _ (search (holding_rules, spares)) (λ u.
          Triple-bind _ _ (query-Triple Holding Holding-IsQuiet env _) (λ rows w q.
            (Keeps-revive_if_free k actor rows (rw q.1 (rows_left k w.db.interventions q.0.0))).at w
              q.0))

    -- a revival that closes no row of the other cause
    pub Keeps-revive_sparing :
        (k : RouteKey) (cause : Cause) (actor : String)
        → ((t : ℕ) → Suits Holding (close_rows k cause actor t))
        → Keeps Holding (revive_route env k cause actor)
    unfolding revive_route ensure_table gov_frozen
    Keeps-revive_sparing k cause actor spares =
        search (holding_rules, Keeps-close_and_revive, spares) depth 14

    pub Keeps-revive_route :
        (k : RouteKey) (cause : Cause) (actor : String)
        → cause_eq cause other ≡ false
        → Keeps Holding (revive_route env k cause actor)
    Keeps-revive_route k cause actor differ =
        Keeps-revive_sparing k cause actor (close_rows-Suits k cause actor differ)

    pub Keeps-touch_intervention :
        (id : ℕ) (evidence : Option Evidence) → Keeps Holding (touch_intervention env id evidence)
    unfolding touch_intervention
    Keeps-touch_intervention id evidence = search holding_rules

    pub Keeps-record_clear_check : (id : ℕ) → Keeps Holding (record_clear_check env id)
    unfolding record_clear_check
    Keeps-record_clear_check id = search holding_rules
