-- ===== src/Interventions/Replay.antt =====
-- The ledger refines the set of holds: any sequence of its operations is a replay on the set.
use sentinel_soroban_v.Base.{
  ℕ, String, Bool, true, false, Option, none, some, List, [], ◌∷◌, ◌≡◌, refl, ◌∙◌, inl, inr, ◌==◌,
  or_else,
}
use sentinel_soroban_v.World.{RouteKey}
use sentinel_soroban_v.World.Db.{Cause, Evidence, InterventionRow}
use sentinel_soroban_v.World.Monad.{Env, World, Result, ok, err}
use sentinel_soroban_v.World.Keeps.{Keeps, Post}
use sentinel_soroban_v.World.Quiet.{Suits, quiet_rules}
use sentinel_soroban_v.Interventions.Ledger.{
  update, open_row, close_rows, add_row, touch, count_clear, recheck, refresh, add_clear,
  recheck_row,
}
use sentinel_soroban_v.Interventions.Unique.{IsFaithful}
use sentinel_soroban_v.Interventions.Executor.{
  pause_route, revive_route, record_check, note_check, touch_intervention, record_clear_check,
  ensure_table,
}
use sentinel_soroban_v.Interventions.Guardrails.{is_held}
use sentinel_soroban_v.Interventions.Holds.{any-holds-faithful}
use sentinel_soroban_v.Interventions.HoldSets.{
  HoldSet, At, set_hold, view, At-IsQuiet, any-holds-open, any-holds-closed,
}
use sentinel_soroban_v.Interventions.Refinement.{
  is_recorded, is_closed, Took, Either, Triple-pause_route, Triple-revive_route,
}
use sentinel_soroban_v.Interventions.Operations.{
  Operation, pause, revive, check, clear, perform, perform_all,
}
use sentinel_soroban_v.Interventions.Operations

-- What an operation does to the set, if it takes effect.
abbrev pub spec : Operation → HoldSet → HoldSet
spec (pause key cause evidence actor) h = set_hold key cause true h
spec (revive key cause actor) h = set_hold key cause false h
spec _ h = h

abbrev pub spec_if : Bool → Operation → HoldSet → HoldSet
spec_if true op h = spec op h
spec_if false op h = h

-- A sequence of operations on the set, with those that take effect.
abbrev pub replay : List Operation → List Bool → HoldSet → HoldSet
replay [] took h = h
replay (op ∷ ops) [] h = h
replay (op ∷ ops) (b ∷ took) h = replay ops took (spec_if b op h)

abbrev pub told : {A : Type 0} → (A → Bool) → Result A → Option Bool
told f (ok a) = some (f a)
told f (err e) = none

-- What an operation's own result says of its effect; nothing after an exception.
abbrev pub report : Env → Operation → World → Option Bool
report env (pause key cause evidence actor) w =
    told is_recorded (pause_route env key cause evidence actor w).0
report env (revive key cause actor) w = told is_closed (revive_route env key cause actor w).0
report env _ w = none

abbrev pub Fits : Option Bool → Bool → Type 0
Fits none b = Unit
Fits (some a) b = a ≡ b

abbrev pub Agrees : Env → List Operation → List Bool → World → Type 0
Agrees env [] [] w = Unit
Agrees env (op ∷ ops) (b ∷ took) w =
    Fits (report env op w) b × Agrees env ops took (perform env op w)
Agrees env _ _ w = ⊥

module _ (h : HoldSet) where
  faithful_lem :
      (p : InterventionRow → Bool) (f : InterventionRow → InterventionRow)
      → IsFaithful f
      → Suits (At h) (λ db. record db { interventions = update p f db.interventions })
  unfolding At
  faithful_lem p f faithful = record {
    to =
        λ w a key cause. any-holds-faithful key cause p f faithful w.db.interventions ∙ a key cause;
  }

  touch-Suits : (id : ℕ) (evidence : Option Evidence) (t : ℕ) → Suits (At h) (touch id evidence t)
  unfolding touch
  touch-Suits id evidence t =
      faithful_lem (λ r. r.id == id) (λ r. refresh (or_else evidence r.evidence) t r)
        (record { route = λ r. refl; cause = λ r. refl; revived = λ r. refl })

  count_clear-Suits : (id t : ℕ) → Suits (At h) (λ db. (count_clear id t db).1)
  unfolding count_clear
  count_clear-Suits id t =
      faithful_lem (λ r. r.id == id) (add_clear t)
        (record { route = λ r. refl; cause = λ r. refl; revived = λ r. refl })

  recheck-Suits : (id : ℕ) (evidence : Evidence) (t : ℕ) → Suits (At h) (recheck id evidence t)
  unfolding recheck
  recheck-Suits id evidence t =
      faithful_lem (λ r. r.id == id) (recheck_row evidence t)
        (record { route = λ r. refl; cause = λ r. refl; revived = λ r. refl })

  add_row-Suits :
      (key : RouteKey) (cause : Cause) (evidence : Evidence) (actor by : String) (t : ℕ)
      → Suits (At h) (add_row key cause evidence actor (some by) t)
  unfolding At add_row
  add_row-Suits key cause evidence actor by t = record { to = λ w a. a }

  ruleset set_rules =
      (quiet_rules, At-IsQuiet, touch-Suits, count_clear-Suits, recheck-Suits, add_row-Suits)

  Keeps-note_check :
      (env : Env) (key : RouteKey) (cause : Cause) (evidence : Evidence) (actor : String)
      (row : Option InterventionRow)
      → Keeps (At h) (note_check env key cause evidence actor row)
  unfolding note_check
  Keeps-note_check env key cause evidence actor (some row) = search set_rules depth 7
  Keeps-note_check env key cause evidence actor none = search set_rules depth 7

  Keeps-record_check :
      (env : Env) (key : RouteKey) (cause : Cause) (evidence : Evidence) (actor : String)
      → Keeps (At h) (record_check env key cause evidence actor)
  unfolding record_check ensure_table
  Keeps-record_check env key cause evidence actor = search (set_rules, Keeps-note_check) depth 14

  Keeps-touch_intervention :
      (env : Env) (id : ℕ) (evidence : Option Evidence)
      → Keeps (At h) (touch_intervention env id evidence)
  unfolding touch_intervention
  Keeps-touch_intervention env id evidence = search set_rules

  Keeps-record_clear_check : (env : Env) (id : ℕ) → Keeps (At h) (record_clear_check env id)
  unfolding record_clear_check
  Keeps-record_clear_check env id = search set_rules

  module _ {A : Type 0} (env : Env) (op : Operation) (f : A → Bool) where
    -- the end of an operation, with its effect
    effect_lem :
        (r : Result A × World)
        → Post (λ a. Took env h (spec op h) (f a)) (Either env h (spec op h)) r
        → (b : Bool) × Fits (told f r.0) b × At (spec_if b op h) r.1
    unfolding Took Either
    effect_lem (ok a, w) q = took_lem (f a) w q
      where
        took_lem :
            (b : Bool) (w : World)
            → Took env h (spec op h) b w
            → (c : Bool) × (b ≡ c) × At (spec_if c op h) w
        took_lem true w q = (true, refl, q)
        took_lem false w q = (false, refl, q)
    effect_lem (err e, w) (inl before) = (false, tt, before)
    effect_lem (err e, w) (inr after) = (true, tt, after)

  open_lem :
      (key : RouteKey) (cause : Cause) (evidence : Evidence) (actor : String) (t : ℕ) (w : World)
      → At h w
      → At (set_hold key cause true h) (record w { db = open_row key cause evidence actor t w.db })
  unfolding At
  open_lem key cause evidence actor t w a k c =
      rw (any-holds-open key k cause c evidence actor t w.db, a k c) refl

  close_lem :
      (key : RouteKey) (cause : Cause) (actor : String) (t : ℕ) (w : World)
      → At h w
      → At (set_hold key cause false h) (record w { db = close_rows key cause actor t w.db })
  unfolding At close_rows
  close_lem key cause actor t w a k c =
      rw (any-holds-closed key k cause c actor t w.db.interventions, a k c) refl

  perform_lem :
      (env : Env) (op : Operation) (w : World)
      → At h w
      → (b : Bool) × Fits (report env op w) b × At (spec_if b op h) (perform env op w)
  unfolding perform
  perform_lem env (pause key cause evidence actor) w a =
      effect_lem env (pause key cause evidence actor) is_recorded _ (
        (Triple-pause_route env h _ key cause evidence actor (open_lem key cause evidence actor)).at
          w a)
  perform_lem env (revive key cause actor) w a =
      effect_lem env (revive key cause actor) is_closed _
        ((Triple-revive_route env h _ key cause actor (close_lem key cause actor)).at w a)
  perform_lem env (check key cause evidence actor) w a =
      (true, tt, (Keeps-record_check env key cause evidence actor).at w a)
  perform_lem env (Operations.touch id evidence) w a =
      (true, tt, (Keeps-touch_intervention env id evidence).at w a)
  perform_lem env (clear id) w a = (true, tt, (Keeps-record_clear_check env id).at w a)

replay_lem :
    (env : Env) (ops : List Operation) (h : HoldSet) (w : World)
    → At h w
    → (took : List Bool) × Agrees env ops took w
      × ((key : RouteKey) (cause : Cause)
          → is_held key cause (perform_all env ops w).db ≡ replay ops took h key cause)
unfolding perform_all At
replay_lem env [] h w a = ([], tt, a)
replay_lem env (op ∷ ops) h w a =
    let (b, fits, next) = perform_lem h env op w a in
    let (took, agrees, same) = replay_lem env ops (spec_if b op h) (perform env op w) next in
    (b ∷ took, (fits, agrees), same)

-- After any sequence of calls of `pauseRoute`, `reviveRoute`, `recordCheck`, `touchIntervention` and
-- `recordClearCheck`, with failures at any statement, read or transaction, the causes that hold the
-- routes are those of a replay on a plain set: a pause adds its hold, a revival takes it away, the
-- others change nothing; and each call takes effect wholly or not at all. A pause that returns has
-- taken effect unless it says "no DB", "gov_frozen" or "pinned", a revival that returns unless it
-- says "gov_frozen"; only a call that throws may have done either.
pub perform_all-replay :
    (env : Env) (ops : List Operation) (w : World)
    → (took : List Bool) × Agrees env ops took w
      × ((key : RouteKey) (cause : Cause)
          → is_held key cause (perform_all env ops w).db ≡ replay ops took (view w.db) key cause)
unfolding At
perform_all-replay env ops w = replay_lem env ops (view w.db) w (λ key cause. refl)
