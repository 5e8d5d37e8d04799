-- ===== src/World/Quiet.antt =====
-- What actions keep of the log and of the database together.
use sentinel_soroban_v.Base.{
  ℕ, String, ◌≡◌, refl, true, false, Option, List, ◌∷◌, Bool-cases, inl, inr,
}
use sentinel_soroban_v.World.Events.{Event, Query, Request, sql}
use sentinel_soroban_v.World.Db.{Db}
use sentinel_soroban_v.World.Monad.{
  Env, World, Note, emit, push, modify_db, returned, now, read_as, query, query_at, statement,
  ◌>>=◌, statement_at, returning, sleep, set_quota_exhausted, set_deadline, fetch_flights,
  fetch_schedules,
}
use sentinel_soroban_v.World.Keeps.{Keeps, Triple, IsPlain, IsFramed, keeps_rules}

-- A predicate that only transactions and changes of the database can break.
pub record IsQuiet (P : World → Type 0) : Type 0 where
  pub logs : (e : Event) (w : World) → IsPlain e → P w → P (record w { log = e ∷ w.log })
  pub acts : (w v : World) → v.log ≡ w.log → v.db ≡ w.db → P w → P v

pub IsFramed-IsQuiet : (P : World → Type 0) → IsFramed P → IsQuiet P
IsFramed-IsQuiet P framed = record { logs = framed.logs; acts = λ w v l d h. framed.acts w v l h }

-- A change of the database that does not break it.
pub record Suits (P : World → Type 0) (f : Db → Db) : Type 0 where
  pub to : (w : World) → P w → P (record w { db = f w.db })

module _ {P : World → Type 0} where
  pub Suits-id : Suits P (λ db. db)
  Suits-id = record { to = λ w h. h }

module _ (P : World → Type 0) (quiet : IsQuiet P) where
  pub Quiet-emit : (e : Event) → IsPlain e → Keeps P (emit e)
  unfolding emit
  Quiet-emit e plain = record { at = λ w h. quiet.logs e w plain h }

  pub Quiet-push : (flight : String) (note : Note) → Keeps P (push flight note)
  unfolding push
  Quiet-push flight note = record { at = λ w h. quiet.acts w _ refl refl h }

  Quiet-modify_db : (f : Db → Db) → Suits P f → Keeps P (modify_db f)
  unfolding modify_db
  Quiet-modify_db f suits = record { at = λ w h. suits.to w h }

  pub Quiet-now : (env : Env) → Keeps P (now env)
  unfolding now
  Quiet-now env = search (keeps_rules, Quiet-emit)

  pub Quiet-sleep : (env : Env) (ms : ℕ) → Keeps P (sleep env ms)
  unfolding sleep
  Quiet-sleep env ms = Quiet-emit _ tt

  pub Quiet-set_quota_exhausted : Keeps P set_quota_exhausted
  unfolding set_quota_exhausted
  Quiet-set_quota_exhausted = record { at = λ w h. quiet.acts w _ refl refl h }

  pub Quiet-set_deadline : (ms : ℕ) → Keeps P (set_deadline ms)
  unfolding set_deadline
  Quiet-set_deadline ms = record { at = λ w h. quiet.acts w _ refl refl h }

  pub Quiet-fetch_flights : (env : Env) (r : Request) → Keeps P (fetch_flights env r)
  unfolding fetch_flights
  Quiet-fetch_flights env r = search (keeps_rules, Quiet-emit)

  pub Quiet-fetch_schedules : (env : Env) (r : Request) → Keeps P (fetch_schedules env r)
  unfolding fetch_schedules
  Quiet-fetch_schedules env r = search (keeps_rules, Quiet-emit)

  pub Quiet-read_as :
      {A : Type 0} (env : Env) (q : Query) (answer : List Event → Option A)
      → Keeps P (read_as env q answer)
  unfolding read_as
  Quiet-read_as env q answer = search (keeps_rules, Quiet-emit)

  pub Quiet-query : {A : Type 0} (env : Env) (f : Db → A) → Keeps P (query env f)
  unfolding query
  Quiet-query env f = search (keeps_rules, Quiet-emit)

  -- What a statement has read is what the database holds.
  pub query-Triple :
      {A : Type 0} (env : Env) (f : Db → A) → Triple P (query env f) (λ a w. P w × (a ≡ f w.db)) P
  unfolding query ◌>>=◌
  query-Triple env f = record {
    at = λ w h. elim (Bool-cases (env.sql_answers w.log)) [
      | inl up ↦ rw up (quiet.logs (sql true) w tt h, refl)
      | inr down ↦ rw down (quiet.logs (sql false) w tt h)
    ];
  }

  pub Quiet-query_at : {A : Type 0} (env : Env) (f : ℕ → Db → A) → Keeps P (query_at env f)
  unfolding query_at
  Quiet-query_at env f = search (keeps_rules, Quiet-query)

  pub Quiet-statement : (env : Env) (f : Db → Db) → Suits P f → Keeps P (statement env f)
  unfolding statement
  Quiet-statement env f suits = search (keeps_rules, Quiet-emit, Quiet-modify_db)

  pub Quiet-statement_at :
      (env : Env) (f : ℕ → Db → Db) → ((t : ℕ) → Suits P (f t)) → Keeps P (statement_at env f)
  unfolding statement_at
  Quiet-statement_at env f suits = search (keeps_rules, Quiet-statement, suits)

  Quiet-returned : {A : Type 0} (g : Db → A × Db) → Suits P (λ db. (g db).1) → Keeps P (returned g)
  unfolding returned
  Quiet-returned g suits = record { at = λ w h. suits.to w h }

  -- the change that a statement with `returning` makes
  pub Quiet-returning :
      {A : Type 0} (env : Env) (f : ℕ → Db → A × Db)
      → ((t : ℕ) → Suits P (λ db. (f t db).1))
      → Keeps P (returning env f)
  unfolding returning
  Quiet-returning env f suits =
      let step : (t : ℕ) → Keeps P (returned (f t)) = λ t. Quiet-returned (f t) (suits t) in
      search (keeps_rules, Quiet-emit, step) depth 9

pub ruleset quiet_rules = (
  keeps_rules, Suits-id, Quiet-emit, Quiet-push, Quiet-now, Quiet-read_as, Quiet-query,
  Quiet-query_at, Quiet-statement, Quiet-statement_at, Quiet-returning, Quiet-sleep,
  Quiet-set_quota_exhausted, Quiet-set_deadline, Quiet-fetch_flights, Quiet-fetch_schedules,
)
