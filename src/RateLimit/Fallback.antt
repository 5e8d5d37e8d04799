-- ===== src/RateLimit/Fallback.antt =====
-- Requests while the database is away.
use sentinel_soroban_v.Base.{ℕ, ◌/◌, String, false, List, ◌∷◌, ◌≡◌, ◌⊎◌, inl, inr, refl, Bool-cases}
use sentinel_soroban_v.World.{Event, clock}
use sentinel_soroban_v.World.Monad.{Env, World, ok, ◌>>=◌, catch, now, statement}
use sentinel_soroban_v.RateLimit.{Entry, memory_allow, db_allow, allow_request}

-- Where no database is configured, or none answers, a request is answered by the counters of the
-- instance alone: the endpoints stay open, and stay bounded for each instance.
allow_request-without_db :
    (env : Env) (bucket : String) (limit : ℕ) (memory : List Entry) (w : World)
    → (env.db_configured ≡ false) ⊎ ((log : List Event) → env.sql_answers log ≡ false)
    → (allow_request env bucket limit memory w).0
      ≡ ok (memory_allow bucket limit (env.now w.log / 1000) memory)
unfolding allow_request db_allow now ◌>>=◌ catch statement
allow_request-without_db env bucket limit memory w (inl absent) = rw absent refl
allow_request-without_db env bucket limit memory w (inr down) =
    elim (Bool-cases env.db_configured) [
      | inl here ↦ rw here (rw (down (clock (env.now w.log) ∷ w.log)) refl)
      | inr absent ↦ rw absent refl
    ]
