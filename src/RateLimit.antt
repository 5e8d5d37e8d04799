-- ===== src/RateLimit.antt =====
-- dapp/api/_lib/rate_limit.ts: the two counters of requests in windows of a minute.
pub mod Memory
pub mod History
pub mod Fallback
use sentinel_soroban_v.Base.{
  ℕ, ◌+◌, ◌-◌, ◌*◌, ◌/◌, ◌%◌, String, Bool, true, false, not, ◌&&◌, Option, none, some, List, [],
  ◌∷◌, ◌==◌, ltb, leb, if◌then◌else◌, length, select, str_eq,
}
use sentinel_soroban_v.World.Db.{RateRow, Db}
use sentinel_soroban_v.World.Monad.{
  Env, M, pure, ◌>>=◌, ◌>>◌, catch, statement, statement_at, returning, now,
}

abbrev pub window_secs : ℕ
window_secs = 60

abbrev pub prune_above : ℕ
prune_above = 10000

-- An entry of `memory`, with its key
pub record Entry : Type 0 where
  pub bucket : String
  pub window_start : ℕ
  pub count : ℕ

-- `memory.get(bucket)`
unfoldable pub get : String → List Entry → Option Entry
get bucket [] = none
get bucket (e ∷ rest) = if str_eq e.bucket bucket then some e else get bucket rest

-- `memory.set`, of a key that may be there already
unfoldable pub put : Entry → List Entry → List Entry
put e [] = e ∷ []
put e (x ∷ rest) =
    let rest' = put e rest in if str_eq x.bucket e.bucket then e ∷ rest else x ∷ rest'

-- the first second of the window
abbrev pub window_of : ℕ → ℕ
window_of secs = secs - secs % window_secs

-- entries of other windows go once there are too many
unfoldable pub prune : ℕ → List Entry → List Entry
prune window memory =
    if ltb prune_above (length memory)
    then select (λ e. e.window_start == window) memory
    else memory

-- the entry after this request
unfoldable pub counted : String → ℕ → Option Entry → Entry
counted bucket window none = record { bucket = bucket; window_start = window; count = 1 }
counted bucket window (some e) =
    if e.window_start == window
    then record e { count = e.count + 1 }
    else record { bucket = bucket; window_start = window; count = 1 }

-- whether the entry lets it pass: the first of its window always does
unfoldable pub within : ℕ → ℕ → Option Entry → Bool
within limit window none = true
within limit window (some e) = if e.window_start == window then leb (e.count + 1) limit else true

-- `memoryAllow`
unfoldable pub memory_allow : String → ℕ → ℕ → List Entry → Bool × List Entry
unfolding get put prune counted within
memory_allow bucket limit now_secs memory =
    let window = window_of now_secs in
    let kept = prune window memory in
    let entry = get bucket kept in
    (within limit window entry, put (counted bucket window entry) kept)

-- `insert … on conflict do update … where count < limit returning count`: whether it returned
unfoldable pub count_request : String → ℕ → ℕ → List RateRow → Bool × List RateRow
count_request bucket limit minute [] =
    (true, record { bucket = bucket; window = minute; count = 1 } ∷ [])
count_request bucket limit minute (r ∷ rest) =
    let (allowed, rest') = count_request bucket limit minute rest in
    if str_eq r.bucket bucket && r.window == minute
    then (if ltb r.count limit
        then (true, record r { count = r.count + 1 } ∷ rest)
        else (false, r ∷ rest))
    else (allowed, r ∷ rest')

-- `delete … where window_start < now() - interval '1 hour'`
unfoldable pub drop_rates : ℕ → Db → Db
drop_rates t db = record db {
  rate_limits = select (λ r. not (ltb (r.window * 60 + 3600) t)) db.rate_limits;
}

unfoldable pub count_in_db : String → ℕ → ℕ → Db → Bool × Db
unfolding count_request
count_in_db bucket limit t db =
    let (allowed, rows) = count_request bucket limit (t / 60) db.rate_limits in
    (allowed, record db { rate_limits = rows })

-- the answer of both layers; `none` is a database that does not answer
unfoldable pub combined : Bool → Option Bool → Bool
combined in_memory none = in_memory
combined in_memory (some in_db) = in_db && in_memory

module _ (env : Env) where
  -- `dbAllow`
  unfoldable pub db_allow : String → ℕ → M (Option Bool)
  unfolding drop_rates
  db_allow bucket limit =
      if env.db_configured
      then catch
          (do
            statement env (λ db. db)
            statement env (λ db. db)
            statement_at env drop_rates
            allowed ← returning env (count_in_db bucket limit)
            pure (some allowed))
          (λ e. pure none)
      else pure none

  -- `allowRequest`, of the bucket; the counters of the instance go in and come out
  unfoldable pub allow_request : String → ℕ → List Entry → M (Bool × List Entry)
  unfolding memory_allow combined
  allow_request bucket limit memory = do
    t ← now env
    let checked = memory_allow bucket limit (t / 1000) memory
    in_db ← db_allow bucket limit
    pure (combined checked.0 in_db, checked.1)
