-- ===== src/Aero/Client.antt =====
-- `AeroApiClient` of dapp/api/_lib/aeroapi_client.ts: the request loop with its retries, its
-- deadline and its quota breaker, and the endpoints.
use sentinel_soroban_v.Base.{
  ℕ, zero, suc, ◌+◌, ◌*◌, ◌/◌, ◌^◌, min, String, Bool, false, ◌&&◌, ◌||◌, Option, none, some, List,
  [], ◌∷◌, ◌++◌, ltb, leb, ◌==◌, if◌then◌else◌, length, all, or_else, str_eq,
}
use sentinel_soroban_v.Base.Text.{codes, starts_with, drop_text}
use Prim.Native.String.{◌++◌ as str_append}
use sentinel_soroban_v.World.{
  AeroFlight, Schedules, Filters, Request, Answer, json, status, exception, flights, schedules,
  cursor, IsoText, blank, text, not_a_number,
}
use sentinel_soroban_v.World.Monad.{
  Env, M, pure, raise, gets, set_quota_exhausted, ◌>>=◌, ◌>>◌, now, sleep, fetch_flights,
  fetch_schedules,
}

abbrev pub max_retries : ℕ
max_retries = 3

abbrev pub base_delay_ms : ℕ
base_delay_ms = 1000

abbrev pub rate_limit_cooldown_ms : ℕ
rate_limit_cooldown_ms = 65000

abbrev pub max_pages_clamp : ℕ
max_pages_clamp = 5

abbrev pub max_cursor_follows : ℕ
max_cursor_follows = 4

abbrev pub two_days_ms : ℕ
two_days_ms = 172800000

abbrev pub day_secs : ℕ
day_secs = 86400

-- `/^[A-Z0-9]{2,10}$/i.test(ident)`, of the code points
abbrev pub alphanumeric : ℕ → Bool
alphanumeric c =
    (leb b'0' c && leb c b'9') || ((leb b'A' c && leb c b'Z') || (leb b'a' c && leb c b'z'))

unfoldable pub is_ident : String → Bool
is_ident s = let cs = codes s in leb 2 (length cs) && (leb (length cs) 10 && all alphanumeric cs)

-- the path that a cursor link leads to
unfoldable pub next_path : String → String
unfolding starts_with drop_text
next_path next =
    if starts_with next "/"
    then (if starts_with next "/aeroapi" then drop_text 8 next else next)
    else str_append "/" next

-- `links?.next`, if it is truthy
abbrev pub next_link : Schedules → Option String
next_link page = elim page.next [ none ↦ none | some n ↦ if str_eq n "" then none else some n ]

abbrev pub merge : Option Schedules → Schedules → Schedules
merge none page = page
merge (some m) page = record m { scheduled = m.scheduled ++ page.scheduled; next = page.next }

-- exactly one flight, or no answer
abbrev pub single : List AeroFlight → Option AeroFlight
single [] = none
single (f ∷ []) = some f
single (f ∷ g ∷ rest) = none

abbrev pub usable : Option (List AeroFlight) → Option AeroFlight
usable none = none
usable (some list) = single list

-- the end of the window that is asked for: the end of the day, held to two days from now
unfoldable pub window_end : ℕ → ℕ → ℕ
window_end day now_ms =
    let day_end = day * day_secs + 86399 in
    let ceiling = now_ms + two_days_ms in
    if leb (day_end * 1000) ceiling then day_end else ceiling / 1000

-- The next page, if a cursor leads to one
unfoldable pub follow :
    Schedules → (Schedules → String → M (Option Schedules)) → Option String → M (Option Schedules)
follow m go none = pure (some m)
follow m go (some next) = go m next

-- A page, with `go` for the pages behind its cursor
unfoldable pub on_page :
    Option Schedules
    → (Schedules → String → M (Option Schedules))
    → Option Schedules
    → M (Option Schedules)
unfolding follow
on_page merged go none = pure merged
on_page merged go (some page) = follow (merge merged page) go (next_link page)

module _ (env : Env) where
  unfoldable pub crosses : Option ℕ → ℕ → M Bool
  unfolding ◌>>=◌
  crosses none pending_ms = pure false
  crosses (some deadline) pending_ms = do t ← now env; pure (ltb deadline (t + pending_ms))

  -- `wouldCrossDeadline`
  unfoldable pub would_cross_deadline : ℕ → M Bool
  unfolding ◌>>=◌ crosses
  would_cross_deadline pending_ms = do
    deadline ← gets (λ w. w.deadline)
    crosses deadline pending_ms

  -- Sleep and go on with `again`, unless that would cross the deadline.
  unfoldable pub retry_after : {A : Type 0} → ℕ → M (Option A) → M (Option A)
  retry_after delay again = do
    crosses ← would_cross_deadline delay
    if crosses then pure none else (do sleep env delay; again)

  -- The answer to the last attempt
  unfoldable pub settle_last : {A : Type 0} → Answer A → M (Option A)
  settle_last (json body) = pure body
  settle_last (status code) =
      if code == 429
      then (do
        crosses ← would_cross_deadline rate_limit_cooldown_ms
        if crosses then pure none else (do set_quota_exhausted; pure none))
      else pure none
  settle_last exception = pure none

  -- The answer to attempt number `attempt`, with `again` for the attempts that are left
  unfoldable pub settle_attempt : {A : Type 0} → ℕ → M (Option A) → Answer A → M (Option A)
  settle_attempt attempt again (json body) = pure body
  settle_attempt attempt again (status code) =
      if code == 401 || code == 403
      then pure none
      else if code == 404
      then pure none
      else if code == 429
      then retry_after rate_limit_cooldown_ms again
      else if leb 500 code
      then retry_after (base_delay_ms * 2 ^ attempt) again
      else pure none
  settle_attempt attempt again exception = retry_after (base_delay_ms * 2 ^ attempt) again

  unfoldable pub attempt_then : {A : Type 0} → M (Answer A) → ℕ → M (Option A) → M (Option A)
  attempt_then send attempt again = do a ← send; settle_attempt attempt again a

  -- The loop `for (attempt = ...; attempt <= MAX_RETRIES; attempt++)`, `left` retries being left
  unfoldable pub attempts : {A : Type 0} → M (Answer A) → ℕ → ℕ → M (Option A)
  unfolding attempt_then
  attempts send zero attempt = do a ← send; settle_last a
  attempts send (suc left) attempt = attempt_then send attempt (attempts send left (attempt + 1))

  -- `requestJson`
  unfoldable pub request_json : {A : Type 0} → M (Answer A) → M (Option A)
  request_json send = do
    exhausted ← gets (λ w. w.quota_exhausted)
    if exhausted then pure none else (do
      crossed ← would_cross_deadline 0
      if crossed then pure none else attempts send max_retries 0)

  -- `getFlightData`
  unfoldable pub get_flight_data : String → ℕ → M (Option AeroFlight)
  get_flight_data ident day =
      if is_ident ident
      then (do
        t ← now env
        found ← request_json (fetch_flights env (flights ident (day * day_secs) (window_end day t)))
        pure (usable found))
      else pure none

  -- `getFlightInstances`, between two instants
  unfoldable pub get_flight_instances : String → ℕ → ℕ → M (Option (List AeroFlight))
  get_flight_instances ident start end_secs =
      if is_ident ident
      then request_json (fetch_flights env (flights ident start end_secs))
      else pure none

  -- The loop over `hop`, with `left` cursors that may still be followed
  unfoldable pub collect : ℕ → Option Schedules → Request → M (Option Schedules)
  collect zero merged request = do
    page ← request_json (fetch_schedules env request)
    pure (elim page [ none ↦ merged | some p ↦ some (merge merged p) ])
  collect (suc left) merged request = do
    page ← request_json (fetch_schedules env request)
    on_page merged (λ m next. collect left (some m) (cursor (next_path next))) page

  -- `getSchedules`
  unfoldable pub get_schedules : ℕ → ℕ → Filters → M (Option Schedules)
  get_schedules from_day to_day filters = collect max_cursor_follows none (
      schedules from_day to_day filters
        (min (or_else filters.max_pages max_pages_clamp) max_pages_clamp))

-- `parseTimestamp`: 0 without a text, and an exception where the text is no date
unfoldable pub parse_timestamp : Option IsoText → M ℕ
parse_timestamp none = pure 0
parse_timestamp (some blank) = pure 0
parse_timestamp (some (text day none)) = raise not_a_number
parse_timestamp (some (text day (some secs))) = pure secs
