-- ===== src/Aero/Predicates.antt =====
-- dapp/api/_lib/aeroapi_client.ts: what counts as a cancellation and as a diversion.
use sentinel_soroban_v.Base.{
  ℕ, Bool, true, false, not, ◌&&◌, ◌||◌, Option, none, some, ◌==◌, or_else,
}
use sentinel_soroban_v.Base.Text.{mentions}
use sentinel_soroban_v.World.{AeroFlight, IsoText, blank, text}

-- `Boolean(t)` of an optional timestamp
abbrev pub is_set : Option IsoText → Bool
is_set none = false
is_set (some blank) = false
is_set (some (text day instant)) = true

-- `parseIsoSecs`
abbrev pub iso_secs : Option IsoText → Option ℕ
iso_secs none = none
iso_secs (some blank) = none
iso_secs (some (text day instant)) = instant

-- `(t ?? "").slice(0, 10) === day`
abbrev pub is_on_day : ℕ → Option IsoText → Bool
is_on_day d none = false
is_on_day d (some blank) = false
is_on_day d (some (text none instant)) = false
is_on_day d (some (text (some day) instant)) = day == d

-- `isConfirmedCancellation`
unfoldable pub is_confirmed_cancellation : AeroFlight → Bool
is_confirmed_cancellation f = f.cancelled && mentions "cancel" f.status

-- `isConfirmedDiversion`
unfoldable pub is_confirmed_diversion : AeroFlight → Bool
is_confirmed_diversion f =
    or_else f.diverted false
    && (not f.cancelled
        && (mentions "divert" f.status || (is_set f.actual_on || is_set f.actual_in)))
