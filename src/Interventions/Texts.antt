-- ===== src/Interventions/Texts.antt =====
-- dapp/api/_lib/governance/interventions.ts: the texts that its operations return.
use Prim.Native.String.{◌++◌ as str_append}
use sentinel_soroban_v.Base.{String, List, [], ◌∷◌}
use sentinel_soroban_v.World.Db.{Cause}
use sentinel_soroban_v.Interventions.Executor.{
  PauseOutcome, no_db, frozen, pinned, recorded_only, paused, already_off, ReviveOutcome, revived,
  no_key, still_frozen, still_held,
}

-- the texts of the causes
abbrev pub cause_text : Cause → String
cause_text Cause.cancellation = "cancellation"
cause_text Cause.exposure = "exposure"
cause_text Cause.weather = "weather"
cause_text Cause.pricing = "pricing"
cause_text Cause.admin = "admin"

-- `join("+")`
unfoldable pub join_causes : List Cause → String
join_causes [] = ""
join_causes (c ∷ []) = cause_text c
join_causes (c ∷ d ∷ rest) = str_append (cause_text c) (str_append "+" (join_causes (d ∷ rest)))

-- what `reviveRoute` returns, as the text that the log holds
unfoldable pub revive_text : Cause → ReviveOutcome → String
unfolding join_causes
revive_text cause still_frozen = "gov_frozen — revive skipped"
revive_text cause (still_held causes) =
    str_append (cause_text cause)
      (str_append " cleared; still paused (" (str_append (join_causes causes) ")"))
revive_text cause no_key = str_append (cause_text cause) " cleared; no gov key — chain untouched"
revive_text cause revived = str_append "revived (" (str_append (cause_text cause) " cleared)")

-- the `outcome` of `pauseRoute`
unfoldable pub pause_text : Cause → PauseOutcome → String
pause_text cause no_db = "no DB — pause skipped (log-only)"
pause_text cause frozen = "gov_frozen — pause skipped"
pause_text cause pinned = "pinned — pause skipped"
pause_text cause recorded_only = "recorded; no gov key — chain untouched"
pause_text cause paused = str_append "paused (" (str_append (cause_text cause) ")")
pause_text cause already_off = str_append (cause_text cause) " recorded; already off on-chain"
