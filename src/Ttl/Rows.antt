-- ===== src/Ttl/Rows.antt =====
-- dapp/api/_lib/jobs/ttl.ts: the rows, the settled flights and the results of the job.
use Prim.Native.String.{◌++◌ as str_append}
use sentinel_soroban_v.Base.{
  ℕ, ◌+◌, ◌/◌, min, String, Bool, true, false, not, ◌&&◌, ◌||◌, List, [], ◌∷◌, ◌==◌, ltb, leb,
  if◌then◌else◌, select, any, take, or_else, str_eq,
}
use sentinel_soroban_v.Base.Text.{starts_with}
use sentinel_soroban_v.World.{RouteKey}
use sentinel_soroban_v.World.Db.{Db, SettlementRow}
use sentinel_soroban_v.World.Monad.{FlightConfig}
use sentinel_soroban_v.Status.{parse_flight_status}

-- `TTLResult`, without the text of its error
pub record TtlResult : Type 0 where
  pub contract : String
  pub success : Bool

abbrev pub done : String → TtlResult
done name = record { contract = name; success = true }

abbrev pub failure : String → TtlResult
failure name = record { contract = name; success = false }

-- `contracts`
abbrev pub contracts : List String
contracts =
    "OracleAggregator" ∷ "Controller" ∷ "RiskVault" ∷ "GovernanceModule" ∷ "FlightPoolManager" ∷ []

-- `maxPasses`
unfoldable pub max_passes : ℕ → ℕ
max_passes count = min 10 ((count + 59) / 60 + 1)

unfoldable pub insert_by_ledger : SettlementRow → List SettlementRow → List SettlementRow
insert_by_ledger r [] = r ∷ []
insert_by_ledger r (s ∷ rest) =
    let later = insert_by_ledger r rest in if leb r.ledger s.ledger then r ∷ s ∷ rest else s ∷ later

-- `order by ledger asc`
unfoldable pub sort_by_ledger : List SettlementRow → List SettlementRow
unfolding insert_by_ledger
sort_by_ledger [] = []
sort_by_ledger (r ∷ rest) = insert_by_ledger r (sort_by_ledger rest)

-- the rows of the statement that `sweepExpiredClaims` begins with
unfoldable pub candidates : Db → List SettlementRow
unfolding sort_by_ledger
candidates db = take 50 (
    sort_by_ledger (
      select (λ r. (str_eq r.outcome "Delayed" || str_eq r.outcome "Cancelled") && not r.swept)
        db.settlements))

unfoldable pub mark_rows : String → ℕ → List SettlementRow → List SettlementRow
mark_rows flight_id date [] = []
mark_rows flight_id date (r ∷ rest) =
    (if str_eq r.flight_id flight_id && r.date == date then record r { swept = true } else r)
    ∷ mark_rows flight_id date rest

-- `update settlements set swept_at = now()`
unfoldable pub mark_swept : String → ℕ → Db → Db
unfolding mark_rows
mark_swept flight_id date db = record db { settlements = mark_rows flight_id date db.settlements }

-- a settled flight whose claim window has passed at `now_secs`
unfoldable pub is_over : ℕ → FlightConfig → Bool
is_over now_secs cfg =
    starts_with (parse_flight_status cfg.status) "Settled"
    && (not (or_else cfg.claim_expiry 0 == 0) && leb (or_else cfg.claim_expiry 0) now_secs)

-- `unclaimed > 0n`
abbrev pub has_unclaimed : FlightConfig → Bool
has_unclaimed cfg = ltb (or_else cfg.claimed_count 0) (or_else cfg.buyer_count 0)

-- `select distinct`
unfoldable pub distinct : List String → List String
distinct [] = []
distinct (x ∷ xs) = let rest = distinct xs in if any (str_eq x) rest then rest else x ∷ rest

-- the text of a route of which its shard is taken
unfoldable pub route_text : RouteKey → String
route_text r = str_append r.flight_id (str_append "|" (str_append r.origin (str_append "|" r.dest)))
