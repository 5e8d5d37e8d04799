-- ===== src/Tests/TtlTests.antt =====
-- Tests and instances for Ttl.
use mathlib.Core.Option.{some-injective}
use sentinel_soroban_v.Base.{
  ℕ, ◌+◌, ◌*◌, ◌/◌, String, Bool, false, ◌&&◌, some, List, [], ◌∷◌, ◌++◌, ◌≡◌, refl, sym, count,
  length, map, ltb, str_eq, arith,
}
use sentinel_soroban_v.Base.Text.{starts_with}
use sentinel_soroban_v.Status.{parse_flight_status}
use sentinel_soroban_v.World.{Event}
use sentinel_soroban_v.World.Monad.{Env, World, FlightConfig, word, ok}
use sentinel_soroban_v.Ttl.{
  batch_size, run_interval_ms, in_shard, shard_of, batches_of, interleaved,
}
use sentinel_soroban_v.Ttl.Rotation.{in_shard-once}
use sentinel_soroban_v.Ttl.Sums.{total}
use sentinel_soroban_v.Ttl.Batches.{keys_like, interleaved-keys}
use sentinel_soroban_v.Ttl.Rows.{TtlResult, is_over, has_unclaimed, contracts}
use sentinel_soroban_v.Ttl.Extender.{run}
use sentinel_soroban_v.Ttl.Unswept.{sweeps, run-unswept}
use sentinel_soroban_v.Ttl.Results.{run-results}
use sentinel_soroban_v.Tests.Fixtures.{db_env, start, empty_db, flight_date}

shard_of_text : shard_of "AA100|JFK|LAX" ≡ 0
unfolding shard_of
shard_of_text = refl

abbrev week : ℕ → ℕ
week k = (2800 + k) * run_interval_ms + 259200000

week_lem : (k : ℕ) → week k / run_interval_ms ≡ 2800 + k
week_lem k = omega arith

in_shard-once_example :
    count (λ k. in_shard (week k) "AA100|JFK|LAX") (0 ∷ 1 ∷ 2 ∷ 3 ∷ 4 ∷ 5 ∷ 6 ∷ []) ≡ 1
in_shard-once_example = in_shard-once "AA100|JFK|LAX" 2800 week week_lem

abbrev test : String → String → Bool
test name key = str_eq key "AA100|JFK|LAX"

interleaved-keys_example :
    let queue =
      interleaved
        (batches_of "governance Route" ("AA100|JFK|LAX" ∷ "AA200|JFK|SFO" ∷ []))
        (batches_of "controller TravelerFlights" ("GABC" ∷ []))
        5 in
    (total (keys_like test) queue
      ≡ count (test "governance Route") ("AA100|JFK|LAX" ∷ "AA200|JFK|SFO" ∷ [])
        + count (test "controller TravelerFlights") ("GABC" ∷ []))
    × (count (λ b. ltb batch_size (length b.keys)) queue ≡ 0)
interleaved-keys_example =
    interleaved-keys test "governance Route" "controller TravelerFlights"
      ("AA100|JFK|LAX" ∷ "AA200|JFK|SFO" ∷ []) ("GABC" ∷ []) 5

abbrev config_until : ℕ → FlightConfig
config_until expiry = record {
  status = word "SettledDelayed";
  payoff = some 100;
  claim_expiry = some expiry;
  buyer_count = some 3;
  claimed_count = some 1;
}

-- A delayed flight with claims left, and its pool's window.
abbrev ttl_env : ℕ → Env
ttl_env expiry = record db_env { flight_config = λ log id date. some (some (config_until expiry)) }

abbrev settled_start : World
settled_start = record start {
  db = record empty_db {
    settlements =
        record {
          flight_id = "AA100";
          date = flight_date;
          outcome = "Delayed";
          ledger = 7;
          swept = false;
        }
        ∷ [];
  };
}

still_open :
    (log later : List Event) (cfg : FlightConfig)
    → some (some (config_until 1733184000)) ≡ some (some cfg)
    → (is_over ((ttl_env 1733184000).now later / 1000) cfg && has_unclaimed cfg) ≡ false
unfolding is_over starts_with parse_flight_status
still_open log later cfg same = rw (sym (some-injective _ _ (some-injective _ _ same))) refl

run-unswept_example :
    sweeps "AA100" flight_date (run (ttl_env 1733184000) settled_start).1.log
    ≡ sweeps "AA100" flight_date settled_start.log
run-unswept_example = run-unswept (ttl_env 1733184000) "AA100" flight_date settled_start still_open

run-results_example :
    (results : List TtlResult) × (((run db_env start).0 ≡ ok results)
      × ((rest : List String) × (map (λ r. r.contract) results
            ≡ contracts ++ "OracleAggregator.prune_settled" ∷ rest)))
run-results_example = run-results db_env start
