-- ===== src/Lib.antt =====
-- The serverless backend of Sentinel (dapp/api/_lib): the keeper jobs that settle insured flights,
-- price the weather and keep the contracts' storage alive, the endpoint that authorizes sales, and
-- the ledger that pauses and revives routes; and, of the web application, the state machine of its
-- signing flows and its amounts.
--
-- Parts and files (paths from the repository's root):
--   World          what a job asks of its surroundings. A job is an action on a world: a log of
--                  events (clock reads, requests, reads, transactions, statements; the newest
--                  first), the run's `actions`, the fields of the AeroAPI client and the tables of
--                  the database. The environment answers by the log so far, so answers may change
--                  from call to call, and every call may fail. A write before an exception stays.
--   FlightStatus, Status  dapp/api/_lib/status.ts and the statuses of dapp/api/_lib/types.ts
--   Soroban        dapp/api/_lib/soroban_client.ts: `invoke` is invokeContract, `read_as` is
--                  readContract, `read_with_retry` is readContractWithRetry
--   Aero           dapp/api/_lib/aeroapi_client.ts: `request_json` is requestJson, with
--                  `get_flight_data`, `get_flight_instances` and `get_schedules` on top
--   SettleSweep    dapp/api/_lib/jobs/fetcher.ts, with Targeted (targeted_settlement.ts),
--                  Schedules (flight_schedules.ts) and OutcomeLog (outcome_log.ts)
--   Interventions  dapp/api/_lib/governance/interventions.ts: Ledger holds the statements as
--                  functions of the tables, Executor the operations, Texts what they return
--                  as texts, HoldSets and Replay the plain set of holds that they implement;
--                  Submitter is dapp/api/_lib/governance/submitter.ts
--   RouteGuard     dapp/api/_lib/route_guard.ts
--   RouteRules     dapp/api/_lib/route_rules.ts
--   SaleAuth       dapp/api/_lib/sale_auth.ts: Endpoint is authorizeSale, Gate its gates
--   Settler        dapp/api/_lib/jobs/settler.ts
--   Classifier     dapp/api/_lib/jobs/classifier.ts
--   Exposure       dapp/api/_lib/governance/exposure_collector.ts: `compute_concentrations` and
--                  `compute_exposure_signals`; Collector holds the reads, the history row
--                  (exposure_history.ts) and the brake
--   WeatherClient  dapp/api/_lib/weather_client.ts, with the airports of dapp/api/_lib/airports.ts
--   Revive         dapp/api/_lib/jobs/revive.ts
--   Repricer       dapp/api/_lib/jobs/repricer.ts, with agent_client.ts and
--                  governance/pricing_log.ts; Carriers is airline_codes.ts; Service stands for the
--                  prediction service and the files that the run reads
--   Ttl            dapp/api/_lib/jobs/ttl.ts: the shards and the batches of keys; Rows holds
--                  the rows of its statements, Extender the job
--   Weather        dapp/api/_lib/jobs/weather.ts; Terms stands for what it reads of the routes file
--   RateLimit      dapp/api/_lib/rate_limit.ts: `memory_allow`, `db_allow`, `allow_request`
--   TxFlow         dapp/src/hooks/useTxFlow.ts: the events of a signing flow as functions of its
--                  state, and Relation their order; Numbers and Errors are dapp/src/lib/errors.ts and
--                  dapp/src/lib/contractErrors.ts
--   Money          dapp/src/lib/format.ts: `parse_usdc` and `units_to_input`
--   Queue          dapp/api/_lib/jobs/queue.ts and dapp/api/_lib/governance/vault_history.ts
--
-- The sale endpoint and the settle sweep read flights through the AeroAPI client and write outcomes
-- through the Soroban client; the guard sweeps a route's next days and pauses it in the ledger,
-- which disables it on chain through the submitter; the revive engine checks the open rows of the
-- ledger by the same sweep, the forecasts and the concentrations, and closes them again; the
-- repricing job pauses the routes whose price is above the cap, and closes the pricing rows.
--
-- Loops are structural: over lists, over the retries that are left (3 of AeroAPI, 2 of a read, 30
-- rounds of polling, 4 cursors) and over the passes that are left (8 of the settler, 12 of the
-- classifier, 10 of the prune); the bounds are the source's own constants, so no fuel is chosen and
-- none can run out. Times are natural numbers, milliseconds or seconds as in the source; a
-- difference that could be negative is compared by addition. A timestamp text is the day that it
-- starts with and the instant that it denotes. Forecast quantities are in tenths, and a probability
-- enters the prices in basis points. Hashes of 32 bits are taken modulo 2 ^ 32.
--
-- Whether a call that submits a transaction returns says nothing of the ledger: a call that throws may
-- have landed. What landed shows only in later reads, which the environment answers by the log.
--
-- Not modelled: building and signing of transactions (the environment says whether each step
-- passes), log lines, durations and the texts of labels, the HTTP handlers and the contracts
-- themselves.
-- Concurrent requests of one job (`Promise.all`) and other writers of the database are not
-- modelled: a run is one sequence of steps.
pub mod Base
pub mod World
pub mod FlightStatus
pub mod Status
pub mod Soroban
pub mod Aero
pub mod Targeted
pub mod Schedules
pub mod OutcomeLog
pub mod Submitter
pub mod Interventions
pub mod RouteGuard
pub mod RouteRules
pub mod Money
pub mod RateLimit
pub mod Exposure
pub mod WeatherClient
pub mod Ttl
pub mod Weather
pub mod Revive
pub mod Repricer
pub mod SaleAuth
pub mod Settler
pub mod Classifier
pub mod Queue
pub mod Frames
pub mod SettleSweep
pub mod TxFlow
pub mod Tests
