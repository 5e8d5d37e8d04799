-- ===== src/Aero.antt =====
-- dapp/api/_lib/aeroapi_client.ts: the predicates on AeroAPI's flights, the request loop with its
-- retries, its deadline and its quota breaker, and the three endpoints.
pub mod Predicates
pub mod Client
pub mod Quiet
pub mod Frame
pub mod Evidence
pub mod Published
pub mod Costs
