-- ===== src/Interventions.antt =====
-- dapp/api/_lib/governance/interventions.ts: the ledger of pauses and its executor.
pub mod Ledger
pub mod Executor
pub mod Texts
pub mod Unique
pub mod Chain
pub mod Invariant
pub mod Operations
pub mod HoldSets
pub mod Refinement
pub mod Replay
pub mod Slots
pub mod Guardrails
pub mod Frame
pub mod Frozen
pub mod Disables
pub mod Holds
pub mod Pauses
pub mod Closed
pub mod Reopens
