-- ===== src/World.antt =====
-- The effects of the serverless backend (dapp/api/_lib): what a job asks of the clock, of AeroAPI,
-- of the contracts and of the database, as a log of events, and the jobs as actions on it.
mod Events
pub mod Db
pub mod Monad
pub mod Keeps
pub mod Requirement
pub mod Quiet
pub mod Cost
pub mod Answers
pub mod Debt
pub use Events.*
