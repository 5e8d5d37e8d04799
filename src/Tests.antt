-- ===== src/Tests.antt =====
-- Runs of the program at concrete inputs, and the theorems at inputs that meet their hypotheses.
mod Fixtures
mod SettleSweepTests
mod InterventionsTests
mod RouteGuardTests
mod RouteRulesTests
mod SaleAuthTests
mod SettlerTests
mod KeeperTests
mod SorobanTests
mod SubmitterTests
mod MoneyTests
mod RateLimitTests
mod ExposureTests
mod ReviveTests
mod RepricerTests
mod TtlTests
mod TxFlowTests
mod WeatherTests
