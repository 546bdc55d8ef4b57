-- ===== src/Usecase.antt =====
-- The use cases: internal/application/usecase, and the inputs and mappers that they share.
pub mod Backoff
pub mod Movement
pub mod Input
pub mod Events
pub mod Settlement
pub mod Process
pub mod Retry
pub mod Publish
pub mod Find
pub mod OpenWallet
pub mod LedgerPage
mod Scenario
mod Tests
