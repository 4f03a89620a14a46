-- ===== src/Action.antt =====
-- The execution of approved actions: packages/backend/src/revpilot/modules/action/.
pub mod Domain
pub mod DryRun
pub mod Repository
pub mod Ledger
pub mod Saga
mod Tests
