-- ===== src/Finops.antt =====
-- Spending limits and the audit log: packages/backend/src/revpilot/modules/finops/.
pub mod Quota
pub mod Audit
mod Tests
