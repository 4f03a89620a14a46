-- ===== src/Approval.antt =====
-- The governed approval of actions: packages/backend/src/revpilot/modules/approval/.
pub mod StateMachine
pub mod Domain
pub mod Digest
pub mod Repository
pub mod Service
pub mod Policy
mod Tests
