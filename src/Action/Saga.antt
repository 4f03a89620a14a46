-- ===== src/Action/Saga.antt =====
-- action/saga/: multi-step actions, their compensation, and the inquiry after a timeout.
pub mod Reconciliation
pub mod Activities
pub mod Workflow
pub mod Inquiry
pub mod Rollback
pub mod Outcome
