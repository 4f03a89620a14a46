-- ===== src/Approval/Service.antt =====
-- approval/service.py: the operations on approval requests. `Create`, `Grant` and `Change` hold the
-- operations; the other modules, what they keep and promise.
pub mod Create
pub mod Grant
pub mod Change
pub mod Granting
pub mod Requests
pub mod Sound
pub mod Expiry
pub mod Lifecycle
pub mod Isolation
pub mod Reachable
