-- ===== src/Approval/Policy.antt =====
-- approval/policy/: who may approve what, and the revalidation at each checkpoint.
pub mod Authority
pub mod Ceilings
pub mod Revalidation
