-- ===== src/Steward.antt =====
-- packages/merge-steward/src: the merge queue.
pub mod Types
pub mod Checks
pub mod Classify
pub mod Downstream
pub mod Order
pub mod Schedule
pub mod Store
pub mod Exec
pub mod Policy
pub mod Context
pub mod Reconcile
pub mod Admission
pub mod Service
mod Tests
