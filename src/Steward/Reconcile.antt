-- ===== src/Steward/Reconcile.antt =====
-- packages/merge-steward/src/reconciler*.ts: one tick of the queue.
pub mod Evict
pub mod Stable
pub mod Ancestry
pub mod PostMerge
pub mod Sanitize
pub mod Git
pub mod Build
pub mod Prepare
pub mod Hold
pub mod Workspace
pub mod Accept
pub mod Validate
pub mod Push
pub mod Land
pub mod Reject
pub mod Merge
pub mod Landing
pub mod Labels
pub mod Tick
pub mod Safe
pub mod Kept
pub mod Tests
