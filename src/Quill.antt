-- ===== src/Quill.antt =====
-- packages/review-quill/src: the service that reviews pull requests.
pub mod Semaphore
pub mod PendingChecks
pub mod Publication
mod Tests
