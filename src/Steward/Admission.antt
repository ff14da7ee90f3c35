-- ===== src/Steward/Admission.antt =====
-- packages/merge-steward/src/service-queue.ts and webhook-handler.ts: how pull requests enter and leave
-- the queue.
pub mod Queue
pub mod Admit
pub mod Change
pub mod Webhook
pub mod Safe
pub mod Outcome
pub mod Alone
pub mod Position
pub mod Tests
