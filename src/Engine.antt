-- ===== src/Engine.antt =====
-- packages/core/src/Queueway.ts: publishing, the delivery of a job to a handler with retries and the
-- dead-letter status, recovery, and the operations of the dashboard. packages/core/src/dlq too.
pub mod World
pub mod Delivery
pub mod Api
pub mod Lifecycle
