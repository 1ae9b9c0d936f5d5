-- ===== src/Webhook.antt =====
-- src/webhook: signing and delivering webhooks, and the queue that schedules, retries and
-- dead-letters them.
pub mod Constants
pub mod Backoff
pub mod Signature
pub mod Delivery
pub mod Job
pub mod Zsets
pub mod Queue
pub mod Requeue
pub mod Reached
pub mod Worker
pub mod Service
mod Tests
