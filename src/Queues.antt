-- ===== src/Queues.antt =====
-- The tables that the workers share: outbox and queue.
pub mod Table
pub mod Outbox
mod Tests
