-- ===== src/Broker.antt =====
-- The queue's side: internal/infrastructure/sqs and its listener.
pub mod Listener
pub mod Consumer
pub mod Kept
pub mod Settled
pub mod Release
pub mod Routes
mod Tests
