-- ===== src/Wagering.antt =====
-- The wager operation: its vocabulary, its life cycle, its persisted snapshot, and the decision that
-- settles it. internal/domain/wagering.
pub mod Kind
pub mod Transaction
pub mod Snapshot
pub mod Decision
mod Tests
