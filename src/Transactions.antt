-- ===== src/Transactions.antt =====
-- Transactions: the state machine, the coordinator that fences, and what a read-committed consumer
-- may read.
pub mod Transaction
pub mod Coordinator
pub mod StableOffset
mod Tests
