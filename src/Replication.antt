-- ===== src/Replication.antt =====
-- What the replicas of a partition owe one another: who is in sync, what may be acknowledged, where
-- each leadership term ends and how far a follower cuts its log.
pub mod InSync
pub mod EpochCache
pub mod Truncation
pub mod Election
pub mod Recovery
pub mod Tests
