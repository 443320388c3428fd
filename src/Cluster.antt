-- ===== src/Cluster.antt =====
-- The cluster as a whole: which brokers are in it.
pub mod Brokers
mod Tests
