-- ===== src/Log.antt =====
-- The log: records, segments, partitions, topics, and what retention and compaction remove.
pub mod Records
pub mod Segment
pub mod SegmentLog
pub mod Partition
pub mod Topics
pub mod Retention
pub mod Compaction
mod Tests
